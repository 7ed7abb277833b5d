-- ===== src/Model/Status/Lifecycle.antt =====
-- The life of a run and of a step as relations, and what the validators of model/run.go decide.
use hopeitworks.Prelude.{◌≡◌, ◌≢◌, ◌⊎◌, inl, inr, refl, Bool, true, false, arith}
use hopeitworks.Errors.{ok}
use hopeitworks.Model.Status.{RunStatus, validate_run_transition}

-- The lifecycle of a run, as one would draw it: launch, pause and resume, the ends, and a retry.
infix 40 ◌⟶◌ ◌⟶*◌
pub data ◌⟶◌ : RunStatus → RunStatus → Type 0 where
  start : RunStatus.pending ⟶ RunStatus.running
  pause : RunStatus.running ⟶ RunStatus.paused
  resume : RunStatus.paused ⟶ RunStatus.running
  finish : RunStatus.running ⟶ RunStatus.completed
  fail : RunStatus.running ⟶ RunStatus.failed
  retry : RunStatus.failed ⟶ RunStatus.running
  cancel_pending : RunStatus.pending ⟶ RunStatus.cancelled
  cancel_running : RunStatus.running ⟶ RunStatus.cancelled
  cancel_paused : RunStatus.paused ⟶ RunStatus.cancelled

pub data ◌⟶*◌ : RunStatus → RunStatus → Type 0 where
  here : {s : RunStatus} → s ⟶* s
  via : {s t u : RunStatus} → s ⟶ t → t ⟶* u → s ⟶* u

pub walk_on : {s t u : RunStatus} → s ⟶* t → t ⟶* u → s ⟶* u
walk_on here q = q
walk_on (via e p) q = via e (walk_on p q)

-- The statuses that no edge leaves.
abbrev pub is_final : RunStatus → Bool
is_final RunStatus.completed = true
is_final RunStatus.cancelled = true
is_final _ = false

pub left_not_final : {s t : RunStatus} → s ⟶ t → is_final s ≡ false
left_not_final start = refl
left_not_final pause = refl
left_not_final resume = refl
left_not_final finish = refl
left_not_final fail = refl
left_not_final retry = refl
left_not_final cancel_pending = refl
left_not_final cancel_running = refl
left_not_final cancel_paused = refl

pub stays : {s t : RunStatus} → s ⟶* t → is_final s ≡ true → t ≡ s
stays here h = refl
stays (via e p) h = ground (arith, left_not_final e)

enters_later : {s t : RunStatus} → s ⟶ t → t ≢ RunStatus.pending
enters_later start h = cc
enters_later pause h = cc
enters_later resume h = cc
enters_later finish h = cc
enters_later fail h = cc
enters_later retry h = cc
enters_later cancel_pending h = cc
enters_later cancel_running h = cc
enters_later cancel_paused h = cc

walks_later : {s t : RunStatus} → s ≢ RunStatus.pending → s ⟶* t → t ≢ RunStatus.pending
walks_later h here = h
walks_later h (via e p) = walks_later (enters_later e) p

pub walk_ends :
    {s t : RunStatus} → s ⟶* t → (t ≡ s) ⊎ ((is_final s ≡ false) × (t ≢ RunStatus.pending))
walk_ends here = inl refl
walk_ends (via e p) = inr (left_not_final e, walks_later (enters_later e) p)

ruleset edges =
    (start, pause, resume, finish, fail, retry, cancel_pending, cancel_running, cancel_paused)

pub valid→⟶ : (s t : RunStatus) → validate_run_transition s t ≡ ok tt → s ⟶ t
unfolding validate_run_transition
valid→⟶ s t h = grind (arith, edges)
