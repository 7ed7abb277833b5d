-- ===== src/EpicRuns/Order.antt =====
-- What holds of every schedule of an epic run.
use hopeitworks.Prelude.{
  ◌≡◌, refl, sym, ap, ◌∙◌, ℕ, zero, suc, String, Bool, true, false, Option, none, some, List, [],
  ◌∷◌, ◌++◌, All, ◌&&◌, inl, inr, Bool-cases, arith,
}
use mathlib.Core.List.{append-nil}
use hopeitworks.Errors.{Result, ok, err}
use hopeitworks.Model.Entities.{Uuid, Story, EpicRun}
use hopeitworks.World.{World}
use hopeitworks.RunService.{Wiring}
use hopeitworks.Executor.{PipelineExecutor}
use hopeitworks.EpicRuns.Groups.{
  StoryError, Phase, spawned, launched, returned, Routine, succeeded, update_failed, group_failed,
  Control, starting, at_group, waiting, finished, Execution, spawn, is_returned, all_returned,
  after_wait, first_error, start_epic, complete_epic, unless_failed, advance, set_phase, routine_at,
  Move, main, routine, other, put_phase, run_story, step_routine, step, run_moves,
}

-- A goroutine that has returned nil.
abbrev pub IsDone : Routine → Type 0
IsDone q = q.phase ≡ returned none

-- A goroutine that has returned no error, so far.
abbrev pub is_healthy : Phase → Bool
is_healthy (returned (some x)) = false
is_healthy _ = true

abbrev pub IsHealthy : Routine → Type 0
IsHealthy q = is_healthy q.phase ≡ true

abbrev pub stories_of : List Routine → List Story
stories_of [] = []
stories_of (q ∷ qs) = q.story ∷ stories_of qs

abbrev pub past_of : List (List Routine) → List (List Story)
past_of [] = []
past_of (qs ∷ rest) = stories_of qs ∷ past_of rest

abbrev pub AllDone : List (List Routine) → Type 0
AllDone past = All (All IsDone) past

-- The groups that `Execute` was given are the past ones, of which all goroutines have returned nil,
-- the one that it waits for, and those to come.
abbrev pub IsSound : List (List Story) → Control → Type 0
IsSound dag (starting gs) = gs ≡ dag
IsSound dag (at_group past gs) = (past_of past ++ gs ≡ dag) × AllDone past
IsSound dag (waiting past qs x gs) =
    (past_of past ++ stories_of qs ∷ gs ≡ dag) × AllDone past × (x ≡ none → All IsHealthy qs)
IsSound dag (finished past succeeded) = (past_of past ≡ dag) × AllDone past
IsSound dag (finished past (update_failed x)) =
    (later : List (List Story)) × (past_of past ++ later ≡ dag) × AllDone past
IsSound dag (finished past (group_failed x)) =
    (later : List (List Story)) × (past_of past ++ later ≡ dag)

past_of-append :
    (past : List (List Routine)) (qs : List Routine) (gs : List (List Story))
    → past_of (past ++ qs ∷ []) ++ gs ≡ past_of past ++ stories_of qs ∷ gs
past_of-append [] qs gs = refl
past_of-append (p ∷ past) qs gs = ap (λ ys. stories_of p ∷ ys) (past_of-append past qs gs)

AllDone-append :
    (past : List (List Routine)) (qs : List Routine)
    → AllDone past
    → All IsDone qs
    → AllDone (past ++ qs ∷ [])
AllDone-append [] qs h k = (k, tt)
AllDone-append (p ∷ past) qs h k = (h.0, AllDone-append past qs h.1 k)

stories_of-spawn : (g : List Story) → stories_of (spawn g) ≡ g
stories_of-spawn [] = refl
stories_of-spawn (s ∷ ss) = ap (λ ys. s ∷ ys) (stories_of-spawn ss)

spawn-IsHealthy : (g : List Story) → All IsHealthy (spawn g)
spawn-IsHealthy [] = tt
spawn-IsHealthy (s ∷ ss) = (refl, spawn-IsHealthy ss)

healthy_return : (p : Phase) → is_returned p ≡ true → is_healthy p ≡ true → p ≡ returned none
healthy_return spawned h k = absurd (ground arith)
healthy_return (launched id) h k = absurd (ground arith)
healthy_return (returned none) h k = refl
healthy_return (returned (some x)) h k = absurd (ground arith)

and_true : (a b : Bool) → (a && b) ≡ true → (a ≡ true) × (b ≡ true)
and_true a b h = ground arith

returned-IsDone : (qs : List Routine) → all_returned qs ≡ true → All IsHealthy qs → All IsDone qs
returned-IsDone [] h k = tt
returned-IsDone (q ∷ qs) h k =
    let (here, rest) = and_true (is_returned q.phase) (all_returned qs) h in
    (healthy_return q.phase here k.0, returned-IsDone qs rest k.1)

stories_of-set_phase :
    (qs : List Routine) (i : ℕ) (p : Phase) → stories_of (set_phase qs i p) ≡ stories_of qs
stories_of-set_phase [] i p = refl
stories_of-set_phase (q ∷ qs) zero p = refl
stories_of-set_phase (q ∷ qs) (suc i) p = ap (λ ys. q.story ∷ ys) (stories_of-set_phase qs i p)

set_phase-IsHealthy :
    (qs : List Routine) (i : ℕ) (p : Phase)
    → is_healthy p ≡ true
    → All IsHealthy qs
    → All IsHealthy (set_phase qs i p)
set_phase-IsHealthy [] i p h k = tt
set_phase-IsHealthy (q ∷ qs) zero p h k = (h, k.1)
set_phase-IsHealthy (q ∷ qs) (suc i) p h k = (k.0, set_phase-IsHealthy qs i p h k.1)

first_error-none :
    (x : Option StoryError) (p : Phase)
    → first_error x p ≡ none
    → (x ≡ none) × (is_healthy p ≡ true)
first_error-none (some x) p h = absurd (ground arith)
first_error-none none spawned h = (refl, refl)
first_error-none none (launched id) h = (refl, refl)
first_error-none none (returned none) h = (refl, refl)
first_error-none none (returned (some x)) h = absurd (ground arith)

unless_failed-IsSound :
    (dag : List (List Story)) (past : List (List Routine)) (later : List (List Story))
    (o : Result (Unit {0})) (c : Control)
    → past_of past ++ later ≡ dag
    → AllDone past
    → IsSound dag c
    → IsSound dag (unless_failed past o c)
unless_failed-IsSound dag past later (err x) c e done h = (later, e, done)
unless_failed-IsSound dag past later (ok _) c e done h = h

module _ (r : EpicRun) (dag : List (List Story)) where
  after_wait-IsSound :
      (past : List (List Routine)) (qs : List Routine) (x : Option StoryError)
      (gs : List (List Story)) (w : World)
      → all_returned qs ≡ true
      → IsSound dag (waiting past qs x gs)
      → IsSound dag (after_wait r past qs x gs w).control
  unfolding after_wait
  after_wait-IsSound past qs none gs w h (e, done, healthy) = (
    past_of-append past qs gs ∙ e,
    AllDone-append past qs done (returned-IsDone qs h (healthy refl)),
  )
  after_wait-IsSound past qs (some x) gs w h (e, done, healthy) =
      (gs, past_of-append past qs gs ∙ e)

  advance-IsSound : (c : Control) (w : World) → IsSound dag c → IsSound dag (advance r c w).control
  unfolding advance
  advance-IsSound (starting gs) w h =
      unless_failed-IsSound dag [] gs (start_epic r w).0 (at_group [] gs) h tt (h, tt)
  advance-IsSound (at_group past []) w (e, done) =
      unless_failed-IsSound dag past [] (complete_epic r w).0 (finished past succeeded) e done
        (sym (append-nil (past_of past)) ∙ e, done)
  advance-IsSound (at_group past (g ∷ gs)) w (e, done) =
      (ap (λ ss. past_of past ++ ss ∷ gs) (stories_of-spawn g) ∙ e, done, λ _. spawn-IsHealthy g)
  advance-IsSound (waiting past qs x gs) w h = elim (Bool-cases (all_returned qs)) [
    | inl yes_ ↦ rw yes_ (after_wait-IsSound past qs x gs w yes_ h)
    | inr not_yet ↦ rw not_yet h
  ]
  advance-IsSound (finished past f) w h = h

  put_phase-IsSound :
      (past : List (List Routine)) (qs : List Routine) (x : Option StoryError)
      (gs : List (List Story)) (i : ℕ) (o : Result Phase) (w : World)
      → IsSound dag (waiting past qs x gs)
      → IsSound dag (put_phase past qs x gs i (o, w)).control
  put_phase-IsSound past qs x gs i (err y) w h = h
  put_phase-IsSound past qs x gs i (ok p) w (e, done, healthy) = (
    ap (λ ss. past_of past ++ ss ∷ gs) (stories_of-set_phase qs i p) ∙ e,
    done,
    λ none_yet.
        let (was_none, fine) = first_error-none x p none_yet in
        set_phase-IsHealthy qs i p fine (healthy was_none),
  )

module _ (svc : Wiring) (parse : String → Option Uuid) (e : PipelineExecutor) (r : EpicRun)
    (dag : List (List Story)) where
  routine-IsSound :
      (i : ℕ) (ctx : World → Bool) (c : Control) (w : World)
      → IsSound dag c
      → IsSound dag (step_routine svc parse e r i ctx c w).control
  unfolding step_routine
  routine-IsSound i ctx (waiting past qs x gs) w h = at_routine (routine_at qs i)
    where
      at_routine :
          (o : Option Routine)
          → IsSound dag
              (elim o as (λ _. Execution) [
                | none ↦ record { control = waiting past qs x gs; world = w }
                | some q ↦ put_phase past qs x gs i (run_story svc parse e r ctx q.story q.phase w)
              ]).control
      at_routine none = h
      at_routine (some q) = put_phase-IsSound r dag past qs x gs i _ _ h
  routine-IsSound i ctx (starting gs) w h = h
  routine-IsSound i ctx (at_group past gs) w h = h
  routine-IsSound i ctx (finished past f) w h = h

  step-IsSound :
      (m : Move) (x : Execution)
      → IsSound dag x.control
      → IsSound dag (step svc parse e r m x).control
  unfolding step
  step-IsSound main x h = advance-IsSound r dag x.control x.world h
  step-IsSound (routine i ctx) x h = routine-IsSound i ctx x.control x.world h
  step-IsSound (other w) x h = h

  pub run_moves-IsSound :
      (ms : List Move) (x : Execution)
      → IsSound dag x.control
      → IsSound dag (run_moves svc parse e r ms x).control
  unfolding run_moves
  run_moves-IsSound [] x h = h
  run_moves-IsSound (m ∷ ms) x h =
      run_moves-IsSound ms (step svc parse e r m x) (step-IsSound m x h)
