-- ===== src/Executor/Halting.antt =====
-- Parts of an execution that end it or go on, and the row of a run after an update.
use hopeitworks.Prelude.{
  ◌≡◌, refl, ap, ◌∙◌, Bool, inl, inr, Option-cases, true, false, Option, some, find, arith,
}
use hopeitworks.Errors.{ok}
use hopeitworks.Model.Status.{RunStatus}
use hopeitworks.Model.Status.Lifecycle.{is_final}
use hopeitworks.Model.Entities.{Uuid, Time, ErrorText, Run}
use hopeitworks.World.{World, M, call, run_at, run_has_id, update_where}
use hopeitworks.World.Moves.{Moves, find-update_where, run_at-id}
use hopeitworks.World.Stays.{Live, Follows, Moves-Follows}
use hopeitworks.Repo.Runs.{update_run_status, with_status}
use hopeitworks.Executor.Execution.{Ending, Progress, Flow, next, stop, is_terminal, go_on}
use hopeitworks.Executor.Rounds.{is_next}

-- The row after an update of its status.
pub found_after :
    (id : Uuid) (s : RunStatus) (a b c : Option Time) (x : Option ErrorText) (w : World) (r : Run)
    → (update_run_status id s a b c x w).0 ≡ ok r
    → (q : Run) × (run_at w id ≡ some q)
      × (r ≡ with_status s a b c x q)
      × ((update_run_status id s a b c x w).1.runs
          ≡ update_where (run_has_id id) (with_status s a b c x) w.runs)
unfolding update_run_status call run_at
found_after id s a b c x w r h = elim (Option-cases (find (run_has_id id) w.runs)) [
  | inl n ↦ absurd (ground arith)
  | inr (q, f) ↦ (q, f, ground arith, ground arith)
]

pub updated-Live :
    (id : Uuid) (s : RunStatus) (a b c : Option Time) (x : Option ErrorText) (w : World) (r : Run)
    → is_final s ≡ false
    → (update_run_status id s a b c x w).0 ≡ ok r
    → (r.id ≡ id) × Live id (update_run_status id s a b c x w).1
unfolding run_at
updated-Live id s a b c x w r alive h =
    let (q, f, e, rows) = found_after id s a b c x w r h in
    (
      ap (λ z. z.id) e ∙ run_at-id w id q f,
      (
        with_status s a b c x q,
        ap (find (run_has_id id)) rows
            ∙ find-update_where id id (with_status s a b c x) (λ _. refl) w.runs q f
            ∙ ground arith,
        alive,
      ),
    )

pub not_terminal : (s : RunStatus) → is_terminal s ≡ false → is_final s ≡ false
not_terminal s h = ground arith

abbrev pub over : Ending → Bool
over x = false

-- A part that ends the execution.
pub last_part : (m : M Ending) (w : World) → Moves w (m w).1 → Follows over w m
last_part m w h = Moves-Follows over m w h λ _ _ _. refl

pub go_on-halts :
    (f : Progress → M Flow) (a : Flow)
    → is_next a ≡ false
    → (v : World)
    → ((go_on f a v).1 ≡ v) × ((b : Flow) → (go_on f a v).0 ≡ ok b → is_next b ≡ false)
unfolding go_on
go_on-halts f (next p) n v = absurd (ground arith)
go_on-halts f (stop x) n v = (refl, λ b h. ground arith)

pub go_on-Follows :
    (id : Uuid) (f : Progress → M Flow)
    → ((p : Progress) (v : World) → Live id v → Follows is_next v (f p))
    → (a : Flow) → is_next a ≡ true
    → (v : World) → Live id v
    → Follows is_next v (go_on f a)
unfolding go_on
go_on-Follows id f h (stop x) g v alive = absurd (ground arith)
go_on-Follows id f h (next p) g v alive = h p v alive
