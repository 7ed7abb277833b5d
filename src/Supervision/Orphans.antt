-- ===== src/Supervision/Orphans.antt =====
-- `ReconcileOrphanedRuns` (service/orphan_reconciler.go), with its two calls of
-- adapter/postgres/run_repo.go.
pub mod Absence
pub mod Reaping
mod Examples
use hopeitworks.Prelude.{
  ℕ, ◌+◌, String, Bool, true, false, ◌&&◌, ◌||◌, not, Option, none, some, List, [], ◌∷◌, select,
  leb, ltb, ◌==◌, ◌=s=◌, if◌then◌else◌,
}
use hopeitworks.Errors.{Result, ok, err}
use hopeitworks.Action.{◌>>=◌, ◌>>◌, pure, lift, for_each, caught, logged}
use hopeitworks.Model.Status.{RunStatus, StepStatus, run_status_eq, step_status_eq}
use hopeitworks.Model.Entities.{Uuid, Time, ErrorText, text, Run, RunStep}
use hopeitworks.World.{World, M, call, time_now, coalesce, update_where}
use hopeitworks.Repo.Runs.{list_run_steps_by_run}

-- ORDER BY created_at ASC
abbrev insert_run : Run → List Run → List Run
insert_run r [] = r ∷ []
insert_run r (s ∷ ss) = if leb r.created_at s.created_at then r ∷ s ∷ ss else s ∷ insert_run r ss

abbrev sort_runs : List Run → List Run
sort_runs [] = []
sort_runs (r ∷ rs) = insert_run r (sort_runs rs)

-- SELECT * FROM runs WHERE status = $1 ORDER BY created_at ASC
unfoldable pub list_runs_by_status : RunStatus → M (List Run)
list_runs_by_status status =
    call λ w. (ok (sort_runs (select (λ (r : Run). run_status_eq r.status status) w.runs)), w)

abbrev pub orphaned_no_container : Option ErrorText
orphaned_no_container = some (text "orphaned_no_container")

abbrev pub is_running_row : Uuid → Run → Bool
is_running_row id r = r.id == id && run_status_eq r.status RunStatus.running

abbrev pub orphaned : Time → Option ErrorText → Run → Run
orphaned completed_at error_message r = record r {
  status = RunStatus.failed;
  completed_at = some completed_at;
  error_message = error_message;
}

abbrev any {ℓ} : {A : Type ℓ} → (A → Bool) → List A → Bool
any p [] = false
any p (x ∷ xs) = p x || any p xs

-- UPDATE runs SET status = 'failed', ... WHERE id = $1 AND status = 'running': whether a row was
-- affected.
unfoldable pub mark_run_orphaned_if_running : Uuid → Time → Option ErrorText → M Bool
mark_run_orphaned_if_running id completed_at error_message = call λ w. (
  ok (any (is_running_row id) w.runs),
  record w { runs = update_where (is_running_row id) (orphaned completed_at error_message) w.runs },
)

-- The listed container with this identifier, the empty one aside.
abbrev pub is_alive : List String → String → Bool
is_alive live id = any (λ c. not (c =s= "") && c =s= id) live

-- Running, with a container that was launched, past the grace window, and is not listed.
abbrev has_lost_container : ℕ → List String → Time → Option String → Option Time → Bool
has_lost_container grace live now none started = false
has_lost_container grace live now (some id) none = false
has_lost_container grace live now (some id) (some t) =
    not (id =s= "") && not (ltb now (t + grace)) && not (is_alive live id)

abbrev pub is_lost : ℕ → List String → Time → RunStep → Bool
is_lost grace live now s =
    step_status_eq s.status StepStatus.running
    && has_lost_container grace live now s.container_id s.started_at

unfoldable pub is_orphaned : ℕ → List String → Time → Run → M Bool
is_orphaned grace live now r = do
  steps ← list_run_steps_by_run r.id
  pure (any (is_lost grace live now) steps)

-- What follows the evaluation of a run; errors are logged.
unfoldable pub reap : Time → Run → Result Bool → M (Unit {0})
reap now r (err x) = pure tt
reap now r (ok false) = pure tt
reap now r (ok true) = logged (mark_run_orphaned_if_running r.id now orphaned_no_container)

unfoldable pub reconcile_run : ℕ → List String → Time → Run → M (Unit {0})
unfolding is_orphaned reap
reconcile_run grace live now r = do
  verdict ← caught (is_orphaned grace live now r)
  reap now r verdict

-- `listing` is what `ListRunningContainers` returns.
unfoldable pub reconcile_orphaned_runs : ℕ → Result (List String) → M (Unit {0})
unfolding reconcile_run
reconcile_orphaned_runs grace listing = do
  live ← lift listing
  runs ← list_runs_by_status RunStatus.running
  now ← time_now
  for_each runs (reconcile_run grace live now)
