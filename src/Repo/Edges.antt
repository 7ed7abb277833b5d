-- ===== src/Repo/Edges.antt =====
-- Which statuses a run that was read may be given.
use hopeitworks.Prelude.{◌≡◌, true, some, arith}
use hopeitworks.Action.{◌>>=◌}
use hopeitworks.Model.Status.{RunStatus, run_status_eq}
use hopeitworks.Model.Status.Lifecycle.{◌⟶◌, resume, retry, pause}
use hopeitworks.Model.Entities.{Uuid, Run}
use hopeitworks.World.{World, M, run_at}
use hopeitworks.World.Moves.{Moves, Keeps-Moves, bind-Moves}
use hopeitworks.Repo.Runs.{get_run}
use hopeitworks.Repo.Keeps.{get_run-Keeps, get_run-found}

-- The edges that a request tests for without the table.
pub paused-resumes :
    (s : RunStatus) → run_status_eq s RunStatus.paused ≡ true → s ⟶ RunStatus.running
paused-resumes s h = grind (arith, resume)

pub failed-reopens :
    (s : RunStatus) → run_status_eq s RunStatus.failed ≡ true → s ⟶ RunStatus.running
failed-reopens s h = grind (arith, retry)

pub running-pauses :
    (s : RunStatus) → run_status_eq s RunStatus.running ≡ true → s ⟶ RunStatus.paused
running-pauses s h = grind (arith, pause)

pub get_run-Moves : (id : Uuid) (w : World) → Moves w (get_run id w).1
get_run-Moves id w = Keeps-Moves w (get_run id w).1 (get_run-Keeps id w)

-- A request starts by reading its run.
pub after_get_run :
    {B : Type 0} (id : Uuid) (f : Run → M B) (w : World)
    → ((v : World) → (r : Run) → run_at v id ≡ some r → Moves v (f r v).1)
    → Moves w ((get_run id >>= f) w).1
after_get_run id f w h =
    bind-Moves (get_run id) f w (get_run-Moves id w)
      λ r got. h (get_run id w).1 r (get_run-found id w r got)
