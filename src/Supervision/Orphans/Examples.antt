-- ===== src/Supervision/Orphans/Examples.antt =====
-- A run whose container is gone.
use hopeitworks.Prelude.{◌≡◌, refl, String, some, List, [], ◌∷◌, ◌⊎◌, ◌=s=◌}
use hopeitworks.Errors.{ok}
use hopeitworks.Action.{caught, logged}
use hopeitworks.Model.Status.{RunStatus, StepStatus}
use hopeitworks.Model.Entities.{Run, RunStep}
use hopeitworks.World.Samples.{empty_world, sample_run}
use hopeitworks.World.{World, call, run_at, update_where}
use hopeitworks.Repo.Runs.{list_run_steps_by_run}
use hopeitworks.RunService.Create.{new_step}
use hopeitworks.Supervision.Orphans.{
  list_runs_by_status, mark_run_orphaned_if_running, is_orphaned, reap, reconcile_run,
  reconcile_orphaned_runs, orphaned, orphaned_no_container,
}
use hopeitworks.Supervision.Orphans.Absence.{HasLostContainer}
use hopeitworks.Supervision.Orphans.Reaping.{orphans_only}

abbrev run : Run
run = record (sample_run 5 RunStatus.running) { started_at = some 1 }

abbrev step : RunStep
step = record (new_step 5 "implement" 0 "agent_run" "" "") {
  id = 8;
  status = StepStatus.running;
  started_at = some 10;
  container_id = some "c1";
}

abbrev world : World
world = record empty_world { runs = run ∷ []; run_steps = step ∷ []; clock = 100 }

stored : run_at world 5 ≡ some run
unfolding run_at
stored = refl

reaped_test :
    (reconcile_orphaned_runs 60 (ok ("c2" ∷ [])) world).1.runs
    ≡ orphaned 100 orphaned_no_container run ∷ []
unfolding reconcile_orphaned_runs reconcile_run is_orphaned reap list_runs_by_status
    mark_run_orphaned_if_running list_run_steps_by_run caught logged call update_where ◌=s=◌
reaped_test = refl

alive_test : (reconcile_orphaned_runs 60 (ok ("c1" ∷ [])) world).1.runs ≡ run ∷ []
unfolding reconcile_orphaned_runs reconcile_run is_orphaned reap list_runs_by_status
    mark_run_orphaned_if_running list_run_steps_by_run caught logged call update_where ◌=s=◌
alive_test = refl

orphans_only_example :
    (q : Run) × (run_at (reconcile_orphaned_runs 60 (ok ("c2" ∷ [])) world).1 5 ≡ some q)
    × ((q ≡ run)
        ⊎ ((live : List String) × (ok ("c2" ∷ []) ≡ ok live)
            × (run.status ≡ RunStatus.running)
            × (q.status ≡ RunStatus.failed)
            × HasLostContainer 60 live world 5))
orphans_only_example = orphans_only 60 (ok ("c2" ∷ [])) world 5 run stored
