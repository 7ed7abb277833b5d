-- ===== src/Requests/Examples.antt =====
-- A running run that is paused and resumed, and a completed run that cannot be cancelled.
use hopeitworks.Prelude.{◌≡◌, refl, none, some, List, [], ◌∷◌, true, String, Option, ◌⊎◌}
use hopeitworks.Model.Status.{RunStatus}
use hopeitworks.Model.Status.Lifecycle.{◌⟶◌}
use hopeitworks.Model.Entities.{Uuid, Run}
use hopeitworks.World.Samples.{empty_world, sample_run}
use hopeitworks.World.{World, run_at}
use hopeitworks.RunService.Samples.{services}
use hopeitworks.Hitl
use hopeitworks.Requests.{Request, pause, cancel, resume, serve, serve_all}
use hopeitworks.Requests.Lifecycle.{runs_follow_lifecycle, final_runs_stay}

abbrev gates : Hitl.Wiring
gates = record { has_job_queue = true; has_event_pub = true }

abbrev no_uuid : String → Option Uuid
no_uuid text = none

abbrev run : Uuid → RunStatus → Run
run id status = sample_run id status

abbrev world : World
world = record empty_world { runs = run 5 RunStatus.running ∷ run 6 RunStatus.completed ∷ [] }

abbrev requests : List Request
requests = pause 1 5 ∷ resume 1 5 ∷ cancel 1 6 ∷ []

running_stored : run_at world 5 ≡ some (run 5 RunStatus.running)
unfolding run_at
running_stored = refl

completed_stored : run_at world 6 ≡ some (run 6 RunStatus.completed)
unfolding run_at
completed_stored = refl

runs_follow_lifecycle_example :
    (s : Run) × (run_at (serve services gates no_uuid (pause 1 5) world) 5 ≡ some s)
    × ((s.status ≡ RunStatus.running)
        ⊎ ((some RunStatus.paused ≡ some s.status) × (RunStatus.running ⟶ s.status)))
runs_follow_lifecycle_example =
    runs_follow_lifecycle services gates no_uuid (pause 1 5) world 5 (run 5 RunStatus.running) refl
      running_stored

final_runs_stay_example :
    (s : Run) × (run_at (serve_all services gates no_uuid requests world) 6 ≡ some s)
    × (s.status ≡ RunStatus.completed)
final_runs_stay_example =
    final_runs_stay services gates no_uuid requests world 6 (run 6 RunStatus.completed)
      (refl, (refl, (refl, tt))) completed_stored refl
