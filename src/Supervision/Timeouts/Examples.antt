-- ===== src/Supervision/Timeouts/Examples.antt =====
-- A container that is still listed after its step and its run have completed.
use hopeitworks.Prelude.{
  ◌≡◌, refl, ℕ, String, Option, none, some, List, [], ◌∷◌, ◌⊎◌, Elem, if◌then◌else◌, ◌=s=◌, map,
}
use hopeitworks.Errors.{ok}
use hopeitworks.Action.{caught, logged}
use hopeitworks.Model.Status.{RunStatus, StepStatus}
use hopeitworks.Model.Entities.{Uuid, Run, RunStep}
use hopeitworks.World.Samples.{sample_run, sample_project, empty_world}
use hopeitworks.World.{World, call, update_where, run_at, step_at, project_at}
use hopeitworks.Repo.Runs.{get_run, get_run_step, update_run_status, update_run_step_status}
use hopeitworks.Repo.Rows.{get_project}
use hopeitworks.Repo.Outbox.{stop_execution}
use hopeitworks.RunService.Create.{new_step}
use hopeitworks.Supervision.Timeouts.{
  ContainerInfo, check_timeouts, check_container, check_ids, check_step, check_started, stop_unless,
  stop_late, after_stop, get_timeout, run_timeout,
}
use hopeitworks.Supervision.Timeouts.Late.{IsLate, acts_on_timeout}

abbrev step : RunStep
step = record (new_step 5 "implement" 0 "agent_run" "" "") {
  id = 8;
  status = StepStatus.completed;
  started_at = some 10;
}

abbrev world : World
world = record empty_world {
  runs = sample_run 5 RunStatus.completed ∷ [];
  run_steps = step ∷ [];
  projects = sample_project ∷ [];
  clock = 100;
}

abbrev parse : String → Option Uuid
parse t = if t =s= "five" then some 5 else if t =s= "eight" then some 8 else none

abbrev container : ContainerInfo
container = record { id = "c1"; run_id = "five"; step_id = "eight" }

abbrev statuses : World → List RunStatus
statuses w = map (λ (r : Run). r.status) w.runs

completed_run_fails_test :
    statuses (check_timeouts parse 60 (ok (container ∷ [])) world).1 ≡ RunStatus.failed ∷ []
unfolding check_timeouts check_container check_ids check_step check_started stop_unless stop_late
    after_stop get_timeout run_timeout get_run get_run_step get_project stop_execution
    update_run_status update_run_step_status caught logged call update_where run_at step_at
    project_at ◌=s=◌
completed_run_fails_test = refl

in_time_test :
    statuses (check_timeouts parse 90 (ok (container ∷ [])) world).1 ≡ RunStatus.completed ∷ []
unfolding check_timeouts check_container check_ids check_step check_started stop_unless get_timeout
    run_timeout get_run get_run_step get_project caught call run_at step_at project_at ◌=s=◌
in_time_test = refl

acts_on_timeout_example :
    ((n : ℕ) × ((check_timeouts parse 60 (ok (container ∷ [])) world).1
        ≡ record world { calls = n }))
    ⊎ ((cs : List ContainerInfo) × (ok (container ∷ []) ≡ ok cs)
        × (c : ContainerInfo) × Elem c cs
        × IsLate parse 60 world c)
acts_on_timeout_example = acts_on_timeout parse 60 world (ok (container ∷ []))
