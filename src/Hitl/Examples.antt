-- ===== src/Hitl/Examples.antt =====
-- A paused run whose probe halt is aborted: it is set to failed, which the table of transitions of a
-- paused run does not hold.
use hopeitworks.Prelude.{◌≡◌, refl, none, some, [], ◌∷◌, true, ◌=s=◌}
use hopeitworks.Errors.{err}
use hopeitworks.Model.Status.{
  RunStatus, StepStatus, HitlStatus, validate_run_transition, invalid_transition,
}
use hopeitworks.Model.Entities.{Run, HitlRequest, text}
use hopeitworks.World.Samples.{empty_world, sample_run}
use hopeitworks.World.{World, call, run_at, step_at, project_at, update_where}
use hopeitworks.Repo.Runs.{
  get_run, get_run_step, update_run_status, update_run_step_status, with_status,
}
use hopeitworks.Repo.Rows.{get_hitl_request, update_hitl_status, hitl_at}
use hopeitworks.Repo.Outbox.{publish}
use hopeitworks.RunService.Create.{new_step}
use hopeitworks.Hitl.{
  Wiring, resolve, act_on_step, close_step, fail_run, try_fail_run, publish_event, try_publish,
}

abbrev services : Wiring
services = record { has_job_queue = true; has_event_pub = true }

abbrev paused_run : Run
paused_run = sample_run 5 RunStatus.paused

abbrev halt : HitlRequest
halt = record {
  id = 7;
  run_step_id = 8;
  gate_type = "probe_halt";
  status = HitlStatus.pending;
  resolved_at = none;
  resolved_by = none;
  rejection_reason = none;
  halt_reason = none;
  resolution_action = none;
}

abbrev world : World
world = record empty_world {
  runs = paused_run ∷ [];
  run_steps =
      record (new_step 5 "implement" 0 "agent_run" "" "") { id = 8; status = StepStatus.running }
      ∷ [];
  hitl_requests = halt ∷ [];
}

abort_of_paused_run_test :
    (resolve services 7 4 "abort" world).1.runs
    ≡ with_status RunStatus.failed none
        (some 9)
        none
        (some (text "aborted from probe halt"))
        paused_run
      ∷ []
unfolding resolve act_on_step close_step fail_run try_fail_run publish_event try_publish get_run
    get_run_step update_run_status update_run_step_status get_hitl_request update_hitl_status
    hitl_at publish call run_at step_at project_at update_where ◌=s=◌
abort_of_paused_run_test = refl

no_such_edge_test :
    validate_run_transition RunStatus.paused RunStatus.failed ≡ err invalid_transition
unfolding validate_run_transition
no_such_edge_test = refl
