-- ===== src/Supervision/Watchdog/Examples.antt =====
-- A step that runs for a hundred seconds, with guards that it keeps and guards that it exceeds.
use hopeitworks.Prelude.Int.{pos}
use hopeitworks.Prelude.{
  ◌≡◌, refl, ℕ, String, Option, some, List, [], ◌∷◌, ◌⊎◌, ◌↔◌, true, ◌=s=◌, Elem,
}
use hopeitworks.Errors.{ok}
use hopeitworks.Action.{caught, logged}
use hopeitworks.Model.Status.{RunStatus, StepStatus}
use hopeitworks.Model.Config.{
  Guard, PipelineGroup, parse_pipeline_config_yaml, normalize_groups, normalize_group,
  normalize_guards, normalize_steps, wrap_legacy_steps,
}
use hopeitworks.Model.Entities.{Uuid, Time, Run, RunStep, HaltReason}
use hopeitworks.World.Samples.{empty_world, sample_run}
use hopeitworks.World.{World, call, update_where, run_at, step_at}
use hopeitworks.Repo.Runs.{update_run_status, update_run_step_status}
use hopeitworks.Repo.Rows.{get_pipeline_config}
use hopeitworks.RunService.Create.{new_step}
use hopeitworks.Hitl
use hopeitworks.Supervision.Watchdog.{
  RunningStep, running_rows, message_of, pipeline_config, fetch_unless, list_running_steps,
  sum_cost_by_run, evaluate, fail_breached, apply_on_fail, act_unless, check_guards, check_steps,
  check,
}
use hopeitworks.Supervision.Watchdog.Breaches.{Configured, acts_on_breach}
use hopeitworks.Supervision.Watchdog.Evaluating.{Breached, evaluate_iff}

abbrev run : Run
run = record (sample_run 5 RunStatus.running) { started_at = some 1 }

abbrev step : RunStep
step = record (new_step 5 "implement" 0 "agent_run" "s1" "Build") {
  id = 8;
  status = StepStatus.running;
  started_at = some 0;
}

abbrev guard : String → ℕ → ℕ → Guard
guard kind threshold max = record {
  kind = kind;
  threshold = pos threshold;
  max = pos max;
  on_fail = "fail";
}

abbrev group : List Guard → PipelineGroup
group guards = record { id = "s1"; name = "Build"; steps = []; transition = ""; guards = guards }

abbrev world : List Guard → World
world guards = record empty_world {
  runs = run ∷ [];
  run_steps = step ∷ [];
  pipeline_configs =
      record { project_id = 1; config = some (record { groups = group guards ∷ []; steps = [] }) }
      ∷ [];
  clock = 100000000;
}

abbrev wiring : Hitl.Wiring
wiring = record { has_job_queue = true; has_event_pub = true }

abbrev printed : HaltReason → String
printed reason = reason.probe

abbrev last_log : Uuid → Option Time
last_log id = some 90000000

abbrev costs : Uuid → ℕ
costs id = 2500000

abbrev status_after : List Guard → List RunStatus
status_after guards = statuses (check wiring printed last_log costs (world guards)).1.runs
  where
    statuses : List Run → List RunStatus
    statuses [] = []
    statuses (r ∷ rs) = r.status ∷ statuses rs

kept_test :
    status_after
      (guard "wallclock" 0 100000000 ∷ guard "log_silence" 10 0 ∷ guard "cost_batch" 0 2500000 ∷ [])
    ≡ RunStatus.running ∷ []
unfolding check check_steps check_guards act_unless apply_on_fail fail_breached evaluate
    sum_cost_by_run list_running_steps pipeline_config fetch_unless message_of get_pipeline_config
    parse_pipeline_config_yaml normalize_groups normalize_group normalize_guards normalize_steps
    wrap_legacy_steps caught logged call update_where update_run_status update_run_step_status
    run_at step_at ◌=s=◌
kept_test = refl

exceeded_test :
    status_after (guard "wallclock" 0 100000000 ∷ guard "log_silence" 9 0 ∷ [])
    ≡ RunStatus.failed ∷ []
unfolding check check_steps check_guards act_unless apply_on_fail fail_breached evaluate
    sum_cost_by_run list_running_steps pipeline_config fetch_unless message_of get_pipeline_config
    parse_pipeline_config_yaml normalize_groups normalize_group normalize_guards normalize_steps
    wrap_legacy_steps caught logged call update_where update_run_status update_run_step_status
    run_at step_at ◌=s=◌
exceeded_test = refl

acts_on_breach_example :
    let w = world (guard "log_silence" 9 0 ∷ []) in
    ((n : ℕ) × ((check wiring printed last_log costs w).1 ≡ record w { calls = n }))
    ⊎ ((s : RunningStep) × (g : Guard) × Elem s
          (running_rows wiring printed last_log costs w.runs w.run_steps)
        × Configured w s g
        × Breached costs w.clock s g)
acts_on_breach_example =
    acts_on_breach wiring printed last_log costs (world (guard "log_silence" 9 0 ∷ []))

abbrev silent_step : RunningStep
silent_step = record {
  step_id = 8;
  run_id = 5;
  step_name = "implement";
  stage_id = "s1";
  stage_name = "Build";
  project_id = 1;
  story_id = 2;
  started_at = some 0;
  last_log_at = some 90000000;
}

evaluate_iff_example :
    ((x : HaltReason) × ((evaluate wiring printed last_log costs silent_step
          (guard "log_silence" 9 0)
          100000000
          (world [])).0
        ≡ ok (some x)))
    ↔ Breached costs 100000000 silent_step (guard "log_silence" 9 0)
evaluate_iff_example =
    evaluate_iff wiring printed last_log costs (world []) silent_step (guard "log_silence" 9 0)
      λ _. refl
