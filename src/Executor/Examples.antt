-- ===== src/Executor/Examples.antt =====
-- A run of one step, and a stage that a human has approved.
use hopeitworks.Prelude.{◌≡◌, refl, true, false, none, some, [], ◌∷◌, String, ◌=s=◌, inr}
use hopeitworks.Errors.{ok, new_internal}
use hopeitworks.Action.{pure, caught}
use hopeitworks.Action.Yields.{Yields}
use hopeitworks.Model.Status.{RunStatus, StepStatus, HitlStatus}
use hopeitworks.Model.Config.{PipelineConfigYaml, transition_for_stage}
use hopeitworks.Model.Entities.{Run, RunStep, Story, Project, HitlRequest}
use hopeitworks.World.Samples.{empty_world, sample_project, sample_run, sample_story}
use hopeitworks.World.{World, call, run_at, project_at}
use hopeitworks.World.Stays.{Stays}
use hopeitworks.Repo.Rows.{get_hitl_by_run_step_id}
use hopeitworks.Repo.Quiet.{Quiet, Quiet-refl}
use hopeitworks.RunService.Create.{new_step}
use hopeitworks.Executor.{PipelineExecutor, StepAction, handle_step_failure}
use hopeitworks.Executor.Stages.{
  StageRef, proceed, transition_for, parse_transition_policy, gate_verdict, enforce_gate,
  enforce_gate_on_exit,
}
use hopeitworks.Executor.Execution.{Ending, execute_run, completed}
use hopeitworks.Executor.Gates.{MayLeave, gate-Approved}
use hopeitworks.Executor.Steady.{Quiet-Steady}
use hopeitworks.Executor.Succeeding.{Reliable}
use hopeitworks.Executor.Crossing.{Automatic}
use hopeitworks.Executor.Ending.{Stands, Finished}
use hopeitworks.Executor.Liveness.{execute_run-finishes}
use hopeitworks.Executor.Overrides.{handle_step_failure-fails}

-- An action that has nothing to do.
abbrev idle : StepAction
idle c = pure c.metadata

abbrev executor : PipelineExecutor
executor = record {
  has_circuit_breaker = true;
  has_hitl_repo = true;
  has_write_back = true;
  actions = λ name. some idle;
  parse_uuid = λ text. none;
  stage_entity_id = λ run_id stage_id. run_id;
  is_cancelled = λ w. false;
}

abbrev run : RunStatus → Run
run status = sample_run 5 status

abbrev step : RunStep
step = record (new_step 5 "branch" 0 "git_branch" "build" "Build") { id = 8 }

abbrev story : Story
story = sample_story 2 "A"

abbrev project : Project
project = record sample_project { circuit_breaker_count = 2 }

abbrev approved_gate : HitlRequest
approved_gate = record {
  id = 9;
  run_step_id = 8;
  gate_type = "approval";
  status = HitlStatus.approved;
  resolved_at = none;
  resolved_by = none;
  rejection_reason = none;
  halt_reason = none;
  resolution_action = none;
}

abbrev world : RunStatus → World
world status = record empty_world {
  runs = run status ∷ [];
  run_steps = step ∷ [];
  stories = story ∷ [];
  projects = project ∷ [];
  hitl_requests = approved_gate ∷ [];
}

abbrev pending_world : World
pending_world = world RunStatus.pending

run_stored : (s : RunStatus) → run_at (world s) 5 ≡ some (run s)
unfolding run_at
run_stored s = refl

project_stored : project_at pending_world 1 ≡ some project
unfolding project_at
project_stored = refl

automatic : Automatic (parse_transition_policy (run RunStatus.pending))
unfolding parse_transition_policy transition_for ◌=s=◌
automatic stage = (refl, refl)

reliable : (n : String) → Reliable executor n
reliable n = (
  idle,
  refl,
  λ c w. (c.metadata, w, refl, (Quiet-Steady w w (Quiet-refl w), λ j t h. (t, h, refl))),
)

abbrev after_run : World
after_run = (execute_run executor 5 pending_world).1

execute_run-finishes_example : Yields (execute_run executor 5) pending_world (Finished 5)
execute_run-finishes_example =
    execute_run-finishes executor (λ v. refl) 5 pending_world (run RunStatus.pending) (λ n. refl)
      (run_stored RunStatus.pending) refl automatic (inr (project, project_stored, refl))
      λ j t h. reliable t.action

-- A stage that ends in a gate.
abbrev stage : StageRef
stage = record { id = "build"; name = "Build" }

abbrev gated : PipelineConfigYaml
gated = record {
  groups =
      record { id = "build"; name = "Build"; steps = []; transition = "gate"; guards = [] } ∷ [];
}

passes_test :
    (enforce_gate_on_exit executor
      (run RunStatus.pending)
      (some stage)
      (some gated)
      (some step)
      pending_world).0
    ≡ ok proceed
unfolding enforce_gate_on_exit enforce_gate gate_verdict transition_for transition_for_stage ◌=s=◌
    caught get_hitl_by_run_step_id call
passes_test = refl

gate-Approved_example :
    Quiet pending_world
      (enforce_gate_on_exit executor
        (run RunStatus.pending)
        (some stage)
        (some gated)
        (some step)
        pending_world).1
    × MayLeave executor (some stage) (some gated) (some step) pending_world
gate-Approved_example =
    gate-Approved executor (run RunStatus.pending) (some stage) (some gated) (some step)
      pending_world passes_test

-- The step has been completed before.
abbrev completed_step : RunStep
completed_step = record step { status = StepStatus.completed }

handle_step_failure-fails_example :
    Yields
      (handle_step_failure executor (run RunStatus.running) step new_internal)
      (world RunStatus.cancelled)
      (λ _. Stands 5 RunStatus.failed)
handle_step_failure-fails_example =
    handle_step_failure-fails executor (run RunStatus.running) (run RunStatus.cancelled) step
      new_internal (world RunStatus.cancelled) (λ n. refl) (run_stored RunStatus.cancelled)
