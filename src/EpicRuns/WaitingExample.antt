-- ===== src/EpicRuns/WaitingExample.antt =====
-- A story whose run waits for the approval of its only step.
use hopeitworks.Prelude.{◌≡◌, refl, Bool, true, false, none, some, [], ◌∷◌, ◌=s=◌, find}
use hopeitworks.Errors.{ok}
use hopeitworks.Action.{◌>>◌, pure, caught, logged}
use hopeitworks.Model.Status.{RunStatus, StepStatus, EpicRunStatus}
use hopeitworks.Model.Entities.{Run, RunStep, Story, EpicRun, EpicRunStory, meta_get, meta_set}
use hopeitworks.World.Samples.{empty_world, sample_run, sample_story}
use hopeitworks.World.{World, call, run_at, step_at, story_at, project_at, update_where}
use hopeitworks.Repo.Epics.{is_row_of}
use hopeitworks.Repo.Runs.{
  get_run, get_run_step, list_run_steps_by_run, update_run_status, update_run_step_status,
  update_run_metadata,
}
use hopeitworks.Repo.Rows.{get_story, update_story_status, update_story_current_stage}
use hopeitworks.Repo.Outbox.{publish, enqueue}
use hopeitworks.RunService.Create.{new_step}
use hopeitworks.Executor.{
  PipelineExecutor, StepAction, publish_event, set_story_status, after_story_update, update_story,
}
use hopeitworks.Executor.Stages.{
  parse_transition_policy, transition_for, set_current_stage, enter_stage, exit_stage,
  enforce_manual_on_enter, enforce_gate_on_exit,
}
use hopeitworks.Executor.Steps.{
  extract_step_config, step_values, launched_by, run_context, begin_step, end_step, complete_unless,
  execute_step,
}
use hopeitworks.Executor.Execution.{
  check_breaker, settle, take_step, change_stage, after_manual, after_gate, cross_boundary,
  step_unless, run_unless_paused, run_unless_cancelled, one_round, go_on, run_steps, finish_run,
  run_and_finish, start_run, check_and_start, execute_run, halted, awaiting_approval,
}
use hopeitworks.EpicRuns.Groups.{launched, returned, run_story}
use hopeitworks.RunService.Samples.{services}
use hopeitworks.EpicRuns.Parked.{parked_counts_as_completed}

-- An action that asks a human.
abbrev ask : StepAction
ask c = do
  update_run_step_status c.run_step.id StepStatus.waiting_approval none none none
  pure c.metadata

abbrev executor : PipelineExecutor
executor = record {
  has_circuit_breaker = false;
  has_hitl_repo = true;
  has_write_back = false;
  actions = λ name. some ask;
  parse_uuid = λ text. none;
  stage_entity_id = λ run_id stage_id. run_id;
  is_cancelled = λ w. false;
}

abbrev run : Run
run = sample_run 5 RunStatus.pending

abbrev step : RunStep
step = record (new_step 5 "approve" 0 "hitl_gate" "" "") { id = 8 }

abbrev story : Story
story = record (sample_story 2 "A") { epic_id = some 7 }

abbrev epic_run : EpicRun
epic_run = record {
  id = 20;
  project_id = 1;
  epic_id = 7;
  status = EpicRunStatus.running;
  created_at = 9;
  completed_at = none;
}

abbrev row : EpicRunStory
row = record {
  epic_run_id = 20;
  story_id = 2;
  run_id = some 5;
  group_index = 0;
  status = "running";
}

abbrev world : World
world = record empty_world {
  runs = run ∷ [];
  run_steps = step ∷ [];
  stories = story ∷ [];
  epics = record { id = 7; project_id = 1 } ∷ [];
  epic_runs = epic_run ∷ [];
  epic_run_stories = row ∷ [];
  next_id = 30;
}

abbrev go_ahead : World → Bool
go_ahead w = false

parked_test : (execute_run executor 5 world).0 ≡ ok (halted awaiting_approval)
unfolding execute_run check_and_start check_breaker start_run run_and_finish run_steps one_round
    go_on finish_run run_unless_cancelled run_unless_paused cross_boundary after_gate after_manual
    change_stage step_unless take_step settle execute_step end_step complete_unless begin_step
    run_context launched_by step_values extract_step_config enter_stage exit_stage set_current_stage
    enforce_manual_on_enter enforce_gate_on_exit transition_for parse_transition_policy update_story
    set_story_status after_story_update publish_event get_run get_run_step list_run_steps_by_run
    update_run_status update_run_step_status update_run_metadata get_story update_story_status
    update_story_current_stage publish enqueue caught logged call run_at step_at story_at project_at
    update_where meta_get meta_set ◌=s=◌
parked_test = refl

parked_counts_as_completed_example :
    let o = execute_run executor 5 world in
    let o' =
      run_story services (λ text. none) executor epic_run go_ahead story (launched 5) world in
    (o'.0 ≡ ok (returned none))
    × ((q : EpicRunStory)
        → o.1.faults o.1.calls ≡ false
        → find (is_row_of 20 2) o.1.epic_run_stories ≡ some q
        → (q' : EpicRunStory) × (find (is_row_of 20 2) o'.1.epic_run_stories ≡ some q')
          × (q'.status ≡ "completed"))
parked_counts_as_completed_example =
    parked_counts_as_completed services (λ text. none) executor epic_run go_ahead story 5 world
      parked_test
