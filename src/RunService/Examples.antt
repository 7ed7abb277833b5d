-- ===== src/RunService/Examples.antt =====
-- A failed step that is retried, and a story that is launched.
use hopeitworks.Prelude.Int.{pos}
use hopeitworks.Prelude.{
  ◌≡◌, ◌≢◌, refl, String, ◌&&◌, Option, none, some, List, [], ◌∷◌, select, ◌==◌, false, true, ◌=s=◌,
}
use hopeitworks.Errors.{ok, err, run, new_not_found}
use hopeitworks.Model.Status.{
  RunStatus, StepStatus, StoryStatus, story_status_eq, validate_run_transition,
}
use hopeitworks.Model.Config.{
  PipelineStep, PipelineConfigYaml, PipelineConfigRawYaml, parse_pipeline_config_yaml,
  normalize_groups, normalize_group, normalize_steps, normalize_guards, wrap_legacy_steps,
  flat_steps, flat_steps_with_stage,
}
use hopeitworks.Model.Entities.{
  Uuid, Run, RunStep, Story, Project, encoded, named, MetaValue, meta_set,
}
use hopeitworks.World.Samples.{empty_world, sample_project, sample_run, sample_story}
use hopeitworks.World.{World, call, run_at, step_at, story_at, project_at, update_where}
use hopeitworks.Repo.Runs.{
  get_run, get_run_step, list_run_steps_by_run, list_retry_steps_by_parent, create_retry_run_step,
  update_run_status, update_run_step_status, create_run, create_run_step, get_active_run_by_story,
  is_active, newest, with_status,
}
use hopeitworks.Repo.Rows.{get_story, update_story_status, get_pipeline_config}
use hopeitworks.Repo.Outbox.{publish, enqueue, stop_execution}
use hopeitworks.RunService.{enqueue_run, publish_run_event, publish_event, publish_story_event}
use hopeitworks.RunService.Retry.{
  retry_step, add_retry, reopen_run, get_run_with_steps, retry_of, max_retries, retry_limit,
}
use hopeitworks.RunService.Retry.Limits.{IsRetryable, retry_step-IsRetryable}
use hopeitworks.RunService.Cancel.{
  cancel_run, cancel_step, cancel_msg, stop_step_execution, transition_story_to_backlog,
  reset_story,
}
use hopeitworks.RunService.Cancel.Loop.{is_closed}
use hopeitworks.RunService.Cancel.Closing.{cancel_run-closes}
use hopeitworks.RunService.{pause_run, transition_run}
use hopeitworks.Model.Status.{validate_run_transition}
use hopeitworks.RunService.Refusals.{pause_run-refused, Transitioned, transition_run-Transitioned}
use hopeitworks.RunService.Create.{new_step}
use hopeitworks.RunService.Launch.{
  launch_run, launch_with, create_all, create_staged_steps, steps_metadata, step_metadata,
}
use hopeitworks.RunService.Samples.{services}
use hopeitworks.RunService.Launch.Created.{IsCreated, launch_run-IsCreated}

abbrev no_uuid : String → Option Uuid
no_uuid text = none

abbrev failed_run : Run
failed_run = sample_run 5 RunStatus.failed

abbrev failed_step : RunStep
failed_step = record (new_step 5 "implement" 0 "agent_run" "" "") {
  id = 8;
  status = StepStatus.failed;
}

abbrev story : Story
story = sample_story 2 "A"

abbrev project : Project
project = sample_project

abbrev branch_step : PipelineStep
branch_step = record {
  id = "s";
  name = "branch";
  action_type = "git_branch";
  agent_id = "";
  model = "";
  auto_approve = false;
  retry_policy = record { max_retries = pos 0; retry_type = "" };
  config = [];
  guards = [];
}

abbrev config : PipelineConfigRawYaml
config = record { groups = []; steps = branch_step ∷ [] }

abbrev world : World
world = record empty_world {
  runs = failed_run ∷ [];
  run_steps = failed_step ∷ [];
  stories = story ∷ [];
  projects = project ∷ [];
  pipeline_configs = record { project_id = 1; config = some config } ∷ [];
}

abbrev retried : Run × List RunStep
retried = (
  with_status RunStatus.running none none none none failed_run,
  failed_step ∷ retry_of failed_step 10 ∷ [],
)

retried_test : (retry_step services 5 8 world).0 ≡ ok retried
unfolding retry_step add_retry reopen_run get_run_with_steps enqueue_run publish_run_event
    publish_event max_retries retry_limit get_run get_run_step list_run_steps_by_run
    list_retry_steps_by_parent create_retry_run_step update_run_status publish enqueue call run_at
    step_at project_at update_where
retried_test = refl

retry_step-IsRetryable_example : IsRetryable world 5 8
retry_step-IsRetryable_example = retry_step-IsRetryable services 5 8 world retried retried_test

abbrev launched : Run × List RunStep
launched = (
  record failed_run {
    id = 10;
    status = RunStatus.pending;
    pipeline_config_snapshot = encoded (parse_pipeline_config_yaml config);
    metadata = (named "launched_by_user_id", MetaValue.uuid 4) ∷ [];
    created_at = 9;
  },
  record (new_step 10 "branch" 0 "git_branch" "default" "Default") { id = 11 } ∷ [],
)

launched_test : (launch_run services no_uuid 1 2 4 world).0 ≡ ok launched
unfolding launch_run launch_with create_all create_staged_steps steps_metadata step_metadata
    get_story get_active_run_by_story get_pipeline_config create_run create_run_step enqueue call
    run_at story_at project_at meta_set parse_pipeline_config_yaml normalize_groups normalize_group
    normalize_steps normalize_guards wrap_legacy_steps flat_steps flat_steps_with_stage ◌=s=◌
launched_test = refl

launch_run-IsCreated_example :
    ((parsed : PipelineConfigYaml) × IsCreated 1 2 parsed launched.0 launched.1
      × (flat_steps parsed ≢ []))
    × ((st : Story) × (story_at world 2 ≡ some st)
        × (st.project_id ≡ 1)
        × (story_status_eq st.status StoryStatus.done ≡ false))
    × (newest (select (λ (q : Run). q.story_id == 2 && is_active q.status) world.runs) ≡ none)
launch_run-IsCreated_example =
    launch_run-IsCreated services no_uuid 1 2 4 world launched.0 launched.1 launched_test

abbrev running_run : Run
running_run = record failed_run { status = RunStatus.running }

abbrev running_step : RunStep
running_step = record failed_step { status = StepStatus.running; container_id = some "container" }

abbrev busy : World
busy = record world { runs = running_run ∷ []; run_steps = running_step ∷ [] }

abbrev cancelled_run : Run
cancelled_run = with_status RunStatus.cancelled none (some 9) none cancel_msg running_run

cancelled_test : cancel_run services 1 5 busy ≡ (ok cancelled_run, (cancel_run services 1 5 busy).1)
unfolding cancel_run cancel_step stop_step_execution stop_execution transition_story_to_backlog
    reset_story publish_story_event get_story update_story_status publish_run_event publish_event
    get_run list_run_steps_by_run update_run_status update_run_step_status publish call run_at
    step_at story_at project_at update_where validate_run_transition ◌=s=◌
cancelled_test = refl

running_step_stored : step_at busy 8 ≡ some running_step
unfolding step_at
running_step_stored = refl

cancel_run-closes_example :
    (y : RunStep) × (step_at (cancel_run services 1 5 busy).1 8 ≡ some y)
    × (is_closed y.status ≡ true)
cancel_run-closes_example =
    cancel_run-closes services 1 5 busy (cancel_run services 1 5 busy).1 cancelled_run
      cancelled_test 8 running_step running_step_stored refl

abbrev refused_pause : World
refused_pause = (pause_run services 3 5 busy).1

refused_pause_test : pause_run services 3 5 busy ≡ (err (new_not_found run), refused_pause)
unfolding pause_run get_run call run_at
refused_pause_test = refl

pause_run-refused_example : refused_pause.runs ≡ busy.runs
pause_run-refused_example =
    pause_run-refused services 3 5 busy refused_pause (new_not_found run) refused_pause_test

transition_run-Transitioned_example :
    Transitioned 5 RunStatus.completed world
      (transition_run 5 RunStatus.completed world).0
      (transition_run 5 RunStatus.completed world).1
transition_run-Transitioned_example = transition_run-Transitioned 5 RunStatus.completed world
