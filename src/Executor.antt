-- ===== src/Executor.antt =====
-- The pipeline executor (backend/internal/domain/service/pipeline_executor.go): what it is wired to,
-- the story's status, and the ends by failure and by cancellation. Stages, steps and the run are
-- children.
pub mod Stages
pub mod Steps
pub mod Execution
pub mod Quiet
pub mod Failing
pub mod Parking
pub mod Acting
pub mod Rounds
pub mod Halting
pub mod Lifecycle
pub mod Gates
pub mod Completing
pub mod Advancing
pub mod Finishing
pub mod Completion
pub mod Steady
pub mod Succeeding
pub mod Crossing
pub mod Looping
pub mod Listed
pub mod Ending
pub mod Liveness
pub mod Overrides
pub mod Resuming
pub mod Restarting
pub mod Started
mod Examples
mod StartedExample
use hopeitworks.Prelude.{
  String, Bool, true, false, Option, none, some, [], ◌∷◌, ◌++◌, List, ◌==◌, if◌then◌else◌,
}
use hopeitworks.Errors.{DomainError, Result, ok, err}
use hopeitworks.Action.{◌>>=◌, ◌>>◌, pure, caught, logged}
use hopeitworks.Model.Status.{RunStatus, StepStatus, StoryStatus}
use hopeitworks.Model.Entities.{
  Uuid, uuid_nil, Time, ErrorText, text, of_error, Run, RunStep, Metadata, PayloadValue,
}
use hopeitworks.World.{World, M, write_back, time_now}
use hopeitworks.Repo.Runs.{update_run_status, update_run_step_status}
use hopeitworks.Repo.Rows.{get_story, update_story_status, set_writeback_status}
use hopeitworks.Repo.Outbox.{publish, enqueue}

-- What an action gets (model/run_context.go). `step_config` is the step's `Config`.
pub record RunContext : Type 0 where
  pub run : Run
  pub run_step : RunStep
  pub step_config : List (String × String)
  pub project_id : Uuid
  pub story_id : Uuid
  pub user_id : Uuid
  pub metadata : Metadata

-- An action that succeeds leaves the metadata as the next step sees it.
abbrev pub StepAction : Type 0
StepAction = RunContext → M Metadata

-- The dependencies that may be unset, and the code that is not this service's: the registered
-- actions by name, `uuid.Parse`, `uuid.NewSHA1` of a run and a stage, and whether the context has
-- been cancelled when it is looked at.
pub record PipelineExecutor : Type 0 where
  pub has_circuit_breaker : Bool
  pub has_hitl_repo : Bool
  pub has_write_back : Bool
  pub actions : String → Option StepAction
  pub parse_uuid : String → Option Uuid
  pub stage_entity_id : Uuid → String → Uuid
  pub is_cancelled : World → Bool

-- `publishEvent`: an error is logged.
unfoldable pub publish_event :
    Uuid → String → Uuid → String → List (String × PayloadValue) → M (Unit {0})
publish_event project_id entity_type entity_id action payload = logged (
    publish (record {
      project_id = project_id;
      entity_type = entity_type;
      entity_id = entity_id;
      action = action;
      payload = payload;
    }))

-- The payload of an event of a run, and that of an event of a step.
abbrev pub run_payload : Run → String → List (String × PayloadValue)
run_payload r status =
    ("run_id", PayloadValue.uuid r.id)
    ∷ ("story_id", PayloadValue.uuid r.story_id)
    ∷ ("status", PayloadValue.str status)
    ∷ []

abbrev pub step_payload : Run → RunStep → String → List (String × PayloadValue)
step_payload r s status =
    ("run_id", PayloadValue.uuid r.id)
    ∷ ("story_id", PayloadValue.uuid r.story_id)
    ∷ ("step_id", PayloadValue.uuid s.id)
    ∷ ("step_name", PayloadValue.str s.step_name)
    ∷ ("status", PayloadValue.str status)
    ∷ []

abbrev story_status_text : StoryStatus → String
story_status_text StoryStatus.backlog = "backlog"
story_status_text StoryStatus.running = "running"
story_status_text StoryStatus.done = "done"
story_status_text StoryStatus.failed = "failed"

-- `enqueueWriteBack`: running, done and failed are written back, a reset to the backlog is not.
abbrev is_written_back : StoryStatus → Bool
is_written_back StoryStatus.backlog = false
is_written_back _ = true

unfoldable pub set_story_status : Uuid → StoryStatus → M (Unit {0})
set_story_status id status = do get_story id; update_story_status id status

module _ (e : PipelineExecutor) where
  unfoldable push_status : Run → StoryStatus → M (Unit {0})
  push_status r status = do
    logged (set_writeback_status r.story_id "pending")
    logged (enqueue (write_back r.project_id r.story_id r.id status))

  unfoldable pub enqueue_write_back : Run → StoryStatus → M (Unit {0})
  unfolding push_status
  enqueue_write_back r status =
      if e.has_write_back
      then (if r.story_id == uuid_nil
          then pure tt
          else if is_written_back status
          then push_status r status
          else pure tt)
      else pure tt

  -- What follows the two calls of the story's repository.
  unfoldable pub after_story_update : Run → StoryStatus → Result (Unit {0}) → M (Unit {0})
  unfolding publish_event enqueue_write_back
  after_story_update r status (err x) = pure tt
  after_story_update r status (ok _) = do
    publish_event r.project_id "story" r.story_id "status_updated" (
        ("story_id", PayloadValue.uuid r.story_id)
        ∷ ("run_id", PayloadValue.uuid r.id)
        ∷ ("status", PayloadValue.str (story_status_text status))
        ∷ [])
    enqueue_write_back r status

  -- `updateStoryStatus`.
  unfoldable pub update_story : Run → StoryStatus → M (Unit {0})
  unfolding set_story_status after_story_update
  update_story r status = if r.story_id == uuid_nil then pure tt else (do
    result ← caught (set_story_status r.story_id status)
    after_story_update r status result)

  unfoldable pub handle_step_failure : Run → RunStep → DomainError → M (Unit {0})
  unfolding publish_event update_story
  handle_step_failure r s x = do
    now ← time_now
    logged (update_run_step_status s.id StepStatus.failed none (some now) (some (of_error x)))
    publish_event r.project_id "step" s.id "failed"
        (step_payload r s "failed" ++ ("error_message", PayloadValue.error (of_error x)) ∷ [])
    logged (update_run_status r.id RunStatus.failed none (some now) none (some (of_error x)))
    publish_event r.project_id "run" r.id "failed"
        (run_payload r "failed" ++ ("error_message", PayloadValue.error (of_error x)) ∷ [])
    update_story r StoryStatus.failed

  abbrev execution_cancelled : Option ErrorText
  execution_cancelled = some (text "execution cancelled")

  unfoldable pub handle_cancellation : Run → RunStep → M (Unit {0})
  unfolding publish_event update_story
  handle_cancellation r s = do
    now ← time_now
    logged (update_run_step_status s.id StepStatus.cancelled none (some now) execution_cancelled)
    publish_event r.project_id "step" s.id "cancelled" (step_payload r s "cancelled")
    logged (update_run_status r.id RunStatus.cancelled none (some now) none execution_cancelled)
    publish_event r.project_id "run" r.id "cancelled" (run_payload r "cancelled")
    update_story r StoryStatus.backlog
