-- ===== src/RunService.antt =====
-- The run service (service/run_service.go): transitions, pausing, resuming and starting a stage.
-- Cancelling, retrying and launching are children.
pub mod Cancel
pub mod Retry
pub mod Create
pub mod Launch
pub mod Moves
pub mod Samples
mod Examples
pub mod Launches
pub mod Refusals
use hopeitworks.Prelude.{
  ℕ, ◌+◌, ◌≤◌, String, Bool, true, false, ◌&&◌, Option, none, some, List, [], ◌∷◌, length, ltb, leb,
  ◌==◌, ◌=s=◌, if◌then◌else◌, not,
}
use hopeitworks.Errors.{
  DomainError, Result, ok, err, conflict, not_found, run, step, story, domain_error, new_not_found,
  new_internal, invalid_state,
}
use hopeitworks.Action.{Action, ◌>>=◌, ◌>>◌, pure, fail, lift, require, attempt, for_each}
use hopeitworks.Model.Status.{
  RunStatus, StepStatus, StoryStatus, run_status_eq, step_status_eq, story_status_eq,
  validate_run_transition, validate_step_transition, invalid_transition,
}
use hopeitworks.Model.Config.{PipelineStep, PipelineConfigYaml, flat_steps}
use hopeitworks.Model.Entities.{
  Uuid, uuid_nil, Time, ErrorText, text, Run, RunStep, Story, Event, PayloadValue, Snapshot, absent,
  unparseable, encoded, MetaKey, named, stage_started, MetaValue, Metadata, meta_get, meta_set,
  meta_delete, as_string,
}
use hopeitworks.World.{World, M, Job, execute_run, time_now, uuid_new}
use hopeitworks.Repo.Runs.{
  get_run, get_active_run_by_story, update_run_status, update_run_metadata, get_run_step,
  list_run_steps_by_run, update_run_step_status, create_retry_run_step, list_retry_steps_by_parent,
}
use hopeitworks.Repo.Rows.{get_story, update_story_status}
use hopeitworks.Repo.Outbox.{publish, enqueue, stop_execution}

-- Which of the optional dependencies are set.
pub record Wiring : Type 0 where
  pub has_event_pub : Bool
  pub has_job_queue : Bool
  pub has_agent_runtime : Bool
  pub has_container_mgr : Bool
  pub has_agent_repo : Bool
  pub has_stack_repo : Bool

-- `if s.eventPub == nil { return }; ...; _ = s.eventPub.Publish(ctx, event)`.
unfoldable pub publish_event : Wiring → Event → M (Unit {0})
publish_event svc e = if svc.has_event_pub then (do attempt (publish e); pure tt) else pure tt

abbrev pub run_event : Uuid → Uuid → String → List (String × PayloadValue) → Event
run_event project_id run_id action payload = record {
  project_id = project_id;
  entity_type = "run";
  entity_id = run_id;
  action = action;
  payload = payload;
}

unfoldable pub publish_run_event :
    Wiring → Uuid → Uuid → String → List (String × PayloadValue) → M (Unit {0})
unfolding publish_event
publish_run_event svc project_id run_id action payload =
    publish_event svc (run_event project_id run_id action payload)

unfoldable pub publish_story_event : Wiring → Uuid → Uuid → Uuid → String → M (Unit {0})
unfolding publish_event
publish_story_event svc project_id story_id run_id status = publish_event svc (record {
  project_id = project_id;
  entity_type = "story";
  entity_id = story_id;
  action = "status_updated";
  payload =
      ("story_id", PayloadValue.uuid story_id)
      ∷ ("run_id", PayloadValue.uuid run_id)
      ∷ ("status", PayloadValue.str status)
      ∷ [];
})

-- The `started_at` or `completed_at` that a transition sets.
abbrev pub started_when : RunStatus → Time → Option Time
started_when RunStatus.running now = some now
started_when _ now = none

abbrev pub completed_when : RunStatus → Time → Option Time
completed_when RunStatus.completed now = some now
completed_when RunStatus.failed now = some now
completed_when RunStatus.cancelled now = some now
completed_when _ now = none

abbrev pub paused_when : RunStatus → Time → Option Time
paused_when RunStatus.paused now = some now
paused_when _ now = none

unfoldable pub transition_run : Uuid → RunStatus → M Run
transition_run run_id new_status = do
  r ← get_run run_id
  lift (validate_run_transition r.status new_status)
  now ← time_now
  update_run_status run_id new_status (started_when new_status now) (completed_when new_status now)
      (paused_when new_status now) none

abbrev pub step_started_when : StepStatus → Time → Option Time
step_started_when StepStatus.running now = some now
step_started_when _ now = none

abbrev pub step_completed_when : StepStatus → Time → Option Time
step_completed_when StepStatus.completed now = some now
step_completed_when StepStatus.failed now = some now
step_completed_when StepStatus.cancelled now = some now
step_completed_when _ now = none

unfoldable pub transition_run_step : Uuid → StepStatus → M RunStep
transition_run_step step_id new_status = do
  s ← get_run_step step_id
  lift (validate_step_transition s.status new_status)
  now ← time_now
  update_run_step_status step_id new_status (step_started_when new_status now)
      (step_completed_when new_status now) none

-- The metadata with the parked stage marked as started and the pause reason removed.
unfoldable pub started_metadata : Metadata → Metadata
started_metadata m =
    let stage_id = as_string (meta_get (named "paused_stage_id") m) in
    let m' =
      if stage_id =s= "" then m else meta_set (stage_started stage_id) (MetaValue.bool true) m in
    meta_delete (named "paused_stage_name")
      (meta_delete (named "paused_stage_id") (meta_delete (named "paused_reason") m'))

abbrev pub or_no_active_run : Option Run → M Run
or_no_active_run none = fail (domain_error not_found "NO_ACTIVE_RUN")
or_no_active_run (some r) = pure r

abbrev pub stage_not_startable : DomainError
stage_not_startable = domain_error conflict "STAGE_NOT_STARTABLE"

module _ (svc : Wiring) where
  unfoldable pub pause_run : Uuid → Uuid → M Run
  pause_run project_id run_id = do
    r ← get_run run_id
    require (r.project_id == project_id) (new_not_found run)
    lift (validate_run_transition r.status RunStatus.paused)
    now ← time_now
    updated ← update_run_status run_id RunStatus.paused none none (some now) none
    publish_run_event svc updated.project_id updated.id "paused" (
        ("run_id", PayloadValue.uuid run_id)
        ∷ ("story_id", PayloadValue.uuid updated.story_id)
        ∷ ("status", PayloadValue.str "paused")
        ∷ ("paused_at", PayloadValue.time now)
        ∷ [])
    pure updated

  -- `if s.jobQueue != nil { if err := ...; err != nil { return nil, NewInternal } }`.
  unfoldable pub enqueue_run : Uuid → M (Unit {0})
  enqueue_run run_id = if svc.has_job_queue then enqueue (execute_run run_id) else pure tt

  unfoldable pub resume_run : Uuid → Uuid → M Run
  resume_run project_id run_id = do
    r ← get_run run_id
    require (r.project_id == project_id) (new_not_found run)
    require (run_status_eq r.status RunStatus.paused) invalid_transition
    updated ← update_run_status run_id RunStatus.running none none none none
    publish_run_event svc updated.project_id updated.id "resumed" (
        ("run_id", PayloadValue.uuid run_id)
        ∷ ("story_id", PayloadValue.uuid updated.story_id)
        ∷ ("status", PayloadValue.str "running")
        ∷ [])
    enqueue_run run_id
    pure updated

  unfoldable pub start_stage : Uuid → Uuid → M Run
  start_stage project_id story_id = do
    s ← get_story story_id
    require (s.project_id == project_id) (new_not_found story)
    active ← get_active_run_by_story story_id
    r ← or_no_active_run active
    require (run_status_eq r.status RunStatus.paused) stage_not_startable
    require (as_string (meta_get (named "paused_reason") r.metadata) =s= "awaiting_manual_start")
        stage_not_startable
    update_run_metadata r.id (started_metadata r.metadata)
    updated ← update_run_status r.id RunStatus.running none none none none
    publish_run_event svc updated.project_id updated.id "resumed" (
        ("run_id", PayloadValue.uuid updated.id)
        ∷ ("story_id", PayloadValue.uuid updated.story_id)
        ∷ ("status", PayloadValue.str "running")
        ∷ ("stage_id", PayloadValue.str (as_string (meta_get (named "paused_stage_id") r.metadata)))
        ∷ ("trigger", PayloadValue.str "manual_start")
        ∷ [])
    enqueue_run updated.id
    pure updated
