-- ===== src/RunService/Cancel.antt =====
-- `CancelRun` and its helpers (service/run_service.go).
pub mod Loop
pub mod Listing
pub mod Closing
use hopeitworks.Prelude.{String, Option, none, some, [], ◌∷◌, ◌==◌, ◌=s=◌, if◌then◌else◌}
use hopeitworks.Errors.{run, new_not_found}
use hopeitworks.Action.{◌>>=◌, ◌>>◌, pure, lift, require, attempt, for_each}
use hopeitworks.Model.Status.{RunStatus, StepStatus, StoryStatus, validate_run_transition}
use hopeitworks.Model.Entities.{Uuid, uuid_nil, Time, ErrorText, text, Run, RunStep, PayloadValue}
use hopeitworks.World.{M, time_now}
use hopeitworks.Repo.Runs.{
  get_run, update_run_status, list_run_steps_by_run, update_run_step_status,
}
use hopeitworks.Repo.Rows.{get_story, update_story_status}
use hopeitworks.Repo.Outbox.{stop_execution}
use hopeitworks.RunService.{Wiring, publish_run_event, publish_story_event}

abbrev pub cancel_msg : Option ErrorText
cancel_msg = some (text "cancelled by user")

module _ (svc : Wiring) where
  -- Stops by the runtime, else by the container manager; errors are dropped.
  unfoldable pub stop_step_execution : Option String → M (Unit {0})
  stop_step_execution none = pure tt
  stop_step_execution (some handle) =
      if handle =s= ""
      then pure tt
      else if svc.has_agent_runtime
      then (do attempt (stop_execution handle); pure tt)
      else if svc.has_container_mgr
      then (do attempt (stop_execution handle); pure tt)
      else pure tt

  -- What follows the read of the story: nothing for one in the backlog.
  unfoldable pub reset_story : Run → StoryStatus → M (Unit {0})
  reset_story r StoryStatus.backlog = pure tt
  reset_story r _ = do
    update_story_status r.story_id StoryStatus.backlog
    publish_story_event svc r.project_id r.story_id r.id "backlog"

  -- The story goes back to the backlog; every error ends this quietly.
  unfoldable pub transition_story_to_backlog : Run → M (Unit {0})
  unfolding publish_story_event reset_story
  transition_story_to_backlog r =
      if r.story_id == uuid_nil
      then pure tt
      else (do attempt (do s ← get_story r.story_id; reset_story r s.status); pure tt)

  -- One round of the loop over the steps of a cancelled run.
  unfoldable pub cancel_step : Time → RunStep → M (Unit {0})
  unfolding stop_step_execution
  cancel_step now s = elim s.status [
    | StepStatus.pending ↦ do
      update_run_step_status s.id StepStatus.cancelled none (some now) cancel_msg
      pure tt
    | StepStatus.running ↦ do
      stop_step_execution s.container_id
      update_run_step_status s.id StepStatus.cancelled none (some now) cancel_msg
      pure tt
    | StepStatus.waiting_approval ↦ do
      stop_step_execution s.container_id
      update_run_step_status s.id StepStatus.cancelled none (some now) cancel_msg
      pure tt
    | _ ↦ pure tt
  ]

  unfoldable pub cancel_run : Uuid → Uuid → M Run
  cancel_run project_id run_id = do
    r ← get_run run_id
    require (r.project_id == project_id) (new_not_found run)
    lift (validate_run_transition r.status RunStatus.cancelled)
    steps ← list_run_steps_by_run run_id
    now ← time_now
    for_each steps (cancel_step now)
    updated ← update_run_status run_id RunStatus.cancelled none (some now) none cancel_msg
    publish_run_event svc updated.project_id updated.id "cancelled" (
        ("run_id", PayloadValue.uuid run_id)
        ∷ ("story_id", PayloadValue.uuid updated.story_id)
        ∷ ("status", PayloadValue.str "cancelled")
        ∷ ("cancelled_at", PayloadValue.time now)
        ∷ [])
    transition_story_to_backlog updated
    pure updated
