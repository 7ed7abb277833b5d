-- ===== src/Hitl.antt =====
-- Human gates and probe halts (service/hitl_service.go). A message of a request is not kept, and the
-- text that a wrapped error adds neither.
pub mod Moves
mod Examples
use hopeitworks.Prelude.{
  String, Bool, true, false, ◌&&◌, ◌||◌, Option, none, some, List, [], ◌∷◌, ◌==◌, ◌=s=◌, not,
  if◌then◌else◌,
}
use hopeitworks.Errors.{Result, ok, err, new_validation}
use hopeitworks.Action.{◌>>=◌, ◌>>◌, pure, require, attempt}
use hopeitworks.Model.Status.{RunStatus, StepStatus, HitlStatus, run_status_eq, hitl_status_eq}
use hopeitworks.Model.Entities.{
  Uuid, Time, ErrorText, text, rejected, Run, RunStep, HitlRequest, HaltReason, Event, PayloadValue,
}
use hopeitworks.World.{M, execute_run, time_now, uuid_new}
use hopeitworks.Repo.Runs.{get_run, get_run_step, update_run_status, update_run_step_status}
use hopeitworks.Repo.Rows.{
  get_hitl_request, get_hitl_by_run_step_id, create_hitl_request, update_hitl_status,
}
use hopeitworks.Repo.Outbox.{publish, enqueue}

-- Which of the optional dependencies are set.
pub record Wiring : Type 0 where
  pub has_job_queue : Bool
  pub has_event_pub : Bool

-- What becomes of a step whose gate is closed; a failure is only logged.
unfoldable pub close_step : Uuid → StepStatus → Time → Option ErrorText → M (Unit {0})
close_step step_id status now message = do
  attempt (update_run_step_status step_id status none (some now) message)
  pure tt

unfoldable pub set_running : Run → M (Unit {0})
set_running r =
    if run_status_eq r.status RunStatus.paused
    then (do attempt (update_run_status r.id RunStatus.running none none none none); pure tt)
    else pure tt

abbrev pub rejection_message : Option String → ErrorText
rejection_message none = text "rejected by reviewer"
rejection_message (some reason) =
    if reason =s= "" then text "rejected by reviewer" else rejected reason

abbrev pub valid_hitl_resolution_action : String → Bool
valid_hitl_resolution_action action =
    action =s= "resume"
    || action =s= "override"
    || action =s= "send_back"
    || action =s= "skip"
    || action =s= "abort"

abbrev pub new_gate : Uuid → Uuid → HaltReason → HitlRequest
new_gate step_id id reason = record {
  id = id;
  run_step_id = step_id;
  gate_type = "probe_halt";
  status = HitlStatus.pending;
  resolved_at = none;
  resolved_by = none;
  rejection_reason = none;
  halt_reason = some reason;
  resolution_action = none;
}

-- The gate that a step is already waiting at.
abbrev pub pending_gate : Result HitlRequest → Option HitlRequest
pending_gate (err e) = none
pending_gate (ok req) = if hitl_status_eq req.status HitlStatus.pending then some req else none

module _ (svc : Wiring) where
  unfoldable pub enqueue_again : Uuid → M (Unit {0})
  enqueue_again run_id =
      if svc.has_job_queue then (do attempt (enqueue (execute_run run_id)); pure tt) else pure tt

  -- Its body up to the first error; every error is only logged.
  unfoldable pub try_resume_run : Uuid → M (Unit {0})
  unfolding enqueue_again
  try_resume_run step_id = do
    s ← get_run_step step_id
    r ← get_run s.run_id
    set_running r
    enqueue_again r.id

  unfoldable pub resume_run : Uuid → M (Unit {0})
  unfolding try_resume_run
  resume_run step_id = do attempt (try_resume_run step_id); pure tt

  unfoldable pub try_publish : HitlRequest → String → Uuid → M (Unit {0})
  try_publish req action user_id = do
    s ← get_run_step req.run_step_id
    r ← get_run s.run_id
    publish (record {
      project_id = r.project_id;
      entity_type = "hitl_gate";
      entity_id = req.id;
      action = action;
      payload =
          ("hitl_request_id", PayloadValue.uuid req.id)
          ∷ ("run_id", PayloadValue.uuid s.run_id)
          ∷ ("step_id", PayloadValue.uuid req.run_step_id)
          ∷ ("user_id", PayloadValue.uuid user_id)
          ∷ [];
    })

  unfoldable pub publish_event : HitlRequest → String → Uuid → M (Unit {0})
  unfolding try_publish
  publish_event req action user_id =
      if svc.has_event_pub then (do attempt (try_publish req action user_id); pure tt) else pure tt

  unfoldable pub approve : Uuid → Uuid → M HitlRequest
  unfolding resume_run publish_event
  approve request_id user_id = do
    req ← get_hitl_request request_id
    require (hitl_status_eq req.status HitlStatus.pending) new_validation
    now ← time_now
    updated ← update_hitl_status request_id HitlStatus.approved (some user_id) none none now
    close_step req.run_step_id StepStatus.completed now none
    resume_run req.run_step_id
    publish_event req "approved" user_id
    pure updated

  unfoldable pub reject : Uuid → Uuid → Option String → M HitlRequest
  unfolding publish_event
  reject request_id user_id reason = do
    req ← get_hitl_request request_id
    require (hitl_status_eq req.status HitlStatus.pending) new_validation
    now ← time_now
    updated ← update_hitl_status request_id HitlStatus.rejected (some user_id) reason none now
    close_step req.run_step_id StepStatus.failed now (some (rejection_message reason))
    publish_event req "rejected" user_id
    pure updated

  unfoldable pub try_fail_run : Uuid → ErrorText → M (Unit {0})
  try_fail_run step_id reason = do
    s ← get_run_step step_id
    now ← time_now
    update_run_status s.run_id RunStatus.failed none (some now) none (some reason)
    pure tt

  unfoldable pub fail_run : Uuid → ErrorText → M (Unit {0})
  unfolding try_fail_run
  fail_run step_id reason = do attempt (try_fail_run step_id reason); pure tt

  -- The `switch action`.
  unfoldable pub act_on_step : Uuid → String → Time → M (Unit {0})
  unfolding resume_run fail_run
  act_on_step step_id action now =
      if action =s= "resume"
      then resume_run step_id
      else if action =s= "override" || action =s= "skip"
      then (do close_step step_id StepStatus.completed now none; resume_run step_id)
      else if action =s= "send_back"
      then close_step step_id StepStatus.cancelled now none
      else (do
        close_step step_id StepStatus.failed now (some (text "aborted from probe halt"))
        fail_run step_id (text "aborted from probe halt"))

  unfoldable pub resolve : Uuid → Uuid → String → M HitlRequest
  unfolding act_on_step publish_event
  resolve request_id user_id action = do
    require (valid_hitl_resolution_action action) new_validation
    req ← get_hitl_request request_id
    require (req.gate_type =s= "probe_halt") new_validation
    require (hitl_status_eq req.status HitlStatus.pending) new_validation
    now ← time_now
    updated ←
        update_hitl_status request_id HitlStatus.resolved (some user_id) none (some action) now
    act_on_step req.run_step_id action now
    publish_event req "resolved" user_id
    pure updated

  unfoldable pub pause_for_halt : Run → M (Unit {0})
  pause_for_halt r =
      if run_status_eq r.status RunStatus.running
      then (do
        now ← time_now
        attempt (update_run_status r.id RunStatus.paused none none (some now) none)
        pure tt)
      else pure tt

  unfoldable pub publish_probe_halt_event : HitlRequest → Run → HaltReason → M (Unit {0})
  publish_probe_halt_event req r reason =
      if svc.has_event_pub
      then (do
        attempt (
            publish (record {
              project_id = r.project_id;
              entity_type = "hitl_gate";
              entity_id = req.id;
              action = "pending";
              payload =
                  ("hitl_request_id", PayloadValue.uuid req.id)
                  ∷ ("run_id", PayloadValue.uuid r.id)
                  ∷ ("step_id", PayloadValue.uuid req.run_step_id)
                  ∷ ("gate_type", PayloadValue.str "probe_halt")
                  ∷ ("probe", PayloadValue.str reason.probe)
                  ∷ ("observed", PayloadValue.num reason.observed)
                  ∷ ("threshold", PayloadValue.num reason.threshold)
                  ∷ ("unit", PayloadValue.str reason.unit)
                  ∷ [];
            }))
        pure tt)
      else pure tt

  unfoldable pub raise_new : Uuid → HaltReason → M HitlRequest
  unfolding pause_for_halt publish_probe_halt_event
  raise_new step_id reason = do
    s ← get_run_step step_id
    r ← get_run s.run_id
    id ← uuid_new
    created ← create_hitl_request (new_gate step_id id reason)
    pause_for_halt r
    publish_probe_halt_event created r reason
    pure created

  -- `return existing, nil` for a gate that is still pending.
  abbrev pub raise_unless : Uuid → HaltReason → Option HitlRequest → M HitlRequest
  raise_unless step_id reason none = raise_new step_id reason
  raise_unless step_id reason (some req) = pure req

  unfoldable pub raise_probe_halt : Uuid → HaltReason → M HitlRequest
  unfolding raise_new
  raise_probe_halt step_id reason = do
    existing ← attempt (get_hitl_by_run_step_id step_id)
    raise_unless step_id reason (pending_gate existing)
