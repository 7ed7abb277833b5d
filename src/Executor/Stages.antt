-- ===== src/Executor/Stages.antt =====
-- Stages of a run (service/pipeline_executor.go): entering, leaving, and the transition policies
-- "manual" and "gate".
use hopeitworks.Prelude.{
  String, Bool, false, ◌||◌, Option, none, some, List, [], ◌∷◌, ◌++◌, ◌==◌, ◌=s=◌, if◌then◌else◌,
  not,
}
use hopeitworks.Errors.{Result, ok, err}
use hopeitworks.Action.{◌>>=◌, ◌>>◌, pure, caught, logged}
use hopeitworks.Model.Status.{RunStatus, StepStatus, HitlStatus, hitl_status_eq}
use hopeitworks.Model.Config.{
  PipelineConfigYaml, transition_for_stage, transition_auto, transition_manual, transition_gate,
}
use hopeitworks.Model.Entities.{
  Uuid, uuid_nil, Run, RunStep, HitlRequest, Metadata, MetaValue, named, stage_started, meta_get,
  meta_set, as_bool, absent, unparseable, encoded, PayloadValue,
}
use hopeitworks.World.{M, time_now, uuid_new}
use hopeitworks.Repo.Runs.{update_run_status, update_run_metadata, update_run_step_status}
use hopeitworks.Repo.Rows.{update_story_current_stage, get_hitl_by_run_step_id, create_hitl_request}
use hopeitworks.Executor.{PipelineExecutor, publish_event}

pub record StageRef : Type 0 where
  pub id : String
  pub name : String

abbrev pub new_stage_ref : RunStep → StageRef
new_stage_ref s = record { id = s.stage_id; name = s.stage_name }

abbrev pub matches : Option StageRef → String → Bool
matches none stage_id = false
matches (some s) stage_id = s.id =s= stage_id

-- What a transition policy decides: `nil`, or `errStageSuspended`.
pub data Verdict : Type 0 where
  proceed suspended : Verdict

unfoldable pub parse_transition_policy : Run → Option PipelineConfigYaml
parse_transition_policy r = elim r.pipeline_config_snapshot [
  | absent ↦ none
  | unparseable ↦ none
  | encoded c ↦ some c
]

unfoldable pub transition_for : Option PipelineConfigYaml → String → String
transition_for none stage_id = transition_auto
transition_for (some c) stage_id = transition_for_stage c stage_id

abbrev stage_payload : Run → StageRef → List (String × PayloadValue)
stage_payload r stage =
    ("stage_id", PayloadValue.str stage.id)
    ∷ ("stage_name", PayloadValue.str stage.name)
    ∷ ("story_id", PayloadValue.uuid r.story_id)
    ∷ ("run_id", PayloadValue.uuid r.id)
    ∷ []

-- `if run.StoryID != uuid.Nil { ... UpdateStoryCurrentStage ... }`, its error logged.
unfoldable pub set_current_stage : Run → Option String → M (Unit {0})
set_current_stage r stage =
    if r.story_id == uuid_nil then pure tt else logged (update_story_current_stage r.story_id stage)

abbrev next_payload : Option StageRef → List (String × PayloadValue)
next_payload none = []
next_payload (some n) =
    ("next_stage_id", PayloadValue.str n.id) ∷ ("next_stage_name", PayloadValue.str n.name) ∷ []

-- The metadata of a run that waits for the start of a manual stage.
abbrev pub parked_metadata : StageRef → Metadata → Metadata
parked_metadata stage m = meta_set (named "paused_stage_name") (MetaValue.str stage.name) (
    meta_set (named "paused_stage_id") (MetaValue.str stage.id)
      (meta_set (named "paused_reason") (MetaValue.str "awaiting_manual_start") m))

module _ (e : PipelineExecutor) where
  unfoldable pub enter_stage : Run → StageRef → M (Unit {0})
  unfolding publish_event set_current_stage
  enter_stage r stage = do
    set_current_stage r (some stage.name)
    publish_event r.project_id "stage" (e.stage_entity_id r.id stage.id) "entered"
        (stage_payload r stage)

  unfoldable pub exit_stage : Run → Option StageRef → Option StageRef → M (Unit {0})
  unfolding publish_event
  exit_stage r none next = pure tt
  exit_stage r (some prev) next =
      publish_event r.project_id "stage" (e.stage_entity_id r.id prev.id) "exited"
        (stage_payload r prev ++ next_payload next)

  unfoldable pub park_at_stage : Run → StageRef → Metadata → M Verdict
  unfolding publish_event set_current_stage
  park_at_stage r next m = do
    logged (update_run_metadata r.id (parked_metadata next m))
    now ← time_now
    update_run_status r.id RunStatus.paused none none (some now) none
    set_current_stage r (some next.name)
    publish_event r.project_id "stage" (e.stage_entity_id r.id next.id) "awaiting_start"
        (stage_payload r next ++ ("transition", PayloadValue.str transition_manual) ∷ [])
    pure suspended

  unfoldable pub enforce_manual_on_enter :
      Run → StageRef → Option PipelineConfigYaml → Metadata → M Verdict
  unfolding transition_for park_at_stage
  enforce_manual_on_enter r next policy m =
      if not (transition_for policy next.id =s= transition_manual)
        || as_bool (meta_get (stage_started next.id) m)
      then pure proceed
      else park_at_stage r next m

  -- What follows `uuid.New()`.
  unfoldable pub raise_gate_as : Run → StageRef → RunStep → Uuid → M Verdict
  unfolding publish_event
  raise_gate_as r leaving anchor id = do
    create_hitl_request (record {
      id = id;
      run_step_id = anchor.id;
      gate_type = "approval";
      status = HitlStatus.pending;
      resolved_at = none;
      resolved_by = none;
      rejection_reason = none;
      halt_reason = none;
      resolution_action = none;
    })
    now ← time_now
    update_run_step_status anchor.id StepStatus.waiting_approval (some now) none none
    update_run_status r.id RunStatus.paused none none (some now) none
    publish_event r.project_id "hitl_gate" id "pending" (
        ("run_id", PayloadValue.uuid r.id)
        ∷ ("story_id", PayloadValue.uuid r.story_id)
        ∷ ("step_id", PayloadValue.uuid anchor.id)
        ∷ ("hitl_request_id", PayloadValue.uuid id)
        ∷ ("stage_id", PayloadValue.str leaving.id)
        ∷ ("stage_name", PayloadValue.str leaving.name)
        ∷ [])
    pure suspended

  unfoldable pub raise_gate : Run → StageRef → RunStep → M Verdict
  unfolding raise_gate_as
  raise_gate r leaving anchor = do id ← uuid_new; raise_gate_as r leaving anchor id

  -- What the look for a gate of the anchor step found: an error counts as none.
  unfoldable pub gate_verdict : Run → StageRef → RunStep → Result HitlRequest → M Verdict
  unfolding raise_gate
  gate_verdict r leaving anchor (ok existing) =
      if hitl_status_eq existing.status HitlStatus.approved then pure proceed else pure suspended
  gate_verdict r leaving anchor (err x) = raise_gate r leaving anchor

  unfoldable pub enforce_gate : Run → StageRef → RunStep → M Verdict
  unfolding gate_verdict
  enforce_gate r leaving anchor = do
    found ← caught (get_hitl_by_run_step_id anchor.id)
    gate_verdict r leaving anchor found

  unfoldable pub enforce_gate_on_exit :
      Run → Option StageRef → Option PipelineConfigYaml → Option RunStep → M Verdict
  unfolding transition_for enforce_gate
  enforce_gate_on_exit r none policy anchor = pure proceed
  enforce_gate_on_exit r (some leaving) policy none = pure proceed
  enforce_gate_on_exit r (some leaving) policy (some anchor) =
      if transition_for policy leaving.id =s= transition_gate
      then (if e.has_hitl_repo then enforce_gate r leaving anchor else pure proceed)
      else pure proceed
