-- ===== src/Executor/Steps.antt =====
-- One step of a run (service/pipeline_executor.go: executeStep, extractStepConfig).
use hopeitworks.Prelude.{
  ℕ, String, Bool, true, false, Option, none, some, List, [], ◌∷◌, ◌++◌, get_elem?, ◌=s=◌,
  if◌then◌else◌,
}
use hopeitworks.Errors.{Result, ok, err, domain_error, not_found}
use hopeitworks.Action.{◌>>=◌, ◌>>◌, pure, fail, caught, logged}
use hopeitworks.Model.Status.{StepStatus, step_status_eq}
use hopeitworks.Model.Config.{PipelineStep, flat_steps}
use hopeitworks.Model.Entities.{
  Uuid, uuid_nil, Run, RunStep, Metadata, MetaKey, MetaValue, named, of_step, str, bool, uuid,
  meta_get, meta_set, meta_delete, Snapshot, absent, unparseable, encoded, PayloadValue,
}
use hopeitworks.World.{M, time_now}
use hopeitworks.Repo.Runs.{update_run_step_status, update_run_metadata, get_run_step}
use hopeitworks.Executor.{PipelineExecutor, RunContext, StepAction, publish_event, step_payload}

-- `flatSteps[stepOrder].Config`, or nil.
abbrev config_of : Option PipelineStep → List (String × String)
config_of none = []
config_of (some s) = s.config

unfoldable pub extract_step_config : Snapshot → ℕ → List (String × String)
extract_step_config absent step_order = []
extract_step_config unparseable step_order = []
extract_step_config (encoded c) step_order = config_of (get_elem? (flat_steps c) step_order)

-- `v, ok := m[k].(string); ok && v != ""`.
unfoldable pub as_text : Option MetaValue → Option MetaValue
as_text none = none
as_text (some (str s)) = if s =s= "" then none else some (str s)
as_text (some (uuid u)) = some (uuid u)
as_text (some (bool b)) = none

abbrev put_or_delete : MetaKey → Option MetaValue → Metadata → Metadata
put_or_delete k none m = meta_delete k m
put_or_delete k (some v) m = meta_set k v m

-- The value of `step_<order>_<name>` becomes that of `<name>`, or `<name>` is removed.
unfoldable pub inject : ℕ → String → Metadata → Metadata
unfolding as_text
inject step_order name m =
    put_or_delete (named name) (as_text (meta_get (of_step step_order name) m)) m

unfoldable pub step_values : ℕ → Metadata → Metadata
unfolding inject
step_values step_order m = inject step_order "runtime_kind" (
    inject step_order "agent_image" (
      inject step_order "agent_id"
        (inject step_order "model" (inject step_order "template_content" m))))

abbrev or_nil : Option Uuid → Uuid
or_nil none = uuid_nil
or_nil (some u) = u

abbrev step_not_found : StepAction
step_not_found c = fail (domain_error not_found "ACTION_NOT_FOUND")

-- `actionReg.Get(name)`, whose error ends the step like the action's own.
abbrev pub action_or_missing : Option StepAction → StepAction
action_or_missing none = step_not_found
action_or_missing (some a) = a

-- The status of a step read again; a failed read counts as not waiting.
abbrev pub is_waiting : Result RunStep → Bool
is_waiting (ok s) = step_status_eq s.status StepStatus.waiting_approval
is_waiting (err x) = false

module _ (e : PipelineExecutor) where
  unfoldable pub launched_by : Option MetaValue → Uuid
  launched_by none = uuid_nil
  launched_by (some (str s)) = if s =s= "" then uuid_nil else or_nil (e.parse_uuid s)
  launched_by (some (uuid u)) = u
  launched_by (some (bool b)) = uuid_nil

  unfoldable pub run_context : Run → RunStep → Metadata → RunContext
  unfolding extract_step_config step_values launched_by
  run_context r s m = record {
    run = r;
    run_step = s;
    step_config = extract_step_config r.pipeline_config_snapshot s.step_order;
    project_id = r.project_id;
    story_id = r.story_id;
    user_id = launched_by (meta_get (named "launched_by_user_id") m);
    metadata = step_values s.step_order m;
  }

  -- The step becomes running.
  unfoldable pub begin_step : Run → RunStep → M RunStep
  unfolding publish_event
  begin_step r s = do
    now ← time_now
    updated ← update_run_step_status s.id StepStatus.running (some now) none none
    publish_event r.project_id "step" updated.id "started" (
        step_payload r updated "running"
        ++ ("action", PayloadValue.str updated.action) ∷ ("started_at", PayloadValue.time now) ∷ [])
    pure updated

  -- The step becomes completed.
  unfoldable pub complete_step : Run → RunStep → M (Unit {0})
  unfolding publish_event
  complete_step r s = do
    now ← time_now
    updated ← update_run_step_status s.id StepStatus.completed none (some now) none
    publish_event r.project_id "step" updated.id "completed"
        (step_payload r updated "completed" ++ ("completed_at", PayloadValue.time now) ∷ [])

  unfoldable pub complete_unless : Bool → Run → RunStep → Metadata → M (Option Metadata)
  unfolding complete_step
  complete_unless true r s m = pure none
  complete_unless false r s m = do complete_step r s; pure (some m)

  -- After the action: its metadata is stored, the step is read again, and it ends unless it waits.
  unfoldable pub end_step : Run → RunStep → Metadata → M (Option Metadata)
  unfolding complete_unless
  end_step r s m = do
    logged (update_run_metadata r.id m)
    again ← caught (get_run_step s.id)
    complete_unless (is_waiting again) r s m

  -- The metadata for the next step, or `none` for `errStepSuspended`.
  unfoldable pub execute_step : Run → RunStep → Metadata → M (Option Metadata)
  unfolding begin_step run_context end_step
  execute_step r s m = do
    updated ← begin_step r s
    m' ← action_or_missing (e.actions updated.action) (run_context r updated m)
    end_step r updated m'
