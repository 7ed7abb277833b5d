-- ===== src/RunService/Retry.antt =====
-- `RetryStep` and its helpers (service/run_service.go).
pub mod Limits
use hopeitworks.Prelude.Int.{pos_part}
use hopeitworks.Prelude.{
  ℕ, ◌+◌, String, ◌&&◌, none, some, List, [], ◌∷◌, length, ltb, leb, ◌==◌, ◌=s=◌, if◌then◌else◌,
  not,
}
use hopeitworks.Errors.{conflict, step, domain_error, new_not_found}
use hopeitworks.Action.{◌>>=◌, ◌>>◌, pure, require}
use hopeitworks.Model.Status.{RunStatus, StepStatus, run_status_eq, step_status_eq}
use hopeitworks.Model.Config.{PipelineStep, flat_steps}
use hopeitworks.Model.Entities.{
  Uuid, Run, RunStep, PayloadValue, Snapshot, absent, unparseable, encoded,
}
use hopeitworks.World.{M, uuid_new}
use hopeitworks.Repo.Runs.{
  get_run, update_run_status, get_run_step, list_run_steps_by_run, create_retry_run_step,
  list_retry_steps_by_parent,
}
use hopeitworks.RunService.{Wiring, publish_run_event, enqueue_run}

-- The loop over the flat steps for the step's own retry limit.
unfoldable pub retry_limit : List PipelineStep → String → ℕ
retry_limit [] name = 3
retry_limit (ps ∷ rest) name =
    if ps.name =s= name && ltb 0 (pos_part ps.retry_policy.max_retries)
    then pos_part ps.retry_policy.max_retries
    else retry_limit rest name

unfoldable pub max_retries : Snapshot → String → ℕ
unfolding retry_limit
max_retries absent name = 3
max_retries unparseable name = 3
max_retries (encoded c) name = retry_limit (flat_steps c) name

abbrev pub root_step_id : RunStep → Uuid
root_step_id s = elim s.parent_step_id [ none ↦ s.id | some p ↦ p ]

abbrev pub retry_type_for : ℕ → String
retry_type_for retry_count = if ltb 2 retry_count then "full" else "incremental"

abbrev pub retry_of : RunStep → Uuid → RunStep
retry_of s id = record s {
  id = id;
  status = StepStatus.pending;
  started_at = none;
  completed_at = none;
  error_message = none;
  container_id = none;
  retry_count = s.retry_count + 1;
  retry_type = some (retry_type_for (s.retry_count + 1));
  parent_step_id = some (root_step_id s);
}

-- A failed run is set running again.
unfoldable pub reopen_run : Run → M (Unit {0})
reopen_run r =
    if run_status_eq r.status RunStatus.failed
    then (do update_run_status r.id RunStatus.running none none none none; pure tt)
    else pure tt

-- The final read of the run with its steps is `get_run_with_steps`.
unfoldable pub get_run_with_steps : Uuid → M (Run × List RunStep)
get_run_with_steps id = do r ← get_run id; steps ← list_run_steps_by_run id; pure (r, steps)

module _ (svc : Wiring) where
  -- What follows the guards and the retry's new identifier; `s` was found by `stepID`.
  unfoldable pub add_retry : Run → RunStep → Uuid → Uuid → M (Run × List RunStep)
  unfolding enqueue_run reopen_run get_run_with_steps
  add_retry r s run_id id = do
    create_retry_run_step (retry_of s id)
    reopen_run r
    enqueue_run svc run_id
    publish_run_event svc r.project_id run_id "step.retry_initiated" (
        ("run_id", PayloadValue.uuid run_id)
        ∷ ("step_id", PayloadValue.uuid s.id)
        ∷ ("retry_step_id", PayloadValue.uuid id)
        ∷ ("retry_count", PayloadValue.num (s.retry_count + 1))
        ∷ ("retry_type", PayloadValue.str (retry_type_for (s.retry_count + 1)))
        ∷ [])
    get_run_with_steps run_id

  unfoldable pub retry_step : Uuid → Uuid → M (Run × List RunStep)
  unfolding add_retry
  retry_step run_id step_id = do
    r ← get_run run_id
    s ← get_run_step step_id
    require (s.run_id == run_id) (new_not_found step)
    require (step_status_eq s.status StepStatus.failed) (domain_error conflict "STEP_NOT_FAILED")
    existing ← list_retry_steps_by_parent (root_step_id s)
    require (not (leb (max_retries r.pipeline_config_snapshot s.step_name) (length existing)))
        (domain_error conflict "RETRY_MAX_EXCEEDED")
    id ← uuid_new
    add_retry r s run_id id
