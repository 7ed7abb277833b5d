-- ===== src/RunService/Create.antt =====
-- `CreateRun` (service/run_service.go): a run from a flat list of steps.
use hopeitworks.Prelude.{ℕ, ◌+◌, String, Option, none, some, List, [], ◌∷◌, ◌==◌, not}
use hopeitworks.Errors.{Result, ok, err, new_validation}
use hopeitworks.Action.{◌>>=◌, ◌>>◌, pure, lift, require}
use hopeitworks.Model.Status.{RunStatus, StepStatus}
use hopeitworks.Model.Entities.{Uuid, uuid_nil, Run, RunStep, Snapshot}
use hopeitworks.World.{M}
use hopeitworks.Repo.Runs.{create_run, create_run_step}
use hopeitworks.Repo.Rows.{get_project}

pub record PipelineStepConfig : Type 0 where
  pub name : String
  pub action : String

-- A step as the services create it: pending, and without what later stages fill in.
abbrev pub new_step : Uuid → String → ℕ → String → String → String → RunStep
new_step run_id name order action stage_id stage_name = record {
  id = uuid_nil;
  run_id = run_id;
  step_name = name;
  step_order = order;
  action = action;
  status = StepStatus.pending;
  started_at = none;
  completed_at = none;
  error_message = none;
  container_id = none;
  stage_id = stage_id;
  stage_name = stage_name;
  retry_count = 0;
  retry_type = none;
  parent_step_id = none;
}

-- `for i, stepConfig := range config.Steps`.
unfoldable pub create_steps : Uuid → ℕ → List PipelineStepConfig → M (List RunStep)
create_steps run_id i [] = pure []
create_steps run_id i (c ∷ cs) = do
  created ← create_run_step (new_step run_id c.name i c.action "" "")
  rest ← create_steps run_id (i + 1) cs
  pure (created ∷ rest)

-- The steps that the JSON decodes to: `none` where it is empty or invalid, and where the list is empty.
abbrev pub decoded_steps : Option (List PipelineStepConfig) → Result (List PipelineStepConfig)
decoded_steps none = err new_validation
decoded_steps (some []) = err new_validation
decoded_steps (some (c ∷ cs)) = ok (c ∷ cs)

-- `unmarshal` stands for `json.Unmarshal` into a `PipelineConfig`.
module _ (unmarshal : Snapshot → Option (List PipelineStepConfig)) where
  unfoldable pub create_run_from_steps : Uuid → Uuid → Snapshot → M (Run × List RunStep)
  unfolding create_steps
  create_run_from_steps project_id story_id snapshot = do
    require (not (project_id == uuid_nil)) new_validation
    require (not (story_id == uuid_nil)) new_validation
    get_project project_id
    configs ← lift (decoded_steps (unmarshal snapshot))
    created ← create_run project_id story_id RunStatus.pending snapshot []
    steps ← create_steps created.id 0 configs
    pure (created, steps)
