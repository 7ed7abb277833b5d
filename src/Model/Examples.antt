-- ===== src/Model/Examples.antt =====
-- A legacy configuration of one step.
use hopeitworks.Prelude.Int.{pos}
use hopeitworks.Prelude.{◌≡◌, false, [], ◌∷◌, map}
use hopeitworks.Model.Config.{
  PipelineStep, PipelineConfigRawYaml, StepWithStage, parse_pipeline_config_yaml, flat_steps,
  flat_steps_with_stage,
}
use hopeitworks.Model.Config.Laws.{map-flat_steps_with_stage}

abbrev step : PipelineStep
step = record {
  id = "s";
  name = "implement";
  action_type = "agent_run";
  agent_id = "";
  model = "m";
  auto_approve = false;
  retry_policy = record { max_retries = pos 2; retry_type = "" };
  config = [];
  guards = [];
}

abbrev raw : PipelineConfigRawYaml
raw = record { groups = []; steps = step ∷ [] }

map-flat_steps_with_stage_example :
    map (λ (x : StepWithStage). x.step) (flat_steps_with_stage (parse_pipeline_config_yaml raw))
    ≡ flat_steps (parse_pipeline_config_yaml raw)
map-flat_steps_with_stage_example = map-flat_steps_with_stage (parse_pipeline_config_yaml raw)
