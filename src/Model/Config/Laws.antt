-- ===== src/Model/Config/Laws.antt =====
-- What holds of a parsed pipeline configuration.
use mathlib.Core.List.{map-append}
use hopeitworks.Prelude.{◌≡◌, refl, ap, List, [], ◌∷◌, map}
use hopeitworks.Model.Config.{
  PipelineStep, PipelineGroup, PipelineConfigYaml, StepWithStage, with_stage, flat_steps,
  flat_steps_with_stage, steps_of, staged_steps_of,
}

map-with_stage :
    (g : PipelineGroup) (ss : List PipelineStep)
    → map (λ (x : StepWithStage). x.step) (map (with_stage g) ss) ≡ ss
map-with_stage g [] = refl
map-with_stage g (s ∷ ss) = ap (λ t. s ∷ t) (map-with_stage g ss)

staged-steps :
    (gs : List PipelineGroup)
    → map (λ (x : StepWithStage). x.step) (staged_steps_of gs) ≡ steps_of gs
unfolding staged_steps_of steps_of
staged-steps [] = refl
staged-steps (g ∷ gs) = rw map-append (cc (map-with_stage g g.steps, staged-steps gs))

-- The stage-aware view lists the same steps in the same order as the flat view.
pub map-flat_steps_with_stage :
    (c : PipelineConfigYaml)
    → map (λ (x : StepWithStage). x.step) (flat_steps_with_stage c) ≡ flat_steps c
unfolding flat_steps flat_steps_with_stage
map-flat_steps_with_stage c = staged-steps c.groups
