-- ===== src/Model/Config.antt =====
-- Pipeline configurations (model/pipeline_config.go). YAML and JSON decoding are libraries': the
-- model starts at the decoded structure, and a `float64` limit is a number of millionths.
pub mod Laws
use hopeitworks.Prelude.Int.{ℤ}
use hopeitworks.Prelude.{
  String, Bool, true, false, ◌||◌, List, [], ◌∷◌, ◌++◌, map, ◌=s=◌, if◌then◌else◌,
}

pub record Guard : Type 0 where
  pub kind : String
  pub threshold : ℤ
  pub max : ℤ
  pub on_fail : String

pub record RetryPolicy : Type 0 where
  pub max_retries : ℤ
  pub retry_type : String

pub record PipelineStep : Type 0 where
  pub id : String
  pub name : String
  pub action_type : String
  pub agent_id : String
  pub model : String
  pub auto_approve : Bool
  pub retry_policy : RetryPolicy
  pub config : List (String × String)
  pub guards : List Guard

pub record PipelineGroup : Type 0 where
  pub id : String
  pub name : String
  pub steps : List PipelineStep
  pub transition : String
  pub guards : List Guard

pub record PipelineConfigYaml : Type 0 where
  pub groups : List PipelineGroup

-- The decoded YAML before normalisation: the groups, and the flat steps of the old format.
pub record PipelineConfigRawYaml : Type 0 where
  pub groups : List PipelineGroup
  pub steps : List PipelineStep

pub record StepWithStage : Type 0 where
  pub step : PipelineStep
  pub group_id : String
  pub group_name : String

abbrev pub transition_auto : String
transition_auto = "auto"

abbrev pub transition_manual : String
transition_manual = "manual"

abbrev pub transition_gate : String
transition_gate = "gate"

abbrev pub guard_on_fail_halt_gate : String
guard_on_fail_halt_gate = "halt-gate"

unfoldable pub normalize_guards : List Guard → List Guard
normalize_guards [] = []
normalize_guards (g ∷ gs) =
    (if g.on_fail =s= "" then record g { on_fail = guard_on_fail_halt_gate } else g)
    ∷ normalize_guards gs

unfoldable pub normalize_steps : List PipelineStep → List PipelineStep
normalize_steps [] = []
normalize_steps (s ∷ ss) = record s { guards = normalize_guards s.guards } ∷ normalize_steps ss

unfoldable pub normalize_group : PipelineGroup → PipelineGroup
normalize_group g = record g {
  transition = if g.transition =s= "" then transition_auto else g.transition;
  guards = normalize_guards g.guards;
  steps = normalize_steps g.steps;
}

unfoldable pub normalize_groups : List PipelineGroup → List PipelineGroup
normalize_groups [] = []
normalize_groups (g ∷ gs) = normalize_group g ∷ normalize_groups gs

-- The three cases of `ParsePipelineConfigYAML` after decoding: groups, legacy flat steps, neither.
unfoldable pub wrap_legacy_steps : List PipelineGroup → List PipelineStep → List PipelineGroup
wrap_legacy_steps (g ∷ gs) steps = g ∷ gs
wrap_legacy_steps [] (s ∷ ss) =
    record { id = "default"; name = "Default"; steps = s ∷ ss; transition = ""; guards = [] } ∷ []
wrap_legacy_steps [] [] = []

unfoldable pub parse_pipeline_config_yaml : PipelineConfigRawYaml → PipelineConfigYaml
unfolding normalize_groups wrap_legacy_steps
parse_pipeline_config_yaml raw = record {
  groups = normalize_groups (wrap_legacy_steps raw.groups raw.steps);
}

transition_for : List PipelineGroup → String → String
transition_for [] stage_id = transition_auto
transition_for (g ∷ gs) stage_id =
    if g.id =s= stage_id
    then (if g.transition =s= "" then transition_auto else g.transition)
    else transition_for gs stage_id

unfoldable pub transition_for_stage : PipelineConfigYaml → String → String
unfolding transition_for
transition_for_stage c stage_id = transition_for c.groups stage_id

-- The inner loop of `GuardsForStep`: the guards of the first step of this identifier, if any.
step_guards : List PipelineStep → String → List (List Guard)
step_guards [] step_id = []
step_guards (s ∷ ss) step_id = if s.id =s= step_id then s.guards ∷ [] else step_guards ss step_id

abbrev or_else : List Guard → List (List Guard) → List Guard → List Guard
or_else stage (own ∷ _) rest = own ++ stage
or_else stage [] rest = rest

guards_for : List PipelineGroup → String → List Guard
unfolding step_guards
guards_for [] step_id = []
guards_for (g ∷ gs) step_id = or_else g.guards (step_guards g.steps step_id) (guards_for gs step_id)

-- `nil` and the empty slice are one list.
unfoldable pub guards_for_step : PipelineConfigYaml → String → List Guard
unfolding guards_for
guards_for_step c step_id = guards_for c.groups step_id

steps_of : List PipelineGroup → List PipelineStep
steps_of [] = []
steps_of (g ∷ gs) = g.steps ++ steps_of gs

unfoldable pub flat_steps : PipelineConfigYaml → List PipelineStep
unfolding steps_of
flat_steps c = steps_of c.groups

abbrev pub with_stage : PipelineGroup → PipelineStep → StepWithStage
with_stage g s = record { step = s; group_id = g.id; group_name = g.name }

staged_steps_of : List PipelineGroup → List StepWithStage
staged_steps_of [] = []
staged_steps_of (g ∷ gs) = map (with_stage g) g.steps ++ staged_steps_of gs

unfoldable pub flat_steps_with_stage : PipelineConfigYaml → List StepWithStage
unfolding staged_steps_of
flat_steps_with_stage c = staged_steps_of c.groups

-- `ValidActionTypes[s]`.
unfoldable pub is_valid_action_type : String → Bool
is_valid_action_type s =
    s =s= "agent_run"
    || s =s= "git_branch"
    || s =s= "git_pr"
    || s =s= "notification"
    || s =s= "human"
    || s =s= "ci_poll"
    || s =s= "hitl_gate"
    || s =s= "implement"
    || s =s= "review"
    || s =s= "merge"
    || s =s= "test"
    || s =s= "custom"
