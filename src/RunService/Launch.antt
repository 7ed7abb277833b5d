-- ===== src/RunService/Launch.antt =====
-- `LaunchRun` (service/run_service.go). `parse` stands for `uuid.Parse`, and a configuration's row
-- holds the decoded YAML.
pub mod Created
use hopeitworks.Prelude.{
  ℕ, ◌+◌, String, Bool, true, false, ◌&&◌, ◌||◌, Option, none, some, List, [], ◌∷◌, ◌==◌, ◌=s=◌,
  not, if◌then◌else◌,
}
use hopeitworks.Errors.{
  DomainError, Result, ok, err, conflict, not_found, validation, story, agent, domain_error,
  new_not_found, new_internal, new_validation,
}
use hopeitworks.Action.{◌>>=◌, ◌>>◌, pure, fail, lift, require, attempt}
use hopeitworks.Model.Status.{RunStatus, StoryStatus, story_status_eq}
use hopeitworks.Model.Config.{
  PipelineStep, PipelineConfigYaml, PipelineConfigRawYaml, StepWithStage, flat_steps,
  flat_steps_with_stage, parse_pipeline_config_yaml,
}
use hopeitworks.Model.Entities.{
  Uuid, Run, RunStep, Agent, PipelineConfigRow, encoded, of_step, named, MetaValue, Metadata,
  meta_set, runtime_kind_from_provider,
}
use hopeitworks.World.{M, execute_run}
use hopeitworks.Repo.Runs.{create_run, create_run_step, get_active_run_by_story}
use hopeitworks.Repo.Rows.{get_story, get_pipeline_config, get_agent, get_stack}
use hopeitworks.Repo.Outbox.{enqueue}
use hopeitworks.RunService.{Wiring}
use hopeitworks.RunService.Create.{new_step}

abbrev pub needs_agent : String → Bool
needs_agent action_type =
    action_type =s= "agent_run"
    || action_type =s= "implement"
    || action_type =s= "review"
    || action_type =s= "merge"

abbrev pub no_active_run : Option Run → M (Unit {0})
no_active_run none = pure tt
no_active_run (some r) = fail (domain_error conflict "STORY_ALREADY_RUNNING")

-- `isNotFound`.
abbrev is_not_found : DomainError → Bool
is_not_found e = elim e.category [ not_found ↦ true | _ ↦ false ]

abbrev pub config_or_error : Result PipelineConfigRow → Result PipelineConfigRow
config_or_error (ok row) = ok row
config_or_error (err e) =
    if is_not_found e then err (domain_error not_found "PIPELINE_CONFIG_NOT_FOUND") else err e

-- The YAML of the row, decoded and normalised.
abbrev pub parsed_config : Option PipelineConfigRawYaml → Result PipelineConfigYaml
parsed_config none = err new_internal
parsed_config (some raw) = ok (parse_pipeline_config_yaml raw)

abbrev pub not_empty : List PipelineStep → Result (Unit {0})
not_empty [] = err (domain_error validation "PIPELINE_CONFIG_EMPTY")
not_empty (s ∷ ss) = ok tt

-- `if v != "" { runMetadata[k] = v }`.
abbrev pub set_nonempty : ℕ → String → String → Metadata → Metadata
set_nonempty i key v m = if v =s= "" then m else meta_set (of_step i key) (MetaValue.str v) m

abbrev pub agent_or_error : Result Agent → Result Agent
agent_or_error (ok a) = ok a
agent_or_error (err e) = err (new_not_found agent)

unfoldable pub agent_metadata : ℕ → Agent → String → Metadata → Metadata
agent_metadata i a image m =
    let m1 = meta_set (of_step i "agent_id") (MetaValue.uuid a.id) m in
    let m2 = meta_set (of_step i "model") (MetaValue.str a.model) m1 in
    let m3 = set_nonempty i "provider" a.provider m2 in
    let m4 = set_nonempty i "agent_image" image m3 in
    let kind =
      if a.runtime_kind =s= "" then runtime_kind_from_provider a.provider else a.runtime_kind in
    set_nonempty i "template_content" a.template_content
      (meta_set (of_step i "runtime_kind") (MetaValue.str kind) m4)

-- The loop over the steps with their stages.
unfoldable pub create_staged_steps : Uuid → ℕ → List StepWithStage → M (List RunStep)
create_staged_steps run_id i [] = pure []
create_staged_steps run_id i (c ∷ cs) = do
  created ←
      create_run_step (new_step run_id c.step.name i c.step.action_type c.group_id c.group_name)
  rest ← create_staged_steps run_id (i + 1) cs
  pure (created ∷ rest)

module _ (svc : Wiring) (parse : String → Option Uuid) where
  unfoldable pub effective_image : Agent → M String
  effective_image a = elim a.stack_ref [
    | none ↦ pure a.image
    | some ref ↦
        if svc.has_stack_repo then (do s ← get_stack ref; pure s.image_ref) else pure a.image
  ]

  unfoldable pub agent_step_metadata : ℕ → Option Uuid → Metadata → M Metadata
  unfolding agent_metadata effective_image
  agent_step_metadata i none m = fail new_validation
  agent_step_metadata i (some id) m = do
    require svc.has_agent_repo new_internal
    fetched ← attempt (get_agent id)
    a ← lift (agent_or_error fetched)
    image ← effective_image a
    pure (agent_metadata i a image m)

  unfoldable pub step_metadata : ℕ → PipelineStep → Metadata → M Metadata
  unfolding agent_step_metadata
  step_metadata i s m = do
    require (not (needs_agent s.action_type && s.agent_id =s= "")) new_validation
    if s.agent_id =s= ""
        then pure (set_nonempty i "model" s.model m)
        else agent_step_metadata i (parse s.agent_id) m

  unfoldable pub steps_metadata : ℕ → List PipelineStep → Metadata → M Metadata
  unfolding step_metadata
  steps_metadata i [] m = pure m
  steps_metadata i (s ∷ ss) m = do m' ← step_metadata i s m; steps_metadata (i + 1) ss m'

  -- From the creation of the run on.
  unfoldable pub create_all : Uuid → Uuid → PipelineConfigYaml → Metadata → M (Run × List RunStep)
  unfolding create_staged_steps
  create_all project_id story_id parsed metadata = do
    created ← create_run project_id story_id RunStatus.pending (encoded parsed) metadata
    steps ← create_staged_steps created.id 0 (flat_steps_with_stage parsed)
    require svc.has_job_queue new_internal
    enqueue (execute_run created.id)
    pure (created, steps)

  -- What follows the fetch of the configuration.
  unfoldable pub launch_with :
      Uuid → Uuid → Uuid → Result PipelineConfigRow → M (Run × List RunStep)
  unfolding steps_metadata create_all
  launch_with project_id story_id user_id fetched = do
    row ← lift (config_or_error fetched)
    parsed ← lift (parsed_config row.config)
    lift (not_empty (flat_steps parsed))
    metadata ←
        steps_metadata 0 (flat_steps parsed)
          ((named "launched_by_user_id", MetaValue.uuid user_id) ∷ [])
    create_all project_id story_id parsed metadata

  unfoldable pub launch_run : Uuid → Uuid → Uuid → M (Run × List RunStep)
  unfolding launch_with
  launch_run project_id story_id user_id = do
    s ← get_story story_id
    require (s.project_id == project_id) (new_not_found story)
    require (not (story_status_eq s.status StoryStatus.done))
        (domain_error validation "STORY_ALREADY_COMPLETED")
    active ← get_active_run_by_story story_id
    no_active_run active
    fetched ← attempt (get_pipeline_config project_id)
    launch_with project_id story_id user_id fetched
