-- ===== src/RunService/Launches.antt =====
-- What launching and creating runs (service/run_service.go) do to the statuses of the runs there are.
use hopeitworks.Prelude.{
  refl, true, false, ◌&&◌, Option, none, some, List, [], ◌∷◌, String, ℕ, ◌+◌, ◌==◌, ◌=s=◌, not,
  if◌then◌else◌,
}
use hopeitworks.Errors.{Result, new_internal, new_validation}
use hopeitworks.Action.{◌>>=◌, lift, attempt, pure}
use hopeitworks.Model.Status.{RunStatus, StoryStatus, story_status_eq}
use hopeitworks.Model.Config.{
  PipelineConfigYaml, StepWithStage, PipelineStep, flat_steps, flat_steps_with_stage,
}
use hopeitworks.Model.Entities.{Uuid, Agent, PipelineConfigRow, Metadata, Run, encoded}
use hopeitworks.World.{World, M, execute_run}
use hopeitworks.World.Moves.{Keeps, then_Keeps, lift-Keeps, require-Keeps}
use hopeitworks.World.Advances.{
  Advances, then_Advances, after_Keeps, lift-Advances, require-Advances,
}
use hopeitworks.Repo.Advances.{create_run-Advances}
use hopeitworks.Repo.Runs.{create_run, create_run_step, get_active_run_by_story}
use hopeitworks.Repo.Rows.{get_story, get_pipeline_config, get_agent, get_stack}
use hopeitworks.Repo.Outbox.{enqueue}
use hopeitworks.Repo.Keeps.{
  create_run_step-Keeps, get_story-Keeps, enqueue-Keeps, get_active_run_by_story-Keeps,
  get_pipeline_config-Keeps, get_agent-Keeps, get_stack-Keeps,
}
use hopeitworks.RunService.{Wiring}
use hopeitworks.RunService.Launch.{
  launch_run, launch_with, create_all, set_nonempty, create_staged_steps, steps_metadata,
  step_metadata, agent_step_metadata, effective_image, no_active_run, agent_or_error,
  config_or_error, parsed_config, not_empty, needs_agent, agent_metadata,
}

create_staged_steps-Keeps :
    (id : Uuid) (i : ℕ) (cs : List StepWithStage) (w : World)
    → Keeps w (create_staged_steps id i cs w).1
unfolding create_staged_steps
create_staged_steps-Keeps id i [] w = refl
create_staged_steps-Keeps id i (c ∷ cs) w =
    then_Keeps (create_run_step _) _ w (create_run_step-Keeps _ w) λ _ v.
      then_Keeps (create_staged_steps id (i + 1) cs) _ v (create_staged_steps-Keeps id (i + 1) cs v)
        λ _ _. refl

module _ (svc : Wiring) (parse : String → Option Uuid) where
  effective_image-Keeps : (a : Agent) (w : World) → Keeps w (effective_image svc parse a w).1
  unfolding effective_image
  effective_image-Keeps a w =
      elim a.stack_ref
        as (λ o.
          Keeps w
            ((elim o as (λ _. M String) [
              | none ↦ pure a.image
              | some ref ↦
                  if svc.has_stack_repo
                  then (get_stack ref >>= λ s. pure s.image_ref)
                  else pure a.image
            ])
              w).1) [
                | none ↦ refl
                | some ref ↦
                    elim svc.has_stack_repo
                      as (λ b.
                        Keeps w
                          ((if b then (get_stack ref >>= λ s. pure s.image_ref) else pure a.image)
                            w).1) [
                              | true ↦
                                  then_Keeps (get_stack ref) _ w (get_stack-Keeps ref w) λ _ _. refl
                              | false ↦ refl
                            ]
              ]

  agent_step_metadata-Keeps :
      (i : ℕ) (o : Option Uuid) (m : Metadata) (w : World)
      → Keeps w (agent_step_metadata svc parse i o m w).1
  unfolding agent_step_metadata
  agent_step_metadata-Keeps i none m w = refl
  agent_step_metadata-Keeps i (some id) m w = require-Keeps svc.has_agent_repo new_internal _ w λ _.
      (then_Keeps (attempt (get_agent id))
        (λ fetched. lift (agent_or_error fetched) >>= λ a.
          effective_image svc parse a >>= λ image. pure (agent_metadata i a image m))
        w (get_agent-Keeps id w)
        λ fetched v.
          lift-Keeps (agent_or_error fetched) _ v λ a.
            then_Keeps (effective_image svc parse a) _ v (effective_image-Keeps a v) λ _ _. refl)

  step_metadata-Keeps :
      (i : ℕ) (s : PipelineStep) (m : Metadata) (w : World)
      → Keeps w (step_metadata svc parse i s m w).1
  unfolding step_metadata
  step_metadata-Keeps i s m w =
      require-Keeps (not (needs_agent s.action_type && s.agent_id =s= "")) new_validation _ w λ _.
        (elim (s.agent_id =s= "")
          as (λ b.
            Keeps w
              ((if b
                  then pure (set_nonempty i "model" s.model m)
                  else agent_step_metadata svc parse i (parse s.agent_id) m)
                w).1) [ true ↦ refl | false ↦ agent_step_metadata-Keeps i (parse s.agent_id) m w ])

  steps_metadata-Keeps :
      (i : ℕ) (ss : List PipelineStep) (m : Metadata) (w : World)
      → Keeps w (steps_metadata svc parse i ss m w).1
  unfolding steps_metadata
  steps_metadata-Keeps i [] m w = refl
  steps_metadata-Keeps i (s ∷ ss) m w =
      then_Keeps (step_metadata svc parse i s m) _ w (step_metadata-Keeps i s m w)
        λ m' v. steps_metadata-Keeps (i + 1) ss m' v

  no_active_run-Keeps : (o : Option Run) (w : World) → Keeps w (no_active_run o w).1
  no_active_run-Keeps none w = refl
  no_active_run-Keeps (some r) w = refl

  create_all-Advances :
      (p s : Uuid) (parsed : PipelineConfigYaml) (m : Metadata) (w : World)
      → Advances none w (create_all svc parse p s parsed m w).1
  unfolding create_all
  create_all-Advances p s parsed m w =
      then_Advances (create_run p s RunStatus.pending (encoded parsed) m) _ w
        (create_run-Advances p s RunStatus.pending (encoded parsed) m w)
        λ created v.
          then_Keeps (create_staged_steps created.id 0 (flat_steps_with_stage parsed)) _ v
            (create_staged_steps-Keeps created.id 0 (flat_steps_with_stage parsed) v)
            λ _ u. require-Keeps svc.has_job_queue _ _ u λ _.
              then_Keeps (enqueue (execute_run created.id)) _ u
                (enqueue-Keeps (execute_run created.id) u) λ _ t. refl

  launch_with-Advances :
      (p s u : Uuid) (fetched : Result PipelineConfigRow) (w : World)
      → Advances none w (launch_with svc parse p s u fetched w).1
  unfolding launch_with
  launch_with-Advances p s u fetched w = lift-Advances (config_or_error fetched) _ w λ row _.
      lift-Advances (parsed_config row.config) _ w λ parsed _.
        lift-Advances (not_empty (flat_steps parsed)) _ w λ _ _.
          after_Keeps (steps_metadata svc parse 0 (flat_steps parsed) _) _ w
            (steps_metadata-Keeps 0 (flat_steps parsed) _ w)
            λ metadata v. create_all-Advances p s parsed metadata v

  pub launch_run-Advances :
      (p s u : Uuid) (w : World) → Advances none w (launch_run svc parse p s u w).1
  unfolding launch_run
  launch_run-Advances p s u w = after_Keeps (get_story s) _ w (get_story-Keeps s w) λ st v.
      require-Advances (st.project_id == p) _ _ v λ _.
        require-Advances (not (story_status_eq st.status StoryStatus.done)) _ _ v λ _.
          after_Keeps (get_active_run_by_story s) _ v (get_active_run_by_story-Keeps s v)
            λ active v1.
              after_Keeps (no_active_run active) _ v1 (no_active_run-Keeps active v1) λ _ v2.
                after_Keeps (attempt (get_pipeline_config p)) (launch_with svc parse p s u) v2
                  (get_pipeline_config-Keeps p v2)
                  λ fetched v3. launch_with-Advances p s u fetched v3
