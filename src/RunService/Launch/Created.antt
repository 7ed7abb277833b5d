-- ===== src/RunService/Launch/Created.antt =====
-- What `LaunchRun` has made when it returns a run.
use hopeitworks.Prelude.{
  ℕ, ◌+◌, ◌≡◌, ◌≢◌, refl, sym, ap, ◌∙◌, subst, String, false, ◌&&◌, Option, some, none, List, [],
  ◌∷◌, select, ◌==◌, not, ==_iff, arith,
}
use hopeitworks.Errors.{Result, ok}
use hopeitworks.Action.{attempt}
use hopeitworks.Action.Returns.{bind_returns, lift_returns, require_returns}
use hopeitworks.Model.Status.{RunStatus, StoryStatus, story_status_eq}
use hopeitworks.Model.Config.{PipelineConfigYaml, StepWithStage, flat_steps, flat_steps_with_stage}
use hopeitworks.Model.Entities.{Uuid, Run, RunStep, Story, Metadata, PipelineConfigRow, encoded}
use hopeitworks.World.{World, call, story_at, execute_run}
use hopeitworks.Repo.Runs.{create_run, create_run_step, get_active_run_by_story, is_active, newest}
use hopeitworks.Repo.Rows.{get_story, get_pipeline_config}
use hopeitworks.Repo.Outbox.{enqueue}
use hopeitworks.RunService.{Wiring}
use hopeitworks.RunService.Create.{new_step}
use hopeitworks.RunService.Launch.{
  launch_run, launch_with, create_all, create_staged_steps, steps_metadata, no_active_run,
  config_or_error, parsed_config, not_empty,
}

-- The steps of a run, in order from a number on: pending, and named after the configuration.
abbrev pub Follow : Uuid → ℕ → List StepWithStage → List RunStep → Type 0
Follow id i [] [] = Unit
Follow id i (c ∷ cs) (s ∷ ss) =
    (s
      ≡ record (new_step id c.step.name i c.step.action_type c.group_id c.group_name) { id = s.id })
    × Follow id (i + 1) cs ss
Follow id i _ _ = ⊥

create_run_step-returns :
    (s t : RunStep) (w v : World) → create_run_step s w ≡ (ok t, v) → t ≡ record s { id = t.id }
unfolding create_run_step call
create_run_step-returns s t w v h = ground arith

staged-Follow :
    (id : Uuid) (i : ℕ) (cs : List StepWithStage) (w : World) (steps : List RunStep)
    → (create_staged_steps id i cs w).0 ≡ ok steps
    → Follow id i cs steps
unfolding create_staged_steps
staged-Follow id i [] w [] h = tt
staged-Follow id i [] w (s ∷ ss) h = absurd (ground arith)
staged-Follow id i (c ∷ cs) w steps h =
    bind_returns (create_run_step _) _ w steps h λ created v made h1.
      bind_returns (create_staged_steps id (i + 1) cs) _ v steps h1 λ rest u more h2.
        subst (Follow id i (c ∷ cs)) (same rest u h2) (
          create_run_step-returns _ created w v made,
          staged-Follow id (i + 1) cs v rest (ap (λ p. p.0) more),
        )
  where
    same :
        {created : RunStep} (rest : List RunStep) (u : World)
        → ok (created ∷ rest) ≡ ok steps
        → created ∷ rest ≡ steps
    same rest u e = ground arith

-- A run that is stored with a configuration, and its steps.
pub record IsCreated (p s : Uuid) (parsed : PipelineConfigYaml) (r : Run) (steps : List RunStep)
    : Type 0 where
  pub of_project : r.project_id ≡ p
  pub of_story : r.story_id ≡ s
  pub pending : r.status ≡ RunStatus.pending
  pub snapshot : r.pipeline_config_snapshot ≡ encoded parsed
  pub follow : Follow r.id 0 (flat_steps_with_stage parsed) steps

create_run-returns :
    (p s : Uuid) (t : RunStatus) (parsed : PipelineConfigYaml) (m : Metadata) (r : Run)
    (w v : World)
    → create_run p s t (encoded parsed) m w ≡ (ok r, v)
    → (r.project_id ≡ p)
      × (r.story_id ≡ s)
      × (r.status ≡ t)
      × (r.pipeline_config_snapshot ≡ encoded parsed)
unfolding create_run call
create_run-returns p s t parsed m r w v h = ground arith

module _ (svc : Wiring) (parse : String → Option Uuid) where
  create_all-IsCreated :
      (p s : Uuid) (parsed : PipelineConfigYaml) (m : Metadata) (w : World) (r : Run)
      (steps : List RunStep)
      → (create_all svc parse p s parsed m w).0 ≡ ok (r, steps)
      → IsCreated p s parsed r steps
  unfolding create_all
  create_all-IsCreated p s parsed m w r steps h =
      bind_returns (create_run p s RunStatus.pending (encoded parsed) m) _ w (r, steps) h
        λ created v made h1.
          bind_returns (create_staged_steps created.id 0 (flat_steps_with_stage parsed)) _ v
            (r, steps) h1
            λ all u staged h2.
              require_returns svc.has_job_queue _ _ u (r, steps) h2
                λ _ h3.
                  bind_returns (enqueue (execute_run created.id)) _ u (r, steps) h3
                    λ _ _ _ h4.
                      let (e1, e2, e3, e4) =
                        create_run-returns p s RunStatus.pending parsed m created w v made in
                      let same : created ≡ r = ground arith in
                      let same_steps : all ≡ steps = ground arith in
                      subst (λ x. IsCreated p s parsed x steps) same
                        (subst (IsCreated p s parsed created) same_steps (record {
                          of_project = e1;
                          of_story = e2;
                          pending = e3;
                          snapshot = e4;
                          follow =
                              staged-Follow created.id 0 (flat_steps_with_stage parsed) v all
                                (ap (λ x. x.0) staged);
                        }))

  launch_with-IsCreated :
      (p s user : Uuid) (fetched : Result PipelineConfigRow) (w : World) (r : Run)
      (steps : List RunStep)
      → (launch_with svc parse p s user fetched w).0 ≡ ok (r, steps)
      → (parsed : PipelineConfigYaml) × IsCreated p s parsed r steps × (flat_steps parsed ≢ [])
  unfolding launch_with
  launch_with-IsCreated p s user fetched w r steps h =
      lift_returns (config_or_error fetched) _ w (r, steps) h
        λ row _ h1.
          lift_returns (parsed_config row.config) _ w (r, steps) h1
            λ parsed _ h2.
              lift_returns (not_empty (flat_steps parsed)) _ w (r, steps) h2
                λ _ filled h3.
                  bind_returns (steps_metadata svc parse 0 (flat_steps parsed) _) _ w (r, steps) h3
                    λ metadata v _ h4. (
                      parsed,
                      create_all-IsCreated p s parsed metadata v r steps h4,
                      λ none_there. ground arith,
                    )

  no_active_run-returns :
      (active : Option Run) (w v : World) → no_active_run active w ≡ (ok tt, v) → active ≡ none
  no_active_run-returns none w v h = refl
  no_active_run-returns (some r) w v h = absurd (ground arith)

  get_story-reads :
      (id : Uuid) (w v : World) (s : Story)
      → get_story id w ≡ (ok s, v)
      → (story_at w id ≡ some s) × (v.runs ≡ w.runs)
  unfolding get_story call story_at
  get_story-reads id w v s h = ground arith

  get_active-reads :
      (id : Uuid) (w v : World) (o : Option Run)
      → get_active_run_by_story id w ≡ (ok o, v)
      → o ≡ newest (select (λ (r : Run). r.story_id == id && is_active r.status) w.runs)
  unfolding get_active_run_by_story call
  get_active-reads id w v o h = ground arith

  -- `LaunchRun` returns a run only for a stored story of the project that is not done and has no
  -- active run. The run is pending, its snapshot is a configuration that is not empty, and its steps
  -- are pending and follow the configuration's, numbered from 0, with their stages.
  pub launch_run-IsCreated :
      (p s user : Uuid) (w : World) (r : Run) (steps : List RunStep)
      → (launch_run svc parse p s user w).0 ≡ ok (r, steps)
      → ((parsed : PipelineConfigYaml) × IsCreated p s parsed r steps × (flat_steps parsed ≢ []))
        × ((st : Story) × (story_at w s ≡ some st)
            × (st.project_id ≡ p)
            × (story_status_eq st.status StoryStatus.done ≡ false))
        × (newest (select (λ (q : Run). q.story_id == s && is_active q.status) w.runs) ≡ none)
  unfolding launch_run
  launch_run-IsCreated p s user w r steps h =
      bind_returns (get_story s) _ w (r, steps) h
        λ st v got h1.
          require_returns (st.project_id == p) _ _ v (r, steps) h1
            λ own h2.
              require_returns (not (story_status_eq st.status StoryStatus.done)) _ _ v (r, steps) h2
                λ not_done h3.
                  bind_returns (get_active_run_by_story s) _ v (r, steps) h3
                    λ active u got_active h4.
                      bind_returns (no_active_run active) _ u (r, steps) h4
                        λ _ t idle h5.
                          bind_returns (attempt (get_pipeline_config p))
                            (launch_with svc parse p s user) t (r, steps) h5
                            λ fetched x _ h6.
                              let (found, same) = get_story-reads s w v st got in
                              (
                                launch_with-IsCreated p s user fetched x r steps h6,
                                (st, found, (==_iff st.project_id p).0 own, ground arith),
                                subst
                                    (λ l.
                                      newest (
                                        select (λ (q : Run). q.story_id == s && is_active q.status)
                                          l)
                                      ≡ none)
                                    same
                                    (sym (get_active-reads s v u active got_active)
                                      ∙ no_active_run-returns active u t idle),
                              )
