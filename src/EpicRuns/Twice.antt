-- ===== src/EpicRuns/Twice.antt =====
-- The run of a story in an epic run is also a job of the queue.
use hopeitworks.Prelude.{
  ◌≡◌, refl, sym, subst, String, Bool, Option, some, List, [], ◌∷◌, ◌++◌, Elem, Elem-append_right,
  inl, not, ◌==◌, arith,
}
use hopeitworks.Errors.{Result, ok, err}
use hopeitworks.Action.{caught, logged, attempt}
use hopeitworks.Action.Returns.{bind_ends, lift_ends, require_ends}
use hopeitworks.Model.Status.{StoryStatus, story_status_eq}
use hopeitworks.Model.Config.{PipelineConfigYaml, flat_steps, flat_steps_with_stage}
use hopeitworks.Model.Entities.{Uuid, uuid_nil, Run, RunStep, Story, EpicRun, Metadata}
use hopeitworks.World.{World, Job, execute_run, call}
use hopeitworks.Repo.Runs.{create_run, get_active_run_by_story}
use hopeitworks.Repo.Rows.{get_story, get_pipeline_config}
use hopeitworks.Repo.Epics.{update_epic_run_story_status}
use hopeitworks.Repo.Outbox.{enqueue}
use hopeitworks.RunService.{Wiring}
use hopeitworks.RunService.Launch.{
  launch_run, launch_with, create_all, create_staged_steps, steps_metadata, no_active_run,
  config_or_error, parsed_config, not_empty,
}
use hopeitworks.Executor.{PipelineExecutor}
use hopeitworks.EpicRuns.Groups.{
  Phase, StoryError, not_created, spawned, launched, returned, after_launch, run_story,
}

enqueue-queue : (j : Job) (w v : World) → enqueue j w ≡ (ok tt, v) → v.queue ≡ w.queue ++ j ∷ []
unfolding enqueue call
enqueue-queue j w v h = ground arith

enqueue-Elem : (j : Job) (w v : World) → enqueue j w ≡ (ok tt, v) → Elem j v.queue
enqueue-Elem j w v h =
    subst (Elem j) (sym (enqueue-queue j w v h)) (Elem-append_right j w.queue (j ∷ []) (inl refl))

same_result :
    (a r : Run) (ss steps : List RunStep) (x v : World)
    → ◌≡◌ {A = Result (Run × List RunStep) × World} (ok (a, ss), x) (ok (r, steps), v)
    → (a.id ≡ r.id) × (x.queue ≡ v.queue)
same_result a r ss steps x v h = ground arith

module _ (svc : Wiring) (parse : String → Option Uuid) where
  create_all-Elem :
      (p s : Uuid) (parsed : PipelineConfigYaml) (m : Metadata) (w v : World) (r : Run)
      (steps : List RunStep)
      → create_all svc parse p s parsed m w ≡ (ok (r, steps), v)
      → Elem (execute_run r.id) v.queue
  unfolding create_all
  create_all-Elem p s parsed m w v r steps h =
      bind_ends (create_run p s _ _ m) _ w v (r, steps) h
        λ created t _ h1.
          bind_ends (create_staged_steps created.id 0 (flat_steps_with_stage parsed)) _ t v
            (r, steps) h1
            λ made u _ h2.
              require_ends svc.has_job_queue _ _ u v (r, steps) h2
                λ _ h3.
                  bind_ends (enqueue (execute_run created.id)) _ u v (r, steps) h3
                    λ _ x e h4.
                      let (same, queue) = same_result created r made steps x v h4 in
                      subst (Elem (execute_run r.id)) queue (
                        subst (λ id. Elem (execute_run id) x.queue) same
                          (enqueue-Elem (execute_run created.id) u x e))

  launch_run-Elem :
      (p s user : Uuid) (w v : World) (r : Run) (steps : List RunStep)
      → launch_run svc parse p s user w ≡ (ok (r, steps), v)
      → Elem (execute_run r.id) v.queue
  unfolding launch_run launch_with
  launch_run-Elem p s user w v r steps h =
      bind_ends (get_story s) _ w v (r, steps) h
        λ st w1 _ h1.
          require_ends (st.project_id == p) _ _ w1 v (r, steps) h1
            λ _ h2.
              require_ends (not (story_status_eq st.status StoryStatus.done)) _ _ w1 v (r, steps) h2
                λ _ h3.
                  bind_ends (get_active_run_by_story s) _ w1 v (r, steps) h3
                    λ active w2 _ h4.
                      bind_ends (no_active_run active) _ w2 v (r, steps) h4
                        λ _ w3 _ h5.
                          bind_ends (attempt (get_pipeline_config p))
                            (launch_with svc parse p s user) w3 v (r, steps) h5
                            λ fetched w4 _ h6.
                              lift_ends (config_or_error fetched) _ w4 v (r, steps) h6
                                λ row _ h7.
                                  lift_ends (parsed_config row.config) _ w4 v (r, steps) h7
                                    λ parsed _ h8.
                                      lift_ends (not_empty (flat_steps parsed)) _ w4 v (r, steps) h8
                                        λ _ _ h9.
                                          bind_ends
                                            (steps_metadata svc parse 0 (flat_steps parsed) _) _ w4
                                            v (r, steps) h9
                                            λ m w5 _ h10.
                                              create_all-Elem p s parsed m w5 v r steps h10

  update-queue :
      (id story_id run_id : Uuid) (w : World)
      → (logged (update_epic_run_story_status id story_id "running" (some run_id)) w).1.queue
        ≡ w.queue
  unfolding update_epic_run_story_status logged call
  update-queue id story_id run_id w = ground arith

launched_id :
    (a b : Uuid) (u v : World)
    → ◌≡◌ {A = Result Phase × World} (ok (launched a), u) (ok (launched b), v)
    → (a ≡ b) × (u.queue ≡ v.queue)
launched_id a b u v h = ground arith

not_launched :
    (x : StoryError) (id : Uuid) (u v : World)
    → ◌≡◌ {A = Result Phase × World} (ok (returned (some x)), u) (ok (launched id), v)
    → ⊥
not_launched x id u v h = ground arith

module _ (svc : Wiring) (parse : String → Option Uuid) (e : PipelineExecutor) (r : EpicRun)
    (s : Story) where
  after_launch-Elem :
      (o : Result (Run × List RunStep)) (w u v : World) (id : Uuid)
      → launch_run svc parse r.project_id s.id uuid_nil w ≡ (o, u)
      → after_launch svc parse e r s.id o u ≡ (ok (launched id), v)
      → Elem (execute_run id) v.queue
  unfolding after_launch logged
  after_launch-Elem (err x) w u v id h k = absurd (not_launched (not_created x) id _ v k)
  after_launch-Elem (ok (run, steps)) w u v id h k =
      let t = (logged (update_epic_run_story_status r.id s.id "running" (some run.id)) u).1 in
      let (same, queue) = launched_id run.id id t v k in
      subst (Elem (execute_run id)) queue (
        subst (λ i. Elem (execute_run i) t.queue) same
          (subst (Elem (execute_run run.id)) (sym (update-queue svc parse r.id s.id run.id u))
            (launch_run-Elem svc parse r.project_id s.id uuid_nil w u run steps h)))

  -- The run that a story's goroutine has launched, and that it executes next, is also a job of the
  -- queue.
  pub launched_leaves_job :
      (ctx : World → Bool) (w v : World) (id : Uuid)
      → run_story svc parse e r ctx s spawned w ≡ (ok (launched id), v)
      → Elem (execute_run id) v.queue
  unfolding run_story caught
  launched_leaves_job ctx w v id h =
      let o = launch_run svc parse r.project_id s.id uuid_nil w in
      after_launch-Elem o.0 w o.1 v id refl h
