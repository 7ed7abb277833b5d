-- ===== src/Executor/Started.antt =====
-- A stage that `StartStage` (service/run_service.go) has started, as the executor meets it.
use hopeitworks.Prelude.{
  ◌≡◌, sym, ap, ◌∙◌, subst, true, false, Option, none, some, List, find, select, ◌=s=◌, =s=→≡,
  String, ◌==◌, ◌&&◌, arith,
}
use hopeitworks.Errors.{ok}
use hopeitworks.Action.Returns.{bind_ends, require_ends}
use hopeitworks.Action.{pure}
use hopeitworks.Model.Status.{RunStatus, run_status_eq}
use hopeitworks.Model.Config.{PipelineConfigYaml}
use hopeitworks.Model.Entities.{
  Uuid, Run, Story, PayloadValue, Metadata, named, meta_get, as_string,
}
use hopeitworks.World.{World, run_at, run_has_id}
use hopeitworks.Repo.Runs.{
  get_active_run_by_story, is_active, newest, update_run_metadata, update_run_status,
}
use hopeitworks.Repo.Rows.{get_story}
use hopeitworks.Repo.Keeps.{get_story-Keeps}
use hopeitworks.RunService.{
  Wiring, start_stage, started_metadata, or_no_active_run, publish_run_event, enqueue_run,
}
use hopeitworks.RunService.Moves.{publish_run_event-Keeps, enqueue_run-Keeps}
use hopeitworks.Executor.{PipelineExecutor}
use hopeitworks.Executor.Stages.{StageRef, proceed, enforce_manual_on_enter}
use hopeitworks.Executor.Restarting.{marked, active_found, active_some, resumed}

-- The run waited for a manual start, and runs with its parked stage marked as started.
abbrev pub Started : Run → Run → World → Type 0
Started q r v =
    (q.status ≡ RunStatus.paused)
    × (as_string (meta_get (named "paused_reason") q.metadata) ≡ "awaiting_manual_start")
    × (r.status ≡ RunStatus.running)
    × (r.metadata ≡ started_metadata q.metadata)
    × (run_at v r.id ≡ some r)

pure_ends : (x r : Run) (w v : World) → pure x w ≡ (ok r, v) → x ≡ r
pure_ends x r w v h = ground arith

is_paused : (s : RunStatus) → run_status_eq s RunStatus.paused ≡ true → s ≡ RunStatus.paused
is_paused s h = ground arith

some_same : (x q : Run) → some x ≡ some q → x ≡ q
some_same x q h = ground arith

module _ (svc : Wiring) (p s : Uuid) where
  abbrev active_in : List Run → Option Run
  active_in rs = newest (select (λ (x : Run). x.story_id == s && is_active x.status) rs)

  seen :
      (w w1 w2 w3 : World) (st : Story) (a : Option Run) (x q : Run)
      → get_story s w ≡ (ok st, w1)
      → get_active_run_by_story s w1 ≡ (ok a, w2)
      → or_no_active_run a w2 ≡ (ok x, w3)
      → active_in w.runs ≡ some q
      → x ≡ q
  seen w w1 w2 w3 st a x q got found is_x active = some_same x q (
      sym (active_some a x w2 w3 is_x).0
      ∙ active_found s w1 w2 a found
      ∙ ap active_in (ap (λ o. o.1.runs) (sym got) ∙ get_story-Keeps s w)
      ∙ active)

  last_calls :
      (x t r : Run) (m : Metadata) (payload : List (String × PayloadValue))
      (w w1 w2 w3 w4 v : World)
      → update_run_metadata x.id m w ≡ (ok tt, w1)
      → update_run_status x.id RunStatus.running none none none none w1 ≡ (ok t, w2)
      → publish_run_event svc t.project_id t.id "resumed" payload w2 ≡ (ok tt, w3)
      → enqueue_run svc t.id w3 ≡ (ok tt, w4)
      → pure t w4 ≡ (ok r, v)
      → (r.status ≡ RunStatus.running) × (r.metadata ≡ m) × (run_at v r.id ≡ some r)
  unfolding run_at
  last_calls x t r m payload w w1 w2 w3 w4 v written set told queued ends =
      let kept : v.runs ≡ w2.runs =
        ap (λ o. o.1.runs) (sym ends)
        ∙ ap (λ o. o.1.runs) (sym queued)
        ∙ enqueue_run-Keeps svc t.id w3
        ∙ ap (λ o. o.1.runs) (sym told)
        ∙ publish_run_event-Keeps svc t.project_id t.id "resumed" payload w2 in
      subst
        (λ (z : Run). (z.status ≡ RunStatus.running) × (z.metadata ≡ m) × (run_at v z.id ≡ some z))
        (pure_ends t r w4 v ends)
        (let (runs, meta, stored) = resumed x t m w w1 w2 written set in
          (runs, meta, ap (find (run_has_id t.id)) kept ∙ stored))

  -- `StartStage` returns a run only if the story's active run waits for a manual start.
  started :
      (w v : World) (q r : Run)
      → active_in w.runs ≡ some q
      → start_stage svc p s w ≡ (ok r, v)
      → Started q r v
  unfolding start_stage
  started w v q r active h = bind_ends (get_story s) _ w v r h λ st w1 got h1.
      require_ends (st.project_id == p) _ _ w1 v r h1 λ _ h2.
        bind_ends (get_active_run_by_story s) _ w1 v r h2 λ a w2 found h3.
          bind_ends (or_no_active_run a) _ w2 v r h3 λ x w3 is_x h4.
            require_ends (run_status_eq x.status RunStatus.paused) _ _ w3 v r h4 λ paused h5.
              require_ends
                (as_string (meta_get (named "paused_reason") x.metadata)
                  =s= "awaiting_manual_start")
                _ _ w3 v r h5
                λ manual h6. bind_ends (update_run_metadata x.id _) _ w3 v r h6 λ _ w4 written h7.
                  bind_ends (update_run_status x.id RunStatus.running none none none none) _ w4 v r
                    h7
                    λ updated w5 set h8.
                      bind_ends (publish_run_event svc _ _ _ _) _ w5 v r h8 λ _ w6 told h9.
                        bind_ends (enqueue_run svc _) _ w6 v r h9 λ _ w7 queued h10.
                          let (runs, meta, stored) =
                            last_calls x updated r _ _ w3 w4 w5 w6 w7 v written set told queued
                              h10 in
                          subst (λ z. Started z r v)
                            (seen w w1 w2 w3 st a x q got found is_x active)
                            (is_paused x.status paused, =s=→≡ _ _ manual, runs, meta, stored)

  -- After a `StartStage` that succeeds on the run that is active for the story, the executor enters
  -- the parked stage under every policy without a call, if the stage has an identifier. The run
  -- had been paused for a manual start, and is stored and running.
  pub start_stage-enters :
      (e : PipelineExecutor) (w v u : World) (q r : Run) (stage : StageRef)
      (policy : Option PipelineConfigYaml)
      → newest (select (λ (x : Run). x.story_id == s && is_active x.status) w.runs) ≡ some q
      → as_string (meta_get (named "paused_stage_id") q.metadata) ≡ stage.id
      → (stage.id =s= "") ≡ false
      → start_stage svc p s w ≡ (ok r, v)
      → Started q r v × (enforce_manual_on_enter e r stage policy r.metadata u ≡ (ok proceed, u))
  unfolding enforce_manual_on_enter
  start_stage-enters e w v u q r stage policy active parked set h =
      let (paused, manual, runs, meta, stored) = started w v q r active h in
      (
        (paused, manual, runs, meta, stored),
        rw (meta, marked stage.id q.metadata parked set) (ground arith),
      )
