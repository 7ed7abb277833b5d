-- ===== src/Repo/Keeps.antt =====
-- Which calls leave the runs' table alone, and how the others change it.
use hopeitworks.Prelude.{
  String, ◌≡◌, refl, ap, ◌∙◌, subst, Bool, true, false, Option, some, [], ◌∷◌, ◌++◌, find, ◌==◌,
  if◌then◌else◌, arith, ◌⊎◌, inl, inr, ==_iff,
}
use hopeitworks.Errors.{ok}
use hopeitworks.Model.Status.{RunStatus, StepStatus, StoryStatus, HitlStatus}
use hopeitworks.Model.Status.Lifecycle.{◌⟶*◌, here}
use hopeitworks.Model.Entities.{
  Uuid, Time, ErrorText, Run, RunStep, Metadata, Snapshot, Event, HitlRequest,
}
use hopeitworks.World.{World, Job, call, tick, run_at, run_has_id, update_where}
use hopeitworks.World.Moves.{Moves, Keeps, find-update_where, find-append, Keeps-Moves}
use hopeitworks.Repo.Runs.{
  get_run, get_active_run_by_story, update_run_status, create_run, new_run, get_run_step,
  list_run_steps_by_run, update_run_step_status, create_run_step, create_retry_run_step,
  list_retry_steps_by_parent, with_status,
}
use hopeitworks.Repo.Rows.{
  get_story, update_story_status, get_agent, get_stack, get_pipeline_config, get_hitl_request,
  get_hitl_by_run_step_id, create_hitl_request, update_hitl_status,
}
use hopeitworks.Repo.Outbox.{publish, enqueue, stop_execution}

pub get_run-Keeps : (id : Uuid) (w : World) → Keeps w (get_run id w).1
unfolding get_run call
get_run-Keeps id w = ground arith

pub get_run-found :
    (id : Uuid) (w : World) (r : Run)
    → (get_run id w).0 ≡ ok r
    → run_at (get_run id w).1 id ≡ some r
unfolding get_run call run_at
get_run-found id w r h = ground arith

pub get_run_step-Keeps : (id : Uuid) (w : World) → Keeps w (get_run_step id w).1
unfolding get_run_step call
get_run_step-Keeps id w = ground arith

pub list_run_steps_by_run-Keeps : (id : Uuid) (w : World) → Keeps w (list_run_steps_by_run id w).1
unfolding list_run_steps_by_run call
list_run_steps_by_run-Keeps id w = ground arith

pub list_retry_steps_by_parent-Keeps :
    (id : Uuid) (w : World) → Keeps w (list_retry_steps_by_parent id w).1
unfolding list_retry_steps_by_parent call
list_retry_steps_by_parent-Keeps id w = ground arith

pub update_run_step_status-Keeps :
    (id : Uuid) (s : StepStatus) (a b : Option Time) (e : Option ErrorText) (w : World)
    → Keeps w (update_run_step_status id s a b e w).1
unfolding update_run_step_status call
update_run_step_status-Keeps id s a b e w = ground arith

pub create_run_step-Keeps : (s : RunStep) (w : World) → Keeps w (create_run_step s w).1
unfolding create_run_step call
create_run_step-Keeps s w = ground arith

pub create_retry_run_step-Keeps : (s : RunStep) (w : World) → Keeps w (create_retry_run_step s w).1
unfolding create_retry_run_step call
create_retry_run_step-Keeps s w = ground arith

pub publish-Keeps : (e : Event) (w : World) → Keeps w (publish e w).1
unfolding publish call
publish-Keeps e w = ground arith

pub enqueue-Keeps : (j : Job) (w : World) → Keeps w (enqueue j w).1
unfolding enqueue call
enqueue-Keeps j w = ground arith

pub stop_execution-Keeps : (h : String) (w : World) → Keeps w (stop_execution h w).1
unfolding stop_execution call
stop_execution-Keeps h w = ground arith

pub get_story-Keeps : (id : Uuid) (w : World) → Keeps w (get_story id w).1
unfolding get_story call
get_story-Keeps id w = ground arith

pub update_story_status-Keeps :
    (id : Uuid) (s : StoryStatus) (w : World) → Keeps w (update_story_status id s w).1
unfolding update_story_status call
update_story_status-Keeps id s w = ground arith

pub get_active_run_by_story-Keeps :
    (id : Uuid) (w : World) → Keeps w (get_active_run_by_story id w).1
unfolding get_active_run_by_story call
get_active_run_by_story-Keeps id w = ground arith

pub get_pipeline_config-Keeps : (id : Uuid) (w : World) → Keeps w (get_pipeline_config id w).1
unfolding get_pipeline_config call
get_pipeline_config-Keeps id w = ground arith

pub get_agent-Keeps : (id : Uuid) (w : World) → Keeps w (get_agent id w).1
unfolding get_agent call
get_agent-Keeps id w = ground arith

pub get_stack-Keeps : (id : Uuid) (w : World) → Keeps w (get_stack id w).1
unfolding get_stack call
get_stack-Keeps id w = ground arith

pub get_hitl_request-Keeps : (id : Uuid) (w : World) → Keeps w (get_hitl_request id w).1
unfolding get_hitl_request call
get_hitl_request-Keeps id w = ground arith

pub get_hitl_by_run_step_id-Keeps :
    (id : Uuid) (w : World) → Keeps w (get_hitl_by_run_step_id id w).1
unfolding get_hitl_by_run_step_id call
get_hitl_by_run_step_id-Keeps id w = ground arith

pub create_hitl_request-Keeps : (r : HitlRequest) (w : World) → Keeps w (create_hitl_request r w).1
unfolding create_hitl_request call
create_hitl_request-Keeps r w = ground arith

pub update_hitl_status-Keeps :
    (id : Uuid) (s : HitlStatus) (u : Option Uuid) (a b : Option String) (t : Time) (w : World)
    → Keeps w (update_hitl_status id s u a b t w).1
unfolding update_hitl_status call
update_hitl_status-Keeps id s u a b t w = ground arith

-- The update of a status that the found row may move to.
module _ (id : Uuid) (s : RunStatus) (a b c : Option Time) (e : Option ErrorText) where
  step_of_row :
      (w : World)
      → ((r : Run) → run_at w id ≡ some r → r.status ⟶* s)
      → (j : Uuid) (q : Run) → find (run_has_id j) w.runs ≡ some q
      → (d : Bool) → j == id ≡ d
      → q.status ⟶* (if d then with_status s a b c e q else q).status
  unfolding run_at
  step_of_row w legal j q k true same =
      legal q (subst (λ i. find (run_has_id i) w.runs ≡ some q) ((==_iff j id).0 same) k)
  step_of_row w legal j q k false other = here

  pub rows_after :
      (w : World)
      → (update_run_status id s a b c e w).1.runs ≡ w.runs
        ⊎ (update_run_status id s a b c e w).1.runs
          ≡ update_where (run_has_id id) (with_status s a b c e) w.runs
  unfolding update_run_status call
  rows_after w = ground arith

  pub update_run_status-Moves :
      (w : World)
      → ((r : Run) → run_at w id ≡ some r → r.status ⟶* s)
      → Moves w (update_run_status id s a b c e w).1
  update_run_status-Moves w legal = elim (rows_after w) [
    | inl same ↦ Keeps-Moves w (update_run_status id s a b c e w).1 same
    | inr rows ↦ λ j q k. (
      if j == id then with_status s a b c e q else q,
      ap (find (run_has_id j)) rows
          ∙ find-update_where id j (with_status s a b c e) (λ r. refl) w.runs q k,
      step_of_row w legal j q k (j == id) refl,
    )
  ]

module _ (p s : Uuid) (t : RunStatus) (c : Snapshot) (m : Metadata) where
  pub rows_after_create :
      (w : World)
      → (create_run p s t c m w).1.runs ≡ w.runs
        ⊎ (create_run p s t c m w).1.runs ≡ w.runs ++ new_run p s t c m (tick w) ∷ []
  unfolding create_run call
  rows_after_create w = ground arith

  pub create_run-Moves : (w : World) → Moves w (create_run p s t c m w).1
  create_run-Moves w = elim (rows_after_create w) [
    | inl same ↦ Keeps-Moves w (create_run p s t c m w).1 same
    | inr rows ↦ λ j q k. (
      q,
      ap (find (run_has_id j)) rows ∙ find-append j w.runs (new_run p s t c m (tick w) ∷ []) q k,
      here,
    )
  ]
