-- ===== src/Executor/Quiet.antt =====
-- The parts of an execution that touch neither runs nor steps: events, the story and its stage, the
-- write-back and the circuit breaker.
use hopeitworks.Prelude.{String, Bool, true, false, not, Option, none, some, List, ◌==◌, ltb}
use hopeitworks.Errors.{DomainError, Result, ok, err}
use hopeitworks.Action.{caught, logged, require}
use hopeitworks.Model.Status.{StoryStatus}
use hopeitworks.Model.Entities.{Uuid, uuid_nil, Run, Project, PayloadValue}
use hopeitworks.World.{World}
use hopeitworks.Repo.Rows.{
  get_story, get_project, increment_circuit_breaker_count, reset_circuit_breaker,
}
use hopeitworks.Repo.Quiet.{
  Quiet, Quiet-refl, then_Quiet, if-Quiet, caught-Quiet, logged-Quiet, publish-Quiet, enqueue-Quiet,
  get_story-Quiet, update_story_status-Quiet, update_story_current_stage-Quiet,
  set_writeback_status-Quiet, get_project-Quiet, increment_circuit_breaker_count-Quiet,
  reset_circuit_breaker-Quiet,
}
use hopeitworks.CircuitBreaker.{
  check_circuit_breaker, record_failure, record_success, publish_circuit_breaker_event, reset_count,
}
use hopeitworks.Executor.{
  PipelineExecutor, publish_event, push_status, enqueue_write_back, after_story_update,
  set_story_status, update_story, is_written_back,
}
use hopeitworks.Executor.Stages.{StageRef, set_current_stage, enter_stage, exit_stage}
use hopeitworks.Executor.Execution.{note_failure, note_success}

pub publish_event-Quiet :
    (p : Uuid) (t : String) (i : Uuid) (a : String) (d : List (String × PayloadValue)) (w : World)
    → Quiet w (publish_event p t i a d w).1
unfolding publish_event
publish_event-Quiet p t i a d w = logged-Quiet _ w (publish-Quiet _ w)

pub set_current_stage-Quiet :
    (r : Run) (s : Option String) (w : World) → Quiet w (set_current_stage r s w).1
unfolding set_current_stage
set_current_stage-Quiet r s w =
    if-Quiet (r.story_id == uuid_nil) _ _ w (Quiet-refl w)
      (logged-Quiet _ w (update_story_current_stage-Quiet r.story_id s w))

pub set_story_status-Quiet :
    (id : Uuid) (s : StoryStatus) (w : World) → Quiet w (set_story_status id s w).1
unfolding set_story_status
set_story_status-Quiet id s w =
    then_Quiet (get_story id) _ w (get_story-Quiet id w) λ _ v. update_story_status-Quiet id s v

require-Quiet : (b : Bool) (x : DomainError) (w : World) → Quiet w (require b x w).1
require-Quiet true x w = Quiet-refl w
require-Quiet false x w = Quiet-refl w

pub check_circuit_breaker-Quiet : (id : Uuid) (w : World) → Quiet w (check_circuit_breaker id w).1
unfolding check_circuit_breaker
check_circuit_breaker-Quiet id w =
    then_Quiet (get_project id) _ w (get_project-Quiet id w)
      λ p v. require-Quiet (not p.circuit_breaker_active) _ v

publish_circuit_breaker_event-Quiet :
    (p : Project) (a : String) (w : World) → Quiet w (publish_circuit_breaker_event p a w).1
unfolding publish_circuit_breaker_event
publish_circuit_breaker_event-Quiet p a w = publish-Quiet _ w

record_failure-Quiet : (id : Uuid) (w : World) → Quiet w (record_failure id w).1
unfolding record_failure
record_failure-Quiet id w =
    then_Quiet (increment_circuit_breaker_count id) _ w (increment_circuit_breaker_count-Quiet id w)
      λ p v.
        if-Quiet p.circuit_breaker_active _ _ v
          (publish_circuit_breaker_event-Quiet p "triggered" v) (Quiet-refl v)

reset_count-Quiet : (id : Uuid) (w : World) → Quiet w (reset_count id w).1
unfolding reset_count
reset_count-Quiet id w =
    then_Quiet (reset_circuit_breaker id) _ w (reset_circuit_breaker-Quiet id w) λ _ v. Quiet-refl v

pub record_success-Quiet : (id : Uuid) (w : World) → Quiet w (record_success id w).1
unfolding record_success
record_success-Quiet id w =
    then_Quiet (get_project id) _ w (get_project-Quiet id w)
      λ p v. if-Quiet (ltb 0 p.circuit_breaker_count) _ _ v (reset_count-Quiet id v) (Quiet-refl v)

module _ (e : PipelineExecutor) where
  push_status-Quiet : (r : Run) (s : StoryStatus) (w : World) → Quiet w (push_status e r s w).1
  unfolding push_status
  push_status-Quiet r s w =
      then_Quiet (logged _) _ w
        (logged-Quiet _ w (set_writeback_status-Quiet r.story_id "pending" w))
        λ _ v. logged-Quiet _ v (enqueue-Quiet _ v)

  enqueue_write_back-Quiet :
      (r : Run) (s : StoryStatus) (w : World) → Quiet w (enqueue_write_back e r s w).1
  unfolding enqueue_write_back
  enqueue_write_back-Quiet r s w =
      if-Quiet e.has_write_back _ _ w
        (if-Quiet (r.story_id == uuid_nil) _ _ w (Quiet-refl w)
          (if-Quiet (is_written_back s) _ _ w (push_status-Quiet r s w) (Quiet-refl w)))
        (Quiet-refl w)

  pub after_story_update-Quiet :
      (r : Run) (s : StoryStatus) (o : Result (Unit {0})) (w : World)
      → Quiet w (after_story_update e r s o w).1
  unfolding after_story_update
  after_story_update-Quiet r s (err x) w = Quiet-refl w
  after_story_update-Quiet r s (ok u) w =
      then_Quiet (publish_event _ _ _ _ _) _ w (publish_event-Quiet _ _ _ _ _ w)
        λ _ v. enqueue_write_back-Quiet r s v

  pub update_story-Quiet :
      (r : Run) (s : StoryStatus) (w : World) → Quiet w (update_story e r s w).1
  unfolding update_story
  update_story-Quiet r s w = if-Quiet (r.story_id == uuid_nil) _ _ w (Quiet-refl w) (
      then_Quiet (caught _) _ w (caught-Quiet _ w (set_story_status-Quiet r.story_id s w))
        λ o v. after_story_update-Quiet r s o v)

  pub enter_stage-Quiet : (r : Run) (s : StageRef) (w : World) → Quiet w (enter_stage e r s w).1
  unfolding enter_stage
  enter_stage-Quiet r s w =
      then_Quiet (set_current_stage r _) _ w (set_current_stage-Quiet r (some s.name) w)
        λ _ v. publish_event-Quiet _ _ _ _ _ v

  pub exit_stage-Quiet :
      (r : Run) (p n : Option StageRef) (w : World) → Quiet w (exit_stage e r p n w).1
  unfolding exit_stage
  exit_stage-Quiet r none n w = Quiet-refl w
  exit_stage-Quiet r (some p) n w = publish_event-Quiet _ _ _ _ _ w

  pub note_failure-Quiet : (r : Run) (w : World) → Quiet w (note_failure e r w).1
  unfolding note_failure
  note_failure-Quiet r w =
      if-Quiet e.has_circuit_breaker _ _ w (logged-Quiet _ w (record_failure-Quiet r.project_id w))
        (Quiet-refl w)

  pub note_success-Quiet : (r : Run) (w : World) → Quiet w (note_success e r w).1
  unfolding note_success
  note_success-Quiet r w =
      if-Quiet e.has_circuit_breaker _ _ w (logged-Quiet _ w (record_success-Quiet r.project_id w))
        (Quiet-refl w)
