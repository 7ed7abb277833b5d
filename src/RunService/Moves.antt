-- ===== src/RunService/Moves.antt =====
-- What the requests of service/run_service.go do to the statuses of runs.
use hopeitworks.Prelude.{
  ◌≡◌, refl, Option, none, some, List, String, ◌+◌, ◌==◌, not, leb, length, arith,
}
use hopeitworks.Action.{for_each}
use hopeitworks.Model.Status.{
  RunStatus, run_status_eq, step_status_eq, StepStatus, StoryStatus, validate_run_transition,
}
use hopeitworks.Model.Entities.{Uuid, Run, RunStep, PayloadValue, Event, Time}
use hopeitworks.World.{World, execute_run, run_at}
use hopeitworks.World.Moves.{Keeps, then_Keeps, still_found, for_each-Keeps}
use hopeitworks.World.Advances.{
  Advances, Advances-refl, lift-Advances, if-Advances, require-Advances, Keeps-then, then_Advances,
  past_Keeps,
}
use hopeitworks.Repo.Rows.{get_story, update_story_status}
use hopeitworks.Repo.Runs.{
  get_run, update_run_status, list_run_steps_by_run, get_run_step, list_retry_steps_by_parent,
  create_retry_run_step,
}
use hopeitworks.Repo.Edges.{paused-resumes, failed-reopens}
use hopeitworks.Repo.Advances.{after_get_run, update-Advances, valid-Advances, found-Advances}
use hopeitworks.Repo.Keeps.{
  get_run-Keeps, publish-Keeps, enqueue-Keeps, stop_execution-Keeps, update_run_step_status-Keeps,
  get_story-Keeps, update_story_status-Keeps, list_run_steps_by_run-Keeps,
  list_retry_steps_by_parent-Keeps, get_run_step-Keeps, create_retry_run_step-Keeps,
}
use hopeitworks.RunService.{
  Wiring, transition_run, pause_run, resume_run, publish_event, publish_run_event,
  publish_story_event, enqueue_run,
}
use hopeitworks.RunService.Cancel.{
  cancel_run, cancel_step, cancel_msg, stop_step_execution, transition_story_to_backlog,
  reset_story,
}
use hopeitworks.RunService.Retry.{
  retry_step, add_retry, max_retries, reopen_run, retry_of, root_step_id, get_run_with_steps,
}

pub transition_run-Advances :
    (id : Uuid) (t : RunStatus) (w : World) → Advances (some t) w (transition_run id t w).1
unfolding transition_run
transition_run-Advances id t w = after_get_run id _ w λ v r found.
    lift-Advances (validate_run_transition r.status t) _ v
      λ _ valid. valid-Advances id t _ _ _ _ v r found valid

module _ (svc : Wiring) where
  publish_event-Keeps : (e : Event) (w : World) → Keeps w (publish_event svc e w).1
  unfolding publish_event
  publish_event-Keeps e w = ground (arith, publish-Keeps e w)

  pub publish_run_event-Keeps :
      (p r : Uuid) (action : String) (payload : List (String × PayloadValue)) (w : World)
      → Keeps w (publish_run_event svc p r action payload w).1
  unfolding publish_run_event
  publish_run_event-Keeps p r action payload w = publish_event-Keeps _ w

  pub enqueue_run-Keeps : (id : Uuid) (w : World) → Keeps w (enqueue_run svc id w).1
  unfolding enqueue_run
  enqueue_run-Keeps id w = ground (arith, enqueue-Keeps (execute_run id) w)

  pub pause_run-Advances :
      (p id : Uuid) (w : World) → Advances (some RunStatus.paused) w (pause_run svc p id w).1
  unfolding pause_run
  pause_run-Advances p id w = after_get_run id _ w λ v r found.
      require-Advances (r.project_id == p) _ _ v λ _.
        lift-Advances (validate_run_transition r.status RunStatus.paused) _ v λ _ valid.
          then_Advances (update_run_status id RunStatus.paused none none (some v.clock) none) _ v
            (valid-Advances id RunStatus.paused none none (some v.clock) none v r found valid)
            λ updated u.
              then_Keeps (publish_run_event svc updated.project_id updated.id "paused" _) _ u
                (publish_run_event-Keeps updated.project_id updated.id "paused" _ u) λ _ t. refl

  stop_step_execution-Keeps :
      (h : Option String) (w : World) → Keeps w (stop_step_execution svc h w).1
  unfolding stop_step_execution
  stop_step_execution-Keeps none w = refl
  stop_step_execution-Keeps (some h) w = ground (arith, stop_execution-Keeps h w)

  cancel_step-Keeps : (now : Time) (s : RunStep) (w : World) → Keeps w (cancel_step svc now s w).1
  unfolding cancel_step
  cancel_step-Keeps now s w = ground (
    arith,
    stop_step_execution-Keeps s.container_id w,
    update_run_step_status-Keeps s.id StepStatus.cancelled none (some now) cancel_msg w,
    update_run_step_status-Keeps s.id StepStatus.cancelled none (some now) cancel_msg
        (stop_step_execution svc s.container_id w).1,
  )

  publish_story_event-Keeps :
      (p s r : Uuid) (status : String) (w : World)
      → Keeps w (publish_story_event svc p s r status w).1
  unfolding publish_story_event
  publish_story_event-Keeps p s r status w = publish_event-Keeps _ w

  reset_story-Keeps : (r : Run) (s : StoryStatus) (w : World) → Keeps w (reset_story svc r s w).1
  unfolding reset_story
  reset_story-Keeps r StoryStatus.backlog w = refl
  reset_story-Keeps r StoryStatus.running w =
      then_Keeps (update_story_status r.story_id StoryStatus.backlog) _ w
        (update_story_status-Keeps r.story_id StoryStatus.backlog w)
        λ _ v. publish_story_event-Keeps r.project_id r.story_id r.id "backlog" v
  reset_story-Keeps r StoryStatus.done w =
      then_Keeps (update_story_status r.story_id StoryStatus.backlog) _ w
        (update_story_status-Keeps r.story_id StoryStatus.backlog w)
        λ _ v. publish_story_event-Keeps r.project_id r.story_id r.id "backlog" v
  reset_story-Keeps r StoryStatus.failed w =
      then_Keeps (update_story_status r.story_id StoryStatus.backlog) _ w
        (update_story_status-Keeps r.story_id StoryStatus.backlog w)
        λ _ v. publish_story_event-Keeps r.project_id r.story_id r.id "backlog" v

  transition_story_to_backlog-Keeps :
      (r : Run) (w : World) → Keeps w (transition_story_to_backlog svc r w).1
  unfolding transition_story_to_backlog
  transition_story_to_backlog-Keeps r w = ground (
    arith,
    then_Keeps (get_story r.story_id) (λ s. reset_story svc r s.status) w
        (get_story-Keeps r.story_id w) (λ s v. reset_story-Keeps r s.status v),
  )

  pub resume_run-Advances :
      (p id : Uuid) (w : World) → Advances (some RunStatus.running) w (resume_run svc p id w).1
  unfolding resume_run
  resume_run-Advances p id w = after_get_run id _ w λ v r found.
      require-Advances (r.project_id == p) _ _ v λ _.
        require-Advances (run_status_eq r.status RunStatus.paused) _ _ v λ is_paused.
          then_Advances (update_run_status id RunStatus.running none none none none) _ v
            (update-Advances id RunStatus.running none none none none v r found
              (paused-resumes r.status is_paused))
            λ updated u.
              then_Keeps (publish_run_event svc updated.project_id updated.id "resumed" _) _ u
                (publish_run_event-Keeps updated.project_id updated.id "resumed" _ u)
                λ _ t. then_Keeps (enqueue_run svc id) _ t (enqueue_run-Keeps id t) λ _ x. refl

  pub cancel_run-Advances :
      (p id : Uuid) (w : World) → Advances (some RunStatus.cancelled) w (cancel_run svc p id w).1
  unfolding cancel_run
  cancel_run-Advances p id w = after_get_run id _ w λ v r found.
      require-Advances (r.project_id == p) _ _ v λ _.
        lift-Advances (validate_run_transition r.status RunStatus.cancelled) _ v λ _ valid.
          past_Keeps (list_run_steps_by_run id) _ v (list_run_steps_by_run-Keeps id v) λ steps u k.
            past_Keeps (for_each steps (cancel_step svc u.clock)) _ u
              (for_each-Keeps steps (cancel_step svc u.clock) u (cancel_step-Keeps u.clock))
              λ _ t l.
                then_Advances
                  (update_run_status id RunStatus.cancelled none (some u.clock) none cancel_msg) _ t
                  (valid-Advances id RunStatus.cancelled none (some u.clock) none cancel_msg t r
                    (still_found u t id r l (still_found v u id r k found)) valid)
                  λ updated x.
                    then_Keeps (publish_run_event svc updated.project_id updated.id "cancelled" _) _
                      x (publish_run_event-Keeps updated.project_id updated.id "cancelled" _ x)
                      λ _ y.
                        then_Keeps (transition_story_to_backlog svc updated) _ y
                          (transition_story_to_backlog-Keeps updated y) λ _ z. refl

  reopen_run-Advances :
      (id : Uuid) (r : Run) (w : World)
      → run_at w id ≡ some r
      → Advances (some RunStatus.running) w (reopen_run r w).1
  unfolding reopen_run
  reopen_run-Advances id r w found =
      if-Advances (run_status_eq r.status RunStatus.failed) _ _ w
        (λ failed.
          then_Advances (update_run_status r.id RunStatus.running none none none none) _ w
            (found-Advances id w r RunStatus.running none none none none found
              (failed-reopens r.status failed))
            λ _ v. refl)
        (λ _. Advances-refl _ w)

  get_run_with_steps-Keeps : (id : Uuid) (w : World) → Keeps w (get_run_with_steps id w).1
  unfolding get_run_with_steps
  get_run_with_steps-Keeps id w = then_Keeps (get_run id) _ w (get_run-Keeps id w) λ _ v.
      then_Keeps (list_run_steps_by_run id) _ v (list_run_steps_by_run-Keeps id v) λ _ u. refl

  add_retry-Advances :
      (r : Run) (s : RunStep) (id fresh : Uuid) (w : World)
      → run_at w id ≡ some r
      → Advances (some RunStatus.running) w (add_retry svc r s id fresh w).1
  unfolding add_retry
  add_retry-Advances r s id fresh w found =
      past_Keeps (create_retry_run_step (retry_of s fresh)) _ w
        (create_retry_run_step-Keeps (retry_of s fresh) w)
        λ _ v k.
          then_Advances (reopen_run r) _ v
            (reopen_run-Advances id r v (still_found w v id r k found))
            λ _ u. then_Keeps (enqueue_run svc id) _ u (enqueue_run-Keeps id u) λ _ t.
              then_Keeps (publish_run_event svc r.project_id id "step.retry_initiated" _) _ t
                (publish_run_event-Keeps r.project_id id "step.retry_initiated" _ t)
                λ _ x. get_run_with_steps-Keeps id x

  pub retry_step-Advances :
      (id s : Uuid) (w : World) → Advances (some RunStatus.running) w (retry_step svc id s w).1
  unfolding retry_step run_at
  retry_step-Advances id s w = after_get_run id _ w λ v r found.
      past_Keeps (get_run_step s) _ v (get_run_step-Keeps s v) λ st u k.
        require-Advances (st.run_id == id) _ _ u λ _.
          require-Advances (step_status_eq st.status StepStatus.failed) _ _ u λ _.
            past_Keeps (list_retry_steps_by_parent (root_step_id st)) _ u
              (list_retry_steps_by_parent-Keeps (root_step_id st) u)
              λ existing t l.
                require-Advances
                  (not
                    (leb (max_retries r.pipeline_config_snapshot st.step_name) (length existing)))
                  _ _ t
                  λ _.
                    let fresh : World = record t { next_id = t.next_id + 1 } in
                    Keeps-then (some RunStatus.running) t fresh
                      (add_retry svc r st id t.next_id fresh).1 refl
                      (add_retry-Advances r st id t.next_id fresh
                        (still_found u t id r l (still_found v u id r k found)))
