-- ===== src/Hitl/Moves.antt =====
-- What the requests of service/hitl_service.go do to the statuses of runs.
use hopeitworks.Prelude.{
  ◌≡◌, refl, true, false, ◌||◌, Option, none, some, String, ◌+◌, ◌=s=◌, arith,
}
use hopeitworks.Action.{◌>>=◌, ◌>>◌, attempt, pure}
use hopeitworks.Model.Status.{RunStatus, StepStatus, HitlStatus, run_status_eq, hitl_status_eq}
use hopeitworks.Model.Entities.{Uuid, Time, ErrorText, Run, HitlRequest, HaltReason}
use hopeitworks.World.{World, M, execute_run, uuid_new, run_at}
use hopeitworks.World.Moves.{Keeps, then_Keeps, if-Keeps, still_found}
use hopeitworks.World.Advances.{
  Advances, Advances-refl, Keeps-Advances, Keeps-then, if-Advances, require-Advances, after_Keeps,
  then_Advances, past_Keeps,
}
use hopeitworks.Repo.Runs.{get_run, get_run_step}
use hopeitworks.Repo.Rows.{
  get_hitl_request, get_hitl_by_run_step_id, create_hitl_request, update_hitl_status,
}
use hopeitworks.Repo.Edges.{paused-resumes, running-pauses}
use hopeitworks.Repo.Advances.{after_get_run, found-Advances}
use hopeitworks.Repo.Keeps.{
  get_run-Keeps, get_run_step-Keeps, update_run_step_status-Keeps, publish-Keeps, enqueue-Keeps,
  get_hitl_request-Keeps, get_hitl_by_run_step_id-Keeps, create_hitl_request-Keeps,
  update_hitl_status-Keeps,
}
use hopeitworks.Hitl.{
  Wiring, close_step, set_running, enqueue_again, try_resume_run, resume_run, try_publish,
  publish_event, approve, reject, rejection_message, act_on_step, resolve,
  valid_hitl_resolution_action, pause_for_halt, publish_probe_halt_event, pending_gate, new_gate,
  raise_unless, raise_new, raise_probe_halt,
}

close_step-Keeps :
    (s : Uuid) (t : StepStatus) (now : Time) (m : Option ErrorText) (w : World)
    → Keeps w (close_step s t now m w).1
unfolding close_step
close_step-Keeps s t now m w = update_run_step_status-Keeps s t none (some now) m w

set_running-Advances :
    (id : Uuid) (r : Run) (w : World)
    → run_at w id ≡ some r
    → Advances (some RunStatus.running) w (set_running r w).1
unfolding set_running
set_running-Advances id r w found =
    if-Advances (run_status_eq r.status RunStatus.paused) _ _ w
      (λ is_paused.
        found-Advances id w r RunStatus.running none none none none found
          (paused-resumes r.status is_paused))
      (λ _. Advances-refl _ w)

pause_for_halt-Advances :
    (svc : Wiring) (id : Uuid) (r : Run) (w : World)
    → run_at w id ≡ some r
    → Advances (some RunStatus.paused) w (pause_for_halt svc r w).1
unfolding pause_for_halt
pause_for_halt-Advances svc id r w found =
    if-Advances (run_status_eq r.status RunStatus.running) _ _ w
      (λ is_running.
        found-Advances id w r RunStatus.paused none none (some w.clock) none found
          (running-pauses r.status is_running))
      (λ _. Advances-refl _ w)

module _ (svc : Wiring) where
  enqueue_again-Keeps : (id : Uuid) (w : World) → Keeps w (enqueue_again svc id w).1
  unfolding enqueue_again
  enqueue_again-Keeps id w = ground (arith, enqueue-Keeps (execute_run id) w)

  resume_run-Advances :
      (s : Uuid) (w : World) → Advances (some RunStatus.running) w (resume_run svc s w).1
  unfolding resume_run try_resume_run
  resume_run-Advances s w =
      after_Keeps (get_run_step s)
        (λ st. get_run st.run_id >>= λ r. set_running r >> enqueue_again svc r.id) w
        (get_run_step-Keeps s w)
        λ st v. after_get_run st.run_id _ v λ u r found.
          then_Advances (set_running r) _ u (set_running-Advances st.run_id r u found)
            λ _ t. enqueue_again-Keeps r.id t

  try_publish-Keeps :
      (req : HitlRequest) (action : String) (user : Uuid) (w : World)
      → Keeps w (try_publish svc req action user w).1
  unfolding try_publish
  try_publish-Keeps req action user w =
      then_Keeps (get_run_step req.run_step_id) _ w (get_run_step-Keeps req.run_step_id w)
        λ s v. then_Keeps (get_run s.run_id) _ v (get_run-Keeps s.run_id v) λ r u. publish-Keeps _ u

  publish_event-Keeps :
      (req : HitlRequest) (action : String) (user : Uuid) (w : World)
      → Keeps w (publish_event svc req action user w).1
  unfolding publish_event
  publish_event-Keeps req action user w = ground (arith, try_publish-Keeps req action user w)

  publish_probe_halt_event-Keeps :
      (req : HitlRequest) (r : Run) (reason : HaltReason) (w : World)
      → Keeps w (publish_probe_halt_event svc req r reason w).1
  unfolding publish_probe_halt_event
  publish_probe_halt_event-Keeps req r reason w =
      if-Keeps svc.has_event_pub _ _ w (λ _. publish-Keeps _ w) (λ _. refl)

  pub approve-Advances :
      (id user : Uuid) (w : World) → Advances (some RunStatus.running) w (approve svc id user w).1
  unfolding approve
  approve-Advances id user w =
      after_Keeps (get_hitl_request id) _ w (get_hitl_request-Keeps id w) λ req v.
        require-Advances (hitl_status_eq req.status HitlStatus.pending) _ _ v λ _.
          after_Keeps (update_hitl_status id HitlStatus.approved (some user) none none v.clock) _ v
            (update_hitl_status-Keeps id HitlStatus.approved (some user) none none v.clock v)
            λ updated u.
              after_Keeps (close_step req.run_step_id StepStatus.completed v.clock none) _ u
                (close_step-Keeps req.run_step_id StepStatus.completed v.clock none u)
                λ _ t.
                  then_Advances (resume_run svc req.run_step_id)
                    (λ _. publish_event svc req "approved" user >> pure updated) t
                    (resume_run-Advances req.run_step_id t)
                    λ _ x.
                      then_Keeps (publish_event svc req "approved" user) _ x
                        (publish_event-Keeps req "approved" user x) λ _ y. refl

  pub reject-Advances :
      (id user : Uuid) (reason : Option String) (w : World)
      → Advances none w (reject svc id user reason w).1
  unfolding reject
  reject-Advances id user reason w =
      after_Keeps (get_hitl_request id) _ w (get_hitl_request-Keeps id w) λ req v.
        require-Advances (hitl_status_eq req.status HitlStatus.pending) _ _ v λ _.
          after_Keeps (update_hitl_status id HitlStatus.rejected (some user) reason none v.clock) _
            v (update_hitl_status-Keeps id HitlStatus.rejected (some user) reason none v.clock v)
            λ updated u.
              after_Keeps
                (close_step req.run_step_id StepStatus.failed v.clock
                  (some (rejection_message reason)))
                _ u (close_step-Keeps req.run_step_id StepStatus.failed v.clock _ u)
                λ _ t.
                  after_Keeps (publish_event svc req "rejected" user) _ t
                    (publish_event-Keeps req "rejected" user t) λ _ y. Advances-refl _ y

  act_on_step-Advances :
      (s : Uuid) (action : String) (now : Time) (w : World)
      → valid_hitl_resolution_action action ≡ true
      → (action =s= "abort") ≡ false
      → Advances (some RunStatus.running) w (act_on_step svc s action now w).1
  unfolding act_on_step
  act_on_step-Advances s action now w valid not_abort =
      if-Advances (action =s= "resume") _ _ w (λ _. resume_run-Advances s w)
        λ not_resume.
          if-Advances (action =s= "override" || action =s= "skip") _ _ w
            (λ _.
              after_Keeps (close_step s StepStatus.completed now none) _ w
                (close_step-Keeps s StepStatus.completed now none w) λ _ v. resume_run-Advances s v)
            λ not_skip.
              if-Advances (action =s= "send_back") _ _ w
                (λ _.
                  Keeps-Advances _ w (close_step s StepStatus.cancelled now none w).1
                    (close_step-Keeps s StepStatus.cancelled now none w))
                λ not_back. absurd (no_other not_resume not_skip not_back)
    where
      no_other :
          (action =s= "resume") ≡ false
          → (action =s= "override" || action =s= "skip") ≡ false
          → (action =s= "send_back") ≡ false
          → ⊥
      no_other a b c = ground arith

  pub resolve-Advances :
      (id user : Uuid) (action : String) (w : World)
      → (action =s= "abort") ≡ false
      → Advances (some RunStatus.running) w (resolve svc id user action w).1
  unfolding resolve
  resolve-Advances id user action w not_abort =
      require-Advances (valid_hitl_resolution_action action) _ _ w λ valid.
        after_Keeps (get_hitl_request id) _ w (get_hitl_request-Keeps id w) λ req v.
          require-Advances (req.gate_type =s= "probe_halt") _ _ v λ _.
            require-Advances (hitl_status_eq req.status HitlStatus.pending) _ _ v λ _.
              after_Keeps
                (update_hitl_status id HitlStatus.resolved (some user) none (some action) v.clock) _
                v
                (update_hitl_status-Keeps id HitlStatus.resolved (some user) none (some action)
                  v.clock v)
                λ updated u.
                  then_Advances (act_on_step svc req.run_step_id action v.clock) _ u
                    (act_on_step-Advances req.run_step_id action v.clock u valid not_abort)
                    λ _ x.
                      then_Keeps (publish_event svc req "resolved" user) _ x
                        (publish_event-Keeps req "resolved" user x) λ _ y. refl

  -- What follows the fresh identifier of a halt.
  abbrev create_halt : Uuid → HaltReason → Uuid → Run → M HitlRequest
  create_halt s reason id r = create_hitl_request (new_gate s id reason) >>= λ created.
      pause_for_halt svc r >> (publish_probe_halt_event svc created r reason >> pure created)

  create_halt-Advances :
      (s : Uuid) (reason : HaltReason) (id run_id : Uuid) (r : Run) (w : World)
      → run_at w run_id ≡ some r
      → Advances (some RunStatus.paused) w (create_halt s reason id r w).1
  create_halt-Advances s reason id run_id r w found =
      past_Keeps (create_hitl_request (new_gate s id reason)) _ w
        (create_hitl_request-Keeps (new_gate s id reason) w)
        λ created t k.
          then_Advances (pause_for_halt svc r) _ t
            (pause_for_halt-Advances svc run_id r t (still_found w t run_id r k found))
            λ _ x.
              then_Keeps (publish_probe_halt_event svc created r reason) _ x
                (publish_probe_halt_event-Keeps created r reason x) λ _ y. refl

  raise_new-Advances :
      (s : Uuid) (reason : HaltReason) (w : World)
      → Advances (some RunStatus.paused) w (raise_new svc s reason w).1
  unfolding raise_new run_at
  raise_new-Advances s reason w = after_Keeps (get_run_step s) _ w (get_run_step-Keeps s w) λ st v.
      after_get_run st.run_id (λ r. uuid_new >>= λ id. create_halt s reason id r) v
        λ u r found.
          let fresh : World = record u { next_id = u.next_id + 1 } in
          Keeps-then (some RunStatus.paused) u fresh (create_halt s reason u.next_id r fresh).1 refl
            (create_halt-Advances s reason u.next_id st.run_id r fresh found)

  pub raise_probe_halt-Advances :
      (s : Uuid) (reason : HaltReason) (w : World)
      → Advances (some RunStatus.paused) w (raise_probe_halt svc s reason w).1
  unfolding raise_probe_halt
  raise_probe_halt-Advances s reason w =
      after_Keeps (attempt (get_hitl_by_run_step_id s))
        (λ existing. raise_unless svc s reason (pending_gate existing)) w
        (get_hitl_by_run_step_id-Keeps s w)
        λ existing v. raise_unless-Advances (pending_gate existing) v
    where
      raise_unless-Advances :
          (o : Option HitlRequest) (v : World)
          → Advances (some RunStatus.paused) v (raise_unless svc s reason o v).1
      raise_unless-Advances none v = raise_new-Advances s reason v
      raise_unless-Advances (some req) v = Advances-refl _ v
