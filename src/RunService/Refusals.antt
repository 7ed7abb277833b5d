-- ===== src/RunService/Refusals.antt =====
-- What a refused request of service/run_service.go leaves behind.
use hopeitworks.Prelude.{
  ◌≡◌, refl, subst, find, ap, ◌∙◌, sym, String, List, ◌==◌, none, some, arith, Option,
}
use hopeitworks.Errors.{DomainError, Result, ok, err}
use hopeitworks.Action.Returns.{bind_ends, lift_ends, bind_refused, lift_refused, require_refused}
use hopeitworks.Model.Status.{RunStatus, validate_run_transition}
use hopeitworks.Model.Entities.{Uuid, Run, PayloadValue, Time, ErrorText}
use hopeitworks.Model.Status.Lifecycle.{◌⟶◌, valid→⟶}
use hopeitworks.World.{World, call, run_at, run_has_id}
use hopeitworks.World.Moves.{find-update_where}
use hopeitworks.Repo.Runs.{get_run, update_run_status, with_status}
use hopeitworks.Repo.Keeps.{get_run-Keeps, get_run-found}
use hopeitworks.Executor.Halting.{found_after}
use hopeitworks.RunService.{Wiring, pause_run, transition_run, publish_run_event, publish_event}

update_run_status-refused :
    (id : Uuid) (s : RunStatus) (a b c : Option Time) (t : Option ErrorText) (w v : World)
    (e : DomainError)
    → update_run_status id s a b c t w ≡ (err e, v)
    → v.runs ≡ w.runs
unfolding update_run_status call
update_run_status-refused id s a b c t w v e h = ground arith

get_run-refused :
    (id : Uuid) (w v : World) (e : DomainError) → get_run id w ≡ (err e, v) → v.runs ≡ w.runs
unfolding get_run call
get_run-refused id w v e h = ground arith

kept : {r : Run} (id : Uuid) (w u : World) → get_run id w ≡ (ok r, u) → u.runs ≡ w.runs
kept id w u got = ap (λ x. x.1.runs) (sym got) ∙ get_run-Keeps id w

-- What `TransitionRun` leaves behind: with a run, the row it has written over a stored run whose
-- status has an edge to the new one; with an error, the runs as they were.
abbrev pub Transitioned : Uuid → RunStatus → World → Result Run → World → Type 0
Transitioned id s w (ok q) v =
    (r : Run) × (run_at w id ≡ some r) × (r.status ⟶ s) × (q.status ≡ s) × (run_at v id ≡ some q)
Transitioned id s w (err x) v = v.runs ≡ w.runs

written :
    (id : Uuid) (s : RunStatus) (a b c : Option Time) (t : Option ErrorText) (w u : World)
    (r q : Run)
    → u.runs ≡ w.runs
    → run_at u id ≡ some r
    → validate_run_transition r.status s ≡ ok tt
    → (update_run_status id s a b c t u).0 ≡ ok q
    → Transitioned id s w (ok q) (update_run_status id s a b c t u).1
unfolding run_at
written id s a b c t w u r q same found valid h =
    let (p, f, e, rows) = found_after id s a b c t u q h in
    (
      r,
      ap (find (run_has_id id)) (sym same) ∙ found,
      valid→⟶ r.status s valid,
      ap (λ (x : Run). x.status) e,
      ap (find (run_has_id id)) rows
          ∙ find-update_where id id (with_status s a b c t) (λ _. refl) u.runs p f
          ∙ ground (arith, e),
    )

transition_run-returned :
    (id : Uuid) (s : RunStatus) (w v : World) (q : Run)
    → transition_run id s w ≡ (ok q, v)
    → Transitioned id s w (ok q) v
unfolding transition_run
transition_run-returned id s w v q h = bind_ends (get_run id) _ w v q h λ r u got h1.
    lift_ends (validate_run_transition r.status s) _ u v q h1 λ _ valid h2.
      subst (Transitioned id s w (ok q)) (ap (λ x. x.1) h2) (
        written id s _ _ _ _ w u r q (kept id w u got)
          (subst (λ x. run_at x id ≡ some r) (ap (λ x. x.1) got)
            (get_run-found id w r (ap (λ x. x.0) got)))
          valid (ap (λ x. x.0) h2))

transition_run-refused :
    (id : Uuid) (s : RunStatus) (w v : World) (e : DomainError)
    → transition_run id s w ≡ (err e, v)
    → v.runs ≡ w.runs
unfolding transition_run
transition_run-refused id s w v e h =
    bind_refused (get_run id) _ w v e h (get_run-refused id w v e) λ r u got h1.
      lift_refused (validate_run_transition r.status s) _ u v e h1
        (λ same. ap (λ x. x.runs) (sym same) ∙ kept id w u got)
        λ _ _ h2. update_run_status-refused id s _ _ _ _ u v e h2 ∙ kept id w u got

-- `TransitionRun`, on every path: where it returns a run, a run of this identifier was stored, one
-- edge of the lifecycle leads from its status to the new one, and the run that is returned has the
-- new status and is the one that is stored now; where it returns an error, every run is as it was.
pub transition_run-Transitioned :
    (id : Uuid) (s : RunStatus) (w : World)
    → Transitioned id s w (transition_run id s w).0 (transition_run id s w).1
transition_run-Transitioned id s w = go (transition_run id s w) refl
  where
    go : (o : Result Run × World) → transition_run id s w ≡ o → Transitioned id s w o.0 o.1
    go (ok q, v) e = transition_run-returned id s w v q e
    go (err x, v) e = transition_run-refused id s w v x e

module _ (svc : Wiring) where
  publish_run_event-returns :
      (p r : Uuid) (action : String) (payload : List (String × PayloadValue)) (w : World)
      → (publish_run_event svc p r action payload w).0 ≡ ok tt
  unfolding publish_run_event publish_event
  publish_run_event-returns p r action payload w = ground arith

  publish_run_event-not_refused :
      (p r : Uuid) (action : String) (payload : List (String × PayloadValue)) (w v : World)
      (e : DomainError)
      → publish_run_event svc p r action payload w ≡ (err e, v)
      → ⊥
  publish_run_event-not_refused p r action payload w v e h =
      ground (arith, publish_run_event-returns p r action payload w)

  -- `PauseRun` that returns an error leaves every run as it was.
  pub pause_run-refused :
      (p id : Uuid) (w v : World) (e : DomainError)
      → pause_run svc p id w ≡ (err e, v)
      → v.runs ≡ w.runs
  unfolding pause_run
  pause_run-refused p id w v e h =
      bind_refused (get_run id) _ w v e h (get_run-refused id w v e) λ r u got h1.
        require_refused (r.project_id == p) _ _ u v e h1
          (λ same. ap (λ x. x.runs) (sym same) ∙ kept id w u got)
          λ h2.
            lift_refused (validate_run_transition r.status RunStatus.paused) _ u v e h2
              (λ same. ap (λ x. x.runs) (sym same) ∙ kept id w u got)
              λ _ _ h3.
                bind_refused (update_run_status id RunStatus.paused none none (some u.clock) none) _
                  u v e h3
                  (λ h4.
                    update_run_status-refused id RunStatus.paused none none (some u.clock) none u v
                      e h4
                    ∙ kept id w u got)
                  λ updated t _ h4.
                    bind_refused (publish_run_event svc updated.project_id updated.id "paused" _) _
                      t v e h4
                      (λ h5. absurd (
                        publish_run_event-not_refused updated.project_id updated.id "paused" _ t v e
                          h5))
                      λ _ x _ h5. absurd (ground arith)
