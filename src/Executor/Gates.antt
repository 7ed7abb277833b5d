-- ===== src/Executor/Gates.antt =====
-- When a run passes a gate.
use hopeitworks.Prelude.{
  ◌≡◌, refl, sym, subst, Bool, true, false, none, some, find, ◌⊎◌, inl, inr, Option, ◌==◌, ◌=s=◌,
  if◌then◌else◌, arith,
}
use hopeitworks.Errors.{Result, ok, err}
use hopeitworks.Action.{pure, caught}
use hopeitworks.Model.Status.{HitlStatus, hitl_status_eq}
use hopeitworks.Model.Config.{PipelineConfigYaml, transition_gate}
use hopeitworks.Model.Entities.{Uuid, Run, RunStep, HitlRequest}
use hopeitworks.World.{World, call}
use hopeitworks.Repo.Rows.{get_hitl_by_run_step_id}
use hopeitworks.Repo.Quiet.{Quiet, Quiet-refl}
use hopeitworks.Executor.{PipelineExecutor}
use hopeitworks.Executor.Stages.{
  StageRef, proceed, suspended, transition_for, gate_verdict, enforce_gate, enforce_gate_on_exit,
}
use hopeitworks.Executor.Parking.{raise-Ends}

-- The gate that is stored for a step.
abbrev pub gate_of : World → Uuid → Option HitlRequest
gate_of w id = find (λ (r : HitlRequest). r.run_step_id == id) w.hitl_requests

abbrev pub Approved : World → Uuid → Type 0
Approved w id = (q : HitlRequest) × (gate_of w id ≡ some q) × (q.status ≡ HitlStatus.approved)

look_up :
    (id : Uuid) (w : World) (q : HitlRequest)
    → (get_hitl_by_run_step_id id w).0 ≡ ok q
    → gate_of w id ≡ some q
unfolding get_hitl_by_run_step_id call
look_up id w q h = ground arith

look_up-Quiet : (id : Uuid) (w : World) → Quiet w (get_hitl_by_run_step_id id w).1
unfolding get_hitl_by_run_step_id call
look_up-Quiet id w = ground arith

hitl_status_eq_sound : (s t : HitlStatus) → hitl_status_eq s t ≡ true → s ≡ t
hitl_status_eq_sound s t h = ground arith

module _ (e : PipelineExecutor) where
  passes :
      (r : Run) (l : StageRef) (a : RunStep) (o : Result HitlRequest) (w : World)
      → (gate_verdict e r l a o w).0 ≡ ok proceed
      → (q : HitlRequest) × (o ≡ ok q)
        × (q.status ≡ HitlStatus.approved)
        × ((gate_verdict e r l a o w).1 ≡ w)
  unfolding gate_verdict
  passes r l a (err x) w h = absurd (ground (arith, raise-Ends e r l a w proceed h))
  passes r l a (ok q) w h = go (hitl_status_eq q.status HitlStatus.approved) refl h
    where
      go :
          (b : Bool)
          → hitl_status_eq q.status HitlStatus.approved ≡ b
          → ((if b then pure proceed else pure suspended) w).0 ≡ ok proceed
          → (p : HitlRequest) × (ok q ≡ ok p)
            × (p.status ≡ HitlStatus.approved)
            × (((if b then pure proceed else pure suspended) w).1 ≡ w)
      go true k l = (q, refl, hitl_status_eq_sound q.status HitlStatus.approved k, refl)
      go false k l = absurd (ground arith)

  pub enforced :
      (r : Run) (l : StageRef) (a : RunStep) (w : World)
      → (enforce_gate e r l a w).0 ≡ ok proceed
      → Approved w a.id × Quiet w (enforce_gate e r l a w).1
  unfolding enforce_gate caught
  enforced r l a w h =
      let v = (get_hitl_by_run_step_id a.id w).1 in
      let (q, found, approved, same) = passes r l a (get_hitl_by_run_step_id a.id w).0 v h in
      ((q, look_up a.id w q found, approved), subst (Quiet w) (sym same) (look_up-Quiet a.id w))

  -- Why a run may leave a stage: there is none to leave, no step of it is known, the gates of humans
  -- are not wired, the stage's transition is no gate, or a gate of the step is approved.
  abbrev pub MayLeave :
      Option StageRef → Option PipelineConfigYaml → Option RunStep → World → Type 0
  MayLeave stage policy anchor w =
      (stage ≡ none)
      ⊎ (anchor ≡ none)
      ⊎ (e.has_hitl_repo ≡ false)
      ⊎ ((l : StageRef) × (stage ≡ some l)
          × ((transition_for policy l.id =s= transition_gate) ≡ false))
      ⊎ ((a : RunStep) × (anchor ≡ some a) × Approved w a.id)

  -- Where `enforceGateOnExit` lets the run proceed, it has changed no run, step or gate, and there was
  -- no stage to leave, or no step of the stage that this execution knows, or the gates of humans are
  -- not wired, or the transition of the stage is no gate, or a gate that is stored for the step is
  -- approved.
  pub gate-Approved :
      (r : Run) (stage : Option StageRef) (policy : Option PipelineConfigYaml)
      (anchor : Option RunStep) (w : World)
      → (enforce_gate_on_exit e r stage policy anchor w).0 ≡ ok proceed
      → Quiet w (enforce_gate_on_exit e r stage policy anchor w).1 × MayLeave stage policy anchor w
  unfolding enforce_gate_on_exit
  gate-Approved r none policy anchor w h = (Quiet-refl w, inl refl)
  gate-Approved r (some l) policy none w h = (Quiet-refl w, inr (inl refl))
  gate-Approved r (some l) policy (some a) w h =
      go (transition_for policy l.id =s= transition_gate) e.has_hitl_repo refl refl h
    where
      go :
          (b c : Bool)
          → (transition_for policy l.id =s= transition_gate) ≡ b
          → e.has_hitl_repo ≡ c
          → ((if b then (if c then enforce_gate e r l a else pure proceed) else pure proceed) w).0
            ≡ ok proceed
          → Quiet w
              ((if b then (if c then enforce_gate e r l a else pure proceed) else pure proceed) w).1
            × MayLeave (some l) policy (some a) w
      go true true g k h =
          let (approved, quiet) = enforced r l a w h in
          (quiet, inr (inr (inr (inr (a, refl, approved)))))
      go false c g k h = (Quiet-refl w, inr (inr (inr (inl (l, refl, g)))))
      go true false g k h = (Quiet-refl w, inr (inr (inl k)))
