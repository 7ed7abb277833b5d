-- ===== src/Executor/Advancing.antt =====
-- A round after which the loop goes on has completed its step and undone no other.
use hopeitworks.Prelude.{
  not, ◌||◌, ◌≡◌, refl, sym, ap, ◌∙◌, Bool, true, false, Option, none, some, ◌=s=◌, if◌then◌else◌,
  arith,
}
use hopeitworks.Errors.{Result, ok, err}
use hopeitworks.Action.{◌>>=◌, pure, caught}
use hopeitworks.Action.Returns.{bind_ends}
use hopeitworks.Model.Status.{StepStatus, step_status_eq}
use hopeitworks.Model.Config.{PipelineConfigYaml, transition_manual, transition_gate}
use hopeitworks.Model.Entities.{Uuid, Run, RunStep, Metadata, as_bool, meta_get, stage_started}
use hopeitworks.World.{World, M, call}
use hopeitworks.Repo.Runs.{get_run}
use hopeitworks.Executor.{PipelineExecutor, handle_cancellation, handle_step_failure}
use hopeitworks.Executor.Stages.{
  StageRef, Verdict, proceed, suspended, matches, new_stage_ref, exit_stage, enter_stage,
  enforce_manual_on_enter, enforce_gate_on_exit, enforce_gate, park_at_stage, transition_for,
}
use hopeitworks.Executor.Steps.{execute_step}
use hopeitworks.Executor.Execution.{
  Progress, Flow, next, stop, settle, take_step, note_failure, change_stage, after_manual,
  after_gate, cross_boundary, step_unless, run_unless_paused, run_unless_cancelled, one_round,
  says_paused,
}
use hopeitworks.Executor.Quiet.{enter_stage-Quiet, exit_stage-Quiet}
use hopeitworks.Executor.Gates.{enforced}
use hopeitworks.Executor.Parking.{park-Ends}
use hopeitworks.Executor.Completing.{
  Done, KeepsDone, same_steps-Done, ends-steps, ActionsKeepDone, execute_step-Done,
}

reread_run-steps : (id : Uuid) (w : World) → (caught (get_run id) w).1.run_steps ≡ w.run_steps
unfolding caught get_run call
reread_run-steps id w = ground arith

pair_of :
    {A : Type 0} (o : Result A × World) {r : Result A} {v : World} → o.0 ≡ r → o.1 ≡ v → o ≡ (r, v)
pair_of o h k = ground arith

-- The steps after a call that returned its state unchanged.
pub pure-steps :
    {A : Type 0} (a : A) (r : Result A) (w v : World)
    → pure a w ≡ (r, v)
    → v.run_steps ≡ w.run_steps
pure-steps a r w v h = ap (λ x. x.1.run_steps) (sym h)

module _ (e : PipelineExecutor) where
  pub gate-steps :
      (r : Run) (l : Option StageRef) (policy : Option PipelineConfigYaml) (a : Option RunStep)
      (w v : World)
      → enforce_gate_on_exit e r l policy a w ≡ (ok proceed, v)
      → v.run_steps ≡ w.run_steps
  unfolding enforce_gate_on_exit
  gate-steps r none policy a w v h = pure-steps proceed (ok proceed) w v h
  gate-steps r (some l) policy none w v h = pure-steps proceed (ok proceed) w v h
  gate-steps r (some l) policy (some a) w v h =
      go (transition_for policy l.id =s= transition_gate) e.has_hitl_repo h
    where
      go :
          (b c : Bool)
          → (if b then (if c then enforce_gate e r l a else pure proceed) else pure proceed) w
            ≡ (ok proceed, v)
          → v.run_steps ≡ w.run_steps
      go true true k =
          ends-steps (enforce_gate e r l a) w v (ok proceed) k
            (enforced e r l a w (ap (λ x. x.0) k)).1.1
      go true false k = pure-steps proceed (ok proceed) w v k
      go false c k = pure-steps proceed (ok proceed) w v k

  manual-steps :
      (r : Run) (n : StageRef) (policy : Option PipelineConfigYaml) (m : Metadata) (w v : World)
      → enforce_manual_on_enter e r n policy m w ≡ (ok proceed, v)
      → v.run_steps ≡ w.run_steps
  unfolding enforce_manual_on_enter
  manual-steps r n policy m w v h =
      go
        (not (transition_for policy n.id =s= transition_manual)
          || as_bool (meta_get (stage_started n.id) m))
        h
    where
      go :
          (b : Bool)
          → (if b then pure proceed else park_at_stage e r n m) w ≡ (ok proceed, v)
          → v.run_steps ≡ w.run_steps
      go true k = pure-steps proceed (ok proceed) w v k
      go false k = absurd (ground (arith, park-Ends e r n m w proceed (ap (λ x. x.0) k)))

  change-steps :
      (r : Run) (s : RunStep) (p q : Progress) (w v : World)
      → change_stage e r s p w ≡ (ok (next q), v)
      → v.run_steps ≡ w.run_steps
  unfolding change_stage
  change-steps r s p q w v h = bind_ends (exit_stage e r _ _) _ w v (next q) h λ _ w1 left h1.
      bind_ends (enter_stage e r _) _ w1 v (next q) h1 λ _ w2 entered h2.
        pure-steps _ _ w2 v h2
        ∙ ends-steps (enter_stage e r (new_stage_ref s)) w1 w2 (ok tt) entered
            (enter_stage-Quiet e r (new_stage_ref s) w1).1
        ∙ ends-steps (exit_stage e r p.cur_stage (some (new_stage_ref s))) w w1 (ok tt) left
            (exit_stage-Quiet e r p.cur_stage (some (new_stage_ref s)) w).1

  after_manual-steps :
      (r : Run) (s : RunStep) (p q : Progress) (a : Verdict) (w v : World)
      → after_manual e r s p a w ≡ (ok (next q), v)
      → v.run_steps ≡ w.run_steps
  unfolding after_manual
  after_manual-steps r s p q suspended w v h = absurd (ground arith)
  after_manual-steps r s p q proceed w v h = change-steps r s p q w v h

  after_manual-proceeds :
      (r : Run) (s : RunStep) (p q : Progress) (a : Verdict) (w v : World)
      → after_manual e r s p a w ≡ (ok (next q), v)
      → a ≡ proceed
  unfolding after_manual
  after_manual-proceeds r s p q suspended w v h = absurd (ground arith)
  after_manual-proceeds r s p q proceed w v h = refl

  after_gate-steps :
      (r : Run) (policy : Option PipelineConfigYaml) (s : RunStep) (p q : Progress) (a : Verdict)
      (w v : World)
      → after_gate e r policy s p a w ≡ (ok (next q), v)
      → v.run_steps ≡ w.run_steps
  unfolding after_gate
  after_gate-steps r policy s p q suspended w v h = absurd (ground arith)
  after_gate-steps r policy s p q proceed w v h =
      bind_ends (enforce_manual_on_enter e r _ _ _) _ w v (next q) h λ a w1 k l.
        let same = after_manual-proceeds r s p q a w1 v l in
        after_manual-steps r s p q a w1 v l
        ∙ manual-steps r (new_stage_ref s) policy p.metadata w w1 (k ∙ ap (λ x. (ok x, w1)) same)

  after_gate-proceeds :
      (r : Run) (policy : Option PipelineConfigYaml) (s : RunStep) (p q : Progress) (a : Verdict)
      (w v : World)
      → after_gate e r policy s p a w ≡ (ok (next q), v)
      → a ≡ proceed
  unfolding after_gate
  after_gate-proceeds r policy s p q suspended w v h = absurd (ground arith)
  after_gate-proceeds r policy s p q proceed w v h = refl

  cross-steps :
      (r : Run) (policy : Option PipelineConfigYaml) (s : RunStep) (p q : Progress) (w v : World)
      → cross_boundary e r policy s p w ≡ (ok (next q), v)
      → v.run_steps ≡ w.run_steps
  unfolding cross_boundary
  cross-steps r policy s p q w v h = go (matches p.cur_stage s.stage_id) h
    where
      gate : M Verdict
      gate = enforce_gate_on_exit e r p.cur_stage policy p.prev_step

      go :
          (b : Bool)
          → (if b then pure (next p) else (gate >>= after_gate e r policy s p)) w ≡ (ok (next q), v)
          → v.run_steps ≡ w.run_steps
      go true k = pure-steps (next p) (ok (next q)) w v k
      go false k = bind_ends gate (after_gate e r policy s p) w v (next q) k λ a w1 l m.
          after_gate-steps r policy s p q a w1 v m
          ∙ gate-steps r p.cur_stage policy p.prev_step w w1
              (l ∙ ap (λ x. (ok x, w1)) (after_gate-proceeds r policy s p q a w1 v m))

  module _ (plain : ActionsKeepDone e) where
    settle-Done :
        (r : Run) (s : RunStep) (p q : Progress) (o : Result (Option Metadata)) (w v : World)
        → settle e r s p o w ≡ (ok (next q), v)
        → (n : Metadata) × (o ≡ ok (some n)) × (w ≡ v)
    unfolding settle
    settle-Done r s p q (ok none) w v h = absurd (ground arith)
    settle-Done r s p q (ok (some n)) w v h = (n, refl, ap (λ x. x.1) h)
    settle-Done r s p q (err x) w v h =
        bind_ends (handle_step_failure e r s x) _ w v (next q) h λ _ w1 _ h1.
          bind_ends (note_failure e r) _ w1 v (next q) h1 λ _ w2 _ h2. absurd (ground arith)

    take-Done :
        (r : Run) (s : RunStep) (p q : Progress) (w v : World)
        → take_step e r s p w ≡ (ok (next q), v)
        → KeepsDone w v × Done v s.id
    unfolding take_step caught
    take-Done r s p q w v h =
        let o = execute_step e r s p.metadata w in
        let (n, got, same) = settle-Done r s p q o.0 o.1 v h in
        execute_step-Done e plain r s p.metadata n w v (pair_of o got same)

    unless-Done :
        (r : Run) (s : RunStep) (f : Flow) (q : Progress) (w v : World)
        → step_unless e r s f w ≡ (ok (next q), v)
        → (KeepsDone w v × Done v s.id) × ((p : Progress) × (f ≡ next p))
    unfolding step_unless
    unless-Done r s (stop x) q w v h = absurd (ground arith)
    unless-Done r s (next p) q w v h = (take-Done r s p q w v h, (p, refl))

    unpaused-Done :
        (b : Bool) (r : Run) (policy : Option PipelineConfigYaml) (s : RunStep) (p q : Progress)
        (w v : World)
        → run_unless_paused e b r policy s p w ≡ (ok (next q), v)
        → KeepsDone w v × Done v s.id
    unfolding run_unless_paused
    unpaused-Done true r policy s p q w v h = absurd (ground arith)
    unpaused-Done false r policy s p q w v h =
        bind_ends (cross_boundary e r policy s p) _ w v (next q) h λ f w1 crossed h1.
          let ((kept, done), (p', goes)) = unless-Done r s f q w1 v h1 in
          let steps = cross-steps r policy s p p' w w1 (crossed ∙ ap (λ x. (ok x, w1)) goes) in
          (λ j d. kept j (same_steps-Done w w1 steps j d), done)

    uncancelled-Done :
        (b : Bool) (r : Run) (policy : Option PipelineConfigYaml) (s : RunStep) (p q : Progress)
        (w v : World)
        → run_unless_cancelled e b r policy s p w ≡ (ok (next q), v)
        → KeepsDone w v × Done v s.id
    unfolding run_unless_cancelled
    uncancelled-Done true r policy s p q w v h =
        bind_ends (handle_cancellation e r s) _ w v (next q) h λ _ w1 _ h1. absurd (ground arith)
    uncancelled-Done false r policy s p q w v h =
        bind_ends (caught (get_run r.id)) _ w v (next q) h λ o w1 reread h1.
          let (kept, done) = unpaused-Done (says_paused o) r policy s p q w1 v h1 in
          let steps =
            ends-steps (caught (get_run r.id)) w w1 (ok o) reread (reread_run-steps r.id w) in
          (λ j d. kept j (same_steps-Done w w1 steps j d), done)

    pub round-Done :
        (r : Run) (policy : Option PipelineConfigYaml) (s : RunStep) (p q : Progress) (w v : World)
        → one_round e r policy s p w ≡ (ok (next q), v)
        → KeepsDone w v × (step_status_eq s.status StepStatus.completed ≡ false → Done v s.id)
    unfolding one_round
    round-Done r policy s p q w v h = go (step_status_eq s.status StepStatus.completed) h
      where
        attempted : M Flow
        attempted z = run_unless_cancelled e (e.is_cancelled z) r policy s p z

        go :
            (b : Bool)
            → (if b then pure (next p) else attempted) w ≡ (ok (next q), v)
            → KeepsDone w v × (b ≡ false → Done v s.id)
        go true k = (
          same_steps-Done w v (pure-steps (next p) (ok (next q)) w v k),
          λ no_. absurd (ground arith),
        )
        go false k =
            let (kept, done) = uncancelled-Done (e.is_cancelled w) r policy s p q w v k in
            (kept, λ _. done)
