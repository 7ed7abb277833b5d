-- ===== src/Executor/Completing.antt =====
-- A step that an execution goes on from is completed.
use hopeitworks.Prelude.{
  ◌≡◌, refl, sym, ap, ◌∙◌, subst, Bool, true, false, Option, none, some, find, ◌==◌, ==_iff,
  Bool-cases, Option-cases, inl, inr, String, if◌then◌else◌, arith,
}
use hopeitworks.Errors.{Result, ok}
use hopeitworks.Action.{pure, caught, logged}
use hopeitworks.Action.Returns.{bind_ends}
use hopeitworks.Model.Status.{StepStatus}
use hopeitworks.Model.Entities.{Uuid, Time, ErrorText, Run, RunStep, Metadata}
use hopeitworks.World.{World, M, call, step_at, step_has_id, update_where}
use hopeitworks.World.Rows.{find_step-update}
use hopeitworks.Repo.Runs.{
  update_run_step_status, with_step_status, update_run_metadata, get_run_step,
}
use hopeitworks.RunService.Cancel.Listing.{find-Elem}
use hopeitworks.Executor.{PipelineExecutor, RunContext, StepAction, publish_event}
use hopeitworks.Executor.Steps.{
  begin_step, complete_step, complete_unless, end_step, execute_step, action_or_missing,
  run_context, is_waiting,
}
use hopeitworks.Executor.Quiet.{publish_event-Quiet}

-- The step is stored, and completed.
abbrev pub Done : World → Uuid → Type 0
Done w j = (y : RunStep) × (step_at w j ≡ some y) × (y.status ≡ StepStatus.completed)

abbrev pub KeepsDone : World → World → Type 0
KeepsDone v w = (j : Uuid) → Done v j → Done w j

-- Every step but one.
abbrev DoneExcept : Uuid → World → World → Type 0
DoneExcept i v w = (j : Uuid) → (j == i) ≡ false → Done v j → Done w j

pub same_steps-Done : (v w : World) → w.run_steps ≡ v.run_steps → KeepsDone v w
unfolding step_at
same_steps-Done v w h j (y, found, done) = (y, ap (find (step_has_id j)) h ∙ found, done)

-- The steps after a call that leaves them alone.
pub ends-steps :
    {A : Type 0} (m : M A) (w v : World) (a : Result A)
    → m w ≡ (a, v)
    → (m w).1.run_steps ≡ w.run_steps
    → v.run_steps ≡ w.run_steps
ends-steps m w v a h same = ap (λ x. x.1.run_steps) (sym h) ∙ same

returned : (t u : RunStep) (w v : World) → pure t w ≡ (ok u, v) → t ≡ u
returned t u w v h = ground arith

pub step_at-id : (w : World) (id : Uuid) (q : RunStep) → step_at w id ≡ some q → q.id ≡ id
unfolding step_at
step_at-id w id q h = (find-Elem id w.run_steps q h).1

stored-steps :
    (id : Uuid) (m : Metadata) (w : World)
    → (logged (update_run_metadata id m) w).1.run_steps ≡ w.run_steps
unfolding logged update_run_metadata call
stored-steps id m w = ground arith

reread-steps : (id : Uuid) (w : World) → (caught (get_run_step id) w).1.run_steps ≡ w.run_steps
unfolding caught get_run_step call
reread-steps id w = ground arith

-- Actions undo no completed step.
abbrev pub ActionsKeepDone : PipelineExecutor → Type 0
ActionsKeepDone e =
    (name : String) (a : StepAction)
    → e.actions name ≡ some a
    → (c : RunContext) (w : World) → KeepsDone w (a c w).1

module _ (id : Uuid) (s : StepStatus) (a b : Option Time) (x : Option ErrorText) where
  pub step_rows :
      (w v : World) (t : RunStep)
      → update_run_step_status id s a b x w ≡ (ok t, v)
      → (q : RunStep) × (step_at w id ≡ some q)
        × (t ≡ with_step_status s a b x q)
        × (v.run_steps ≡ update_where (step_has_id id) (with_step_status s a b x) w.run_steps)
  unfolding update_run_step_status call step_at
  step_rows w v t h = elim (Option-cases (find (step_has_id id) w.run_steps)) [
    | inl n ↦ absurd (ground arith)
    | inr (q, f) ↦ (q, f, ground arith, ground arith)
  ]

  row_after :
      (w v : World) (j : Uuid) (y : RunStep)
      → v.run_steps ≡ update_where (step_has_id id) (with_step_status s a b x) w.run_steps
      → step_at w j ≡ some y
      → step_at v j ≡ some (if j == id then with_step_status s a b x y else y)
  unfolding step_at
  row_after w v j y rows found =
      ap (find (step_has_id j)) rows
      ∙ find_step-update id j (with_step_status s a b x) (λ _. refl) w.run_steps y found

  unmoved :
      (j : Uuid) (y : RunStep)
      → (j == id) ≡ false
      → some (if j == id then with_step_status s a b x y else y) ≡ some y
  unmoved j y h = ground arith

  moved :
      (y : RunStep)
      → some (if id == id then with_step_status s a b x y else y)
        ≡ some (with_step_status s a b x y)
  moved y = ground arith

  pub update-Done :
      (w v : World) (t : RunStep)
      → update_run_step_status id s a b x w ≡ (ok t, v)
      → (t.id ≡ id) × DoneExcept id w v × (s ≡ StepStatus.completed → Done v id)
  update-Done w v t h =
      let (q, found, same, rows) = step_rows w v t h in
      (
        ap (λ (z : RunStep). z.id) same ∙ step_at-id w id q found,
        λ j other d. (d.0, row_after w v j d.0 rows d.1 ∙ unmoved j d.0 other, d.2),
        λ c. (with_step_status s a b x q, row_after w v id q rows found ∙ moved q, c),
      )

module _ (e : PipelineExecutor) where
  begin-Done :
      (r : Run) (s u : RunStep) (w v : World)
      → begin_step e r s w ≡ (ok u, v)
      → (u.id ≡ s.id) × DoneExcept s.id w v
  unfolding begin_step
  begin-Done r s u w v h = bind_ends (update_run_step_status _ _ _ _ _) _ w v u h λ t w1 set h1.
      bind_ends (publish_event _ _ _ _ _) _ w1 v u h1 λ _ w2 told h2.
        let (same, others, _) = update-Done s.id StepStatus.running _ _ _ w w1 t set in
        let steps =
          ends-steps (publish_event _ _ _ _ _) w1 w2 (ok tt) told
            (publish_event-Quiet _ _ _ _ _ w1).1 in
        (
          sym (ap (λ (z : RunStep). z.id) (returned t u w2 v h2)) ∙ same,
          λ j o d. same_steps-Done w1 v (ap (λ x. x.1.run_steps) (sym h2) ∙ steps) j (others j o d),
        )

  complete-Done :
      (r : Run) (s : RunStep) (w v : World)
      → complete_step e r s w ≡ (ok tt, v)
      → DoneExcept s.id w v × Done v s.id
  unfolding complete_step
  complete-Done r s w v h = bind_ends (update_run_step_status _ _ _ _ _) _ w v tt h λ t w1 set told.
      let (_, others, done) = update-Done s.id StepStatus.completed _ _ _ w w1 t set in
      let steps =
        ends-steps (publish_event _ _ _ _ _) w1 v (ok tt) told
          (publish_event-Quiet _ _ _ _ _ w1).1 in
      (
        λ j o d. same_steps-Done w1 v steps j (others j o d),
        same_steps-Done w1 v steps s.id (done refl),
      )

  unless-Done :
      (b : Bool) (r : Run) (s : RunStep) (m n : Metadata) (w v : World)
      → complete_unless e b r s m w ≡ (ok (some n), v)
      → DoneExcept s.id w v × Done v s.id
  unfolding complete_unless
  unless-Done true r s m n w v h = absurd (ground arith)
  unless-Done false r s m n w v h = bind_ends (complete_step e r s) _ w v (some n) h λ _ w1 done h1.
      subst (λ z. DoneExcept s.id w z × Done z s.id) (ap (λ x. x.1) h1)
        (complete-Done r s w w1 done)

  end-Done :
      (r : Run) (s : RunStep) (m n : Metadata) (w v : World)
      → end_step e r s m w ≡ (ok (some n), v)
      → DoneExcept s.id w v × Done v s.id
  unfolding end_step
  end-Done r s m n w v h = bind_ends (logged _) _ w v (some n) h λ _ w1 stored h1.
      bind_ends (caught _) _ w1 v (some n) h1 λ again w2 reread h2.
        let one = ends-steps (logged _) w w1 (ok tt) stored (stored-steps r.id m w) in
        let two = ends-steps (caught _) w1 w2 (ok again) reread (reread-steps s.id w1) in
        let (others, done) = unless-Done (is_waiting again) r s m n w2 v h2 in
        (λ j o d. others j o (same_steps-Done w w2 (two ∙ one) j d), done)

  module _ (plain : ActionsKeepDone e) where
    action-Done :
        (n : String) (c : RunContext) (w : World)
        → KeepsDone w (action_or_missing (e.actions n) c w).1
    action-Done n c w = go (e.actions n) refl
      where
        go : (o : Option StepAction) → e.actions n ≡ o → KeepsDone w (action_or_missing o c w).1
        go none h j d = d
        go (some a) h j d = plain n a h c w j d

    pub execute_step-Done :
        (r : Run) (s : RunStep) (m n : Metadata) (w v : World)
        → execute_step e r s m w ≡ (ok (some n), v)
        → KeepsDone w v × Done v s.id
    unfolding execute_step
    execute_step-Done r s m n w v h = bind_ends (begin_step e r s) _ w v (some n) h λ u w1 began h1.
        bind_ends (action_or_missing (e.actions u.action) (run_context e r u m)) _ w1 v (some n) h1
          λ m' w2 acted h2.
            let (same, others) = begin-Done r s u w w1 began in
            let (rest, done) =
              subst (λ i. DoneExcept i w2 v × Done v i) same (end-Done r u m' n w2 v h2) in
            let kept =
              subst (KeepsDone w1) (ap (λ x. x.1) acted)
                (action-Done u.action (run_context e r u m) w1) in
            (
              λ j d. elim (Bool-cases (j == s.id)) [
                | inl this ↦ subst (Done v) (sym ((==_iff j s.id).0 this)) done
                | inr other ↦ rest j other (kept j (others j other d))
              ],
              done,
            )
