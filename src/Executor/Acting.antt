-- ===== src/Executor/Acting.antt =====
-- A step leaves the statuses of runs alone, where its action does.
use hopeitworks.Prelude.{◌≡◌, refl, String, Bool, true, false, Option, none, some}
use hopeitworks.Action.{caught, logged}
use hopeitworks.Model.Entities.{Uuid, Run, RunStep, Metadata}
use hopeitworks.World.{World}
use hopeitworks.World.Stays.{Stays, Stays-refl, Keeps-Stays, then_Stays}
use hopeitworks.Repo.Runs.{update_run_step_status, get_run_step}
use hopeitworks.Repo.Keeps.{get_run_step-Keeps}
use hopeitworks.Executor.{PipelineExecutor, RunContext, StepAction, publish_event}
use hopeitworks.Executor.Steps.{
  begin_step, complete_step, complete_unless, end_step, execute_step, action_or_missing,
  run_context, is_waiting,
}
use hopeitworks.Executor.Failing.{
  logged-Stays, step_update-Stays, update_run_metadata-Stays, publish_event-Stays,
}
use hopeitworks.Executor.Parking.{caught-Stays}

-- Actions leave the statuses of runs alone.
abbrev pub ActionsStay : PipelineExecutor → Type 0
ActionsStay e =
    (name : String) (a : StepAction)
    → e.actions name ≡ some a
    → (c : RunContext) (w : World) → Stays w (a c w).1

module _ (e : PipelineExecutor) where
  begin_step-Stays : (r : Run) (s : RunStep) (w : World) → Stays w (begin_step e r s w).1
  unfolding begin_step
  begin_step-Stays r s w =
      then_Stays (update_run_step_status _ _ _ _ _) _ w (step_update-Stays s.id _ _ _ _ w) λ u w1.
        then_Stays (publish_event _ _ _ _ _) _ w1 (publish_event-Stays _ _ _ _ _ w1)
          λ _ w2. Stays-refl w2

  complete_step-Stays : (r : Run) (s : RunStep) (w : World) → Stays w (complete_step e r s w).1
  unfolding complete_step
  complete_step-Stays r s w =
      then_Stays (update_run_step_status _ _ _ _ _) _ w (step_update-Stays s.id _ _ _ _ w)
        λ u w1. publish_event-Stays _ _ _ _ _ w1

  complete_unless-Stays :
      (b : Bool) (r : Run) (s : RunStep) (m : Metadata) (w : World)
      → Stays w (complete_unless e b r s m w).1
  unfolding complete_unless
  complete_unless-Stays true r s m w = Stays-refl w
  complete_unless-Stays false r s m w =
      then_Stays (complete_step e r s) _ w (complete_step-Stays r s w) λ _ v. Stays-refl v

  step_again-Stays : (id : Uuid) (w : World) → Stays w (get_run_step id w).1
  step_again-Stays id w = Keeps-Stays w (get_run_step id w).1 (get_run_step-Keeps id w)

  end_step-Stays :
      (r : Run) (s : RunStep) (m : Metadata) (w : World) → Stays w (end_step e r s m w).1
  unfolding end_step
  end_step-Stays r s m w =
      then_Stays (logged _) _ w (logged-Stays _ w (update_run_metadata-Stays r.id m w)) λ _ w1.
        then_Stays (caught _) _ w1 (caught-Stays _ w1 (step_again-Stays s.id w1))
          λ again w2. complete_unless-Stays (is_waiting again) r s m w2

  module _ (plain : ActionsStay e) where
    action-Stays :
        (n : String) (c : RunContext) (w : World) → Stays w (action_or_missing (e.actions n) c w).1
    action-Stays n c w = go (e.actions n) refl
      where
        go : (o : Option StepAction) → e.actions n ≡ o → Stays w (action_or_missing o c w).1
        go none h = Stays-refl w
        go (some a) h = plain n a h c w

    pub execute_step-Stays :
        (r : Run) (s : RunStep) (m : Metadata) (w : World) → Stays w (execute_step e r s m w).1
    unfolding execute_step
    execute_step-Stays r s m w = then_Stays (begin_step e r s) _ w (begin_step-Stays r s w) λ u w1.
        then_Stays (action_or_missing (e.actions u.action) (run_context e r u m)) _ w1
          (action-Stays u.action (run_context e r u m) w1) λ m' w2. end_step-Stays r u m' w2
