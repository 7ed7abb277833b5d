-- ===== src/Executor/Failing.antt =====
-- What an execution does to the statuses of runs where it stores an end: failure and cancellation.
use hopeitworks.Prelude.{
  ◌≡◌, refl, ap, ◌∙◌, String, Option, List, find, ◌==◌, if◌then◌else◌, arith, ◌⊎◌, inl, inr,
}
use hopeitworks.Errors.{DomainError}
use hopeitworks.Action.{◌>>=◌, ◌>>◌, logged}
use hopeitworks.Action.Relates.{logged_relates}
use hopeitworks.Model.Status.{RunStatus, StepStatus, StoryStatus}
use hopeitworks.Model.Status.Lifecycle.{◌⟶*◌, here, via, fail, cancel_running}
use hopeitworks.Model.Entities.{Uuid, Time, ErrorText, Metadata, Run, RunStep, PayloadValue}
use hopeitworks.World.{World, M, call, run_has_id, update_where}
use hopeitworks.World.Moves.{
  Moves, Moves-refl, Moves-trans, bind-Moves, then_Moves, find-update_where, Keeps-Moves,
}
use hopeitworks.World.Stays.{
  Stays, Stays-refl, Stays-trans, Keeps-Stays, Stays-Moves, Live, Live-Stays, Live-may,
}
use hopeitworks.Repo.Runs.{update_run_status, update_run_step_status, update_run_metadata}
use hopeitworks.Repo.Keeps.{update_run_step_status-Keeps, update_run_status-Moves}
use hopeitworks.Executor.{
  PipelineExecutor, publish_event, update_story, handle_step_failure, handle_cancellation,
}
use hopeitworks.Executor.Quiet.{publish_event-Quiet, update_story-Quiet}

pub publish_event-Stays :
    (p : Uuid) (t : String) (i : Uuid) (a : String) (d : List (String × PayloadValue)) (w : World)
    → Stays w (publish_event p t i a d w).1
publish_event-Stays p t i a d w =
    Keeps-Stays w (publish_event p t i a d w).1 (publish_event-Quiet p t i a d w).0

-- A first part that leaves the statuses alone, so that the run is live after it.
pub Live-then :
    {A B : Type 0} (id : Uuid) (m : M A) (f : A → M B) (w : World)
    → Stays w (m w).1
    → ((a : A) (v : World) → Live id v → Moves v (f a v).1)
    → Live id w
    → Moves w ((m >>= f) w).1
Live-then id m f w h k alive =
    bind-Moves m f w (Stays-Moves w (m w).1 h) λ a _. k a (m w).1 (Live-Stays id w (m w).1 h alive)

pub logged-Stays : {A : Type 0} (m : M A) (w : World) → Stays w (m w).1 → Stays w (logged m w).1
logged-Stays = logged_relates Stays Stays-refl Stays-trans

pub logged-Moves : {A : Type 0} (m : M A) (w : World) → Moves w (m w).1 → Moves w (logged m w).1
logged-Moves = logged_relates Moves Moves-refl Moves-trans

pub step_update-Stays :
    (id : Uuid) (s : StepStatus) (a b : Option Time) (x : Option ErrorText) (w : World)
    → Stays w (update_run_step_status id s a b x w).1
step_update-Stays id s a b x w =
    Keeps-Stays w (update_run_step_status id s a b x w).1
      (update_run_step_status-Keeps id s a b x w)

-- A live run may be given any status that a running one may reach.
pub run_update-Moves :
    (id : Uuid) (s : RunStatus) (a b c : Option Time) (x : Option ErrorText) (w : World)
    → RunStatus.running ⟶* s
    → Live id w
    → Moves w (update_run_status id s a b c x w).1
run_update-Moves id s a b c x w legal alive =
    update_run_status-Moves id s a b c x w (Live-may id w s alive legal)

rows_after :
    (id : Uuid) (m : Metadata) (w : World)
    → (update_run_metadata id m w).1.runs ≡ w.runs
      ⊎ (update_run_metadata id m w).1.runs
        ≡ update_where (run_has_id id) (λ (r : Run). record r { metadata = m }) w.runs
unfolding update_run_metadata call
rows_after id m w = ground arith

pub update_run_metadata-Stays :
    (id : Uuid) (m : Metadata) (w : World) → Stays w (update_run_metadata id m w).1
update_run_metadata-Stays id m w = elim (rows_after id m w) [
  | inl same ↦ Keeps-Stays w (update_run_metadata id m w).1 same
  | inr rows ↦ λ j q k. (
    if j == id then record q { metadata = m } else q,
    ap (find (run_has_id j)) rows
        ∙ find-update_where id j (λ (r : Run). record r { metadata = m }) (λ r. refl) w.runs q k,
    ground arith,
  )
]

module _ (e : PipelineExecutor) where
  tell_end :
      (r : Run) (a : String) (d : List (String × PayloadValue)) (t : StoryStatus) (w : World)
      → Moves w ((publish_event r.project_id "run" r.id a d >> update_story e r t) w).1
  tell_end r a d t w =
      then_Moves (publish_event _ _ _ _ _) (λ _. update_story e r t) w
        (Stays-Moves w (publish_event r.project_id "run" r.id a d w).1
          (publish_event-Stays r.project_id "run" r.id a d w))
        λ _ v. Keeps-Moves v (update_story e r t v).1 (update_story-Quiet e r t v).0

  pub handle_step_failure-Moves :
      (r : Run) (s : RunStep) (x : DomainError) (w : World)
      → Live r.id w
      → Moves w (handle_step_failure e r s x w).1
  unfolding handle_step_failure
  handle_step_failure-Moves r s x w =
      Live-then r.id (logged _) _ w (logged-Stays _ w (step_update-Stays s.id _ _ _ _ w)) λ _ w1.
        Live-then r.id (publish_event _ _ _ _ _) _ w1 (publish_event-Stays _ _ _ _ _ w1)
          λ _ w2 alive.
            then_Moves (logged _) _ w2
              (logged-Moves _ w2
                (run_update-Moves r.id RunStatus.failed _ _ _ _ w2 (via fail here) alive))
              λ _ w3. tell_end r _ _ StoryStatus.failed w3

  pub handle_cancellation-Moves :
      (r : Run) (s : RunStep) (w : World) → Live r.id w → Moves w (handle_cancellation e r s w).1
  unfolding handle_cancellation
  handle_cancellation-Moves r s w =
      Live-then r.id (logged _) _ w (logged-Stays _ w (step_update-Stays s.id _ _ _ _ w)) λ _ w1.
        Live-then r.id (publish_event _ _ _ _ _) _ w1 (publish_event-Stays _ _ _ _ _ w1)
          λ _ w2 alive.
            then_Moves (logged _) _ w2
              (logged-Moves _ w2 (
                run_update-Moves r.id RunStatus.cancelled _ _ _ _ w2 (via cancel_running here)
                  alive))
              λ _ w3. tell_end r _ _ StoryStatus.backlog w3
