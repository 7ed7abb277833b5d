-- ===== src/Executor/Overrides.antt =====
-- A failed step fails its run, whatever became of the run meanwhile.
use hopeitworks.Prelude.{◌≡◌, ap, ◌∙◌, Option, some, find, arith}
use hopeitworks.Errors.{DomainError, Result, ok}
use hopeitworks.Action.{logged}
use hopeitworks.Action.Yields.{Yields, yields_bind, yields_logged}
use hopeitworks.Model.Status.{RunStatus, StepStatus, StoryStatus}
use hopeitworks.Model.Entities.{Uuid, Time, ErrorText, Run, RunStep}
use hopeitworks.World.{World, NoFaults, call, run_at, run_has_id}
use hopeitworks.Repo.Runs.{update_run_status, update_run_step_status}
use hopeitworks.Repo.Quiet.{Quiet, Quiet-trans}
use hopeitworks.Executor.{PipelineExecutor, publish_event, handle_step_failure}
use hopeitworks.Executor.Steady.{NoFaults-Steady}
use hopeitworks.Executor.Succeeding.{yields_publish}
use hopeitworks.Executor.Ending.{Stands, Stands-Quiet, yields-status, yields_story}

-- The runs and the connection are as they were.
abbrev SameRuns : World → World → Type 0
SameRuns v w = (w.runs ≡ v.runs) × (w.faults ≡ v.faults)

step_only :
    (id : Uuid) (s : StepStatus) (a b : Option Time) (x : Option ErrorText) (w : World)
    → SameRuns w (update_run_step_status id s a b x w).1
unfolding update_run_step_status call
step_only id s a b x w = ground arith

same_run :
    (v w : World) (id : Uuid) (r : Run)
    → w.runs ≡ v.runs
    → run_at v id ≡ some r
    → run_at w id ≡ some r
unfolding run_at
same_run v w id r h found = ap (find (run_has_id id)) h ∙ found

fails_now :
    (id : Uuid) (a b c : Option Time) (x : Option ErrorText) (w : World) (q : Run)
    → NoFaults w
    → run_at w id ≡ some q
    → Yields
        (logged (update_run_status id RunStatus.failed a b c x))
        w
        (λ _. Stands id RunStatus.failed)
unfolding logged
fails_now id a b c x w q up found =
    let (r, v, ran, facts) = yields-status id RunStatus.failed a b c x w q up found in
    (tt, v, ap (λ (o : Result Run × World). (ok tt, o.1)) ran, facts.3)

module _ (e : PipelineExecutor) where
  -- While the connection is up, `handleStepFailure` stores a run that is there as failed, whatever
  -- status it is stored with: also a run that has been cancelled since, which no transition leaves.
  pub handle_step_failure-fails :
      (r q : Run) (s : RunStep) (x : DomainError) (w : World)
      → NoFaults w
      → run_at w r.id ≡ some q
      → Yields (handle_step_failure e r s x) w (λ _. Stands r.id RunStatus.failed)
  unfolding handle_step_failure
  handle_step_failure-fails r q s x w up found =
      yields_bind (λ _. SameRuns w) Goal (logged _) _ w
        (yields_logged SameRuns _ w (step_only s.id StepStatus.failed _ _ _ w))
        λ _ w1 (same, up1).
          yields_bind (λ _. Quiet w1) Goal (publish_event _ _ _ _ _) _ w1
            (yields_publish _ _ _ _ _ w1)
            λ _ w2 a.
              yields_bind (λ _. Stands r.id RunStatus.failed) Goal (logged _) _ w2
                (fails_now r.id _ _ _ _ w2 q (NoFaults-Steady w w2 (a.3 ∙ up1) up)
                  (same_run w w2 r.id q (a.0 ∙ same) found))
                λ _ w3 stands.
                  yields_bind (λ _. Quiet w3) Goal (publish_event _ _ _ _ _) _ w3
                    (yields_publish _ _ _ _ _ w3)
                    λ _ w4 b.
                      let (u, z, ran, c) = yields_story e r StoryStatus.failed w4 in
                      (
                        u,
                        z,
                        ran,
                        Stands-Quiet r.id RunStatus.failed w3 z (Quiet-trans w3 w4 z b c) stands,
                      )
    where
      Goal : Unit {0} → World → Type 0
      Goal _ = Stands r.id RunStatus.failed
