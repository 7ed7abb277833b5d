-- ===== src/Executor/Looping.antt =====
-- The loop runs to its end, if the actions succeed, no stage waits and nothing cancels.
use hopeitworks.Prelude.{
  ◌≡◌, refl, ap, ◌∙◌, Bool, true, false, Option, List, [], ◌∷◌, All, if◌then◌else◌, arith,
}
use hopeitworks.Errors.{ok}
use hopeitworks.Action.{pure, caught}
use hopeitworks.Action.Yields.{Yields, yields_pure, yields_from}
use hopeitworks.Model.Status.{StepStatus, step_status_eq}
use hopeitworks.Model.Config.{PipelineConfigYaml}
use hopeitworks.Model.Entities.{Uuid, Run, RunStep}
use hopeitworks.World.{World, M}
use hopeitworks.Repo.Runs.{get_run}
use hopeitworks.Repo.Quiet.{Quiet-refl}
use hopeitworks.Executor.{PipelineExecutor}
use hopeitworks.Executor.Execution.{
  Progress, Flow, next, take_step, cross_boundary, step_unless, run_unless_paused,
  run_unless_cancelled, one_round, go_on, run_steps, says_paused,
}
use hopeitworks.Executor.Steady.{Steady, Steady-trans, Quiet-Steady}
use hopeitworks.Executor.Succeeding.{Ready, Ready-Steady}
use hopeitworks.Executor.Crossing.{
  Automatic, GoesOn, Stored, Stored-after, not_paused, yields_reread, take-yields, cross-yields,
}

module _ (e : PipelineExecutor) where
  goes_after :
      (r : Run) (s : RunStep) (q : Progress) (w v : World)
      → Steady w v
      → Yields (take_step e r s q) v (GoesOn v)
      → Yields (step_unless e r s (next q)) v (GoesOn w)
  unfolding step_unless
  goes_after r s q w v steady (x, u, ran, (on, more)) =
      (x, u, ran, (on, Steady-trans w v u steady more))

  unpaused-yields :
      (id : Uuid) (b : Bool) (r : Run) (policy : Option PipelineConfigYaml) (s : RunStep)
      (p : Progress) (w : World)
      → Automatic policy
      → Ready e id w
      → Stored w s
      → b ≡ false
      → Yields (run_unless_paused e b r policy s p) w (GoesOn w)
  unfolding run_unless_paused
  unpaused-yields id true r policy s p w auto ready there no_ = absurd (ground arith)
  unpaused-yields id false r policy s p w auto ready (t, f) no_ =
      let (x, v, crossed, ((q, is_q), steady)) = cross-yields e r policy s p w auto in
      yields_from (GoesOn w) (cross_boundary e r policy s p) (step_unless e r s) w v (next q)
        (crossed ∙ ap (λ y. (ok y, v)) is_q)
        (goes_after r s q w v steady
          (take-yields e id r s q v (Ready-Steady e id w v steady ready) (steady.2.0 s.id t f)))

  uncancelled-yields :
      (r : Run) (policy : Option PipelineConfigYaml) (s : RunStep) (p : Progress) (w : World)
      → Automatic policy
      → Ready e r.id w
      → Stored w s
      → Yields (run_unless_cancelled e false r policy s p) w (GoesOn w)
  unfolding run_unless_cancelled
  uncancelled-yields r policy s p w auto (up, (q, found, runs), acts) (t, f) =
      let (o, v, ran, (is_q, quiet)) = yields_reread r.id w q up found in
      let steady = Quiet-Steady w v quiet in
      let (x, u, ran', (on, more)) =
        unpaused-yields r.id (says_paused o) r policy s p v auto
          (Ready-Steady e r.id w v steady (up, (q, found, runs), acts)) (steady.2.0 s.id t f)
          (ap says_paused is_q ∙ not_paused q.status runs) in
      yields_from (GoesOn w) (caught (get_run r.id)) _ w v o ran
        (x, u, ran', (on, Steady-trans w v u steady more))

  round-yields :
      (r : Run) (policy : Option PipelineConfigYaml) (s : RunStep) (p : Progress) (w : World)
      → ((v : World) → e.is_cancelled v ≡ false)
      → Automatic policy
      → Ready e r.id w
      → Stored w s
      → Yields (one_round e r policy s p) w (GoesOn w)
  unfolding one_round
  round-yields r policy s p w never auto ready there =
      go (step_status_eq s.status StepStatus.completed)
    where
      attempted : M Flow
      attempted z = run_unless_cancelled e (e.is_cancelled z) r policy s p z

      go : (b : Bool) → Yields (if b then pure (next p) else attempted) w (GoesOn w)
      go true = yields_pure (GoesOn w) (next p) w ((p, refl), Quiet-Steady w w (Quiet-refl w))
      go false =
          let (x, v, ran, on) = uncancelled-yields r policy s p w auto ready there in
          (x, v, ap (λ b. run_unless_cancelled e b r policy s p w) (never w) ∙ ran, on)

  pub loop-yields :
      (r : Run) (policy : Option PipelineConfigYaml) (ss : List RunStep) (p : Progress) (w : World)
      → ((v : World) → e.is_cancelled v ≡ false)
      → Automatic policy
      → Ready e r.id w
      → All (Stored w) ss
      → Yields (run_steps e r policy ss p) w (GoesOn w)
  unfolding run_steps go_on
  loop-yields r policy [] p w never auto ready all =
      yields_pure (GoesOn w) (next p) w ((p, refl), Quiet-Steady w w (Quiet-refl w))
  loop-yields r policy (s ∷ ss) p w never auto ready (there, rest) =
      let (x, v, ran, ((q, is_q), steady)) = round-yields r policy s p w never auto ready there in
      let (y, u, ran', ((q', is_q'), more)) =
        loop-yields r policy ss q v never auto (Ready-Steady e r.id w v steady ready)
          (Stored-after w v ss steady rest) in
      yields_from (GoesOn w) (one_round e r policy s p) (go_on (run_steps e r policy ss)) w v
        (next q) (ran ∙ ap (λ y. (ok y, v)) is_q)
        (y, u, ran', ((q', is_q'), Steady-trans w v u steady more))
