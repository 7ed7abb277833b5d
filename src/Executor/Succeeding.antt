-- ===== src/Executor/Succeeding.antt =====
-- A step whose action succeeds ends completed, while the connection is up.
use hopeitworks.Prelude.{
  ◌≡◌, refl, sym, ap, ◌∙◌, subst, false, Option, some, List, find, String, arith,
}
use hopeitworks.Errors.{Result, ok}
use hopeitworks.Action.{caught, logged}
use hopeitworks.Action.Yields.{Yields, yields_bind, yields_pure, yields_logged}
use hopeitworks.Model.Status.{RunStatus, StepStatus, step_status_eq}
use hopeitworks.Model.Entities.{Uuid, Run, RunStep, Metadata, PayloadValue}
use hopeitworks.World.{World, NoFaults, tick, run_at, step_at, step_has_id}
use hopeitworks.Repo.Runs.{update_run_step_status, update_run_metadata, get_run_step}
use hopeitworks.Repo.Quiet.{Quiet, publish-Quiet}
use hopeitworks.Executor.{PipelineExecutor, RunContext, StepAction, publish_event}
use hopeitworks.Executor.Steps.{
  begin_step, complete_step, complete_unless, end_step, execute_step, action_or_missing,
  run_context, is_waiting,
}
use hopeitworks.Executor.Completing.{step_at-id}
use hopeitworks.Executor.Steady.{
  Steady, Steady-trans, Quiet-Steady, NoFaults-Steady, yields-step, yields-get_run_step,
  update_run_metadata-Steady, metadata_only,
}

-- Every stored step is still stored, with the status it had.
abbrev pub SameStatuses : World → World → Type 0
SameStatuses v w =
    (j : Uuid) (t : RunStep)
    → step_at v j ≡ some t
    → (u : RunStep) × (step_at w j ≡ some u) × (u.status ≡ t.status)

-- The registered action returns, and leaves the connection, the statuses of runs and steps, and the
-- actions of steps alone; it may change all else, such as the container of its step.
abbrev pub Reliable : PipelineExecutor → String → Type 0
Reliable e n =
    (a : StepAction) × (e.actions n ≡ some a)
    × ((c : RunContext) (w : World) → Yields (a c) w (λ _ z. Steady w z × SameStatuses w z))

-- The connection is up, the run is running, and every stored step has a reliable action.
abbrev pub Ready : PipelineExecutor → Uuid → World → Type 0
Ready e id v =
    NoFaults v
    × ((q : Run) × (run_at v id ≡ some q) × (q.status ≡ RunStatus.running))
    × ((j : Uuid) (t : RunStep) → step_at v j ≡ some t → Reliable e t.action)

pub Ready-Steady :
    (e : PipelineExecutor) (id : Uuid) (v w : World) → Steady v w → Ready e id v → Ready e id w
unfolding run_at
Ready-Steady e id v w (f, s, (a, b)) (up, (q, found, runs), acts) = (
  NoFaults-Steady v w f up,
  (let (p, k, same) = s id q found in (p, k, same ∙ runs)),
  λ j u h. let (t, k, same) = b j u h in subst (Reliable e) same (acts j t k),
)

pub yields_publish :
    (p : Uuid) (t : String) (i : Uuid) (a : String) (d : List (String × PayloadValue)) (w : World)
    → Yields (publish_event p t i a d) w (λ _. Quiet w)
unfolding publish_event
yields_publish p t i a d w = yields_logged Quiet _ w (publish-Quiet _ w)

still_at :
    (j : Uuid) (v w : World) (s : RunStep) → Quiet v w → step_at v j ≡ some s → step_at w j ≡ some s
unfolding step_at
still_at j v w s (a, b, c, d) h = ap (find (step_has_id j)) b ∙ h

not_waiting :
    (s : StepStatus) → s ≡ StepStatus.running → step_status_eq s StepStatus.waiting_approval ≡ false
not_waiting s h = ground arith

abbrev Stored : World → World → Type 0
Stored v w = Steady v w × (w.run_steps ≡ v.run_steps)

stored : (id : Uuid) (m : Metadata) (w : World) → Stored w (update_run_metadata id m w).1
stored id m w = (update_run_metadata-Steady id m w, (metadata_only id m w).1)

there :
    (j : Uuid) (v w : World) (s : RunStep)
    → w.run_steps ≡ v.run_steps
    → step_at v j ≡ some s
    → step_at w j ≡ some s
unfolding step_at
there j v w s h found = ap (find (step_has_id j)) h ∙ found

yields_reread :
    (id : Uuid) (w : World) (s : RunStep)
    → NoFaults w
    → step_at w id ≡ some s
    → Yields (caught (get_run_step id)) w (λ o z. (o ≡ ok s) × Quiet w z)
unfolding caught
yields_reread id w s up found = (
  ok s,
  tick w,
  ap (λ (x : Result RunStep × World). (ok x.0, x.1)) (yields-get_run_step id w s up found),
  (refl, (refl, refl, refl, refl)),
)

module _ (e : PipelineExecutor) where
  Begun : RunStep → World → RunStep → World → Type 0
  Begun q w t v =
      Steady w v
      × (step_at v q.id ≡ some t)
      × (t.status ≡ StepStatus.running)
      × (t.id ≡ q.id)
      × (t.action ≡ q.action)

  begin-yields :
      (r : Run) (s q : RunStep) (w : World)
      → NoFaults w
      → step_at w s.id ≡ some q
      → s.id ≡ q.id
      → Yields (begin_step e r s) w (Begun q w)
  unfolding begin_step Begun
  begin-yields r s q w up found named =
      yields_bind _ (Begun q w) (update_run_step_status _ _ _ _ _) _ w
        (yields-step s.id StepStatus.running _ _ _ w q up found)
        λ t v (steady, at, st, same, act).
          yields_bind (λ _. Quiet v) (Begun q w) (publish_event _ _ _ _ _) _ v
            (yields_publish _ _ _ _ _ v)
            λ _ z quiet. yields_pure (Begun q w) t z (
              Steady-trans w v z steady (Quiet-Steady v z quiet),
              still_at q.id v z t quiet (subst (λ i. step_at v i ≡ some t) named at),
              st,
              same,
              act,
            )

  complete-yields :
      (r : Run) (s q : RunStep) (w : World)
      → NoFaults w
      → step_at w s.id ≡ some q
      → Yields (complete_step e r s) w (λ _. Steady w)
  unfolding complete_step
  complete-yields r s q w up found =
      yields_bind _ (λ _. Steady w) (update_run_step_status _ _ _ _ _) _ w
        (yields-step s.id StepStatus.completed _ _ _ w q up found)
        λ t v facts.
          let (x, z, ran, quiet) = yields_publish _ _ _ _ _ v in
          (x, z, ran, Steady-trans w v z facts.0 (Quiet-Steady v z quiet))

  unless-yields :
      (r : Run) (s q : RunStep) (m : Metadata) (w : World)
      → NoFaults w
      → step_at w s.id ≡ some q
      → Yields (complete_unless e false r s m) w (λ o v. (o ≡ some m) × Steady w v)
  unfolding complete_unless
  unless-yields r s q m w up found =
      yields_bind (λ _. Steady w) (λ o v. (o ≡ some m) × Steady w v) (complete_step e r s) _ w
        (complete-yields r s q w up found)
        λ _ v steady. yields_pure (λ o v. (o ≡ some m) × Steady w v) (some m) v (refl, steady)

  end-yields :
      (r : Run) (s q : RunStep) (m : Metadata) (w : World)
      → NoFaults w
      → step_at w s.id ≡ some q
      → q.status ≡ StepStatus.running
      → Yields (end_step e r s m) w (λ o v. (o ≡ some m) × Steady w v)
  unfolding end_step
  end-yields r s q m w up found runs =
      yields_bind (λ _. Stored w) (λ o v. (o ≡ some m) × Steady w v) (logged _) _ w
        (yields_logged Stored (update_run_metadata r.id m) w (stored r.id m w))
        λ _ v (steady, same).
          yields_bind (λ o z. (o ≡ ok q) × Quiet v z) (λ o z. (o ≡ some m) × Steady w z) (caught _)
            _ v
            (yields_reread s.id v q (NoFaults-Steady w v steady.0 up) (there s.id w v q same found))
            λ o z (got, quiet).
              let wait = ap is_waiting got ∙ not_waiting q.status runs in
              let (p, u, ran, (is_m, more)) =
                unless-yields r s q m z (NoFaults-Steady w z (quiet.3 ∙ steady.0) up)
                  (still_at s.id v z q quiet (there s.id w v q same found)) in
              (
                p,
                u,
                subst (λ b. complete_unless e b r s m z ≡ (ok p, u)) (sym wait) ran,
                (
                  is_m,
                  Steady-trans w v u steady (Steady-trans v z u (Quiet-Steady v z quiet) more),
                ),
              )

  -- The step of a ready run whose row is stored.
  pub execute-yields :
      (id : Uuid) (r : Run) (s q : RunStep) (m : Metadata) (w : World)
      → Ready e id w
      → step_at w s.id ≡ some q
      → Yields (execute_step e r s m) w (λ o v. ((n : Metadata) × (o ≡ some n)) × Steady w v)
  unfolding execute_step Begun
  execute-yields id r s q m w (up, here_, acts) found =
      let named = step_at-id w s.id q found in
      yields_bind (Begun q w) Goal (begin_step e r s) _ w
        (begin-yields r s q w up found (sym named))
        λ t v (steady, at, st, same, act).
          let (a, registered, returns) = acts s.id q found in
          yields_bind (λ _ z. Steady v z × SameStatuses v z) Goal
            (action_or_missing (e.actions t.action) (run_context e r t m)) _ v
            (subst
              (λ o.
                Yields (action_or_missing o (run_context e r t m)) v
                  (λ _ z. Steady v z × SameStatuses v z))
              (sym (ap e.actions act ∙ registered)) (returns (run_context e r t m) v))
            λ n z (kept, statuses).
              let (u, at', running) =
                statuses t.id t (subst (λ i. step_at v i ≡ some t) (sym same) at) in
              let so_far = Steady-trans w v z steady kept in
              let (o, x, ran, (is_n, more)) =
                end-yields r t u n z (NoFaults-Steady w z so_far.0 up) at' (running ∙ st) in
              (o, x, ran, ((n, is_n), Steady-trans w z x so_far more))
    where
      Goal : Option Metadata → World → Type 0
      Goal o v = ((n : Metadata) × (o ≡ some n)) × Steady w v
