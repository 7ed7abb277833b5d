-- ===== src/Executor/Liveness.antt =====
-- A run whose actions succeed is completed.
use hopeitworks.Prelude.{
  ◌≡◌, refl, sym, ap, ◌∙◌, subst, Bool, true, false, Option, none, some, List, find, All, inl, inr,
  ◌⊎◌, if◌then◌else◌, arith,
}
use hopeitworks.Errors.{ok}
use hopeitworks.Action.{◌>>=◌, pure, caught}
use hopeitworks.Action.Yields.{Yields, yields_bind, yields_pure, yields_from}
use hopeitworks.Model.Status.{RunStatus}
use hopeitworks.Model.Entities.{Uuid, Time, ErrorText, Run, RunStep, Project}
use hopeitworks.World.{World, NoFaults, call, tick, run_at, run_has_id, step_at, project_at}
use hopeitworks.World.Moves.{run_at-id}
use hopeitworks.Repo.Runs.{
  get_run, list_run_steps_by_run, steps_of_run, sort_steps, update_run_status, with_status,
}
use hopeitworks.Repo.Rows.{get_project}
use hopeitworks.Repo.Quiet.{Quiet, Quiet-refl, Quiet-trans}
use hopeitworks.CircuitBreaker.{check_circuit_breaker}
use hopeitworks.Executor.{PipelineExecutor, publish_event, update_story}
use hopeitworks.Executor.Stages.{parse_transition_policy}
use hopeitworks.Executor.Execution.{
  already_terminal, next, is_terminal, refuse_run, check_breaker, run_steps, finish_run,
  run_and_finish, start_run, check_and_start, execute_run, first_progress,
}
use hopeitworks.Executor.Steady.{NoFaults-Steady, Quiet-Steady, yields-get_run, yields-list}
use hopeitworks.Executor.Succeeding.{Reliable, Ready, Ready-Steady, yields_publish}
use hopeitworks.Executor.Crossing.{Automatic, Stored}
use hopeitworks.Executor.Looping.{loop-yields}
use hopeitworks.Executor.Listed.{same_row, All-Stored, listing-Stored}
use hopeitworks.Executor.Ending.{Finished, yields-status, yields_story, finish-yields}

policy_kept :
    (s : RunStatus) (a b c : Option Time) (x : Option ErrorText) (q : Run)
    → parse_transition_policy (with_status s a b c x q) ≡ parse_transition_policy q
unfolding parse_transition_policy
policy_kept s a b c x q = refl

-- The breaker lets the runs of the project start: it is not wired, or it is shut.
abbrev pub Admits : PipelineExecutor → Uuid → World → Type 0
Admits e project_id w =
    (e.has_circuit_breaker ≡ false)
    ⊎ ((p : Project) × (project_at w project_id ≡ some p) × (p.circuit_breaker_active ≡ false))

shut_breaker :
    (id : Uuid) (w : World) (p : Project)
    → NoFaults w
    → project_at w id ≡ some p
    → p.circuit_breaker_active ≡ false
    → check_circuit_breaker id w ≡ (ok tt, tick w)
unfolding check_circuit_breaker get_project call project_at
shut_breaker id w p up found inactive = ground (arith, up w.calls)

Quiet-run_at :
    (v w : World) (id : Uuid) (r : Run) → Quiet v w → run_at v id ≡ some r → run_at w id ≡ some r
unfolding run_at
Quiet-run_at v w id r h found = ap (find (run_has_id id)) h.0 ∙ found

tick-run_at : (w : World) (id : Uuid) (r : Run) → run_at w id ≡ some r → run_at (tick w) id ≡ some r
unfolding run_at
tick-run_at w id r found = found

tick-Admits : (e : PipelineExecutor) (id : Uuid) (w : World) → Admits e id w → Admits e id (tick w)
unfolding project_at
tick-Admits e id w h = h

module _ (e : PipelineExecutor) where
  admitted :
      (project_id id : Uuid) (w : World) (p : Project)
      → NoFaults w
      → project_at w project_id ≡ some p
      → p.circuit_breaker_active ≡ false
      → Yields (caught (check_circuit_breaker project_id) >>= refuse_run e id) w (λ _. Quiet w)
  unfolding caught refuse_run
  admitted project_id id w p up found inactive = (
    tt,
    tick w,
    ap (λ x. refuse_run e id x.0 x.1) (shut_breaker project_id w p up found inactive),
    (refl, refl, refl, refl),
  )

  breaker-yields :
      (r : Run) (id : Uuid) (w : World)
      → NoFaults w
      → Admits e r.project_id w
      → Yields (check_breaker e r id) w (λ _. Quiet w)
  unfolding check_breaker
  breaker-yields r id w up (inl unwired) = (
    tt,
    w,
    ap
        (λ b.
          (if b then (caught (check_circuit_breaker r.project_id) >>= refuse_run e id) else pure tt)
            w)
        unwired,
    Quiet-refl w,
  )
  breaker-yields r id w up (inr (p, found, inactive)) = go e.has_circuit_breaker
    where
      go :
          (b : Bool)
          → Yields
              (if b
                then (caught (check_circuit_breaker r.project_id) >>= refuse_run e id)
                else pure tt)
              w
              (λ _. Quiet w)
      go false = yields_pure (λ _. Quiet w) tt w (Quiet-refl w)
      go true = admitted r.project_id id w p up found inactive

  module _ (never : (v : World) → e.is_cancelled v ≡ false) where
    run-yields :
        (r : Run) (steps : List RunStep) (w : World)
        → Automatic (parse_transition_policy r)
        → Ready e r.id w
        → All (Stored w) (sort_steps steps)
        → Yields (run_and_finish e r r.id steps) w (Finished r.id)
    unfolding run_and_finish
    run-yields r steps w auto ready all =
        let policy = parse_transition_policy r in
        let (f, v, ran, ((p, is_p), steady)) =
          loop-yields e r policy (sort_steps steps) (first_progress r) w never auto ready all in
        let (up, (q, found, _), _) = Ready-Steady e r.id w v steady ready in
        yields_from (Finished r.id) (run_steps e r policy (sort_steps steps) (first_progress r))
          (finish_run e r r.id policy) w v (next p) (ran ∙ ap (λ y. (ok y, v)) is_p)
          (finish-yields e r r.id policy p v auto up q found)

    started-yields :
        (r : Run) (id : Uuid) (steps : List RunStep) (w : World)
        → r.id ≡ id
        → Automatic (parse_transition_policy r)
        → Ready e id w
        → All (Stored w) (sort_steps steps)
        → Yields (run_and_finish e r id steps) w (Finished id)
    started-yields r id steps w same auto =
        subst
          (λ i.
            Ready e i w
            → All (Stored w) (sort_steps steps)
            → Yields (run_and_finish e r i steps) w (Finished i))
          same (run-yields r steps w auto)

    start-yields :
        (id : Uuid) (steps : List RunStep) (q : Run) (w : World)
        → NoFaults w
        → run_at w id ≡ some q
        → Automatic (parse_transition_policy q)
        → ((j : Uuid) (t : RunStep) → step_at w j ≡ some t → Reliable e t.action)
        → All (Stored w) (sort_steps steps)
        → Yields (start_run e id steps) w (Finished id)
    unfolding start_run
    start-yields id steps q w up found auto acts all =
        yields_bind _ (Finished id) (update_run_status _ _ _ _ _ _) _ w
          (yields-status id RunStatus.running _ _ _ _ w q up found)
          λ r w1 facts.
            yields_bind (λ _. Quiet w1) (Finished id) (publish_event _ _ _ _ _) _ w1
              (yields_publish _ _ _ _ _ w1)
              λ _ w2 a.
                yields_bind (λ _. Quiet w2) (Finished id) (update_story e r _) _ w2
                  (yields_story e r _ w2)
                  λ _ w3 b.
                    let calm = Quiet-Steady w1 w3 (Quiet-trans w1 w2 w3 a b) in
                    let rows = (Quiet-trans w1 w2 w3 a b).1 ∙ facts.2 in
                    started-yields r id steps w3
                      (ap (λ (z : Run). z.id) facts.0 ∙ run_at-id w id q found)
                      (subst Automatic
                        (sym (
                          ap parse_transition_policy facts.0
                          ∙ policy_kept RunStatus.running (some w.clock) none none none q))
                        auto)
                      (Ready-Steady e id w1 w3 calm (
                        NoFaults-Steady w w1 facts.1 up,
                        facts.3,
                        λ j t h. acts j t (same_row w1 w j t (sym facts.2) h),
                      ))
                      (All-Stored w w3 (sort_steps steps) rows all)

    checked-yields :
        (r : Run) (id : Uuid) (w : World)
        → NoFaults w
        → run_at w id ≡ some r
        → Automatic (parse_transition_policy r)
        → Admits e r.project_id w
        → ((j : Uuid) (t : RunStep) → step_at w j ≡ some t → Reliable e t.action)
        → Yields (check_and_start e r id) w (Finished id)
    unfolding check_and_start
    checked-yields r id w up found auto open_ acts =
        yields_bind (λ _. Quiet w) (Finished id) (check_breaker e r id) _ w
          (breaker-yields r id w up open_)
          λ _ v quiet.
            let up' = NoFaults-Steady w v quiet.3 up in
            yields_from (Finished id) (list_run_steps_by_run id) _ v (tick v)
              (steps_of_run id v.run_steps) (yields-list id v up')
              (start-yields id (steps_of_run id v.run_steps) r (tick v) up'
                (tick-run_at v id r (Quiet-run_at w v id r quiet found)) auto
                (λ j t h. acts j t (same_row (tick v) w j t (sym quiet.1) h))
                (All-Stored v (tick v) (sort_steps (steps_of_run id v.run_steps)) refl
                  (listing-Stored id v)))

    -- An execution completes its run: while the connection is up, nothing cancels the execution, no
    -- stage of the run's configuration is manual or a gate, the circuit breaker is not wired or
    -- shut for the project, and the action of every stored step is registered, returns, and leaves
    -- the connection, the statuses of runs and steps and the actions of steps as they are,
    -- `ExecuteRun` ends with the completion of a stored run that is not failed, completed or
    -- cancelled, and the run is stored as completed afterwards.
    pub execute_run-finishes :
        (id : Uuid) (w : World) (r : Run)
        → NoFaults w
        → run_at w id ≡ some r
        → is_terminal r.status ≡ false
        → Automatic (parse_transition_policy r)
        → Admits e r.project_id w
        → ((j : Uuid) (t : RunStep) → step_at w j ≡ some t → Reliable e t.action)
        → Yields (execute_run e id) w (Finished id)
    unfolding execute_run
    execute_run-finishes id w r up found open_ auto admits acts =
        yields_from (Finished id) (get_run id) _ w (tick w) r (yields-get_run id w r up found) (
          subst
            (λ b.
              Yields (if b then pure already_terminal else check_and_start e r id) (tick w)
                (Finished id))
            (sym open_)
            (checked-yields r id (tick w) up (tick-run_at w id r found) auto
              (tick-Admits e r.project_id w admits)
              (λ j t h. acts j t (same_row (tick w) w j t refl h))))
