-- ===== src/RunService/Retry/Limits.antt =====
-- Which steps `RetryStep` retries, and how often.
use hopeitworks.Prelude.{
  ◌<◌, ◌≡◌, sym, ap, ◌∙◌, subst, some, List, length, find, select, leb, ◌==◌, not, ==_iff, arith,
}
use hopeitworks.Errors.{ok}
use hopeitworks.Action.Returns.{bind_returns, require_returns}
use hopeitworks.Model.Status.{StepStatus, step_status_eq}
use hopeitworks.Model.Entities.{Uuid, Run, RunStep}
use hopeitworks.World.{World, call, run_at, step_at, step_has_id}
use hopeitworks.Repo.Runs.{get_run, get_run_step, list_retry_steps_by_parent, has_parent}
use hopeitworks.RunService.{Wiring}
use hopeitworks.RunService.Retry.{retry_step, root_step_id, max_retries}

get_run-reads :
    (id : Uuid) (w v : World) (r : Run)
    → get_run id w ≡ (ok r, v)
    → (run_at w id ≡ some r) × (v.run_steps ≡ w.run_steps)
unfolding get_run call run_at
get_run-reads id w v r h = ground arith

get_run_step-reads :
    (id : Uuid) (w v : World) (s : RunStep)
    → get_run_step id w ≡ (ok s, v)
    → (step_at w id ≡ some s) × (v.run_steps ≡ w.run_steps)
unfolding get_run_step call step_at
get_run_step-reads id w v s h = ground arith

retries-reads :
    (id : Uuid) (w v : World) (l : List RunStep)
    → list_retry_steps_by_parent id w ≡ (ok l, v)
    → l ≡ select (has_parent id) w.run_steps
unfolding list_retry_steps_by_parent call
retries-reads id w v l h = ground arith

step_found_before :
    (w v : World) (id : Uuid) (s : RunStep)
    → v.run_steps ≡ w.run_steps
    → step_at v id ≡ some s
    → step_at w id ≡ some s
unfolding step_at
step_found_before w v id s same found = ap (find (step_has_id id)) (sym same) ∙ found

-- What a step must be to be retried.
pub record IsRetryable (w : World) (run_id step_id : Uuid) : Type 0 where
  pub the_run : Run
  pub the_step : RunStep
  pub run_found : run_at w run_id ≡ some the_run
  pub step_found : step_at w step_id ≡ some the_step
  pub of_run : the_step.run_id ≡ run_id
  pub failed : the_step.status ≡ StepStatus.failed
  pub below_limit :
      length (select (has_parent (root_step_id the_step)) w.run_steps)
      < max_retries the_run.pipeline_config_snapshot the_step.step_name

-- `RetryStep` returns a run only for a stored failed step of that run whose chain has fewer retries
-- than its limit.
pub retry_step-IsRetryable :
    (svc : Wiring) (run_id step_id : Uuid) (w : World) (out : Run × List RunStep)
    → (retry_step svc run_id step_id w).0 ≡ ok out
    → IsRetryable w run_id step_id
unfolding retry_step
retry_step-IsRetryable svc run_id step_id w out h =
    bind_returns (get_run run_id) _ w out h λ r v got h1.
      bind_returns (get_run_step step_id) _ v out h1 λ s u got_step h2.
        require_returns (s.run_id == run_id) _ _ u out h2 λ own h3.
          require_returns (step_status_eq s.status StepStatus.failed) _ _ u out h3 λ is_failed h4.
            bind_returns (list_retry_steps_by_parent (root_step_id s)) _ u out h4
              λ existing t listed h5.
                require_returns
                  (not (leb (max_retries r.pipeline_config_snapshot s.step_name) (length existing)))
                  _ _ t out h5
                  λ below _.
                    let (run_found, same) = get_run-reads run_id w v r got in
                    let (found, same') = get_run_step-reads step_id v u s got_step in
                    record {
                      the_run = r;
                      the_step = s;
                      run_found = run_found;
                      step_found = step_found_before w v step_id s same found;
                      of_run = (==_iff s.run_id run_id).0 own;
                      failed = ground arith;
                      below_limit =
                          subst
                            (λ l.
                              length (select (has_parent (root_step_id s)) l)
                              < max_retries r.pipeline_config_snapshot s.step_name)
                            (same' ∙ same)
                            (subst
                              (λ l. length l < max_retries r.pipeline_config_snapshot s.step_name)
                              (retries-reads (root_step_id s) u t existing listed) (ground arith));
                    }
