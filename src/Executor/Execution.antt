-- ===== src/Executor/Execution.antt =====
-- `ExecuteRun` (service/pipeline_executor.go).
use hopeitworks.Prelude.{Bool, true, false, Option, none, some, List, [], ◌∷◌, ◌++◌, if◌then◌else◌}
use hopeitworks.Errors.{Result, ok, err}
use hopeitworks.Action.{◌>>=◌, ◌>>◌, pure, fail, read, caught, logged}
use hopeitworks.Model.Status.{RunStatus, StepStatus, StoryStatus, run_status_eq, step_status_eq}
use hopeitworks.Model.Config.{PipelineConfigYaml}
use hopeitworks.Model.Entities.{Uuid, Run, RunStep, Metadata, of_error, PayloadValue}
use hopeitworks.World.{M, time_now}
use hopeitworks.Repo.Runs.{get_run, update_run_status, list_run_steps_by_run, sort_steps}
use hopeitworks.CircuitBreaker.{check_circuit_breaker, record_failure, record_success}
use hopeitworks.Executor.{
  PipelineExecutor, publish_event, run_payload, update_story, handle_step_failure,
  handle_cancellation,
}
use hopeitworks.Executor.Stages.{
  StageRef, new_stage_ref, matches, Verdict, proceed, suspended, parse_transition_policy,
  set_current_stage, enter_stage, exit_stage, enforce_manual_on_enter, enforce_gate_on_exit,
}
use hopeitworks.Executor.Steps.{execute_step}

-- The returns within the loop: nil for a run that waits, `ErrRunPaused`, and `ctx.Err()`.
pub data Halt : Type 0 where
  awaiting_approval run_paused context_cancelled : Halt

-- The `return` that ends `ExecuteRun`; the first two return nil.
pub data Ending : Type 0 where
  completed already_terminal : Ending
  halted : Halt → Ending

-- The variables of the loop.
pub record Progress : Type 0 where
  pub cur_stage : Option StageRef
  pub prev_step : Option RunStep
  pub metadata : Metadata

abbrev pub first_progress : Run → Progress
first_progress r = record { cur_stage = none; prev_step = none; metadata = r.metadata }

-- A round goes on with the loop, or returns from it.
pub data Flow : Type 0 where
  next : Progress → Flow
  stop : Halt → Flow

abbrev pub is_terminal : RunStatus → Bool
is_terminal RunStatus.failed = true
is_terminal RunStatus.completed = true
is_terminal RunStatus.cancelled = true
is_terminal _ = false

-- The run read again says paused; a failed read is logged.
abbrev pub says_paused : Result Run → Bool
says_paused (ok r) = run_status_eq r.status RunStatus.paused
says_paused (err x) = false

-- The loop returns from a round, or takes the next one.
unfoldable pub go_on : (Progress → M Flow) → Flow → M Flow
go_on f (stop halt) = pure (stop halt)
go_on f (next p) = f p

module _ (e : PipelineExecutor) where
  -- The circuit breaker's update of a run that it does not let start.
  unfoldable pub refuse_run : Uuid → Result (Unit {0}) → M (Unit {0})
  refuse_run run_id (ok _) = pure tt
  refuse_run run_id (err x) = do
    now ← time_now
    logged (update_run_status run_id RunStatus.failed none (some now) none (some (of_error x)))
    fail x

  unfoldable pub check_breaker : Run → Uuid → M (Unit {0})
  unfolding refuse_run
  check_breaker r run_id =
      if e.has_circuit_breaker
      then (do result ← caught (check_circuit_breaker r.project_id); refuse_run run_id result)
      else pure tt

  unfoldable pub note_failure : Run → M (Unit {0})
  note_failure r = if e.has_circuit_breaker then logged (record_failure r.project_id) else pure tt

  unfoldable pub note_success : Run → M (Unit {0})
  note_success r = if e.has_circuit_breaker then logged (record_success r.project_id) else pure tt

  -- What follows `executeStep`.
  unfoldable pub settle : Run → RunStep → Progress → Result (Option Metadata) → M Flow
  unfolding handle_step_failure note_failure
  settle r s p (ok none) = pure (stop awaiting_approval)
  settle r s p (ok (some m)) = pure (next (record p { prev_step = some s; metadata = m }))
  settle r s p (err x) = do handle_step_failure e r s x; note_failure r; fail x

  unfoldable pub take_step : Run → RunStep → Progress → M Flow
  unfolding execute_step settle
  take_step r s p = do result ← caught (execute_step e r s p.metadata); settle r s p result

  unfoldable pub change_stage : Run → RunStep → Progress → M Flow
  unfolding enter_stage exit_stage
  change_stage r s p = do
    exit_stage e r p.cur_stage (some (new_stage_ref s))
    enter_stage e r (new_stage_ref s)
    pure (next (record p { cur_stage = some (new_stage_ref s) }))

  unfoldable pub after_manual : Run → RunStep → Progress → Verdict → M Flow
  unfolding change_stage
  after_manual r s p suspended = pure (stop awaiting_approval)
  after_manual r s p proceed = change_stage r s p

  unfoldable pub after_gate :
      Run → Option PipelineConfigYaml → RunStep → Progress → Verdict → M Flow
  unfolding after_manual enforce_manual_on_enter
  after_gate r policy s p suspended = pure (stop awaiting_approval)
  after_gate r policy s p proceed = do
    verdict ← enforce_manual_on_enter e r (new_stage_ref s) policy p.metadata
    after_manual r s p verdict

  unfoldable pub cross_boundary : Run → Option PipelineConfigYaml → RunStep → Progress → M Flow
  unfolding after_gate enforce_gate_on_exit
  cross_boundary r policy s p = if matches p.cur_stage s.stage_id then pure (next p) else (do
    verdict ← enforce_gate_on_exit e r p.cur_stage policy p.prev_step
    after_gate r policy s p verdict)

  unfoldable pub step_unless : Run → RunStep → Flow → M Flow
  unfolding take_step
  step_unless r s (stop halt) = pure (stop halt)
  step_unless r s (next p) = take_step r s p

  unfoldable pub run_unless_paused :
      Bool → Run → Option PipelineConfigYaml → RunStep → Progress → M Flow
  unfolding cross_boundary step_unless
  run_unless_paused true r policy s p = pure (stop run_paused)
  run_unless_paused false r policy s p = do flow ← cross_boundary r policy s p; step_unless r s flow

  unfoldable pub run_unless_cancelled :
      Bool → Run → Option PipelineConfigYaml → RunStep → Progress → M Flow
  unfolding run_unless_paused handle_cancellation
  run_unless_cancelled true r policy s p = do
    handle_cancellation e r s
    pure (stop context_cancelled)
  run_unless_cancelled false r policy s p = do
    current ← caught (get_run r.id)
    run_unless_paused (says_paused current) r policy s p

  -- The body of the loop.
  unfoldable pub one_round : Run → Option PipelineConfigYaml → RunStep → Progress → M Flow
  unfolding run_unless_cancelled
  one_round r policy s p =
      if step_status_eq s.status StepStatus.completed
      then pure (next p)
      else (do done ← read e.is_cancelled; run_unless_cancelled done r policy s p)

  unfoldable pub run_steps : Run → Option PipelineConfigYaml → List RunStep → Progress → M Flow
  unfolding one_round go_on
  run_steps r policy [] p = pure (next p)
  run_steps r policy (s ∷ ss) p = do
    flow ← one_round r policy s p
    go_on (run_steps r policy ss) flow

  -- The end of the run, once its last stage is left.
  unfoldable pub complete_run : Run → Uuid → M Ending
  unfolding publish_event update_story note_success
  complete_run r run_id = do
    now ← time_now
    update_run_status run_id RunStatus.completed none (some now) none none
    publish_event r.project_id "run" r.id "completed"
        (run_payload r "completed" ++ ("completed_at", PayloadValue.time now) ∷ [])
    update_story e r StoryStatus.done
    note_success r
    pure completed

  unfoldable pub leave_last_stage : Run → Uuid → StageRef → Verdict → M Ending
  unfolding complete_run exit_stage set_current_stage
  leave_last_stage r run_id stage suspended = pure (halted awaiting_approval)
  leave_last_stage r run_id stage proceed = do
    exit_stage e r (some stage) none
    set_current_stage r none
    complete_run r run_id

  -- What follows the loop.
  unfoldable pub after_steps : Run → Uuid → Option PipelineConfigYaml → Progress → M Ending
  unfolding leave_last_stage enforce_gate_on_exit complete_run
  after_steps r run_id policy p = elim p.cur_stage [
    | none ↦ complete_run r run_id
    | some stage ↦ do
      verdict ← enforce_gate_on_exit e r (some stage) policy p.prev_step
      leave_last_stage r run_id stage verdict
  ]

  unfoldable pub finish_run : Run → Uuid → Option PipelineConfigYaml → Flow → M Ending
  unfolding after_steps
  finish_run r run_id policy (stop halt) = pure (halted halt)
  finish_run r run_id policy (next p) = after_steps r run_id policy p

  unfoldable pub run_and_finish : Run → Uuid → List RunStep → M Ending
  unfolding run_steps finish_run parse_transition_policy
  run_and_finish r run_id steps = do
    flow ← run_steps r (parse_transition_policy r) (sort_steps steps) (first_progress r)
    finish_run r run_id (parse_transition_policy r) flow

  -- From the transition to "running" on.
  unfoldable pub start_run : Uuid → List RunStep → M Ending
  unfolding publish_event update_story run_and_finish
  start_run run_id steps = do
    now ← time_now
    r ← update_run_status run_id RunStatus.running (some now) none none none
    publish_event r.project_id "run" r.id "started"
        (run_payload r "running" ++ ("started_at", PayloadValue.time now) ∷ [])
    update_story e r StoryStatus.running
    run_and_finish r run_id steps

  -- What follows the terminal guard.
  unfoldable pub check_and_start : Run → Uuid → M Ending
  unfolding check_breaker start_run
  check_and_start r run_id = do
    check_breaker r run_id
    steps ← list_run_steps_by_run run_id
    start_run run_id steps

  unfoldable pub execute_run : Uuid → M Ending
  unfolding check_and_start
  execute_run run_id = do
    r ← get_run run_id
    if is_terminal r.status then pure already_terminal else check_and_start r run_id
