-- ===== src/Executor/Rounds.antt =====
-- What one round of the loop does to the statuses of runs.
use hopeitworks.Prelude.{◌≡◌, refl, Bool, true, false, Option, none, some, if◌then◌else◌, arith}
use hopeitworks.Errors.{DomainError, Result, ok, err}
use hopeitworks.Action.Returns.{bind_returns}
use hopeitworks.Action.{◌>>=◌, pure, caught}
use hopeitworks.Model.Status.{StepStatus, step_status_eq}
use hopeitworks.Model.Config.{PipelineConfigYaml}
use hopeitworks.Model.Entities.{Run, RunStep, Metadata}
use hopeitworks.World.{World, M}
use hopeitworks.World.Moves.{Moves-refl, Keeps-Moves, then_Moves}
use hopeitworks.World.Stays.{
  Stays, Stays-refl, Keeps-Stays, then_Stays, Live, Follows, Follows-pure, Stays-Follows,
  Moves-Follows, Ends, Follows-bind, Follows-after,
}
use hopeitworks.Repo.Runs.{get_run}
use hopeitworks.Repo.Keeps.{get_run-Keeps}
use hopeitworks.Executor.{PipelineExecutor, handle_step_failure, handle_cancellation}
use hopeitworks.Executor.Stages.{
  Verdict, proceed, suspended, matches, new_stage_ref, enter_stage, exit_stage,
  enforce_gate_on_exit, enforce_manual_on_enter,
}
use hopeitworks.Executor.Execution.{
  Halt, awaiting_approval, run_paused, Progress, Flow, next, stop, settle, take_step, note_failure,
  change_stage, after_manual, after_gate, cross_boundary, step_unless, run_unless_paused,
  run_unless_cancelled, one_round, says_paused,
}
use hopeitworks.Executor.Quiet.{enter_stage-Quiet, exit_stage-Quiet, note_failure-Quiet}
use hopeitworks.Executor.Acting.{ActionsStay, execute_step-Stays}
use hopeitworks.Executor.Failing.{handle_step_failure-Moves, handle_cancellation-Moves}
use hopeitworks.Executor.Parking.{is_proceed, manual-Follows, exit-Follows, caught-Stays}

abbrev pub is_next : Flow → Bool
is_next (next p) = true
is_next (stop x) = false

module _ (e : PipelineExecutor) (plain : ActionsStay e) where
  failed-Ends :
      (r : Run) (s : RunStep) (p : Progress) (x : DomainError)
      → Ends is_next (settle e r s p (err x))
  unfolding settle
  failed-Ends r s p x v a h =
      bind_returns (handle_step_failure e r s x) _ v a h
        λ _ v1 _ h1. bind_returns (note_failure e r) _ v1 a h1 λ _ v2 _ h2. absurd (ground arith)

  settle-Follows :
      (r : Run) (s : RunStep) (p : Progress) (o : Result (Option Metadata)) (w : World)
      → Live r.id w
      → Follows is_next w (settle e r s p o)
  unfolding settle
  settle-Follows r s p (ok none) w alive = Follows-pure is_next (ok (stop awaiting_approval)) w
  settle-Follows r s p (ok (some m)) w alive =
      Follows-pure is_next (ok (next (record p { prev_step = some s; metadata = m }))) w
  settle-Follows r s p (err x) w alive =
      Moves-Follows is_next (settle e r s p (err x)) w
        (then_Moves (handle_step_failure e r s x) _ w (handle_step_failure-Moves e r s x w alive)
          λ _ w1.
            then_Moves (note_failure e r) _ w1
              (Keeps-Moves w1 (note_failure e r w1).1 (note_failure-Quiet e r w1).0)
              λ _ w2. Moves-refl w2)
        (failed-Ends r s p x)

  take_step-Follows :
      (r : Run) (s : RunStep) (p : Progress) (w : World)
      → Live r.id w
      → Follows is_next w (take_step e r s p)
  unfolding take_step
  take_step-Follows r s p w =
      Follows-after is_next r.id (caught _) _ w
        (caught-Stays _ w (execute_step-Stays e plain r s p.metadata w))
        λ o v alive. settle-Follows r s p o v alive

  change_stage-Stays :
      (r : Run) (s : RunStep) (p : Progress) (w : World) → Stays w (change_stage e r s p w).1
  unfolding change_stage
  change_stage-Stays r s p w =
      then_Stays (exit_stage e r _ _) _ w
        (Keeps-Stays w (exit_stage e r p.cur_stage (some (new_stage_ref s)) w).1
          (exit_stage-Quiet e r p.cur_stage (some (new_stage_ref s)) w).0)
        λ _ w1.
          then_Stays (enter_stage e r _) _ w1
            (Keeps-Stays w1 (enter_stage e r (new_stage_ref s) w1).1
              (enter_stage-Quiet e r (new_stage_ref s) w1).0)
            λ _ w2. Stays-refl w2

  ends_here :
      (x : Halt) (v : World) → (v ≡ v) × ((b : Flow) → ok (stop x) ≡ ok b → is_next b ≡ false)
  ends_here x v = (refl, λ b h. ground arith)

  after_manual-halts :
      (r : Run) (s : RunStep) (p : Progress) (a : Verdict)
      → is_proceed a ≡ false
      → (v : World)
      → ((after_manual e r s p a v).1 ≡ v)
        × ((b : Flow) → (after_manual e r s p a v).0 ≡ ok b → is_next b ≡ false)
  unfolding after_manual
  after_manual-halts r s p proceed n v = absurd (ground arith)
  after_manual-halts r s p suspended n v = ends_here awaiting_approval v

  after_manual-Follows :
      (r : Run) (s : RunStep) (p : Progress) (a : Verdict)
      → is_proceed a ≡ true
      → (v : World) → Live r.id v
      → Follows is_next v (after_manual e r s p a)
  unfolding after_manual
  after_manual-Follows r s p proceed g v alive =
      Stays-Follows is_next (change_stage e r s p) v (change_stage-Stays r s p v)
  after_manual-Follows r s p suspended g v alive = absurd (ground arith)

  after_gate-halts :
      (r : Run) (policy : Option PipelineConfigYaml) (s : RunStep) (p : Progress) (a : Verdict)
      → is_proceed a ≡ false
      → (v : World)
      → ((after_gate e r policy s p a v).1 ≡ v)
        × ((b : Flow) → (after_gate e r policy s p a v).0 ≡ ok b → is_next b ≡ false)
  unfolding after_gate
  after_gate-halts r policy s p proceed n v = absurd (ground arith)
  after_gate-halts r policy s p suspended n v = ends_here awaiting_approval v

  after_gate-Follows :
      (r : Run) (policy : Option PipelineConfigYaml) (s : RunStep) (p : Progress) (a : Verdict)
      → is_proceed a ≡ true
      → (w : World) → Live r.id w
      → Follows is_next w (after_gate e r policy s p a)
  unfolding after_gate
  after_gate-Follows r policy s p suspended g w alive = absurd (ground arith)
  after_gate-Follows r policy s p proceed g w alive =
      Follows-bind is_proceed is_next r.id (enforce_manual_on_enter e r _ _ _) _ w
        (manual-Follows e r (new_stage_ref s) policy p.metadata w alive) (after_manual-halts r s p)
        (after_manual-Follows r s p) alive

  cross-Follows :
      (r : Run) (policy : Option PipelineConfigYaml) (s : RunStep) (p : Progress) (w : World)
      → Live r.id w
      → Follows is_next w (cross_boundary e r policy s p)
  unfolding cross_boundary
  cross-Follows r policy s p w alive = go (matches p.cur_stage s.stage_id)
    where
      cross : M Flow
      cross = enforce_gate_on_exit e r p.cur_stage policy p.prev_step >>= after_gate e r policy s p

      go : (b : Bool) → Follows is_next w (if b then pure (next p) else cross)
      go true = Follows-pure is_next (ok (next p)) w
      go false =
          Follows-bind is_proceed is_next r.id
            (enforce_gate_on_exit e r p.cur_stage policy p.prev_step) (after_gate e r policy s p) w
            (exit-Follows e r p.cur_stage policy p.prev_step w alive)
            (after_gate-halts r policy s p) (after_gate-Follows r policy s p) alive

  step_unless-halts :
      (r : Run) (s : RunStep) (f : Flow)
      → is_next f ≡ false
      → (v : World)
      → ((step_unless e r s f v).1 ≡ v)
        × ((b : Flow) → (step_unless e r s f v).0 ≡ ok b → is_next b ≡ false)
  unfolding step_unless
  step_unless-halts r s (next p) n v = absurd (ground arith)
  step_unless-halts r s (stop x) n v = ends_here x v

  step_unless-Follows :
      (r : Run) (s : RunStep) (f : Flow)
      → is_next f ≡ true
      → (v : World) → Live r.id v
      → Follows is_next v (step_unless e r s f)
  unfolding step_unless
  step_unless-Follows r s (next p) g v alive = take_step-Follows r s p v alive
  step_unless-Follows r s (stop x) g v alive = absurd (ground arith)

  unpaused-Follows :
      (b : Bool) (r : Run) (policy : Option PipelineConfigYaml) (s : RunStep) (p : Progress)
      (w : World)
      → Live r.id w
      → Follows is_next w (run_unless_paused e b r policy s p)
  unfolding run_unless_paused
  unpaused-Follows true r policy s p w alive = Follows-pure is_next (ok (stop run_paused)) w
  unpaused-Follows false r policy s p w alive =
      Follows-bind is_next is_next r.id (cross_boundary e r policy s p) (step_unless e r s) w
        (cross-Follows r policy s p w alive) (step_unless-halts r s) (step_unless-Follows r s) alive

  cancelled-Ends :
      (r : Run) (s : RunStep) (policy : Option PipelineConfigYaml) (p : Progress)
      → Ends is_next (run_unless_cancelled e true r policy s p)
  unfolding run_unless_cancelled
  cancelled-Ends r s policy p v a h =
      bind_returns (handle_cancellation e r s) _ v a h λ _ v1 _ h1. ground arith

  uncancelled-Follows :
      (b : Bool) (r : Run) (policy : Option PipelineConfigYaml) (s : RunStep) (p : Progress)
      (w : World)
      → Live r.id w
      → Follows is_next w (run_unless_cancelled e b r policy s p)
  unfolding run_unless_cancelled
  uncancelled-Follows true r policy s p w alive =
      Moves-Follows is_next (run_unless_cancelled e true r policy s p) w
        (then_Moves (handle_cancellation e r s) _ w (handle_cancellation-Moves e r s w alive)
          λ _ v. Moves-refl v)
        (cancelled-Ends r s policy p)
  uncancelled-Follows false r policy s p w alive =
      Follows-after is_next r.id (caught (get_run r.id)) _ w
        (caught-Stays _ w (Keeps-Stays w (get_run r.id w).1 (get_run-Keeps r.id w)))
        (λ o v live. unpaused-Follows (says_paused o) r policy s p v live) alive

  pub one_round-Follows :
      (r : Run) (policy : Option PipelineConfigYaml) (s : RunStep) (p : Progress) (w : World)
      → Live r.id w
      → Follows is_next w (one_round e r policy s p)
  unfolding one_round
  one_round-Follows r policy s p w alive = go (step_status_eq s.status StepStatus.completed)
    where
      attempted : M Flow
      attempted v = run_unless_cancelled e (e.is_cancelled v) r policy s p v

      go : (b : Bool) → Follows is_next w (if b then pure (next p) else attempted)
      go true = Follows-pure is_next (ok (next p)) w
      go false = uncancelled-Follows (e.is_cancelled w) r policy s p w alive
