-- ===== src/EpicRuns/Groups.antt =====
-- The parallel group executor (service/parallel_group_executor.go). A group's goroutines run in any
-- interleaving with one another and with whatever else changes the state: `run_moves` executes a
-- schedule. A goroutine's atomic parts are the launch of its run and the execution of it, each with
-- the update of the story's row that follows; what happens within `ExecuteRun` is one part.
use hopeitworks.Prelude.{
  ℕ, zero, suc, String, Bool, true, false, ◌&&◌, Option, none, some, List, [], ◌∷◌, ◌++◌, length,
  if◌then◌else◌,
}
use hopeitworks.Errors.{DomainError, Result, ok, err}
use hopeitworks.Action.{◌>>=◌, ◌>>◌, pure, caught, logged}
use hopeitworks.Model.Status.{EpicRunStatus}
use hopeitworks.Model.Entities.{Uuid, uuid_nil, Run, RunStep, Story, EpicRun, PayloadValue}
use hopeitworks.World.{World, M, time_now}
use hopeitworks.Repo.Epics.{update_epic_run_status, update_epic_run_story_status}
use hopeitworks.Repo.Outbox.{publish}
use hopeitworks.RunService.{Wiring}
use hopeitworks.RunService.Launch.{launch_run}
use hopeitworks.Executor.{PipelineExecutor}
use hopeitworks.Executor.Execution.{
  Halt, run_paused, context_cancelled, awaiting_approval, Ending, completed, already_terminal,
  halted, execute_run,
}

-- The error of a story's goroutine: the run could not be created, or `ExecuteRun` returned an error,
-- which for the last is `ErrRunPaused` or `ctx.Err()`.
pub data StoryError : Type 0 where
  not_created run_failed : DomainError → StoryError
  run_halted : Halt → StoryError

-- The error that `ExecuteRun` returns with an ending, if any.
abbrev pub ending_error : Ending → Option StoryError
ending_error completed = none
ending_error already_terminal = none
ending_error (halted awaiting_approval) = none
ending_error (halted run_paused) = some (run_halted run_paused)
ending_error (halted context_cancelled) = some (run_halted context_cancelled)

abbrev pub execution_error : Result Ending → Option StoryError
execution_error (err x) = some (run_failed x)
execution_error (ok ending) = ending_error ending

-- How far a story's goroutine is: `returned` holds its error.
pub data Phase : Type 0 where
  spawned : Phase
  launched : Uuid → Phase
  returned : Option StoryError → Phase

pub record Routine : Type 0 where
  pub story : Story
  pub phase : Phase

unfoldable pub publish_event :
    Uuid → String → Uuid → String → List (String × PayloadValue) → M (Unit {0})
publish_event project_id entity_type entity_id action payload = logged (
    publish (record {
      project_id = project_id;
      entity_type = entity_type;
      entity_id = entity_id;
      action = action;
      payload = payload;
    }))

unfoldable pub publish_story_completed : EpicRun → Uuid → Uuid → String → M (Unit {0})
unfolding publish_event
publish_story_completed r story_id run_id status =
    publish_event r.project_id "epic_run" r.id "story.completed" (
      ("story_id", PayloadValue.uuid story_id)
      ∷ ("run_id", PayloadValue.uuid run_id)
      ∷ ("status", PayloadValue.str status)
      ∷ [])

module _ (svc : Wiring) (parse : String → Option Uuid) (e : PipelineExecutor) (r : EpicRun) where
  -- What follows `LaunchRun`.
  unfoldable pub after_launch : Uuid → Result (Run × List RunStep) → M Phase
  unfolding publish_story_completed
  after_launch story_id (err x) = do
    logged (update_epic_run_story_status r.id story_id "failed" none)
    publish_story_completed r story_id uuid_nil "failed"
    pure (returned (some (not_created x)))
  after_launch story_id (ok (run, steps)) = do
    logged (update_epic_run_story_status r.id story_id "running" (some run.id))
    pure (launched run.id)

  -- What follows `ExecuteRun`.
  unfoldable pub after_execution : Uuid → Uuid → Option StoryError → M Phase
  unfolding publish_story_completed
  after_execution story_id run_id (some x) = do
    logged (update_epic_run_story_status r.id story_id "failed" (some run_id))
    publish_story_completed r story_id run_id "failed"
    pure (returned (some x))
  after_execution story_id run_id none = do
    logged (update_epic_run_story_status r.id story_id "completed" (some run_id))
    publish_story_completed r story_id run_id "completed"
    pure (returned none)

  -- The next atomic part of `runStory`, in a context that `ctx` says is cancelled or not.
  unfoldable pub run_story : (World → Bool) → Story → Phase → M Phase
  unfolding after_launch after_execution
  run_story ctx s spawned = do
    result ← caught (launch_run svc parse r.project_id s.id uuid_nil)
    after_launch s.id result
  run_story ctx s (launched run_id) = do
    result ← caught (execute_run (record e { is_cancelled = ctx }) run_id)
    after_execution s.id run_id (execution_error result)
  run_story ctx s (returned x) = pure (returned x)

-- How `Execute` returns; the third is the group's first error.
pub data Finish : Type 0 where
  succeeded : Finish
  update_failed : DomainError → Finish
  group_failed : StoryError → Finish

-- Where `Execute` is: before its first call, at the head of the loop with the routines of the groups
-- that are done and the groups that are left, waiting for a group's goroutines, or returned. A group
-- keeps the first error that one of its goroutines returned.
pub data Control : Type 0 where
  starting : List (List Story) → Control
  at_group : List (List Routine) → List (List Story) → Control
  waiting : List (List Routine) → List Routine → Option StoryError → List (List Story) → Control
  finished : List (List Routine) → Finish → Control

pub record Execution : Type 0 where
  pub control : Control
  pub world : World

abbrev pub spawn : List Story → List Routine
spawn [] = []
spawn (s ∷ ss) = record { story = s; phase = spawned } ∷ spawn ss

abbrev pub is_returned : Phase → Bool
is_returned (returned x) = true
is_returned _ = false

abbrev pub all_returned : List Routine → Bool
all_returned [] = true
all_returned (q ∷ qs) = is_returned q.phase && all_returned qs

-- `errOnce`
abbrev pub first_error : Option StoryError → Phase → Option StoryError
first_error (some x) p = some x
first_error none (returned x) = x
first_error none _ = none

unfoldable pub start_epic : EpicRun → M (Unit {0})
unfolding publish_event
start_epic r = do
  update_epic_run_status r.id EpicRunStatus.running none
  publish_event r.project_id "epic_run" r.id "started" []

unfoldable pub start_group : EpicRun → ℕ → List Story → M (Unit {0})
unfolding publish_event
start_group r i g =
    publish_event r.project_id "epic_run_group" r.id "started"
      (("group_index", PayloadValue.num i) ∷ ("story_count", PayloadValue.num (length g)) ∷ [])

unfoldable pub fail_epic : EpicRun → M (Unit {0})
unfolding publish_event
fail_epic r = do
  now ← time_now
  logged (update_epic_run_status r.id EpicRunStatus.failed (some now))
  publish_event r.project_id "epic_run" r.id "failed" []

unfoldable pub complete_epic : EpicRun → M (Unit {0})
unfolding publish_event
complete_epic r = do
  now ← time_now
  update_epic_run_status r.id EpicRunStatus.completed (some now)
  publish_event r.project_id "epic_run" r.id "completed" []

-- Where a call that returns `err` leaves `Execute`.
abbrev pub unless_failed : List (List Routine) → Result (Unit {0}) → Control → Control
unless_failed past (err x) c = finished past (update_failed x)
unless_failed past (ok _) c = c

abbrev pub then_at : Control → Result (Unit {0}) × World → Execution
then_at c (o, w) = record { control = c; world = w }

abbrev pub unless_at : List (List Routine) → Control → Result (Unit {0}) × World → Execution
unless_at past c (o, w) = record { control = unless_failed past o c; world = w }

-- What follows `eg.Wait`.
unfoldable pub after_wait :
    EpicRun
    → List (List Routine)
    → List Routine
    → Option StoryError
    → List (List Story)
    → World
    → Execution
unfolding fail_epic
after_wait r past qs none gs w = record { control = at_group (past ++ qs ∷ []) gs; world = w }
after_wait r past qs (some x) gs w =
    then_at (finished (past ++ qs ∷ []) (group_failed x)) (fail_epic r w)

-- `Execute` goes on as far as it can without its goroutines: a call, a group's start, or the return
-- of `eg.Wait`, which comes when all goroutines have returned.
unfoldable pub advance : EpicRun → Control → World → Execution
unfolding start_epic start_group after_wait complete_epic
advance r (starting gs) w = unless_at [] (at_group [] gs) (start_epic r w)
advance r (at_group past []) w = unless_at past (finished past succeeded) (complete_epic r w)
advance r (at_group past (g ∷ gs)) w =
    then_at (waiting past (spawn g) none gs) (start_group r (length past) g w)
advance r (waiting past qs x gs) w =
    if all_returned qs
    then after_wait r past qs x gs w
    else record { control = waiting past qs x gs; world = w }
advance r (finished past f) w = record { control = finished past f; world = w }

abbrev pub set_phase : List Routine → ℕ → Phase → List Routine
set_phase [] i p = []
set_phase (q ∷ qs) zero p = record q { phase = p } ∷ qs
set_phase (q ∷ qs) (suc i) p = q ∷ set_phase qs i p

abbrev pub routine_at : List Routine → ℕ → Option Routine
routine_at [] i = none
routine_at (q ∷ qs) zero = some q
routine_at (q ∷ qs) (suc i) = routine_at qs i

-- A move of the schedule: `Execute`'s own goroutine, a story's in a context that may be cancelled, or
-- anything else that changes the state.
pub data Move : Type 0 where
  main : Move
  routine : ℕ → (World → Bool) → Move
  other : World → Move

-- A goroutine whose part has ended in a phase.
abbrev pub put_phase :
    List (List Routine)
    → List Routine
    → Option StoryError
    → List (List Story)
    → ℕ
    → Result Phase × World
    → Execution
put_phase past qs x gs i (ok p, w) = record {
  control = waiting past (set_phase qs i p) (first_error x p) gs;
  world = w;
}
put_phase past qs x gs i (err y, w) = record { control = waiting past qs x gs; world = w }

module _ (svc : Wiring) (parse : String → Option Uuid) (e : PipelineExecutor) (r : EpicRun) where
  unfoldable pub step_routine : ℕ → (World → Bool) → Control → World → Execution
  unfolding run_story
  step_routine i ctx (waiting past qs x gs) w = elim (routine_at qs i) [
    | none ↦ record { control = waiting past qs x gs; world = w }
    | some q ↦ put_phase past qs x gs i (run_story svc parse e r ctx q.story q.phase w)
  ]
  step_routine i ctx c w = record { control = c; world = w }

  unfoldable pub step : Move → Execution → Execution
  unfolding advance step_routine
  step main x = advance r x.control x.world
  step (routine i ctx) x = step_routine i ctx x.control x.world
  step (other w) x = record x { world = w }

  unfoldable pub run_moves : List Move → Execution → Execution
  unfolding step
  run_moves [] x = x
  run_moves (m ∷ ms) x = run_moves ms (step m x)

-- `Execute` of a schedule, before its first call.
abbrev pub execute : List (List Story) → World → Execution
execute gs w = record { control = starting gs; world = w }
