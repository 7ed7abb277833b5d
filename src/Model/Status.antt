-- ===== src/Model/Status.antt =====
-- Statuses of runs, steps, epic runs and stories, and the tables of valid transitions
-- (model/run.go, model/epic_run.go, model/story.go).
pub mod Lifecycle
use hopeitworks.Prelude.{Bool, true, false, ◌||◌, List, [], ◌∷◌, if◌then◌else◌}
use hopeitworks.Errors.{DomainError, Result, ok, err, new_invalid_state}

pub data RunStatus : Type 0 where
  pending running paused completed failed cancelled : RunStatus

pub data StepStatus : Type 0 where
  pending running completed failed cancelled waiting_approval : StepStatus

pub data EpicRunStatus : Type 0 where
  pending running completed failed paused : EpicRunStatus

pub data StoryStatus : Type 0 where
  backlog running done failed : StoryStatus

pub data HitlStatus : Type 0 where
  pending approved rejected resolved : HitlStatus

-- `==` on each of the string types.
abbrev pub run_status_eq : RunStatus → RunStatus → Bool
run_status_eq RunStatus.pending RunStatus.pending = true
run_status_eq RunStatus.running RunStatus.running = true
run_status_eq RunStatus.paused RunStatus.paused = true
run_status_eq RunStatus.completed RunStatus.completed = true
run_status_eq RunStatus.failed RunStatus.failed = true
run_status_eq RunStatus.cancelled RunStatus.cancelled = true
run_status_eq _ _ = false

abbrev pub step_status_eq : StepStatus → StepStatus → Bool
step_status_eq StepStatus.pending StepStatus.pending = true
step_status_eq StepStatus.running StepStatus.running = true
step_status_eq StepStatus.completed StepStatus.completed = true
step_status_eq StepStatus.failed StepStatus.failed = true
step_status_eq StepStatus.cancelled StepStatus.cancelled = true
step_status_eq StepStatus.waiting_approval StepStatus.waiting_approval = true
step_status_eq _ _ = false

abbrev pub epic_run_status_eq : EpicRunStatus → EpicRunStatus → Bool
epic_run_status_eq EpicRunStatus.pending EpicRunStatus.pending = true
epic_run_status_eq EpicRunStatus.running EpicRunStatus.running = true
epic_run_status_eq EpicRunStatus.completed EpicRunStatus.completed = true
epic_run_status_eq EpicRunStatus.failed EpicRunStatus.failed = true
epic_run_status_eq EpicRunStatus.paused EpicRunStatus.paused = true
epic_run_status_eq _ _ = false

abbrev pub story_status_eq : StoryStatus → StoryStatus → Bool
story_status_eq StoryStatus.backlog StoryStatus.backlog = true
story_status_eq StoryStatus.running StoryStatus.running = true
story_status_eq StoryStatus.done StoryStatus.done = true
story_status_eq StoryStatus.failed StoryStatus.failed = true
story_status_eq _ _ = false

abbrev pub hitl_status_eq : HitlStatus → HitlStatus → Bool
hitl_status_eq HitlStatus.pending HitlStatus.pending = true
hitl_status_eq HitlStatus.approved HitlStatus.approved = true
hitl_status_eq HitlStatus.rejected HitlStatus.rejected = true
hitl_status_eq HitlStatus.resolved HitlStatus.resolved = true
hitl_status_eq _ _ = false

-- The loop `for _, valid := range allowed { if valid == to { return nil } }`.
abbrev pub is_member {ℓ} : {A : Type ℓ} → (A → A → Bool) → List A → A → Bool
is_member eq [] to = false
is_member eq (valid ∷ rest) to = eq valid to || is_member eq rest to

-- The tables. A status that is no key of its map has no transitions, and the lookup's `!ok` branch
-- returns the same category and code as the end of the loop does.
unfoldable pub valid_run_transitions : RunStatus → List RunStatus
valid_run_transitions RunStatus.pending = RunStatus.running ∷ RunStatus.cancelled ∷ []
valid_run_transitions RunStatus.running =
    RunStatus.paused ∷ RunStatus.completed ∷ RunStatus.failed ∷ RunStatus.cancelled ∷ []
valid_run_transitions RunStatus.paused = RunStatus.running ∷ RunStatus.cancelled ∷ []
valid_run_transitions RunStatus.failed = RunStatus.running ∷ []
valid_run_transitions _ = []

unfoldable pub valid_step_transitions : StepStatus → List StepStatus
valid_step_transitions StepStatus.pending = StepStatus.running ∷ StepStatus.cancelled ∷ []
valid_step_transitions StepStatus.running =
    StepStatus.completed ∷ StepStatus.failed ∷ StepStatus.cancelled ∷ StepStatus.waiting_approval
    ∷ []
valid_step_transitions StepStatus.waiting_approval =
    StepStatus.running ∷ StepStatus.completed ∷ StepStatus.failed ∷ StepStatus.cancelled ∷ []
valid_step_transitions _ = []

unfoldable pub valid_epic_run_transitions : EpicRunStatus → List EpicRunStatus
valid_epic_run_transitions EpicRunStatus.pending = EpicRunStatus.running ∷ []
valid_epic_run_transitions EpicRunStatus.running =
    EpicRunStatus.completed ∷ EpicRunStatus.failed ∷ EpicRunStatus.paused ∷ []
valid_epic_run_transitions _ = []

abbrev pub invalid_transition : DomainError
invalid_transition = new_invalid_state "INVALID_STATE_TRANSITION"

unfoldable pub validate_run_transition : RunStatus → RunStatus → Result (Unit {0})
unfolding valid_run_transitions
validate_run_transition from to =
    if is_member run_status_eq (valid_run_transitions from) to
    then ok tt
    else err invalid_transition

unfoldable pub validate_step_transition : StepStatus → StepStatus → Result (Unit {0})
unfolding valid_step_transitions
validate_step_transition from to =
    if is_member step_status_eq (valid_step_transitions from) to
    then ok tt
    else err invalid_transition

unfoldable pub validate_epic_run_transition : EpicRunStatus → EpicRunStatus → Result (Unit {0})
unfolding valid_epic_run_transitions
validate_epic_run_transition from to =
    if is_member epic_run_status_eq (valid_epic_run_transitions from) to
    then ok tt
    else err invalid_transition
