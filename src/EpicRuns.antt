-- ===== src/EpicRuns.antt =====
-- Epic runs (service/epic_run_service.go): the launch of all stories of an epic. Groups is the
-- executor that the launch starts in a goroutine of its own.
pub mod Groups
pub mod Order
pub mod Safety
pub mod Traces
pub mod Parked
pub mod Twice
pub mod Launching
mod Samples
mod Examples
mod WaitingExample
use hopeitworks.Prelude.{
  ℕ, ◌+◌, Bool, false, true, none, some, Option, List, [], ◌∷◌, ◌++◌, ◌==◌, if◌then◌else◌,
}
use hopeitworks.Errors.{ok, err, epic, validation, domain_error, new_not_found, new_internal}
use hopeitworks.Action.{◌>>=◌, ◌>>◌, pure, fail, require}
use hopeitworks.Model.Status.{EpicRunStatus}
use hopeitworks.Model.Entities.{Uuid, Story, EpicRun, EpicRunStory}
use hopeitworks.World.{M}
use hopeitworks.Repo.Epics.{
  get_epic, list_by_epic, create_epic_run, get_epic_run_row, insert_epic_run_story,
  list_epic_run_stories,
}
use hopeitworks.Scheduler.{FileIndex, Outcome, groups, failure, nil_deref, out_of_fuel, build_dag}

-- What the launch leaves: the epic run with its stories, and the groups that its goroutine executes.
pub record Launch : Type 0 where
  pub epic_run : EpicRun
  pub stories : List EpicRunStory
  pub dag : List (List Story)

-- `BuildDAG` does not end in the last two ways on stories with different keys.
abbrev pub dag_or_error : Outcome → M (List (List Story))
dag_or_error (groups gs) = pure gs
dag_or_error (failure x) = fail x
dag_or_error nil_deref = fail new_internal
dag_or_error out_of_fuel = fail new_internal

abbrev pub has_stories : List Story → M (Unit {0})
has_stories [] = fail (domain_error validation "EPIC_HAS_NO_STORIES")
has_stories (s ∷ ss) = pure tt

abbrev pub new_row : Uuid → ℕ → Story → EpicRunStory
new_row epic_run_id group_index s = record {
  epic_run_id = epic_run_id;
  story_id = s.id;
  run_id = none;
  group_index = group_index;
  status = "pending";
}

-- The inner loop, then the loop over the groups; the rows come back as `allStories`.
unfoldable pub insert_group : Uuid → ℕ → List Story → M (List EpicRunStory)
insert_group id i [] = pure []
insert_group id i (s ∷ ss) = do
  insert_epic_run_story (new_row id i s)
  rest ← insert_group id i ss
  pure (new_row id i s ∷ rest)

unfoldable pub insert_groups : Uuid → ℕ → List (List Story) → M (List EpicRunStory)
unfolding insert_group
insert_groups id i [] = pure []
insert_groups id i (g ∷ gs) = do
  rows ← insert_group id i g
  rest ← insert_groups id (i + 1) gs
  pure (rows ++ rest)

-- `order` is the order of the range over the files in `BuildDAG`.
unfoldable pub launch_epic_run : (FileIndex → FileIndex) → Uuid → Uuid → M Launch
unfolding insert_groups
launch_epic_run order project_id epic_id = do
  e ← get_epic epic_id
  require (e.project_id == project_id) (new_not_found epic)
  stories ← list_by_epic epic_id 10000 0
  has_stories stories
  dag ← dag_or_error (build_dag order stories)
  created ← create_epic_run project_id epic_id EpicRunStatus.pending
  rows ← insert_groups created.id 0 dag
  pure (record { epic_run = created; stories = rows; dag = dag })

-- An epic run with its stories.
unfoldable pub get_epic_run : Uuid → M (EpicRun × List EpicRunStory)
get_epic_run id = do r ← get_epic_run_row id; stories ← list_epic_run_stories id; pure (r, stories)
