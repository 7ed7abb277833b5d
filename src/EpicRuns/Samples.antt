-- ===== src/EpicRuns/Samples.antt =====
-- An epic of two stories, of which one depends on the other, its schedule and its wiring.
use hopeitworks.Prelude.Int.{pos}
use hopeitworks.Prelude.{
  ◌≡◌, refl, ◌<◌, String, Bool, true, false, Option, none, some, List, [], ◌∷◌, ◌=s=◌, =s=→≡, ≡→=s=,
  arith, str_leb,
}
use hopeitworks.Model.Status.{RunStatus, EpicRunStatus}
use hopeitworks.Model.Config.{PipelineStep}
use hopeitworks.Model.Entities.{Uuid, Run, Story, Project, EpicRun}
use hopeitworks.World.Samples.{empty_world, sample_project, sample_run, sample_story}
use hopeitworks.World.{World}
use hopeitworks.Scheduler.{
  FileIndex, groups, keys_of, build_dag, story_graph, add_file_conflict_edges, add_file_edges,
  add_chain, add_explicit_edges, add_depends_on, add_edge, has_edge, update, by_key, file_index,
  index_files, index_file, sort_strings, insert_sorted, dedup, dedup_from, kahn, take_layer,
  release,
}
use hopeitworks.Scheduler.Keys.{count}
use hopeitworks.Scheduler.Chains.{IsRangeOrder}
use hopeitworks.Scheduler.Schedule.{HasUniqueKeys}
use hopeitworks.Executor.{PipelineExecutor}
use hopeitworks.EpicRuns.Groups.{returned, Routine}

abbrev pub in_order : FileIndex → FileIndex
in_order idx = idx

abbrev story : Uuid → String → List String → List String → Story
story id key files deps = record (sample_story id key) {
  target_files = files;
  depends_on = deps;
  epic_id = some 7;
}

abbrev pub story_a : Story
story_a = story 2 "A" ("f" ∷ []) []

abbrev pub story_b : Story
story_b = story 3 "B" ("g" ∷ []) ("A" ∷ [])

abbrev pub stories : List Story
stories = story_a ∷ story_b ∷ []

abbrev pub dag : List (List Story)
dag = (story_a ∷ []) ∷ (story_b ∷ []) ∷ []

pub dag_test : build_dag in_order stories ≡ groups dag
unfolding build_dag story_graph add_file_conflict_edges add_file_edges add_chain add_explicit_edges
    add_depends_on add_edge has_edge update by_key file_index index_files index_file sort_strings
    insert_sorted dedup dedup_from kahn take_layer release ◌=s=◌ str_leb
dag_test = refl

a_not_b : ("A" =s= "B") ≡ false
unfolding ◌=s=◌
a_not_b = refl

pub stories-HasUniqueKeys : HasUniqueKeys stories
unfolding count
stories-HasUniqueKeys k = ground (arith, a_not_b, =s=→≡ "A" k, =s=→≡ "B" k, ≡→=s= "A" "B")

pub in_order-IsRangeOrder : IsRangeOrder in_order
in_order-IsRangeOrder = record { visits = λ idx e m. m }

pub a_counted : 0 < count "A" (keys_of stories)
unfolding count ◌=s=◌
a_counted = omega arith

abbrev pub no_uuid : String → Option Uuid
no_uuid text = none

abbrev pub executor : PipelineExecutor
executor = record {
  has_circuit_breaker = false;
  has_hitl_repo = true;
  has_write_back = false;
  actions = λ name. none;
  parse_uuid = no_uuid;
  stage_entity_id = λ run_id stage_id. run_id;
  is_cancelled = λ w. false;
}

abbrev branch_step : PipelineStep
branch_step = record {
  id = "s";
  name = "branch";
  action_type = "git_branch";
  agent_id = "";
  model = "";
  auto_approve = false;
  retry_policy = record { max_retries = pos 0; retry_type = "" };
  config = [];
  guards = [];
}

abbrev project : Project
project = sample_project

abbrev pub epic_run : EpicRun
epic_run = record {
  id = 20;
  project_id = 1;
  epic_id = 7;
  status = EpicRunStatus.pending;
  created_at = 9;
  completed_at = none;
}

-- The state with these runs and epic runs, and the next identifier.
abbrev pub world : List Run → List EpicRun → Uuid → World
world runs epic_runs next_id = record empty_world {
  runs = runs;
  stories = stories;
  projects = project ∷ [];
  pipeline_configs =
      record { project_id = 1; config = some (record { groups = []; steps = branch_step ∷ [] }) }
      ∷ [];
  epics = record { id = 7; project_id = 1 } ∷ [];
  epic_runs = epic_runs;
  next_id = next_id;
}

abbrev pub first : World
first = world [] (epic_run ∷ []) 10

-- A run that a worker has completed.
abbrev pub completed : Uuid → Uuid → Run
completed id story_id = record (sample_run id RunStatus.completed) {
  story_id = story_id;
  created_at = 9;
}

abbrev pub go_on : World → Bool
go_on w = false

abbrev pub done : Story → Routine
done s = record { story = s; phase = returned none }
