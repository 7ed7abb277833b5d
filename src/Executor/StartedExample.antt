-- ===== src/Executor/StartedExample.antt =====
-- A run that waits for the manual start of its stage "review".
use hopeitworks.Prelude.{◌≡◌, refl, some, none, false, true, [], ◌∷◌, ◌=s=◌}
use hopeitworks.Errors.{ok}
use hopeitworks.Action.{caught, logged}
use hopeitworks.Model.Status.{RunStatus}
use hopeitworks.Model.Config.{PipelineConfigYaml, transition_manual}
use hopeitworks.Model.Entities.{
  Run, MetaValue, named, meta_get, meta_set, meta_delete, stage_started,
}
use hopeitworks.World.Samples.{empty_world, sample_run, sample_story}
use hopeitworks.World.{World, call, run_at, story_at, project_at, update_where}
use hopeitworks.Repo.Runs.{get_active_run_by_story, update_run_metadata, update_run_status}
use hopeitworks.Repo.Rows.{get_story}
use hopeitworks.Repo.Outbox.{publish, enqueue}
use hopeitworks.RunService.{
  start_stage, started_metadata, publish_run_event, publish_event, enqueue_run,
}
use hopeitworks.RunService.Samples.{services}
use hopeitworks.Executor.{PipelineExecutor}
use hopeitworks.Executor.Stages.{StageRef, proceed, enforce_manual_on_enter}
use hopeitworks.Executor.Started.{Started, start_stage-enters}

abbrev executor : PipelineExecutor
executor = record {
  has_circuit_breaker = false;
  has_hitl_repo = true;
  has_write_back = false;
  actions = λ name. none;
  parse_uuid = λ text. none;
  stage_entity_id = λ run_id stage_id. run_id;
  is_cancelled = λ w. false;
}

abbrev review : StageRef
review = record { id = "review"; name = "Review" }

abbrev manual : PipelineConfigYaml
manual = record {
  groups =
      record {
        id = "review";
        name = "Review";
        steps = [];
        transition = transition_manual;
        guards = [];
      }
      ∷ [];
}

abbrev parked : Run
parked = record (sample_run 5 RunStatus.paused) {
  metadata =
      (named "paused_reason", MetaValue.str "awaiting_manual_start")
      ∷ (named "paused_stage_id", MetaValue.str "review")
      ∷ [];
}

abbrev resumed : Run
resumed = record parked {
  status = RunStatus.running;
  metadata = (stage_started "review", MetaValue.bool true) ∷ [];
}

abbrev world : World
world = record empty_world { runs = parked ∷ []; stories = sample_story 2 "A" ∷ [] }

abbrev after : World
after = (start_stage services 1 2 world).1

started_test : start_stage services 1 2 world ≡ (ok resumed, after)
unfolding start_stage started_metadata publish_run_event publish_event enqueue_run get_story
    get_active_run_by_story update_run_metadata update_run_status publish enqueue call run_at
    story_at project_at update_where meta_get meta_set meta_delete ◌=s=◌ caught logged
started_test = refl

start_stage-enters_example :
    Started parked resumed after
    × (enforce_manual_on_enter executor resumed review (some manual) resumed.metadata after
        ≡ (ok proceed, after))
unfolding meta_get ◌=s=◌
start_stage-enters_example =
    start_stage-enters services 1 2 executor world after after parked resumed review (some manual)
      refl refl refl started_test
