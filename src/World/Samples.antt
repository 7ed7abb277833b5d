-- ===== src/World/Samples.antt =====
-- Data for tests and witnesses: a run, a story, a project and a state without rows.
use hopeitworks.Prelude.{String, false, none, []}
use hopeitworks.Model.Status.{RunStatus, StoryStatus}
use hopeitworks.Model.Entities.{Uuid, Run, Story, Project, absent}
use hopeitworks.World.{World}

abbrev pub sample_run : Uuid → RunStatus → Run
sample_run id status = record {
  id = id;
  project_id = 1;
  story_id = 2;
  status = status;
  pipeline_config_snapshot = absent;
  metadata = [];
  started_at = none;
  completed_at = none;
  paused_at = none;
  error_message = none;
  created_at = 0;
}

abbrev pub sample_story : Uuid → String → Story
sample_story id key = record {
  id = id;
  project_id = 1;
  key = key;
  target_files = [];
  depends_on = [];
  status = StoryStatus.backlog;
  current_stage = none;
  writeback_status = none;
  epic_id = none;
  created_at = 0;
}

abbrev pub sample_project : Project
sample_project = record {
  id = 1;
  circuit_breaker_count = 0;
  circuit_breaker_active = false;
  circuit_breaker_max = 3;
  max_container_timeout = none;
}

abbrev pub empty_world : World
empty_world = record {
  runs = [];
  run_steps = [];
  stories = [];
  projects = [];
  hitl_requests = [];
  agents = [];
  stacks = [];
  pipeline_configs = [];
  epics = [];
  epic_runs = [];
  epic_run_stories = [];
  queue = [];
  events = [];
  stopped = [];
  clock = 9;
  next_id = 10;
  faults = λ _. false;
  calls = 0;
}
