-- ===== src/RunService/Samples.antt =====
-- A run service with all its optional dependencies, for the tests.
use hopeitworks.Prelude.{true}
use hopeitworks.RunService.{Wiring}

abbrev pub services : Wiring
services = record {
  has_event_pub = true;
  has_job_queue = true;
  has_agent_runtime = true;
  has_container_mgr = true;
  has_agent_repo = true;
  has_stack_repo = true;
}
