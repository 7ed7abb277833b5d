-- ===== src/Supervision/Timeouts.antt =====
-- The timeout enforcer (service/timeout_enforcer.go). The listed containers and `uuid.Parse` are
-- parameters; a label that is missing is empty, as Go's map gives it.
pub mod Late
mod Examples
use hopeitworks.Prelude.{
  ℕ, ◌+◌, ◌-◌, String, Bool, true, false, ◌||◌, Option, none, some, List, [], ◌∷◌, ltb, leb, ◌=s=◌,
  if◌then◌else◌,
}
use hopeitworks.Errors.{Result, ok, err}
use hopeitworks.Action.{◌>>=◌, ◌>>◌, pure, lift, for_each, caught, logged}
use hopeitworks.Model.Status.{RunStatus, StepStatus}
use hopeitworks.Model.Entities.{Uuid, Time, ErrorText, text, Run, RunStep, Project}
use hopeitworks.World.{World, M, time_now}
use hopeitworks.Repo.Runs.{get_run, get_run_step, update_run_status, update_run_step_status}
use hopeitworks.Repo.Rows.{get_project}
use hopeitworks.Repo.Outbox.{stop_execution}

pub record ContainerInfo : Type 0 where
  pub id : String
  pub run_id : String
  pub step_id : String

abbrev pub container_timeout_reason : Option ErrorText
container_timeout_reason = some (text "container_timeout")

module _ (parse : String → Option Uuid) (default_timeout : Time) where
  abbrev pub set_timeout : Option Time → Time
  set_timeout none = default_timeout
  set_timeout (some t) = if ltb 0 t then t else default_timeout

  abbrev pub project_timeout : Result Project → Time
  project_timeout (err x) = default_timeout
  project_timeout (ok p) = set_timeout p.max_container_timeout

  unfoldable pub run_timeout : Result Run → M Time
  run_timeout (err x) = pure default_timeout
  run_timeout (ok r) = do p ← caught (get_project r.project_id); pure (project_timeout p)

  unfoldable pub get_timeout : Uuid → M Time
  unfolding run_timeout
  get_timeout run_id = do r ← caught (get_run run_id); run_timeout r

  -- What follows the stop of a container that has run too long.
  unfoldable pub after_stop : Uuid → Uuid → Result (Unit {0}) → M (Unit {0})
  after_stop run_id step_id (err x) = pure tt
  after_stop run_id step_id (ok _) = do
    now ← time_now
    logged
        (update_run_step_status step_id StepStatus.failed none (some now) container_timeout_reason)
    logged (update_run_status run_id RunStatus.failed none (some now) none container_timeout_reason)

  unfoldable pub stop_late : String → Uuid → Uuid → M (Unit {0})
  unfolding after_stop
  stop_late id run_id step_id = do
    stopped ← caught (stop_execution id)
    after_stop run_id step_id stopped

  -- `elapsed <= timeout`, of a step that has started.
  unfoldable pub stop_unless : String → Uuid → Uuid → Time → Time → Time → M (Unit {0})
  unfolding stop_late
  stop_unless id run_id step_id started timeout now =
      if leb (now - started) timeout then pure tt else stop_late id run_id step_id

  unfoldable pub check_started : String → Uuid → Uuid → Option Time → M (Unit {0})
  unfolding get_timeout stop_unless
  check_started id run_id step_id none = pure tt
  check_started id run_id step_id (some t) = do
    timeout ← get_timeout run_id
    now ← time_now
    stop_unless id run_id step_id t timeout now

  unfoldable pub check_step : String → Uuid → Uuid → Result RunStep → M (Unit {0})
  unfolding check_started
  check_step id run_id step_id (err x) = pure tt
  check_step id run_id step_id (ok s) = check_started id run_id step_id s.started_at

  unfoldable pub check_ids : String → Option Uuid → Option Uuid → M (Unit {0})
  unfolding check_step
  check_ids id none step_id = pure tt
  check_ids id (some run_id) none = pure tt
  check_ids id (some run_id) (some step_id) = do
    s ← caught (get_run_step step_id)
    check_step id run_id step_id s

  unfoldable pub check_container : ContainerInfo → M (Unit {0})
  unfolding check_ids
  check_container c =
      if c.run_id =s= "" || c.step_id =s= ""
      then pure tt
      else check_ids c.id (parse c.run_id) (parse c.step_id)

  -- `listing` is what `ListContainers` returns.
  unfoldable pub check_timeouts : Result (List ContainerInfo) → M (Unit {0})
  unfolding check_container
  check_timeouts listing = do cs ← lift listing; for_each cs check_container
