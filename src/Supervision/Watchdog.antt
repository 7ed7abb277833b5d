-- ===== src/Supervision/Watchdog.antt =====
-- The guard watchdog (service/watchdog.go) with its queries (adapter/postgres/watchdog_repo.go over
-- queries/watchdog.sql, adapter/postgres/cost_repo.go) and `probeHaltMessage`
-- (service/hitl_service.go). The clock counts millionths of a second, so that `Seconds()` in
-- millionths is a difference of times.
pub mod Evaluating
pub mod Breaches
mod Examples
use hopeitworks.Prelude.Int.{pos_part}
use hopeitworks.Prelude.{
  ℕ, ◌+◌, ◌-◌, ◌*◌, String, Bool, true, false, ◌&&◌, ◌||◌, Option, none, some, List, [], ◌∷◌, ◌++◌,
  find, ltb, ◌==◌, ◌=s=◌, if◌then◌else◌,
}
use hopeitworks.Errors.{Result, ok, err}
use hopeitworks.Action.{◌>>=◌, ◌>>◌, pure, caught, logged}
use hopeitworks.Model.Status.{RunStatus, StepStatus, run_status_eq, step_status_eq}
use hopeitworks.Model.Config.{
  Guard, PipelineStep, PipelineGroup, PipelineConfigYaml, PipelineConfigRawYaml,
  parse_pipeline_config_yaml,
}
use hopeitworks.Model.Entities.{Uuid, Time, text, Run, RunStep, HaltReason, PipelineConfigRow}
use hopeitworks.World.{World, M, call, time_now, coalesce, run_has_id}
use hopeitworks.Repo.Runs.{update_run_status, update_run_step_status}
use hopeitworks.Repo.Rows.{get_pipeline_config}
use hopeitworks.Hitl

pub record RunningStep : Type 0 where
  pub step_id : Uuid
  pub run_id : Uuid
  pub step_name : String
  pub stage_id : String
  pub stage_name : String
  pub project_id : Uuid
  pub story_id : Uuid
  pub started_at : Option Time
  pub last_log_at : Option Time

-- The parsed configurations that a scan has looked up; `none` where there was none to parse.
pub record CachedConfig : Type 0 where
  pub project_id : Uuid
  pub cfg : Option PipelineConfigYaml

abbrev pub cached : Uuid → List CachedConfig → Option (Option PipelineConfigYaml)
cached project_id [] = none
cached project_id (c ∷ cs) = if c.project_id == project_id then some c.cfg else cached project_id cs

abbrev pub parsed : Option PipelineConfigRawYaml → Option PipelineConfigYaml
parsed none = none
parsed (some raw) = some (parse_pipeline_config_yaml raw)

abbrev pub fetched_config : Result PipelineConfigRow → Option PipelineConfigYaml
fetched_config (err e) = none
fetched_config (ok row) = parsed row.config

-- The configuration and the cache after it, from what the cache says of the project.
unfoldable pub fetch_unless :
    Uuid
    → List CachedConfig
    → Option (Option PipelineConfigYaml)
    → M (Option PipelineConfigYaml × List CachedConfig)
fetch_unless project_id cache (some cfg) = pure (cfg, cache)
fetch_unless project_id cache none = do
  raw ← caught (get_pipeline_config project_id)
  pure (fetched_config raw, record { project_id = project_id; cfg = fetched_config raw } ∷ cache)

unfoldable pub pipeline_config :
    Uuid → List CachedConfig → M (Option PipelineConfigYaml × List CachedConfig)
unfolding fetch_unless
pipeline_config project_id cache = fetch_unless project_id cache (cached project_id cache)

abbrev pub step_guards : List PipelineStep → String → List Guard
step_guards [] step_name = []
step_guards (s ∷ ss) step_name =
    if s.id =s= step_name || s.name =s= step_name
    then s.guards ++ step_guards ss step_name
    else step_guards ss step_name

abbrev pub stage_guards : List PipelineGroup → RunningStep → List Guard
stage_guards [] s = []
stage_guards (g ∷ gs) s =
    if g.id =s= s.stage_id || g.name =s= s.stage_name
    then step_guards g.steps s.step_name ++ g.guards
    else stage_guards gs s

abbrev pub guards_in : Option PipelineConfigYaml → RunningStep → List Guard
guards_in none s = []
guards_in (some cfg) s = stage_guards cfg.groups s

-- `float64(n)` in millionths.
abbrev pub millionths : ℕ → ℕ
millionths n = n * 1000000

-- The reason when the observed value is above the limit.
abbrev pub over : Guard → ℕ → ℕ → String → Option HaltReason
over g observed limit unit =
    if ltb limit observed
    then some (record {
      probe = g.kind;
      on_fail = g.on_fail;
      observed = observed;
      threshold = limit;
      unit = unit;
      detail = "";
    })
    else none

abbrev pub past : Guard → Time → Option Time → ℕ → Option HaltReason
past g now none limit = none
past g now (some t) limit = over g (now - t) limit "seconds"

abbrev pub cost_over : Guard → Result ℕ → Option HaltReason
cost_over g (err e) = none
cost_over g (ok cost) = over g cost (pos_part g.max) "usd"

unfoldable pub message_of : (HaltReason → String) → HaltReason → String
message_of printed reason = if reason.detail =s= "" then printed reason else reason.detail

-- `printed` is what `fmt.Sprintf` makes of a reason, `last_log` the `created_at` of a step's newest
-- log.emitted event, and `costs` the sum of a run's cost records.
module _ (svc : Hitl.Wiring) (printed : HaltReason → String) (last_log : Uuid → Option Time)
    (costs : Uuid → ℕ) where
  abbrev pub row_of : RunStep → Run → RunningStep
  row_of s r = record {
    step_id = s.id;
    run_id = s.run_id;
    step_name = s.step_name;
    stage_id = s.stage_id;
    stage_name = s.stage_name;
    project_id = r.project_id;
    story_id = r.story_id;
    started_at = s.started_at;
    last_log_at = last_log s.id;
  }

  abbrev pub joined : RunStep → Option Run → List RunningStep
  joined s none = []
  joined s (some r) =
      if step_status_eq s.status StepStatus.running && run_status_eq r.status RunStatus.running
      then row_of s r ∷ []
      else []

  abbrev pub running_rows : List Run → List RunStep → List RunningStep
  running_rows runs [] = []
  running_rows runs (s ∷ ss) = joined s (find (run_has_id s.run_id) runs) ++ running_rows runs ss

  -- The query asks for no order; the model keeps the table's.
  unfoldable pub list_running_steps : M (List RunningStep)
  list_running_steps = call λ w. (ok (running_rows w.runs w.run_steps), w)

  unfoldable pub sum_cost_by_run : Uuid → M ℕ
  sum_cost_by_run run_id = call λ w. (ok (costs run_id), w)

  -- A limit that is zero or negative, which has no positive part, switches a guard off.
  unfoldable pub evaluate : RunningStep → Guard → Time → M (Option HaltReason)
  unfolding sum_cost_by_run
  evaluate s g now =
      if g.kind =s= "log_silence"
      then pure (
          if pos_part g.threshold == 0
          then none
          else past g now (coalesce s.last_log_at s.started_at) (millionths (pos_part g.threshold)))
      else if g.kind =s= "wallclock"
      then pure (if pos_part g.max == 0 then none else past g now s.started_at (pos_part g.max))
      else if g.kind =s= "cost_batch"
      then (if pos_part g.max == 0
          then pure none
          else (do cost ← caught (sum_cost_by_run s.run_id); pure (cost_over g cost)))
      else pure none

  unfoldable pub fail_breached : RunningStep → HaltReason → M (Unit {0})
  fail_breached s reason = do
    now ← time_now
    logged (
        update_run_step_status s.step_id StepStatus.failed none (some now)
          (some (text (message_of printed reason))))
    logged (
        update_run_status s.run_id RunStatus.failed none (some now) none
          (some (text (message_of printed reason))))

  -- An action that is empty or unknown is "halt-gate".
  unfoldable pub apply_on_fail : RunningStep → Guard → HaltReason → M (Unit {0})
  unfolding fail_breached
  apply_on_fail s g reason =
      if g.on_fail =s= "fail" || g.on_fail =s= "retry"
      then fail_breached s reason
      else logged (Hitl.raise_probe_halt svc s.step_id reason)

  -- One breach for a step in a scan is enough: the guards after it are not evaluated.
  unfoldable pub act_unless : RunningStep → Guard → M (Unit {0}) → Option HaltReason → M (Unit {0})
  unfolding apply_on_fail
  act_unless s g rest none = rest
  act_unless s g rest (some reason) = apply_on_fail s g reason

  unfoldable pub check_guards : RunningStep → List Guard → Time → M (Unit {0})
  unfolding evaluate act_unless
  check_guards s [] now = pure tt
  check_guards s (g ∷ gs) now = do
    reason ← evaluate s g now
    act_unless s g (check_guards s gs now) reason

  unfoldable pub check_steps : List RunningStep → Time → List CachedConfig → M (Unit {0})
  unfolding pipeline_config check_guards
  check_steps [] now cache = pure tt
  check_steps (s ∷ ss) now cache = do
    found ← pipeline_config s.project_id cache
    check_guards s (guards_in found.0 s) now
    check_steps ss now found.1

  unfoldable pub check : M (Unit {0})
  unfolding list_running_steps check_steps
  check = do steps ← list_running_steps; now ← time_now; check_steps steps now []
