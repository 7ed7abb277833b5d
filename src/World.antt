-- ===== src/World.antt =====
-- What the services share: the tables of the database, the job queue, the published events, the
-- executions that were told to stop, the clock, the supply of fresh identifiers, and the faults of
-- the connection. The n-th call of a repository, of the queue or of the event bus fails just if
-- `faults n`; theorems hold for every such function unless they say otherwise.
pub mod Advances
pub mod Moves
pub mod Rows
pub mod Samples
pub mod Stays
use hopeitworks.Prelude.{
  ℕ, ◌+◌, String, ◌≡◌, Bool, true, false, Option, none, some, List, [], ◌∷◌, ◌++◌, map, find, ◌==◌,
  if◌then◌else◌,
}
use hopeitworks.Errors.{DomainError, Result, ok, err, new_internal}
use hopeitworks.Action.{Action}
use hopeitworks.Model.Status.{RunStatus, StepStatus, StoryStatus}
use hopeitworks.Model.Entities.{
  Uuid, Time, Run, RunStep, Story, Project, Agent, Stack, Event, HitlRequest, PipelineConfigRow,
  Epic, EpicRun, EpicRunStory,
}

-- A row of the job queue.
pub data Job : Type 0 where
  execute_run : Uuid → Job
  -- The project, the story, the run and the status to write.
  write_back : Uuid → Uuid → Uuid → StoryStatus → Job

pub record World : Type 0 where
  pub runs : List Run
  pub run_steps : List RunStep
  pub stories : List Story
  pub projects : List Project
  pub hitl_requests : List HitlRequest
  pub agents : List Agent
  pub stacks : List Stack
  pub pipeline_configs : List PipelineConfigRow
  pub epics : List Epic
  pub epic_runs : List EpicRun
  pub epic_run_stories : List EpicRunStory
  pub queue : List Job
  pub events : List Event
  pub stopped : List String
  pub clock : Time
  pub next_id : Uuid
  pub faults : ℕ → Bool
  pub calls : ℕ

abbrev pub M : Type 0 → Type 0
M A = Action World A

-- The connection is up for good.
abbrev pub NoFaults : World → Type 0
NoFaults w = (n : ℕ) → w.faults n ≡ false

abbrev pub tick : World → World
tick w = record w { calls = w.calls + 1 }

-- A call that may fail before it does anything. A repository wraps the failure as an internal error.
unfoldable pub call : {A : Type 0} → M A → M A
call m w = if w.faults w.calls then (err new_internal, tick w) else m (tick w)

-- `time.Now()`.
abbrev pub time_now : M Time
time_now w = (ok w.clock, w)

-- `uuid.New()` and `gen_random_uuid()`.
abbrev pub uuid_new : M Uuid
uuid_new w = (ok w.next_id, record w { next_id = w.next_id + 1 })

-- `COALESCE(new, old)`.
abbrev pub coalesce {ℓ} : {A : Type ℓ} → Option A → Option A → Option A
coalesce (some a) old = some a
coalesce none old = old

-- `UPDATE ... WHERE`.
unfoldable pub update_where : {A : Type 0} → (A → Bool) → (A → A) → List A → List A
update_where p f [] = []
update_where p f (x ∷ xs) = (if p x then f x else x) ∷ update_where p f xs

abbrev pub run_has_id : Uuid → Run → Bool
run_has_id id r = r.id == id

abbrev pub step_has_id : Uuid → RunStep → Bool
step_has_id id s = s.id == id

abbrev pub story_has_id : Uuid → Story → Bool
story_has_id id s = s.id == id

abbrev pub project_has_id : Uuid → Project → Bool
project_has_id id p = p.id == id

-- The row of an identifier.
unfoldable pub run_at : World → Uuid → Option Run
run_at w id = find (run_has_id id) w.runs

unfoldable pub step_at : World → Uuid → Option RunStep
step_at w id = find (step_has_id id) w.run_steps

unfoldable pub story_at : World → Uuid → Option Story
story_at w id = find (story_has_id id) w.stories

unfoldable pub project_at : World → Uuid → Option Project
project_at w id = find (project_has_id id) w.projects
