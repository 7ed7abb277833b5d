-- ===== src/Repo/Runs.antt =====
-- Runs and steps: adapter/postgres/run_repo.go over queries/runs.sql and queries/run_steps.sql.
-- `created_at` is the clock, and a listing breaks ties by the order of insertion.
use hopeitworks.Prelude.{
  ◌+◌, Bool, true, false, ◌&&◌, Option, none, some, List, [], ◌∷◌, ◌++◌, select, leb, ltb, ◌==◌,
  if◌then◌else◌,
}
use hopeitworks.Errors.{ok, err, run, run_step, project, new_not_found, new_internal}
use hopeitworks.Model.Status.{RunStatus, StepStatus}
use hopeitworks.Model.Entities.{Uuid, Time, ErrorText, Metadata, Run, RunStep, Snapshot}
use hopeitworks.World.{
  World, M, call, coalesce, update_where, run_has_id, step_has_id, run_at, step_at, story_at,
  project_at,
}

-- SELECT * FROM runs WHERE id = $1
unfoldable pub get_run : Uuid → M Run
get_run id =
    call λ w. elim (run_at w id) [ none ↦ (err (new_not_found run), w) | some r ↦ (ok r, w) ]

abbrev pub is_active : RunStatus → Bool
is_active RunStatus.pending = true
is_active RunStatus.running = true
is_active RunStatus.paused = true
is_active _ = false

-- The newest of the runs, the later row on a tie.
abbrev pub newest : List Run → Option Run
newest [] = none
newest (r ∷ rs) = elim (newest rs) [
  | none ↦ some r
  | some s ↦ if ltb s.created_at r.created_at then some r else some s
]

-- ... WHERE story_id = $1 AND status IN ('pending', 'running', 'paused') ORDER BY created_at DESC
-- LIMIT 1; no row is no error.
unfoldable pub get_active_run_by_story : Uuid → M (Option Run)
get_active_run_by_story story_id = call λ w.
    (ok (newest (select (λ (r : Run). r.story_id == story_id && is_active r.status) w.runs)), w)

abbrev pub with_status :
    RunStatus → Option Time → Option Time → Option Time → Option ErrorText → Run → Run
with_status status started_at completed_at paused_at error_message r = record r {
  status = status;
  started_at = coalesce started_at r.started_at;
  completed_at = coalesce completed_at r.completed_at;
  paused_at = coalesce paused_at r.paused_at;
  error_message = coalesce error_message r.error_message;
}

-- UPDATE runs SET status = $2, ... WHERE id = $1 RETURNING *
unfoldable pub update_run_status :
    Uuid → RunStatus → Option Time → Option Time → Option Time → Option ErrorText → M Run
update_run_status id status started_at completed_at paused_at error_message =
    let f = with_status status started_at completed_at paused_at error_message in
    call λ w. elim (run_at w id) [
      | none ↦ (err (new_not_found run), w)
      | some r ↦ (ok (f r), record w { runs = update_where (run_has_id id) f w.runs })
    ]

-- UPDATE runs SET metadata = $2 WHERE id = $1; no row is no error.
unfoldable pub update_run_metadata : Uuid → Metadata → M (Unit {0})
update_run_metadata id metadata = call λ w. (
  ok tt,
  record w {
    runs = update_where (run_has_id id) (λ (r : Run). record r { metadata = metadata }) w.runs;
  },
)

-- The inserted row.
abbrev pub new_run : Uuid → Uuid → RunStatus → Snapshot → Metadata → World → Run
new_run project_id story_id status snapshot metadata w = record {
  id = w.next_id;
  project_id = project_id;
  story_id = story_id;
  status = status;
  pipeline_config_snapshot = snapshot;
  metadata = metadata;
  started_at = none;
  completed_at = none;
  paused_at = none;
  error_message = none;
  created_at = w.clock;
}

-- INSERT INTO runs; a missing project or story violates a foreign key.
unfoldable pub create_run : Uuid → Uuid → RunStatus → Snapshot → Metadata → M Run
create_run project_id story_id status snapshot metadata = call λ w. elim (project_at w project_id) [
  | none ↦ (err (new_not_found project), w)
  | some _ ↦ elim (story_at w story_id) [
    | none ↦ (err (new_not_found project), w)
    | some _ ↦
        let r = new_run project_id story_id status snapshot metadata w in
        (ok r, record w { runs = w.runs ++ r ∷ []; next_id = w.next_id + 1 })
  ]
]

-- SELECT * FROM run_steps WHERE id = $1
unfoldable pub get_run_step : Uuid → M RunStep
get_run_step id =
    call λ w. elim (step_at w id) [ none ↦ (err (new_not_found run_step), w) | some s ↦ (ok s, w) ]

-- ORDER BY step_order ASC
abbrev pub insert_step : RunStep → List RunStep → List RunStep
insert_step s [] = s ∷ []
insert_step s (t ∷ ts) = if leb s.step_order t.step_order then s ∷ t ∷ ts else t ∷ insert_step s ts

abbrev pub sort_steps : List RunStep → List RunStep
sort_steps [] = []
sort_steps (s ∷ ss) = insert_step s (sort_steps ss)

abbrev pub steps_of_run : Uuid → List RunStep → List RunStep
steps_of_run run_id steps = sort_steps (select (λ (s : RunStep). s.run_id == run_id) steps)

-- SELECT * FROM run_steps WHERE run_id = $1 ORDER BY step_order ASC
unfoldable pub list_run_steps_by_run : Uuid → M (List RunStep)
list_run_steps_by_run run_id = call λ w. (ok (steps_of_run run_id w.run_steps), w)

abbrev pub with_step_status :
    StepStatus → Option Time → Option Time → Option ErrorText → RunStep → RunStep
with_step_status status started_at completed_at error_message s = record s {
  status = status;
  started_at = coalesce started_at s.started_at;
  completed_at = coalesce completed_at s.completed_at;
  error_message = coalesce error_message s.error_message;
}

-- UPDATE run_steps SET status = $2, ... WHERE id = $1 RETURNING *
unfoldable pub update_run_step_status :
    Uuid → StepStatus → Option Time → Option Time → Option ErrorText → M RunStep
update_run_step_status id status started_at completed_at error_message =
    let f = with_step_status status started_at completed_at error_message in
    call λ w. elim (step_at w id) [
      | none ↦ (err (new_not_found run_step), w)
      | some s ↦ (ok (f s), record w { run_steps = update_where (step_has_id id) f w.run_steps })
    ]

-- INSERT INTO run_steps; a missing run violates a foreign key. The caller has no identifier yet.
unfoldable pub create_run_step : RunStep → M RunStep
create_run_step s = call λ w. elim (run_at w s.run_id) [
  | none ↦ (err new_internal, w)
  | some _ ↦
      let t = record s { id = w.next_id } in
      (ok t, record w { run_steps = w.run_steps ++ t ∷ []; next_id = w.next_id + 1 })
]

-- The same with the caller's identifier.
unfoldable pub create_retry_run_step : RunStep → M RunStep
create_retry_run_step s = call λ w. elim (run_at w s.run_id) [
  | none ↦ (err new_internal, w)
  | some _ ↦ (ok s, record w { run_steps = w.run_steps ++ s ∷ [] })
]

-- SELECT * FROM run_steps WHERE parent_step_id = $1; its callers only count the rows.
abbrev pub has_parent : Uuid → RunStep → Bool
has_parent id s = elim s.parent_step_id [ none ↦ false | some p ↦ p == id ]

unfoldable pub list_retry_steps_by_parent : Uuid → M (List RunStep)
list_retry_steps_by_parent parent_id = call λ w. (ok (select (has_parent parent_id) w.run_steps), w)
