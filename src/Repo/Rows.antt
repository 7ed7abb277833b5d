-- ===== src/Repo/Rows.antt =====
-- Stories, projects, HITL requests, agents, stacks and configurations: story_repo.go,
-- project_repo.go, hitl_repo.go, agent_repo.go, stack_repo.go, pipeline_config_repo.go, with their
-- queries.
use hopeitworks.Prelude.{
  ◌+◌, String, Bool, true, false, Option, none, some, [], ◌∷◌, ◌++◌, find, leb, ◌==◌, if◌then◌else◌,
}
use hopeitworks.Errors.{
  ok, err, story, project, agent, stack, hitl_request, new_not_found, domain_error, not_found,
}
use hopeitworks.Model.Status.{StoryStatus, HitlStatus}
use hopeitworks.Model.Entities.{
  Uuid, Time, Story, Project, Agent, Stack, HitlRequest, PipelineConfigRow,
}
use hopeitworks.World.{
  World, M, call, coalesce, update_where, story_has_id, project_has_id, story_at, project_at,
  step_at,
}

unfoldable pub get_story : Uuid → M Story
get_story id =
    call λ w. elim (story_at w id) [ none ↦ (err (new_not_found story), w) | some s ↦ (ok s, w) ]

-- `storyRepo.Update` of a story of which only the status was changed since it was read.
unfoldable pub update_story_status : Uuid → StoryStatus → M (Unit {0})
update_story_status id status = call λ w. elim (story_at w id) [
  | none ↦ (err (new_not_found story), w)
  | some _ ↦ (
    ok tt,
    record w {
      stories =
          update_where (story_has_id id) (λ (s : Story). record s { status = status }) w.stories;
    },
  )
]

unfoldable pub update_story_current_stage : Uuid → Option String → M (Unit {0})
update_story_current_stage id stage = call λ w. elim (story_at w id) [
  | none ↦ (err (new_not_found story), w)
  | some _ ↦ (
    ok tt,
    record w {
      stories =
          update_where (story_has_id id) (λ (s : Story). record s { current_stage = stage })
            w.stories;
    },
  )
]

unfoldable pub set_writeback_status : Uuid → String → M (Unit {0})
set_writeback_status id status = call λ w. (
  ok tt,
  record w {
    stories =
        update_where (story_has_id id) (λ (s : Story). record s { writeback_status = some status })
          w.stories;
  },
)

unfoldable pub get_project : Uuid → M Project
get_project id =
    call
      λ w. elim (project_at w id) [ none ↦ (err (new_not_found project), w) | some p ↦ (ok p, w) ]

abbrev pub incremented : Project → Project
incremented p = record p {
  circuit_breaker_count = p.circuit_breaker_count + 1;
  circuit_breaker_active =
      if leb p.circuit_breaker_max (p.circuit_breaker_count + 1)
      then true
      else p.circuit_breaker_active;
}

abbrev pub reset : Project → Project
reset p = record p { circuit_breaker_count = 0; circuit_breaker_active = false }

-- UPDATE projects ... WHERE id = $1 RETURNING *
abbrev update_project : Uuid → (Project → Project) → M Project
update_project id f = call λ w. elim (project_at w id) [
  | none ↦ (err (new_not_found project), w)
  | some p ↦ (ok (f p), record w { projects = update_where (project_has_id id) f w.projects })
]

unfoldable pub increment_circuit_breaker_count : Uuid → M Project
increment_circuit_breaker_count id = update_project id incremented

unfoldable pub reset_circuit_breaker : Uuid → M Project
reset_circuit_breaker id = update_project id reset

unfoldable pub get_agent : Uuid → M Agent
get_agent id = call λ w. elim (find (λ (a : Agent). a.id == id) w.agents) [
  | none ↦ (err (new_not_found agent), w)
  | some a ↦ (ok a, w)
]

unfoldable pub get_stack : Uuid → M Stack
get_stack id = call λ w. elim (find (λ (s : Stack). s.id == id) w.stacks) [
  | none ↦ (err (new_not_found stack), w)
  | some s ↦ (ok s, w)
]

unfoldable pub get_pipeline_config : Uuid → M PipelineConfigRow
get_pipeline_config project_id = call λ w.
    elim (find (λ (c : PipelineConfigRow). c.project_id == project_id) w.pipeline_configs) [
      | none ↦ (err (domain_error not_found "PIPELINE_CONFIG_NOT_FOUND"), w)
      | some c ↦ (ok c, w)
    ]

abbrev pub hitl_has_id : Uuid → HitlRequest → Bool
hitl_has_id id r = r.id == id

unfoldable pub hitl_at : World → Uuid → Option HitlRequest
hitl_at w id = find (hitl_has_id id) w.hitl_requests

unfoldable pub get_hitl_request : Uuid → M HitlRequest
get_hitl_request id =
    call
      λ w. elim (hitl_at w id) [ none ↦ (err (new_not_found hitl_request), w) | some r ↦ (ok r, w) ]

-- SELECT * FROM hitl_requests WHERE run_step_id = $1 LIMIT 1, which asks for no order; the model takes
-- the table's first row.
unfoldable pub get_hitl_by_run_step_id : Uuid → M HitlRequest
get_hitl_by_run_step_id step_id = call λ w.
    elim (find (λ (r : HitlRequest). r.run_step_id == step_id) w.hitl_requests) [
      | none ↦ (err (new_not_found hitl_request), w)
      | some r ↦ (ok r, w)
    ]

-- A missing step violates a foreign key.
unfoldable pub create_hitl_request : HitlRequest → M HitlRequest
create_hitl_request r = call λ w. elim (step_at w r.run_step_id) [
  | none ↦ (err (domain_error not_found "RUN_STEP_NOT_FOUND"), w)
  | some _ ↦ (ok r, record w { hitl_requests = w.hitl_requests ++ r ∷ [] })
]

abbrev pub with_hitl_status :
    HitlStatus → Option Uuid → Option String → Option String → Time → HitlRequest → HitlRequest
with_hitl_status status resolved_by reason action now r = record r {
  status = status;
  resolved_at = some now;
  resolved_by = resolved_by;
  rejection_reason = reason;
  resolution_action = coalesce action r.resolution_action;
}

-- UPDATE hitl_requests SET ... WHERE id = $1 RETURNING *: `UpdateStatus` and `UpdateResolution`.
unfoldable pub update_hitl_status :
    Uuid → HitlStatus → Option Uuid → Option String → Option String → Time → M HitlRequest
update_hitl_status id status resolved_by reason action now =
    let f = with_hitl_status status resolved_by reason action now in
    call λ w. elim (hitl_at w id) [
      | none ↦ (err (new_not_found hitl_request), w)
      | some r ↦
          (ok (f r), record w { hitl_requests = update_where (hitl_has_id id) f w.hitl_requests })
    ]
