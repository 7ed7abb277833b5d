-- ===== src/Repo/Outbox.antt =====
-- What a service hands over: events (adapter/postgres/event_repo.go), jobs (adapter/river) and stop
-- requests to the runtime (adapter/docker, adapter/microsandbox).
use hopeitworks.Prelude.{none, some, String, [], ◌∷◌, ◌++◌}
use hopeitworks.Errors.{ok, err, project, new_not_found}
use hopeitworks.Model.Entities.{Event}
use hopeitworks.World.{M, Job, call, project_at}

-- A missing project violates a foreign key.
unfoldable pub publish : Event → M (Unit {0})
publish e = call λ w. elim (project_at w e.project_id) [
  | none ↦ (err (new_not_found project), w)
  | some _ ↦ (ok tt, record w { events = w.events ++ e ∷ [] })
]

unfoldable pub enqueue : Job → M (Unit {0})
enqueue j = call λ w. (ok tt, record w { queue = w.queue ++ j ∷ [] })

unfoldable pub stop_execution : String → M (Unit {0})
stop_execution handle = call λ w. (ok tt, record w { stopped = w.stopped ++ handle ∷ [] })
