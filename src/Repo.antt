-- ===== src/Repo.antt =====
-- The repositories over Postgres (backend/internal/adapter/postgres, backend/queries), the job queue
-- (adapter/river) and the event bus, as far as the modelled services call them.
pub mod Runs
pub mod Epics
pub mod Rows
pub mod Outbox
pub mod Keeps
pub mod Advances
pub mod Edges
pub mod Quiet
