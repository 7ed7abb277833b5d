-- ===== src/Lib.antt =====
-- hopeitworks runs stories through pipelines of agents. This library models the core of its Go backend
-- (backend/internal/domain and the repositories it calls) as a shallow embedding.
--
-- Parts:
--   Errors          the structured errors of backend/pkg/errors/errors.go: category and code. Messages
--                   are left out, and so is the text that `fmt.Errorf` wraps around an error.
--   Model           backend/internal/domain/model. Model.Status holds the statuses and the tables of
--                   valid transitions, Model.Status.Lifecycle the life of a run as a relation,
--                   Model.Config the pipeline configuration from its decoded YAML on
--                   (pipeline_config.go), Model.Entities the stored rows.
--   Action          service methods as functions from a state to a result and a state; what was
--                   written before an error stays written. Action.Relates and Action.Returns have a
--                   rule for each way to build one, and Action.Yields rules for
--                   actions that return.
--   World           what the services share: tables, queue, published events, clock, fresh
--                   identifiers, and the faults of the connection. World.Moves and World.Stays say
--                   how the table of runs may change, World.Advances how one request changes it.
--   Repo            the repositories of backend/internal/adapter/postgres over the tables (Repo.Runs,
--                   Repo.Rows), and the outbox of events, jobs and stop requests (Repo.Outbox).
--                   Repo.Keeps, Repo.Edges, Repo.Advances and Repo.Quiet say what
--                   each call does to the runs.
--   Scheduler       `BuildDAG` of service/scheduler_service.go: the graph of explicit dependencies and
--                   of file conflicts, and Kahn's algorithm. Graphs and Determinism compare
--                   runs of it whose range over the index of files takes another order.
--   RunService      service/run_service.go: transitions, pause, resume, the start of a stage, and as
--                   children Cancel, Retry, Create and Launch. Moves, Launches and Refusals
--                   say what its requests do to the runs.
--   Hitl            service/hitl_service.go: approval, rejection, probe halts and their resolution.
--   CircuitBreaker  service/circuit_breaker_service.go. CircuitBreaker.Automaton is its abstract view.
--   Executor        service/pipeline_executor.go: Executor.Stages has the stages with their transition
--                   policies, Executor.Steps one step, Executor.Execution `ExecuteRun`. The other
--                   children are proofs: Quiet, Failing, Parking, Acting, Rounds, Halting, Lifecycle
--                   (statuses of runs), Gates, Completing, Advancing, Finishing, Completion (completed
--                   steps), Steady, Succeeding, Crossing, Looping, Listed, Ending, Liveness,
--                   Overrides, Resuming (completed steps), and Restarting and Started (StartStage and
--                   the stage it starts).
--   EpicRuns        service/epic_run_service.go. EpicRuns.Groups is
--                   service/parallel_group_executor.go: `execute` before its first call, and
--                   `run_moves` for a schedule of it and its goroutines. Order, Traces and Safety say
--                   what holds of every schedule, together with the Scheduler, Launching what a launch
--                   stores, Parked and Twice what happens to a run that waits or has been launched.
--   Supervision     services that look after runs out of band: Supervision.Orphans is
--                   service/orphan_reconciler.go, with what it reads of the table of runs;
--                   Supervision.Watchdog is service/watchdog.go with the queries it makes;
--                   Supervision.Timeouts is service/timeout_enforcer.go.
--   Pagination      service/pagination.go.
--   Requests        sequences of requests to RunService and Hitl.
--
-- A method of a service is the function of its name in snake case; a repository's method too. A method
-- that has an optional dependency takes the service's `Wiring`, which says what is set. Identifiers and
-- times are numbers, `uuid.Nil` is 0. `call` makes the n-th call of a repository, of the queue or of the
-- event bus fail if `faults n`; where a theorem does not say `NoFaults`, it holds for every `faults`.
-- A query that asks for no order keeps the table's, and `LIMIT 1` without an order gives the first row.
--
-- Parameters: the order of Go's range over the map of files (`order`), `uuid.Parse` (`parse`), and
-- `json.Unmarshal` of a step list (`unmarshal`). The one assumption about `order`, where it is needed,
-- is that it visits every entry (IsRangeOrder). A `PipelineExecutor` carries the registered actions,
-- `uuid.Parse`, `uuid.NewSHA1` of a run and a stage, and whether the context is cancelled in a state.
-- The orphan reconciler and the timeout enforcer take the listed containers, the watchdog the newest log of
-- a step, the costs of a run and what `fmt.Sprintf` prints of a reason. An action gets a context and
-- leaves the metadata for the next step.
--
-- Fuel: `kahn` gets one round more than there are stories, since each round takes at least one story.
-- Every other loop is structural.
--
-- Not modelled: the progress of a run (`ComputeProgress`), the orphan cleaner, planning import and
-- write-back, the listings, the HTTP handlers, generated code, adapters to external systems, the
-- frontend and the agent runtime. Within an epic run goroutines interleave at whole calls of
-- `LaunchRun` and `ExecuteRun`, between which anything may happen to the state; elsewhere requests
-- are served one after the other, so interleavings of two requests are not covered. An abort of a
-- probe halt and `CreateRun` are definitions that no result is about.
pub mod Prelude
pub mod Errors
pub mod Action
pub mod Model
pub mod World
pub mod Repo
pub mod Scheduler
pub mod RunService
pub mod Hitl
pub mod CircuitBreaker
pub mod Executor
pub mod Supervision
pub mod EpicRuns
pub mod Pagination
pub mod Requests
