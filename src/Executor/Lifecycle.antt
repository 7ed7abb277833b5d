-- ===== src/Executor/Lifecycle.antt =====
-- What `ExecuteRun` does to the statuses of runs.
use hopeitworks.Model.Status.Lifecycle.{fail as failing}
use hopeitworks.World.{World}
use hopeitworks.World.Moves.{Moves, Keeps}
