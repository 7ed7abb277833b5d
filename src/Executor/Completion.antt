-- ===== src/Executor/Completion.antt =====
-- A run that is completed has completed all its steps.
use hopeitworks.World.{World}
