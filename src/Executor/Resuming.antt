-- ===== src/Executor/Resuming.antt =====
-- An execution that finds steps completed by an earlier one.
use hopeitworks.Prelude.{◌≡◌}
use hopeitworks.Model.Status.{StepStatus}
use hopeitworks.Model.Entities.{RunStep}
use hopeitworks.World.{World}

abbrev pub IsCompleted : RunStep → Type 0
IsCompleted s = s.status ≡ StepStatus.completed
