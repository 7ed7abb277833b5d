-- ===== src/Requests.antt =====
-- The requests of the services that change runs, one after the other: the handlers of the API
-- (backend/internal/api) and the watchdog call them so. The repositories' calls fail as `faults` says,
-- so a request may stop halfway.
mod Examples
pub mod Lifecycle
use hopeitworks.Prelude.{String, Bool, false, Option, List, [], ◌∷◌, ◌=s=◌}
use hopeitworks.Model.Status.{RunStatus}
use hopeitworks.Model.Entities.{Uuid, HaltReason}
use hopeitworks.World.{World}
use hopeitworks.RunService
use hopeitworks.RunService.Cancel.{cancel_run}
use hopeitworks.RunService.Retry.{retry_step}
use hopeitworks.RunService.Launch.{launch_run}
use hopeitworks.Hitl

pub data Request : Type 0 where
  launch : Uuid → Uuid → Uuid → Request
  transition : Uuid → RunStatus → Request
  pause cancel resume : Uuid → Uuid → Request
  retry : Uuid → Uuid → Request
  approve : Uuid → Uuid → Request
  reject : Uuid → Uuid → Option String → Request
  resolve : Uuid → Uuid → String → Request
  raise_halt : Uuid → HaltReason → Request

-- `Resolve` with the action "abort".
abbrev pub is_abort : Request → Bool
is_abort (resolve id user action) = action =s= "abort"
is_abort _ = false

module _ (svc : RunService.Wiring) (hitl : Hitl.Wiring) (parse : String → Option Uuid) where
  unfoldable pub serve : Request → World → World
  serve (launch project_id story_id user_id) w =
      (launch_run svc parse project_id story_id user_id w).1
  serve (transition id status) w = (RunService.transition_run id status w).1
  serve (pause project_id id) w = (RunService.pause_run svc project_id id w).1
  serve (cancel project_id id) w = (cancel_run svc project_id id w).1
  serve (resume project_id id) w = (RunService.resume_run svc project_id id w).1
  serve (retry id step_id) w = (retry_step svc id step_id w).1
  serve (approve id user_id) w = (Hitl.approve hitl id user_id w).1
  serve (reject id user_id reason) w = (Hitl.reject hitl id user_id reason w).1
  serve (resolve id user_id action) w = (Hitl.resolve hitl id user_id action w).1
  serve (raise_halt step_id reason) w = (Hitl.raise_probe_halt hitl step_id reason w).1

  unfoldable pub serve_all : List Request → World → World
  unfolding serve
  serve_all [] w = w
  serve_all (q ∷ qs) w = serve_all qs (serve q w)
