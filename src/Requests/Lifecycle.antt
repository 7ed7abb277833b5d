-- ===== src/Requests/Lifecycle.antt =====
-- The statuses of runs over any sequence of requests.
use hopeitworks.Prelude.{
  ◌≡◌, refl, sym, ◌∙◌, subst, String, true, false, Option, none, some, List, [], ◌∷◌, All, ◌⊎◌, inl,
  inr, arith,
}
use hopeitworks.Model.Status.{RunStatus}
use hopeitworks.Model.Status.Lifecycle.{◌⟶◌, is_final, left_not_final}
use hopeitworks.Model.Entities.{Uuid, Run}
use hopeitworks.World.{World, run_at}
use hopeitworks.World.Advances.{Advances, AtMostOneEdge}
use hopeitworks.RunService
use hopeitworks.RunService.Moves.{
  transition_run-Advances, pause_run-Advances, resume_run-Advances, cancel_run-Advances,
  retry_step-Advances,
}
use hopeitworks.RunService.Launches.{launch_run-Advances}
use hopeitworks.Hitl
use hopeitworks.Hitl.Moves.{
  approve-Advances, reject-Advances, resolve-Advances, raise_probe_halt-Advances,
}
use hopeitworks.Requests.{
  Request, launch, transition, pause, cancel, resume, retry, approve, reject, resolve, raise_halt,
  is_abort, serve, serve_all,
}

-- The status that a request may give to a run that is stored.
abbrev pub status_of : Request → Option RunStatus
status_of (launch p s u) = none
status_of (transition id t) = some t
status_of (pause p id) = some RunStatus.paused
status_of (cancel p id) = some RunStatus.cancelled
status_of (resume p id) = some RunStatus.running
status_of (retry id s) = some RunStatus.running
status_of (approve id u) = some RunStatus.running
status_of (reject id u reason) = none
status_of (resolve id u action) = some RunStatus.running
status_of (raise_halt s reason) = some RunStatus.paused

kept_final :
    (t : Option RunStatus) (r q : Run)
    → AtMostOneEdge t r q
    → is_final r.status ≡ true
    → q.status ≡ r.status
kept_final t r q (inl same) h = same
kept_final t r q (inr (given, edge)) h = absurd (ground (arith, left_not_final edge))

module _ (svc : RunService.Wiring) (hitl : Hitl.Wiring) (parse : String → Option Uuid) where
  serve-Advances :
      (q : Request) (w : World)
      → is_abort q ≡ false
      → Advances (status_of q) w (serve svc hitl parse q w)
  unfolding serve
  serve-Advances (launch p s u) w h = launch_run-Advances svc parse p s u w
  serve-Advances (transition id t) w h = transition_run-Advances id t w
  serve-Advances (pause p id) w h = pause_run-Advances svc p id w
  serve-Advances (cancel p id) w h = cancel_run-Advances svc p id w
  serve-Advances (resume p id) w h = resume_run-Advances svc p id w
  serve-Advances (retry id s) w h = retry_step-Advances svc id s w
  serve-Advances (approve id u) w h = approve-Advances hitl id u w
  serve-Advances (reject id u reason) w h = reject-Advances hitl id u reason w
  serve-Advances (resolve id u action) w h = resolve-Advances hitl id u action w h
  serve-Advances (raise_halt s reason) w h = raise_probe_halt-Advances hitl s reason w

  -- A request (launch, transition, pause, resume, cancel, retry of a step, approve, reject, resolve,
  -- probe halt) that is not an abort, served in any state, whatever calls fail and however the
  -- services are wired, leaves every stored run stored, with its status or with another one: the
  -- status that this request gives (a launch and a rejection give none), to which one edge of the
  -- run's lifecycle leads from the status it had.
  pub runs_follow_lifecycle :
      (q : Request) (w : World) (id : Uuid) (r : Run)
      → is_abort q ≡ false
      → run_at w id ≡ some r
      → (s : Run) × (run_at (serve svc hitl parse q w) id ≡ some s)
        × ((s.status ≡ r.status) ⊎ ((status_of q ≡ some s.status) × (r.status ⟶ s.status)))
  unfolding run_at
  runs_follow_lifecycle q w id r h found = (serve-Advances q w h).row id r found

  -- A run that is completed or cancelled stays so, over any sequence of requests without an abort,
  -- whatever calls fail and however the services are wired.
  pub final_runs_stay :
      (qs : List Request) (w : World) (id : Uuid) (r : Run)
      → All (λ q. is_abort q ≡ false) qs
      → run_at w id ≡ some r
      → is_final r.status ≡ true
      → (s : Run) × (run_at (serve_all svc hitl parse qs w) id ≡ some s) × (s.status ≡ r.status)
  unfolding serve_all
  final_runs_stay [] w id r h found final = (r, found, refl)
  final_runs_stay (q ∷ qs) w id r h found final =
      let (s, k, p) = runs_follow_lifecycle q w id r h.0 found in
      let same = kept_final (status_of q) r s p final in
      let (t, l, again) =
        final_runs_stay qs (serve svc hitl parse q w) id s h.1 k
          (subst (λ x. is_final x ≡ true) (sym same) final) in
      (t, l, again ∙ same)
