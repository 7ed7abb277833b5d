-- ===== src/CircuitBreaker/Tripping.antt =====
-- When the breaker opens and closes, as long as no call fails.
use hopeitworks.Prelude.{
  ℕ, zero, suc, ◌+◌, ◌<◌, ◌≡◌, refl, ap, ◌∙◌, false, some, leb, ◌⊎◌, inl, inr, if◌then◌else◌, arith,
}
use hopeitworks.Errors.{Result, ok, err, validation, domain_error}
use hopeitworks.Model.Entities.{Uuid, Project}
use hopeitworks.World.{World, NoFaults, call, project_at, project_has_id}
use hopeitworks.World.Rows.{find-update_same}
use hopeitworks.Repo.Rows.{
  get_project, increment_circuit_breaker_count, reset_circuit_breaker, incremented, reset,
}
use hopeitworks.Repo.Outbox.{publish}
use hopeitworks.CircuitBreaker.{
  check_circuit_breaker, record_failure, record_success, reset_breaker,
  publish_circuit_breaker_event,
}

pub record_failure-project :
    (id : Uuid) (w : World) (p : Project)
    → NoFaults w
    → project_at w id ≡ some p
    → (project_at (record_failure id w).1 id ≡ some (incremented p))
unfolding record_failure increment_circuit_breaker_count call publish_circuit_breaker_event publish
    project_at
record_failure-project id w p up found = ground (
  arith,
  up w.calls,
  up (w.calls + 1),
  find-update_same (project_has_id id) incremented (λ x. refl) w.projects p found,
)

pub record_failure-faults : (id : Uuid) (w : World) → (record_failure id w).1.faults ≡ w.faults
unfolding record_failure increment_circuit_breaker_count call publish_circuit_breaker_event publish
record_failure-faults id w = ground arith

-- The breaker is active just if the count has reached the maximum.
abbrev pub IsConsistent : Project → Type 0
IsConsistent p = p.circuit_breaker_active ≡ leb p.circuit_breaker_max p.circuit_breaker_count

-- So many failures, one after the other.
unfoldable pub fail_times : ℕ → Uuid → World → World
fail_times zero id w = w
fail_times (suc n) id w = fail_times n id (record_failure id w).1

-- What a run is told at a count.
abbrev pub gate : ℕ → ℕ → Result (Unit {0})
gate max count =
    if leb max count then err (domain_error validation "CIRCUIT_BREAKER_OPEN") else ok tt

pub incremented-IsConsistent : (p : Project) → IsConsistent p → IsConsistent (incremented p)
incremented-IsConsistent p h = ground arith

pub check_lem :
    (id : Uuid) (w : World) (p : Project)
    → NoFaults w
    → project_at w id ≡ some p
    → IsConsistent p
    → (check_circuit_breaker id w).0 ≡ gate p.circuit_breaker_max p.circuit_breaker_count
unfolding check_circuit_breaker get_project call project_at
check_lem id w p up found h = ground (arith, up w.calls)

-- As long as no call fails, a consistent breaker refuses runs after n more failures just if the
-- count has then reached the maximum, and lets them pass otherwise.
pub trips_at_max :
    (n : ℕ) (id : Uuid) (w : World) (p : Project)
    → NoFaults w
    → project_at w id ≡ some p
    → IsConsistent p
    → (check_circuit_breaker id (fail_times n id w)).0
      ≡ gate p.circuit_breaker_max (p.circuit_breaker_count + n)
unfolding fail_times
trips_at_max zero id w p up found h =
    check_lem id w p up found h ∙ ap (gate p.circuit_breaker_max) (omega arith)
trips_at_max (suc n) id w p up found h =
    trips_at_max n id (record_failure id w).1 (incremented p)
      (λ k. ap (λ f. f k) (record_failure-faults id w) ∙ up k)
      (record_failure-project id w p up found) (incremented-IsConsistent p h)
    ∙ ap (gate p.circuit_breaker_max) (omega arith)

passes :
    (id : Uuid) (w : World) (p : Project)
    → NoFaults w
    → project_at w id ≡ some p
    → p.circuit_breaker_active ≡ false
    → (check_circuit_breaker id w).0 ≡ ok tt
unfolding check_circuit_breaker get_project call project_at
passes id w p up found h = ground (arith, up w.calls)

pub record_success-project :
    (id : Uuid) (w : World) (p : Project)
    → NoFaults w
    → project_at w id ≡ some p
    → 0 < p.circuit_breaker_count
    → project_at (record_success id w).1 id ≡ some (reset p)
unfolding record_success reset_circuit_breaker get_project call project_at
record_success-project id w p up found h = ground (
  arith,
  up w.calls,
  up (w.calls + 1),
  find-update_same (project_has_id id) reset (λ x. refl) w.projects p found,
)

pub record_success-faults : (id : Uuid) (w : World) → (record_success id w).1.faults ≡ w.faults
unfolding record_success reset_circuit_breaker get_project call
record_success-faults id w = ground arith

pub reset_breaker-project :
    (id : Uuid) (w : World) (p : Project)
    → NoFaults w
    → project_at w id ≡ some p
    → (project_at (reset_breaker id w).1 id ≡ some (reset p))
      ⊎ (project_at (reset_breaker id w).1 id ≡ some p)
        × (p.circuit_breaker_active ≡ false)
        × (p.circuit_breaker_count ≡ 0)
unfolding reset_breaker reset_circuit_breaker get_project call project_at
    publish_circuit_breaker_event publish
reset_breaker-project id w p up found = ground (
  arith,
  up w.calls,
  up (w.calls + 1),
  find-update_same (project_has_id id) reset (λ x. refl) w.projects p found,
)

pub reset_breaker-faults : (id : Uuid) (w : World) → (reset_breaker id w).1.faults ≡ w.faults
unfolding reset_breaker reset_circuit_breaker get_project call publish_circuit_breaker_event publish
reset_breaker-faults id w = ground arith

-- As long as no call fails, a run passes the breaker after a success is recorded of a project with
-- failures, and after an administrator's reset.
pub passes_after_reset :
    (id : Uuid) (w : World) (p : Project)
    → NoFaults w
    → project_at w id ≡ some p
    → (0 < p.circuit_breaker_count → (check_circuit_breaker id (record_success id w).1).0 ≡ ok tt)
      × ((check_circuit_breaker id (reset_breaker id w).1).0 ≡ ok tt)
passes_after_reset id w p up found = (
  λ h.
      passes id (record_success id w).1 (reset p)
        (λ k. ap (λ f. f k) (record_success-faults id w) ∙ up k)
        (record_success-project id w p up found h) refl,
  elim (reset_breaker-project id w p up found) [
    | inl k ↦ passes id (reset_breaker id w).1 (reset p) still_up k refl
    | inr (k, off, zero_) ↦ passes id (reset_breaker id w).1 p still_up k off
  ],
)
  where
    still_up : NoFaults (reset_breaker id w).1
    still_up k = ap (λ f. f k) (reset_breaker-faults id w) ∙ up k
