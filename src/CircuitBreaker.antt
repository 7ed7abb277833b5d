-- ===== src/CircuitBreaker.antt =====
-- The circuit breaker (service/circuit_breaker_service.go) over the counters that
-- adapter/postgres/project_repo.go keeps.
mod Examples
pub mod Tripping
pub mod Automaton
use hopeitworks.Prelude.{
  ℕ, String, Bool, true, false, ◌&&◌, List, [], ◌∷◌, ltb, ◌==◌, not, if◌then◌else◌,
}
use hopeitworks.Errors.{ok, validation, domain_error}
use hopeitworks.Action.{◌>>=◌, ◌>>◌, pure, require, attempt}
use hopeitworks.Model.Entities.{Uuid, Project, PayloadValue}
use hopeitworks.World.{M}
use hopeitworks.Repo.Rows.{get_project, increment_circuit_breaker_count, reset_circuit_breaker}
use hopeitworks.Repo.Outbox.{publish}

unfoldable pub check_circuit_breaker : Uuid → M (Unit {0})
check_circuit_breaker project_id = do
  p ← get_project project_id
  require (not p.circuit_breaker_active) (domain_error validation "CIRCUIT_BREAKER_OPEN")

unfoldable pub publish_circuit_breaker_event : Project → String → M (Unit {0})
publish_circuit_breaker_event p action = do
  attempt (
      publish (record {
        project_id = p.id;
        entity_type = "circuit_breaker";
        entity_id = p.id;
        action = action;
        payload =
            ("project_id", PayloadValue.uuid p.id)
            ∷ ("count", PayloadValue.num p.circuit_breaker_count)
            ∷ ("max", PayloadValue.num p.circuit_breaker_max)
            ∷ [];
      }))
  pure tt

unfoldable pub record_failure : Uuid → M (Unit {0})
unfolding publish_circuit_breaker_event
record_failure project_id = do
  p ← increment_circuit_breaker_count project_id
  if p.circuit_breaker_active then publish_circuit_breaker_event p "triggered" else pure tt

unfoldable pub reset_count : Uuid → M (Unit {0})
reset_count project_id = do reset_circuit_breaker project_id; pure tt

unfoldable pub record_success : Uuid → M (Unit {0})
unfolding reset_count
record_success project_id = do
  p ← get_project project_id
  if ltb 0 p.circuit_breaker_count then reset_count project_id else pure tt

unfoldable reset_and_publish : Uuid → M (Unit {0})
unfolding publish_circuit_breaker_event
reset_and_publish project_id = do
  p ← reset_circuit_breaker project_id
  publish_circuit_breaker_event p "reset"

unfoldable pub reset_breaker : Uuid → M (Unit {0})
unfolding reset_and_publish
reset_breaker project_id = do
  p ← get_project project_id
  if not p.circuit_breaker_active && p.circuit_breaker_count == 0
      then pure tt
      else reset_and_publish project_id
