-- ===== src/CircuitBreaker/Examples.antt =====
-- A project whose breaker opens at the third failure, after one failure.
use hopeitworks.Prelude.{◌≡◌, refl, ◌<◌, ◌+◌, some, List, [], ◌∷◌, arith}
use hopeitworks.Errors.{ok}
use hopeitworks.Model.Entities.{Project}
use hopeitworks.World.Samples.{empty_world, sample_project}
use hopeitworks.World.{World, project_at}
use hopeitworks.CircuitBreaker.{check_circuit_breaker, record_success, reset_breaker}
use hopeitworks.CircuitBreaker.Automaton.{
  Signal, failure, success, serve_all, view, react_all, answer, breaker_refines,
}
use hopeitworks.CircuitBreaker.Tripping.{fail_times, gate, trips_at_max, passes_after_reset}

abbrev project : Project
project = record sample_project { id = 7; circuit_breaker_count = 1 }

abbrev world : World
world = record empty_world { projects = project ∷ []; clock = 0; next_id = 1 }

project_stored : project_at world 7 ≡ some project
unfolding project_at
project_stored = refl

trips_at_max_example : (check_circuit_breaker 7 (fail_times 2 7 world)).0 ≡ gate 3 (1 + 2)
trips_at_max_example = trips_at_max 2 7 world project (λ _. refl) project_stored refl

passes_after_reset_example :
    (0 < 1 → (check_circuit_breaker 7 (record_success 7 world).1).0 ≡ ok tt)
    × ((check_circuit_breaker 7 (reset_breaker 7 world).1).0 ≡ ok tt)
passes_after_reset_example = passes_after_reset 7 world project (λ _. refl) project_stored

abbrev signals : List Signal
signals = failure ∷ failure ∷ success ∷ failure ∷ []

breaker_refines_example :
    (q : Project) × (project_at (serve_all 7 signals world) 7 ≡ some q)
    × (view q ≡ react_all 3 (view project) signals)
    × ((check_circuit_breaker 7 (serve_all 7 signals world)).0
        ≡ answer (react_all 3 (view project) signals))
breaker_refines_example =
    breaker_refines 3 7 signals world project (λ _. refl) project_stored (refl, refl, omega arith)
