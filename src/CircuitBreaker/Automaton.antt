-- ===== src/CircuitBreaker/Automaton.antt =====
-- The breaker as an automaton, which the counters in the table of projects implement.
use hopeitworks.Prelude.{
  ℕ, ◌+◌, ◌<◌, ◌≤◌, ◌≡◌, refl, ap, ◌∙◌, some, List, [], ◌∷◌, leb, ◌⊎◌, inl, inr, if◌then◌else◌,
  arith,
}
use hopeitworks.Errors.{Result, ok, err, validation, domain_error}
use hopeitworks.Model.Entities.{Uuid, Project}
use hopeitworks.World.{World, M, NoFaults, call, project_at}
use hopeitworks.Repo.Rows.{get_project, incremented, reset}
use hopeitworks.CircuitBreaker.{
  check_circuit_breaker, record_failure, record_success, reset_breaker,
}
use hopeitworks.CircuitBreaker.Tripping.{
  IsConsistent, check_lem, incremented-IsConsistent, record_failure-project, record_failure-faults,
  record_success-project, record_success-faults, reset_breaker-project, reset_breaker-faults,
}

-- The abstract breaker: closed after so many failures in a row, or open.
pub data Breaker : Type 0 where
  closed : ℕ → Breaker
  tripped : Breaker

-- What it is told: the end of a run, or an administrator's reset.
pub data Signal : Type 0 where
  failure success reset_by_admin : Signal

abbrev pub react : ℕ → Breaker → Signal → Breaker
react max (closed n) failure = if leb max (n + 1) then tripped else closed (n + 1)
react max tripped failure = tripped
react max b success = closed 0
react max b reset_by_admin = closed 0

abbrev pub react_all : ℕ → Breaker → List Signal → Breaker
react_all max b [] = b
react_all max b (s ∷ ss) = react_all max (react max b s) ss

abbrev pub answer : Breaker → Result (Unit {0})
answer (closed n) = ok tt
answer tripped = err (domain_error validation "CIRCUIT_BREAKER_OPEN")

-- The service's call for a signal.
unfoldable pub serve : Uuid → Signal → M (Unit {0})
serve id failure = record_failure id
serve id success = record_success id
serve id reset_by_admin = reset_breaker id

unfoldable pub serve_all : Uuid → List Signal → World → World
serve_all id [] w = w
serve_all id (s ∷ ss) w = serve_all id ss (serve id s w).1

-- The abstract breaker of a stored project.
abbrev pub view : Project → Breaker
view p = if p.circuit_breaker_active then tripped else closed p.circuit_breaker_count

-- The stored project is consistent, with a maximum of at least 1.
abbrev pub IsSound : ℕ → Project → Type 0
IsSound max p = IsConsistent p × (p.circuit_breaker_max ≡ max) × (1 ≤ max)

record_success-zero :
    (id : Uuid) (w : World) (p : Project)
    → NoFaults w
    → project_at w id ≡ some p
    → p.circuit_breaker_count ≡ 0
    → project_at (record_success id w).1 id ≡ some p
unfolding record_success get_project call project_at
record_success-zero id w p up found h = ground (arith, up w.calls)

view-incremented :
    (max : ℕ) (p : Project) → IsSound max p → view (incremented p) ≡ react max (view p) failure
view-incremented max p (h, k, l) = ground arith

view-reset : (p : Project) → view (reset p) ≡ closed 0
view-reset p = refl

reset-IsConsistent :
    {max : ℕ} (p : Project) → p.circuit_breaker_max ≡ max → 1 ≤ max → IsConsistent (reset p)
reset-IsConsistent p k l = ground arith

idle_view :
    (max : ℕ) (p : Project) → IsSound max p → p.circuit_breaker_count ≡ 0 → view p ≡ closed 0
idle_view max p (h, k, l) z = ground arith

some_or_none : (n : ℕ) → (0 < n) ⊎ (n ≡ 0)
some_or_none n = omega arith

-- The project after a signal.
abbrev Reacted : ℕ → Uuid → World → Project → Signal → Type 0
Reacted max id w p s =
    (q : Project) × (project_at (serve id s w).1 id ≡ some q)
    × IsSound max q
    × (view q ≡ react max (view p) s)

reacts :
    (max : ℕ) (id : Uuid) (s : Signal) (w : World) (p : Project)
    → NoFaults w
    → project_at w id ≡ some p
    → IsSound max p
    → Reacted max id w p s
unfolding serve
reacts max id failure w p up found (h, k, l) = (
  incremented p,
  record_failure-project id w p up found,
  (incremented-IsConsistent p h, k, l),
  view-incremented max p (h, k, l),
)
reacts max id success w p up found sound = elim (some_or_none p.circuit_breaker_count) [
  | inl more ↦ (
    reset p,
    record_success-project id w p up found more,
    (reset-IsConsistent p (sound.1) sound.2, sound.1, sound.2),
    refl,
  )
  | inr zero_ ↦ (p, record_success-zero id w p up found zero_, sound, idle_view max p sound zero_)
]
reacts max id reset_by_admin w p up found sound = elim (reset_breaker-project id w p up found) [
  | inl f ↦ (reset p, f, (reset-IsConsistent p sound.1 sound.2, sound.1, sound.2), refl)
  | inr (f, off, zero_) ↦ (p, f, sound, idle_view max p sound zero_)
]

serve-faults : (id : Uuid) (s : Signal) (w : World) → (serve id s w).1.faults ≡ w.faults
unfolding serve
serve-faults id failure w = record_failure-faults id w
serve-faults id success w = record_success-faults id w
serve-faults id reset_by_admin w = reset_breaker-faults id w

check_view :
    (max : ℕ) (id : Uuid) (w : World) (p : Project)
    → NoFaults w
    → project_at w id ≡ some p
    → IsSound max p
    → (check_circuit_breaker id w).0 ≡ answer (view p)
check_view max id w p up found (h, k, l) = check_lem id w p up found h ∙ ground arith

-- The breaker refines the automaton: as long as no call fails, for a stored project that is
-- consistent and has a maximum of at least 1, and after any sequence of failures, successes and
-- resets, the stored counters stand for the state that the automaton reaches, and `Check` answers
-- as the automaton does.
pub breaker_refines :
    (max : ℕ) (id : Uuid) (ss : List Signal) (w : World) (p : Project)
    → NoFaults w
    → project_at w id ≡ some p
    → IsSound max p
    → (q : Project) × (project_at (serve_all id ss w) id ≡ some q)
      × (view q ≡ react_all max (view p) ss)
      × ((check_circuit_breaker id (serve_all id ss w)).0 ≡ answer (react_all max (view p) ss))
unfolding serve_all
breaker_refines max id [] w p up found sound =
    (p, found, refl, check_view max id w p up found sound)
breaker_refines max id (s ∷ ss) w p up found sound =
    let (q, f, sound', same) = reacts max id s w p up found sound in
    let (r, g, reached, answered) =
      breaker_refines max id ss (serve id s w).1 q (λ n. ap (λ k. k n) (serve-faults id s w) ∙ up n)
        f sound' in
    (
      r,
      g,
      reached ∙ ap (λ b. react_all max b ss) same,
      answered ∙ ap (λ b. answer (react_all max b ss)) same,
    )
