-- ===== src/Supervision/Idle.antt =====
-- Services that only read until they find a reason to act: a state that differs from the first by the
-- count of calls, and the rule for a sequence of calls.
use hopeitworks.Prelude.{◌≡◌, ap, ◌∙◌, ℕ, ◌⊎◌, inl, inr}
use hopeitworks.Errors.{Result, ok}
use hopeitworks.Action.{and_then, ◌>>=◌}
use hopeitworks.Action.Yields.{Yields}
use hopeitworks.World.{World, M}

-- The same state, after so many calls.
abbrev pub at : World → ℕ → World
at w n = record w { calls = n }

-- Nothing but the count of calls has changed.
abbrev pub Idle : World → Result (Unit {0}) × World → Type 0
Idle w o = (m : ℕ) × (o ≡ (ok tt, at w m))

-- `Acts` is the reason to act.
pub bind-Idle :
    (w : World) (Acts : Type 0) {A : Type 0} (P : A → World → Type 0) (m : M A)
    (f : A → M (Unit {0})) (v : World)
    → Yields m v P
    → ((a : A) (u : World) → P a u → Idle w (f a u) ⊎ Acts)
    → Idle w ((m >>= f) v) ⊎ Acts
bind-Idle w Acts {A} P m f v (a, u, e, p) k = elim (k a u p) [
  | inl (n, g) ↦ inl (n, ap (λ (r : Result A × World). and_then r.0 r.1 f) e ∙ g)
  | inr acts ↦ inr acts
]
