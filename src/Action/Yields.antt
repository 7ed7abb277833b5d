-- ===== src/Action/Yields.antt =====
-- Actions that return: a value, the state after it, and what is known of the two.
use hopeitworks.Prelude.{◌≡◌, refl, ap, ◌∙◌, Bool, true, false, if◌then◌else◌}
use hopeitworks.Errors.{Result, ok}
use hopeitworks.Action.{Action, and_then, ◌>>=◌, pure, caught, logged}

abbrev pub Yields : {S A : Type 0} → Action S A → S → (A → S → Type 0) → Type 0
Yields {S} {A} m s P = (a : A) × (t : S) × (m s ≡ (ok a, t)) × P a t

module _ {S A B : Type 0} where
  pub yields_bind :
      (P : A → S → Type 0) (Q : B → S → Type 0) (m : Action S A) (f : A → Action S B) (s : S)
      → Yields m s P
      → ((a : A) (t : S) → P a t → Yields (f a) t Q)
      → Yields (m >>= f) s Q
  yields_bind P Q m f s (a, t, e, p) k =
      let (b, u, g, q) = k a t p in (b, u, ap (λ (r : Result A × S). and_then r.0 r.1 f) e ∙ g, q)

module _ {S A : Type 0} where
  pub yields_pure : (P : A → S → Type 0) (a : A) (s : S) → P a s → Yields (pure a) s P
  yields_pure P a s p = (a, s, refl, p)

  pub yields_if :
      (b : Bool) (m n : Action S A) (P : A → S → Type 0) (s : S)
      → (b ≡ true → Yields m s P)
      → (b ≡ false → Yields n s P)
      → Yields (if b then m else n) s P
  yields_if true m n P s h k = h refl
  yields_if false m n P s h k = k refl

  pub yields_logged :
      (R : S → S → Type 0) (m : Action S A) (s : S) → R s (m s).1 → Yields (logged m) s (λ _. R s)
  unfolding logged
  yields_logged R m s h = (tt, (m s).1, refl, h)

  pub yields_caught :
      (P : Result A → S → Type 0) (m : Action S A) (s : S)
      → P (m s).0 (m s).1
      → Yields (caught m) s P
  unfolding caught
  yields_caught P m s h = ((m s).0, (m s).1, refl, h)

module _ {S A B : Type 0} where
  -- A first part whose result is known.
  pub yields_from :
      (Q : B → S → Type 0) (m : Action S A) (f : A → Action S B) (s t : S) (a : A)
      → m s ≡ (ok a, t)
      → Yields (f a) t Q
      → Yields (m >>= f) s Q
  yields_from Q m f s t a e (b, u, g, q) =
      (b, u, ap (λ (r : Result A × S). and_then r.0 r.1 f) e ∙ g, q)

module _ {S A : Type 0} where
  pub yields_weaken :
      (P Q : A → S → Type 0) (m : Action S A) (s : S)
      → ((a : A) (t : S) → P a t → Q a t)
      → Yields m s P
      → Yields m s Q
  yields_weaken P Q m s k (a, t, e, p) = (a, t, e, k a t p)
