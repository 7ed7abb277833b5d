-- ===== src/Action/Returns.antt =====
-- What a returned value tells of the parts of an action, one rule for each way to build. The part
-- that ran first gives a value and a state, and the rest of the proof is about these two.
use hopeitworks.Prelude.{◌≡◌, refl, ap, ◌∙◌, Bool, true, false, arith}
use hopeitworks.Errors.{DomainError, Result, ok, err}
use hopeitworks.Action.{Action, and_then, ◌>>=◌, ◌>>◌, lift, require}

module _ {S A B C : Type 0} where
  pub bind_returns :
      (m : Action S A) (f : A → Action S B) (s : S) (b : B)
      → ((m >>= f) s).0 ≡ ok b
      → ((a : A) (t : S) → m s ≡ (ok a, t) → (f a t).0 ≡ ok b → C)
      → C
  bind_returns m f s b h k = go (m s) refl h
    where
      go : (r : Result A × S) → m s ≡ r → (and_then r.0 r.1 f).0 ≡ ok b → C
      go (ok a, t) e l = k a t e l
      go (err x, t) e l = absurd (ground arith)

  pub lift_returns :
      (r : Result A) (f : A → Action S B) (s : S) (b : B)
      → ((lift r >>= f) s).0 ≡ ok b
      → ((a : A) → r ≡ ok a → (f a s).0 ≡ ok b → C)
      → C
  lift_returns (ok a) f s b h k = k a refl h
  lift_returns (err x) f s b h k = absurd (ground arith)

module _ {S B C : Type 0} where
  pub require_returns :
      (t : Bool) (e : DomainError) (m : Action S B) (s : S) (b : B)
      → ((require t e >> m) s).0 ≡ ok b
      → (t ≡ true → (m s).0 ≡ ok b → C)
      → C
  require_returns true e m s b h k = k refl h
  require_returns false e m s b h k = absurd (ground arith)

-- The same with the state at the end.
module _ {S A B C : Type 0} where
  pub bind_ends :
      (m : Action S A) (f : A → Action S B) (s z : S) (b : B)
      → (m >>= f) s ≡ (ok b, z)
      → ((a : A) (t : S) → m s ≡ (ok a, t) → f a t ≡ (ok b, z) → C)
      → C
  bind_ends m f s z b h k = go (m s) refl h
    where
      go : (r : Result A × S) → m s ≡ r → and_then r.0 r.1 f ≡ (ok b, z) → C
      go (ok a, t) e l = k a t e l
      go (err x, t) e l = absurd (ground arith)

  pub lift_ends :
      (r : Result A) (f : A → Action S B) (s z : S) (b : B)
      → (lift r >>= f) s ≡ (ok b, z)
      → ((a : A) → r ≡ ok a → f a s ≡ (ok b, z) → C)
      → C
  lift_ends (ok a) f s z b h k = k a refl h
  lift_ends (err x) f s z b h k = absurd (ground arith)

module _ {S B C : Type 0} where
  pub require_ends :
      (t : Bool) (e : DomainError) (m : Action S B) (s z : S) (b : B)
      → (require t e >> m) s ≡ (ok b, z)
      → (t ≡ true → m s ≡ (ok b, z) → C)
      → C
  require_ends true e m s z b h k = k refl h
  require_ends false e m s z b h k = absurd (ground arith)

-- What an error tells: the first part failed, or it returned and the rest failed.
module _ {S A B C : Type 0} where
  pub bind_refused :
      (m : Action S A) (f : A → Action S B) (s z : S) (e : DomainError)
      → (m >>= f) s ≡ (err e, z)
      → (m s ≡ (err e, z) → C)
      → ((a : A) (t : S) → m s ≡ (ok a, t) → f a t ≡ (err e, z) → C)
      → C
  bind_refused m f s z e h first rest = go (m s) refl h
    where
      go : (r : Result A × S) → m s ≡ r → and_then r.0 r.1 f ≡ (err e, z) → C
      go (ok a, t) k l = rest a t k l
      go (err x, t) k l = first (k ∙ ground arith)

  pub lift_refused :
      (r : Result A) (f : A → Action S B) (s z : S) (e : DomainError)
      → (lift r >>= f) s ≡ (err e, z)
      → (s ≡ z → C)
      → ((a : A) → r ≡ ok a → f a s ≡ (err e, z) → C)
      → C
  lift_refused (ok a) f s z e h first rest = rest a refl h
  lift_refused (err x) f s z e h first rest = first (ap (λ p. p.1) h)

module _ {S B C : Type 0} where
  pub require_refused :
      (t : Bool) (x : DomainError) (m : Action S B) (s z : S) (e : DomainError)
      → (require t x >> m) s ≡ (err e, z)
      → (s ≡ z → C)
      → (m s ≡ (err e, z) → C)
      → C
  require_refused true x m s z e h first rest = rest h
  require_refused false x m s z e h first rest = first (ap (λ p. p.1) h)
