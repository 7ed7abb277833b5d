-- ===== src/Action.antt =====
-- Service methods as actions: a state is read and written, and the method returns a value or an
-- error. What was written before an error stays written, as in the services, which use no
-- transactions.
pub mod Relates
pub mod Returns
pub mod Yields
use hopeitworks.Prelude.{◌≡◌, refl, Bool, true, false, List, [], ◌∷◌}
use hopeitworks.Errors.{DomainError, Result, ok, err}

abbrev pub Action {ℓ} : Type ℓ → Type ℓ → Type ℓ
Action S A = S → Result A × S

module _ {ℓ} {S A B : Type ℓ} where
  abbrev pub and_then : Result A → S → (A → Action S B) → Result B × S
  and_then (ok a) s f = f a s
  and_then (err e) s f = (err e, s)

  infixl 10 ◌>>=◌ ◌>>◌
  abbrev pub ◌>>=◌ : Action S A → (A → Action S B) → Action S B
  ◌>>=◌ m f s = let (r, s') = m s in and_then r s' f

  abbrev pub ◌>>◌ : Action S A → Action S B → Action S B
  m >> n = m >>= λ _. n

module _ {ℓ} {S A : Type ℓ} where
  abbrev pub pure : A → Action S A
  pure a s = (ok a, s)

  abbrev pub fail : DomainError → Action S A
  fail e s = (err e, s)

  abbrev pub lift : Result A → Action S A
  lift r s = (r, s)

  abbrev pub read : (S → A) → Action S A
  read f s = (ok (f s), s)

  -- A call whose error the method ignores or only logs: its result, as a value.
  abbrev pub attempt : Action S A → Action S (Result A)
  attempt m s = let (r, s') = m s in (ok r, s')

-- The same, shut: a call whose error the method looks at, and one whose error it only logs.
unfoldable pub caught : {S A : Type 0} → Action S A → Action S (Result A)
caught m = attempt m

unfoldable pub logged : {S A : Type 0} → Action S A → Action S (Unit {0})
logged m = do attempt m; pure tt

-- `if !b { return nil, e }`.
abbrev pub require : {S : Type 0} → Bool → DomainError → Action S (Unit {0})
require true e s = (ok tt, s)
require false e s = (err e, s)

-- `for _, x := range xs { if err := f(x); err != nil { return err } }`.
abbrev pub for_each : {S A : Type 0} → List A → (A → Action S (Unit {0})) → Action S (Unit {0})
for_each [] f = pure tt
for_each (x ∷ xs) f = f x >> for_each xs f
