-- ===== src/Action/Relates.antt =====
-- Actions whose runs relate the state before to the state after, one rule for each way to build.
use hopeitworks.Prelude.{◌≡◌, refl, Bool, true, false, if◌then◌else◌, List, [], ◌∷◌}
use hopeitworks.Errors.{DomainError, Result, ok, err}
use hopeitworks.Action.{Action, and_then, ◌>>=◌, ◌>>◌, lift, require, for_each, caught, logged}

module _ {S : Type 0} (R : S → S → Type 0) (R-refl : (s : S) → R s s)
    (R-trans : (s t u : S) → R s t → R t u → R s u) where
  -- The later part may use what the first part returned.
  pub bind_relates :
      {A B : Type 0} (m : Action S A) (f : A → Action S B) (s : S)
      → R s (m s).1
      → ((a : A) → (m s).0 ≡ ok a → R (m s).1 (f a (m s).1).1)
      → R s ((m >>= f) s).1
  bind_relates {A} {B} m f s h k = go (m s).0 refl
    where
      go : (r : Result A) → (m s).0 ≡ r → R s (and_then r (m s).1 f).1
      go (ok a) e = R-trans s (m s).1 (f a (m s).1).1 h (k a e)
      go (err x) e = h

  pub require_relates :
      {A : Type 0} (b : Bool) (e : DomainError) (m : Action S A) (s : S)
      → (b ≡ true → R s (m s).1)
      → R s ((require b e >> m) s).1
  require_relates true e m s h = h refl
  require_relates false e m s h = R-refl s

  pub lift_relates :
      {A B : Type 0} (r : Result A) (f : A → Action S B) (s : S)
      → ((a : A) → r ≡ ok a → R s (f a s).1)
      → R s ((lift r >>= f) s).1
  lift_relates (ok a) f s h = h a refl
  lift_relates (err e) f s h = R-refl s

  pub if_relates :
      {A : Type 0} (b : Bool) (m n : Action S A) (s : S)
      → (b ≡ true → R s (m s).1)
      → (b ≡ false → R s (n s).1)
      → R s ((if b then m else n) s).1
  if_relates true m n s hm hn = hm refl
  if_relates false m n s hm hn = hn refl

  pub for_each_relates :
      {A : Type 0} (xs : List A) (f : A → Action S (Unit {0})) (s : S)
      → ((a : A) (t : S) → R t (f a t).1)
      → R s (for_each xs f s).1
  for_each_relates [] f s h = R-refl s
  for_each_relates (x ∷ xs) f s h =
      bind_relates (f x) (λ _. for_each xs f) s (h x s) (λ _ _. for_each_relates xs f (f x s).1 h)

  pub caught_relates : {A : Type 0} (m : Action S A) (s : S) → R s (m s).1 → R s (caught m s).1
  unfolding caught
  caught_relates m s h = h

  pub logged_relates : {A : Type 0} (m : Action S A) (s : S) → R s (m s).1 → R s (logged m s).1
  unfolding logged
  logged_relates m s h = h
