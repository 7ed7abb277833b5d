-- ===== src/Prelude/Lists.antt =====
-- Lists measured by native numbers, and membership by recursion, which the tactics take apart.
use Prim.Native.Nat.{ℕ, zero, suc, ◌+◌}
use mathlib.Core.Path.{◌≡◌, refl, ap, sym, subst}
use mathlib.Core.Logic.{◌⊎◌, inl, inr}
use mathlib.Core.Bool.{Bool}
use mathlib.Core.List.{List, [], ◌∷◌, ◌++◌, map}
use mathlib.Core.Option.{Option, none, some}
use native.Mathlib.Omega.{arith}
use hopeitworks.Prelude.Tests.{if◌then◌else◌}

module _ {ℓ} {A : Type ℓ} where
  abbrev pub length : List A → ℕ
  length [] = 0
  length (x ∷ xs) = suc (length xs)

  abbrev pub get_elem? : List A → ℕ → Option A
  get_elem? [] i = none
  get_elem? (x ∷ xs) zero = some x
  get_elem? (x ∷ xs) (suc i) = get_elem? xs i

  -- The elements that pass a Boolean test.
  abbrev pub select : (A → Bool) → List A → List A
  select p [] = []
  select p (x ∷ xs) = let rest = select p xs in if p x then x ∷ rest else rest

  -- The first element that passes a Boolean test.
  abbrev pub find : (A → Bool) → List A → Option A
  find p [] = none
  find p (x ∷ xs) = if p x then some x else find p xs

  abbrev pub concat : List (List A) → List A
  concat [] = []
  concat (x ∷ xs) = x ++ concat xs

  pub length-append : (xs ys : List A) → length (xs ++ ys) ≡ length xs + length ys
  length-append [] ys = omega arith
  length-append (x ∷ xs) ys = omega (arith, length-append xs ys)

module _ {ℓ κ} {A : Type ℓ} where
  abbrev pub All : (A → Type κ) → List A → Type κ
  All P [] = Unit
  All P (x ∷ xs) = P x × All P xs

  pub All-append : (P : A → Type κ) (xs ys : List A) → All P xs → All P ys → All P (xs ++ ys)
  All-append P [] ys hx hy = hy
  All-append P (x ∷ xs) ys hx hy = (hx.0, All-append P xs ys hx.1 hy)

-- Membership by recursion.
abbrev pub Elem : {A : Type 0} → A → List A → Type 0
Elem a [] = ⊥
Elem a (x ∷ xs) = (a ≡ x) ⊎ Elem a xs

module _ {A : Type 0} where
  pub Elem-append_left : (a : A) (xs ys : List A) → Elem a xs → Elem a (xs ++ ys)
  Elem-append_left a [] ys h = absurd h
  Elem-append_left a (x ∷ xs) ys (inl e) = inl e
  Elem-append_left a (x ∷ xs) ys (inr m) = inr (Elem-append_left a xs ys m)

  pub Elem-append_right : (a : A) (xs ys : List A) → Elem a ys → Elem a (xs ++ ys)
  Elem-append_right a [] ys h = h
  Elem-append_right a (x ∷ xs) ys h = inr (Elem-append_right a xs ys h)

  pub Elem-append_cases : (a : A) (xs ys : List A) → Elem a (xs ++ ys) → Elem a xs ⊎ Elem a ys
  Elem-append_cases a [] ys h = inr h
  Elem-append_cases a (x ∷ xs) ys (inl e) = inl (inl e)
  Elem-append_cases a (x ∷ xs) ys (inr m) = elim (Elem-append_cases a xs ys m) [
    | inl l ↦ inl (inr l)
    | inr r ↦ inr r
  ]

  pub All-Elem {κ} : (P : A → Type κ) (a : A) (xs : List A) → All P xs → Elem a xs → P a
  All-Elem P a [] h m = absurd m
  All-Elem P a (x ∷ xs) h (inl e) = subst P (sym e) h.0
  All-Elem P a (x ∷ xs) h (inr m) = All-Elem P a xs h.1 m

pub length-map {ℓ κ} :
    {A : Type ℓ} {B : Type κ} (f : A → B) (xs : List A) → length (map f xs) ≡ length xs
length-map f [] = refl
length-map f (x ∷ xs) = ap suc (length-map f xs)
