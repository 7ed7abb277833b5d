-- ===== src/Prelude/Tests.antt =====
-- Boolean tests on numbers and texts, the conditional, and case splits that keep the equation.
use Prim.Native.Nat.{ℕ, compare, Ordering}
use Prim.Native.String.{String, compare as compare_str}
use mathlib.Core.Path.{◌≡◌, refl}
use mathlib.Core.Logic.{◌⊎◌, inl, inr}
use mathlib.Core.Bool.{Bool, true, false}
use mathlib.Core.Option.{Option, none, some}
use native.Mathlib.Omega.{arith}
use text.Mathlib.Text.{◌==◌ as text_eq}
use text.Mathlib.TextEquality.{eq_iff}
use text.Mathlib.TextPositions.{eq_refl}

abbrev pub ltb : ℕ → ℕ → Bool
ltb a b = elim (compare a b) [ Ordering.lt ↦ true | _ ↦ false ]

abbrev pub leb : ℕ → ℕ → Bool
leb a b = elim (compare a b) [ Ordering.gt ↦ false | _ ↦ true ]

infix 50 ◌==◌
abbrev pub ◌==◌ : ℕ → ℕ → Bool
a == b = elim (compare a b) [ Ordering.eq ↦ true | _ ↦ false ]

infix 1 if◌then◌else◌
abbrev pub if◌then◌else◌ {ℓ} : {A : Type ℓ} → Bool → A → A → A
if true then x else y = x
if false then x else y = y

-- Equality of texts, shut: its laws are the three lemmas below.
infix 50 ◌=s=◌
unfoldable pub ◌=s=◌ : String → String → Bool
s =s= t = text_eq s t

pub =s=-refl : (s : String) → (s =s= s) ≡ true
unfolding ◌=s=◌
=s=-refl s = eq_refl s

pub =s=→≡ : (s t : String) → (s =s= t) ≡ true → s ≡ t
unfolding ◌=s=◌
=s=→≡ s t h = (eq_iff s t).0 h

pub ≡→=s= : (s t : String) → s ≡ t → (s =s= t) ≡ true
unfolding ◌=s=◌
≡→=s= s t h = (eq_iff s t).1 h

-- `<=` of texts, by code points.
unfoldable pub str_leb : String → String → Bool
str_leb s t = elim (compare_str s t) [ Ordering.gt ↦ false | _ ↦ true ]

pub Bool-cases : (b : Bool) → (b ≡ true) ⊎ (b ≡ false)
Bool-cases true = inl refl
Bool-cases false = inr refl

pub Option-cases {ℓ} : {A : Type ℓ} (o : Option A) → (o ≡ none) ⊎ ((a : A) × (o ≡ some a))
Option-cases none = inl refl
Option-cases (some a) = inr (a, refl)

pub ==_iff : (a b : ℕ) → ((a == b) ≡ true → a ≡ b) × (a ≡ b → (a == b) ≡ true)
==_iff a b = ground arith
