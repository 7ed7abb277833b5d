-- ===== src/Prelude/Int.antt =====
-- Go's `int` as far as limits and counters use it: signed, stepped by one.
use Prim.Native.Nat.{ℕ, zero, suc}
use mathlib.Core.Bool.{Bool, true, false}

-- `negsuc n` is -(n + 1).
pub data ℤ : Type 0 where
  pos : ℕ → ℤ
  negsuc : ℕ → ℤ

-- Zero for a number that is not above zero.
abbrev pub pos_part : ℤ → ℕ
pos_part (pos n) = n
pos_part (negsuc n) = 0

abbrev pub add_one : ℤ → ℤ
add_one (pos n) = pos (suc n)
add_one (negsuc zero) = pos 0
add_one (negsuc (suc n)) = negsuc n

abbrev pub sub_one : ℤ → ℤ
sub_one (pos zero) = negsuc 0
sub_one (pos (suc n)) = pos n
sub_one (negsuc n) = negsuc (suc n)

abbrev pub is_zero : ℤ → Bool
is_zero (pos zero) = true
is_zero (pos (suc n)) = false
is_zero (negsuc n) = false

abbrev pub is_neg : ℤ → Bool
is_neg (pos n) = false
is_neg (negsuc n) = true
