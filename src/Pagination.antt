-- ===== src/Pagination.antt =====
-- Pages of listings (backend/internal/domain/service/pagination.go). Go's `int` is an integer here:
-- its wrap at 2 ^ 64 does not show in an `int32`, which wraps at 2 ^ 32.
pub mod Bounds
mod Examples
use hopeitworks.Prelude.{Bool, true, ℕ, ◌+◌, ◌-◌, ◌*◌, ◌%◌, ltb, if◌then◌else◌}
use hopeitworks.Prelude.Int.{ℤ, pos, negsuc}

-- `page < 1`, for a positive bound.
abbrev below : ℤ → ℕ → Bool
below (pos n) bound = ltb n bound
below (negsuc n) bound = true

-- The number of a page that is at least 1.
abbrev at_least_one : ℕ → ℤ → ℕ
at_least_one default (negsuc n) = default
at_least_one default (pos n) = if ltb n 1 then default else n

unfoldable pub clamp_pagination : ℤ → ℤ → ℕ × ℕ
clamp_pagination page per_page =
    let p = at_least_one 1 page in
    let n = at_least_one 20 per_page in (p, if ltb 100 n then 100 else n)

-- `int32(n)`.
unfoldable pub to_int32 : ℕ → ℤ
to_int32 n = let r = n % 4294967296 in if ltb r 2147483648 then pos r else negsuc (4294967295 - r)

unfoldable pub pagination_to_limit_offset : ℤ → ℤ → ℤ × ℤ
unfolding clamp_pagination to_int32
pagination_to_limit_offset page per_page =
    let (p, n) = clamp_pagination page per_page in (to_int32 n, to_int32 ((p - 1) * n))
