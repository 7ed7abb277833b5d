-- ===== src/Pagination/Examples.antt =====
-- A page past the range of `int32`.
use hopeitworks.Prelude.{ℕ, ◌≡◌, refl, ◌+◌, ◌*◌, ◌≤◌, arith}
use hopeitworks.Prelude.Int.{pos, negsuc}
use hopeitworks.Pagination.Bounds.{pages_adjoin}
use hopeitworks.Pagination.{clamp_pagination, to_int32, pagination_to_limit_offset}

wraps_test : pagination_to_limit_offset (pos 42949674) (pos 100) ≡ (pos 100, pos 4)
unfolding pagination_to_limit_offset clamp_pagination to_int32
wraps_test = refl

negative_test : pagination_to_limit_offset (pos 21474838) (pos 100) ≡ (pos 100, negsuc 2147483595)
unfolding pagination_to_limit_offset clamp_pagination to_int32
negative_test = refl

pages_adjoin_example :
    (n : ℕ) × (1 ≤ n)
    × (n ≤ 100)
    × (pagination_to_limit_offset (pos 3) (pos 50) ≡ (pos n, pos (2 * n)))
    × (pagination_to_limit_offset (pos 4) (pos 50) ≡ (pos n, pos (2 * n + n)))
pages_adjoin_example = pages_adjoin 2 (pos 50) (omega arith)
