-- ===== src/Pagination/Bounds.antt =====
-- Limits and offsets stay within bounds, and pages adjoin.
use hopeitworks.Prelude.{ℕ, zero, suc, ◌≡◌, ap, ◌∙◌, ◌+◌, ◌-◌, ◌*◌, ◌≤◌, ◌<◌, arith}
use hopeitworks.Prelude.Int.{ℤ, pos}
use hopeitworks.Pagination.{clamp_pagination, to_int32, pagination_to_limit_offset}

-- The clamped number of a page's rows.
unfoldable rows : ℤ → ℕ
rows per_page = (clamp_pagination (pos 1) per_page).1

rows_bounds : (per_page : ℤ) → (1 ≤ rows per_page) × (rows per_page ≤ 100)
unfolding rows clamp_pagination
rows_bounds per_page = ground arith

clamps : (p : ℕ) (per_page : ℤ) → clamp_pagination (pos (suc p)) per_page ≡ (suc p, rows per_page)
unfolding rows clamp_pagination
clamps p per_page = ap (λ x. (x, rows per_page)) (ground arith)

exact : (n : ℕ) → n < 2147483648 → to_int32 n ≡ pos n
unfolding to_int32
exact n h = ground arith

scaled : (p n : ℕ) → n ≤ 100 → p * n ≤ p * 100
scaled zero n h = omega arith
scaled (suc p) n h = omega (arith, scaled p n h)

less_one : (p : ℕ) → suc p - 1 ≡ p
less_one p = omega arith

page_of :
    (p : ℕ) (per_page : ℤ)
    → p * 100 < 2147483648
    → pagination_to_limit_offset (pos (suc p)) per_page
      ≡ (pos (rows per_page), pos (p * rows per_page))
unfolding pagination_to_limit_offset
page_of p per_page h =
    let n = rows per_page in
    let high = (rows_bounds per_page).1 in
    ap (λ c. (to_int32 c.1, to_int32 ((c.0 - 1) * c.1))) (clamps p per_page)
    ∙ ap (λ x. (x, to_int32 ((suc p - 1) * n))) (exact n (omega (arith, high)))
    ∙ ap (λ k. (pos n, to_int32 (k * n))) (less_one p)
    ∙ ap (λ y. (pos n, y)) (exact (p * n) (omega (arith, scaled p n high)))

-- Pages adjoin: for page numbers up to 21474836, a page has between 1 and 100 rows, its offset is the
-- number of rows on the pages before it, and the next page starts where it ends.
pub pages_adjoin :
    (p : ℕ) (per_page : ℤ)
    → suc p * 100 < 2147483648
    → (n : ℕ) × (1 ≤ n)
      × (n ≤ 100)
      × (pagination_to_limit_offset (pos (suc p)) per_page ≡ (pos n, pos (p * n)))
      × (pagination_to_limit_offset (pos (suc (suc p))) per_page ≡ (pos n, pos (p * n + n)))
pages_adjoin p per_page h =
    let (low, high) = rows_bounds per_page in
    (
      rows per_page,
      low,
      high,
      page_of p per_page (omega arith),
      page_of (suc p) per_page h ∙ ap (λ k. (pos (rows per_page), pos k)) (omega arith),
    )
