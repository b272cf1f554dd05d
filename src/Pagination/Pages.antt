-- ===== src/Pagination/Pages.antt =====
-- The pages of a list hold every record once.
use pafs_backend_api.Prelude.{
  ℕ, ◌+◌, ◌-◌, ◌*◌, ◌/◌, ◌≤◌, ◌<◌, ◌≡◌, ◌↔◌, Option, ℤ, arith, none, some, pos, negsuc,
}
use native.Mathlib.Nat.{le-div_iff_mul-le, div-lt_iff_lt-mul, div-mul-le_self}
use pafs_backend_api.Pagination.{build_pagination_meta, at_least_one, normalize_pagination_params}

at_least_one-bound : (d : ℕ) (o : Option ℤ) → 1 ≤ d → 1 ≤ at_least_one d o
at_least_one-bound d none h = h
at_least_one-bound d (some (negsuc n)) h = h
at_least_one-bound d (some (pos n)) h = ground (arith, h)

-- With a default and a largest size that are not 0, the page is at least 1, the size is from 1 to
-- the largest, and the records that are skipped are those of the pages before.
pub normalize-bounds :
    (default_size max_size : ℕ) (page page_size : Option ℤ)
    → 1 ≤ default_size
    → 1 ≤ max_size
    → (1 ≤ (normalize_pagination_params default_size max_size page page_size).page)
      × ((1 ≤ (normalize_pagination_params default_size max_size page page_size).page_size)
          × ((normalize_pagination_params default_size max_size page page_size).page_size
              ≤ max_size))
unfolding normalize_pagination_params
normalize-bounds default_size max_size page page_size d m =
    let size = at_least_one-bound default_size page_size d in
    (at_least_one-bound 1 page (omega arith), (ground (arith, size, m), ground (arith, size, m)))

-- The record that comes after `i` others is on the page `p`, from its start to its end, exactly
-- when `p` is the quotient of `i` by the size, and one.
on_page_iff :
    (p size total i : ℕ)
    → 1 ≤ p
    → 1 ≤ size
    → i < total
    → (((build_pagination_meta p size total).start ≤ i + 1)
        × (i + 1 ≤ (build_pagination_meta p size total).end))
      ↔ (p ≡ i / size + 1)
unfolding build_pagination_meta
on_page_iff p size total i a b c =
    let lower : (p - 1 ≤ i / size) ↔ ((p - 1) * size ≤ i) = le-div_iff_mul-le (omega (arith, b)) in
    let upper : (i / size < p) ↔ (i < p * size) = div-lt_iff_lt-mul (omega (arith, b)) in
    (
      λ h. ground (arith, lower.1, upper.1, h.0, h.1, a, c),
      λ e. ground (arith, lower.0, upper.0, e, a, c),
    )

-- That page is one of the pages that are counted.
page_counted :
    (size total i : ℕ)
    → 1 ≤ size
    → i < total
    → i / size + 1 ≤ (build_pagination_meta 1 size total).total_pages
unfolding build_pagination_meta
page_counted size total i b c =
    let pages : (i / size + 1 ≤ (total + size - 1) / size)
        ↔ ((i / size + 1) * size ≤ total + size - 1) =
      le-div_iff_mul-le (omega (arith, b)) in
    let before : i / size * size ≤ i = div-mul-le_self i size in
    let enough : i / size + 1 ≤ (total + size - 1) / size = pages.1 (omega (arith, before, c)) in
    ground (arith, enough)

-- Every record is on one page and on no other, and that page is one of those that are counted: the
-- record that comes after `i` others is from the start to the end of the page `p` exactly when `p`
-- is the quotient of `i` by the size, and one, which is at most the number of pages.
pub on_one_page :
    (p size total i : ℕ)
    → 1 ≤ p
    → 1 ≤ size
    → i < total
    → ((((build_pagination_meta p size total).start ≤ i + 1)
          × (i + 1 ≤ (build_pagination_meta p size total).end))
        ↔ (p ≡ i / size + 1))
      × (i / size + 1 ≤ (build_pagination_meta p size total).total_pages)
unfolding build_pagination_meta
on_one_page p size total i a b c = (on_page_iff p size total i a b c, page_counted size total i b c)
