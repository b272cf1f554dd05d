-- ===== src/Pagination.antt =====
-- src/common/helpers/pagination.js. The arguments of a request are what `Number.parseInt` makes of
-- them, `none` for NaN. A quotient of numbers that is rounded up is that of the integers.
pub mod Pages
mod Tests
use pafs_backend_api.Prelude.{
  ℕ, ◌+◌, ◌-◌, ◌*◌, ◌/◌, Bool, Option, none, some, ltb, ◌==◌, if◌then◌else◌, min, ℤ, pos, negsuc,
}

pub record PaginationMeta : Type 0 where
  pub page : ℕ
  pub page_size : ℕ
  pub total : ℕ
  pub total_pages : ℕ
  pub start : ℕ
  pub end : ℕ
  pub has_next_page : Bool
  pub has_previous_page : Bool

-- `Math.ceil(total / pageSize) || 1`
abbrev pub or_one : ℕ → ℕ
or_one n = if n == 0 then 1 else n

abbrev pub pages_of : ℕ → ℕ → ℕ
pages_of page_size total = or_one ((total + page_size - 1) / page_size)

unfoldable pub build_pagination_meta : ℕ → ℕ → ℕ → PaginationMeta
build_pagination_meta page page_size total = record {
  page = page;
  page_size = page_size;
  total = total;
  total_pages = pages_of page_size total;
  start = if total == 0 then 0 else (page - 1) * page_size + 1;
  end = min (page * page_size) total;
  has_next_page = ltb page (pages_of page_size total);
  has_previous_page = ltb 1 page;
}

pub record PaginationParams : Type 0 where
  pub page : ℕ
  pub page_size : ℕ
  pub skip : ℕ
  pub take : ℕ

-- The number, or a default where it is NaN or less than 1.
abbrev pub at_least_one : ℕ → Option ℤ → ℕ
at_least_one default none = default
at_least_one default (some (negsuc n)) = default
at_least_one default (some (pos n)) = if ltb n 1 then default else n

abbrev pub at_most : ℕ → ℕ → ℕ
at_most max_size size = if ltb max_size size then max_size else size

unfoldable pub normalize_pagination_params : ℕ → ℕ → Option ℤ → Option ℤ → PaginationParams
normalize_pagination_params default_size max_size page page_size =
    let normalized_page = at_least_one 1 page in
    let normalized_size = at_most max_size (at_least_one default_size page_size) in
    record {
      page = normalized_page;
      page_size = normalized_size;
      skip = (normalized_page - 1) * normalized_size;
      take = normalized_size;
    }
