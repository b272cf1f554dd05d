-- ===== src/Projects/Dates/Tests.antt =====
-- The ordinals at concrete dates.
use pafs_backend_api.Prelude.{◌↔◌, pos, ◌≤ℤ◌, arith}
use pafs_backend_api.Projects.Dates.{
  month_ordinal, fy_start_ordinal, fy_end_ordinal, to_financial_year,
}
use pafs_backend_api.Projects.Dates.Years.{in_range_iff}

a_range_of_years :
    ((fy_start_ordinal (pos 2025) ≤ℤ month_ordinal (pos 2027) 3)
      × (month_ordinal (pos 2027) 3 ≤ℤ fy_end_ordinal (pos 2026)))
    ↔ ((pos 2025 ≤ℤ to_financial_year 3 (pos 2027)) × (to_financial_year 3 (pos 2027) ≤ℤ pos 2026))
a_range_of_years = in_range_iff 3 (pos 2027) (pos 2025) (pos 2026) (omega arith) (omega arith)
