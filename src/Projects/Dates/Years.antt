-- ===== src/Projects/Dates/Years.antt =====
-- Ordinals and financial years.
use pafs_backend_api.Prelude.{ℕ, ◌≤◌, ◌<◌, ◌≡◌, ◌↔◌, ◌⊎◌, ℤ, ◌≤ℤ◌, ◌<ℤ◌, arith}
use pafs_backend_api.Projects.Dates.{
  month_ordinal, fy_start_ordinal, fy_end_ordinal, to_financial_year,
}

-- A month of a year lies between the bounds that the validators put to a range of financial years
-- exactly when the financial year of the month lies in the range.
pub in_range_iff :
    (month : ℕ) (year first last : ℤ)
    → 1 ≤ month
    → month ≤ 12
    → ((fy_start_ordinal first ≤ℤ month_ordinal year month)
        × (month_ordinal year month ≤ℤ fy_end_ordinal last))
      ↔ ((first ≤ℤ to_financial_year month year) × (to_financial_year month year ≤ℤ last))
unfolding month_ordinal fy_start_ordinal fy_end_ordinal to_financial_year
in_range_iff month year first last lo hi = ground arith

-- The ordinals of months are in the order of the calendar.
pub month_ordinal-lt_iff :
    (m m' : ℕ) (y y' : ℤ)
    → 1 ≤ m
    → m ≤ 12
    → 1 ≤ m'
    → m' ≤ 12
    → (month_ordinal y m <ℤ month_ordinal y' m') ↔ ((y <ℤ y') ⊎ ((y ≡ y') × (m < m')))
unfolding month_ordinal
month_ordinal-lt_iff m m' y y' a b c d = ground arith
