-- ===== src/Projects/Dates.antt =====
-- src/plugins/projects/helpers/project-validations/submission/submission-date-utils.js, and
-- `toFinancialYear` of src/plugins/projects/carbon-impact/carbon-impact.js.
pub mod Years
mod Tests
use pafs_backend_api.Prelude.{
  ℕ, ◌+◌, ◌*◌, Bool, true, false, ◌||◌, Option, none, some, ltb, leb, if◌then◌else◌, ℤ, pos, negsuc,
  sub_ℕ, ◌+ℤ◌,
}
use pafs_backend_api.Projects.Value.{Value, undefined, null, to_number}

abbrev pub is_null : Value → Bool
is_null undefined = true
is_null null = true
is_null _ = false

-- `year * 12 + month`
unfoldable pub month_ordinal : ℤ → ℕ → ℤ
month_ordinal (pos y) month = pos (y * 12 + month)
month_ordinal (negsuc y) month = sub_ℕ month ((y + 1) * 12)

unfoldable pub ordinal_of : Option ℤ → Option ℤ → Option ℤ
unfolding month_ordinal
ordinal_of (some (pos m)) (some y) = if ltb m 1 || ltb 12 m then none else some (month_ordinal y m)
ordinal_of _ _ = none

unfoldable pub to_date_ordinal : Value → Value → Option ℤ
unfolding ordinal_of to_number
to_date_ordinal month year =
    if is_null month || is_null year then none else ordinal_of (to_number month) (to_number year)

unfoldable pub fy_start_ordinal : ℤ → ℤ
unfolding month_ordinal
fy_start_ordinal year = month_ordinal year 4

unfoldable pub fy_end_ordinal : ℤ → ℤ
unfolding month_ordinal ◌+ℤ◌
fy_end_ordinal year = month_ordinal (year +ℤ pos 1) 3

-- of the calendar month of the present, from 1, and its year
unfoldable pub current_fy_start_year : ℕ → ℤ → ℤ
unfolding ◌+ℤ◌
current_fy_start_year month year = if leb 4 month then year else year +ℤ negsuc 0

unfoldable pub to_financial_year : ℕ → ℤ → ℤ
unfolding ◌+ℤ◌
to_financial_year month year = if leb 4 month then year else year +ℤ negsuc 0
