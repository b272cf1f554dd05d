-- ===== src/Projects/Submission/ImportantDates.antt =====
-- src/plugins/projects/helpers/project-validations/validate-submission.js: the important dates. The
-- present is its calendar month, from 1, and its year.
use pafs_backend_api.Prelude.{
  ℕ, String, Bool, true, false, not, ◌&&◌, ◌||◌, List, [], ◌∷◌, Option, none, some, if◌then◌else◌,
  ℤ, pos, ltb_ℤ, leb_ℤ,
}
use pafs_backend_api.Projects.Value.{Row, Project, has_value, to_number, set_has, is_true_or_text}
use pafs_backend_api.Projects.Dates.{
  is_null, to_date_ordinal, fy_start_ordinal, fy_end_ordinal, current_fy_start_year,
}
use pafs_backend_api.Projects.Submission.Types.{
  important_dates_incomplete, important_dates_out_of_range, Checked, unless,
}
use pafs_backend_api.Projects.Submission.Sections.{all_have_values}

abbrev pub simplified_date_types : List String
simplified_date_types = "STU" ∷ "STR" ∷ []

-- the fields of a month and a year
abbrev pub date_sequence : List (String × String)
date_sequence =
    ("startOutlineBusinessCaseMonth", "startOutlineBusinessCaseYear")
    ∷ ("completeOutlineBusinessCaseMonth", "completeOutlineBusinessCaseYear")
    ∷ ("awardContractMonth", "awardContractYear")
    ∷ ("startConstructionMonth", "startConstructionYear")
    ∷ ("readyForServiceMonth", "readyForServiceYear")
    ∷ []

abbrev pub simplified_date_sequence : List (String × String)
simplified_date_sequence =
    ("startOutlineBusinessCaseMonth", "startOutlineBusinessCaseYear")
    ∷ ("readyForServiceMonth", "readyForServiceYear")
    ∷ []

abbrev pub required_date_fields : List String
required_date_fields =
    "startOutlineBusinessCaseMonth" ∷ "startOutlineBusinessCaseYear"
    ∷ "completeOutlineBusinessCaseMonth" ∷ "completeOutlineBusinessCaseYear" ∷ "awardContractMonth"
    ∷ "awardContractYear" ∷ "startConstructionMonth" ∷ "startConstructionYear"
    ∷ "readyForServiceMonth" ∷ "readyForServiceYear" ∷ []

abbrev pub simplified_required_date_fields : List String
simplified_required_date_fields =
    "startOutlineBusinessCaseMonth" ∷ "startOutlineBusinessCaseYear" ∷ "readyForServiceMonth"
    ∷ "readyForServiceYear" ∷ []

abbrev pub in_range : ℤ → ℤ → Option ℤ → Bool
in_range lower upper none = true
in_range lower upper (some o) = leb_ℤ lower o && leb_ℤ o upper

abbrev pub every_in_range : Row → ℤ → ℤ → List (String × String) → Bool
every_in_range row lower upper [] = true
every_in_range row lower upper ((month, year) ∷ fields) =
    if in_range lower upper (to_date_ordinal (row month) (row year))
    then every_in_range row lower upper fields
    else false

unfoldable pub are_dates_in_proposal_range : Row → ℤ → ℤ → List (String × String) → Bool
unfolding to_date_ordinal fy_start_ordinal fy_end_ordinal
are_dates_in_proposal_range row start_year end_year sequence =
    every_in_range row (fy_start_ordinal start_year) (fy_end_ordinal end_year) sequence

-- `prev !== null && ordinal <= prev`
abbrev pub not_after : Option ℤ → ℤ → Bool
not_after none o = false
not_after (some prev) o = leb_ℤ o prev

-- One round of the loop, with what follows it: the date of a round that has one is the next `prev`.
abbrev pub next_date : (Option ℤ → Bool) → Option ℤ → Option ℤ → Bool
next_date rest prev none = rest prev
next_date rest prev (some o) = if not_after prev o then false else rest (some o)

abbrev pub chronological_from : Row → List (String × String) → Option ℤ → Bool
chronological_from row [] prev = true
chronological_from row ((month, year) ∷ fields) prev =
    next_date (chronological_from row fields) prev (to_date_ordinal (row month) (row year))

unfoldable pub are_dates_chronological : Row → List (String × String) → Bool
unfolding to_date_ordinal
are_dates_chronological row sequence = chronological_from row sequence none

-- `null` is 0 in a comparison
abbrev pub or_zero : Option ℤ → ℤ
or_zero none = pos 0
or_zero (some o) = o

-- The range is checked where both years are numbers.
abbrev pub range_holds : Row → List (String × String) → Option ℤ → Option ℤ → Bool
range_holds row sequence (some start_year) (some end_year) =
    are_dates_in_proposal_range row start_year end_year sequence
range_holds row sequence (some start_year) none = true
range_holds row sequence none e = true

unfoldable pub proposal_range_holds : Row → List (String × String) → Bool
unfolding are_dates_in_proposal_range to_number
proposal_range_holds row sequence =
    if has_value (row "financialStartYear") && has_value (row "financialEndYear")
    then range_holds row sequence (to_number (row "financialStartYear"))
        (to_number (row "financialEndYear"))
    else true

module _ (month : ℕ) (year : ℤ) where
  abbrev pub gia_in_range : Option ℤ → Option ℤ → Bool
  gia_in_range none sobc = true
  gia_in_range (some gia) sobc =
      not (ltb_ℤ gia (fy_start_ordinal (current_fy_start_year month year)))
      && not (ltb_ℤ (or_zero sobc) gia)

  unfoldable pub validate_gia_range : Row → Checked
  unfolding to_date_ordinal fy_start_ordinal current_fy_start_year
  validate_gia_range row =
      unless
        (gia_in_range (to_date_ordinal (row "earliestWithGiaMonth") (row "earliestWithGiaYear")) (
          to_date_ordinal (row "startOutlineBusinessCaseMonth")
            (row "startOutlineBusinessCaseYear")))
        important_dates_out_of_range

  unfoldable pub validate_could_start_early : Row → Checked
  unfolding validate_gia_range
  validate_could_start_early row =
      if is_null (row "couldStartEarly")
      then some important_dates_incomplete
      else if not (is_true_or_text (row "couldStartEarly"))
      then none
      else if not (has_value (row "earliestWithGiaMonth"))
          || not (has_value (row "earliestWithGiaYear"))
      then some important_dates_incomplete
      else validate_gia_range row

  unfoldable pub validate_date_fields : Row → List String → List (String × String) → Checked
  unfolding are_dates_chronological proposal_range_holds validate_could_start_early
  validate_date_fields row required sequence =
      if not (all_have_values row required)
      then some important_dates_incomplete
      else if not (are_dates_chronological row sequence)
      then some important_dates_out_of_range
      else if not (proposal_range_holds row sequence)
      then some important_dates_out_of_range
      else validate_could_start_early row

  unfoldable pub validate_important_dates : Project → Checked
  unfolding validate_date_fields
  validate_important_dates p =
      if set_has simplified_date_types (p.field "projectType")
      then validate_date_fields p.field simplified_required_date_fields simplified_date_sequence
      else validate_date_fields p.field required_date_fields date_sequence
