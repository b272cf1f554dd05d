-- ===== src/Projects/Edits/Timeline.antt =====
-- src/plugins/projects/helpers/project-validations/perform-validations-timeline.js. A date of a
-- payload and the years of a project are numbers, or missing.
use pafs_backend_api.Prelude.{
  String, Bool, true, false, ◌&&◌, ◌||◌, Option, none, some, ℤ, pos, ◌===◌, if◌then◌else◌,
}
use pafs_backend_api.Projects.Value.{
  Value, undefined, number, Row, to_number, number_lt, add_numbers,
}
use pafs_backend_api.Projects.Submission.Funding.{same_integer}

-- `year === n`
abbrev pub is_number : Value → Option ℤ → Bool
is_number (number y) (some n) = same_integer y n
is_number _ _ = false

-- The number that a value is, where it is one.
abbrev pub as_number : Value → Option ℤ
as_number (number n) = some n
as_number _ = none

abbrev pub is_before_financial_start : Value → Value → Value → Bool
is_before_financial_start month year start =
    number_lt (to_number year) (to_number start)
    || (is_number year (as_number start) && number_lt (to_number month) (some (pos 4)))

abbrev pub is_after_financial_end : Value → Value → Option ℤ → Bool
is_after_financial_end month year end =
    number_lt end (to_number year)
    || (is_number year end && number_lt (some (pos 3)) (to_number month))

-- TIMELINE_FIELD_MAP, on the levels of TIMELINE_VALIDATION_LEVELS
abbrev pub timeline_fields : String → Option (String × String)
timeline_fields level =
    if level === "START_OUTLINE_BUSINESS_CASE"
    then some ("startOutlineBusinessCaseMonth", "startOutlineBusinessCaseYear")
    else if level === "COMPLETE_OUTLINE_BUSINESS_CASE"
    then some ("completeOutlineBusinessCaseMonth", "completeOutlineBusinessCaseYear")
    else if level === "AWARD_CONTRACT"
    then some ("awardContractMonth", "awardContractYear")
    else if level === "START_CONSTRUCTION"
    then some ("startConstructionMonth", "startConstructionYear")
    else if level === "READY_FOR_SERVICE"
    then some ("readyForServiceMonth", "readyForServiceYear")
    else none

abbrev pub is_undefined : Value → Bool
is_undefined undefined = true
is_undefined _ = false

-- The field of the error, if there is one.
unfoldable pub validate_timeline_date : Value → Value → Value → Option ℤ → String → Option String
unfolding to_number
validate_timeline_date month year start end field =
    if is_before_financial_start month year start || is_after_financial_end month year end
    then some field
    else none

abbrev pub validate_timeline_fields : Row → Row → Option (String × String) → Option String
validate_timeline_fields payload existing none = none
validate_timeline_fields payload existing (some (month, year)) =
    if is_undefined (payload month) || is_undefined (payload year)
    then none
    else validate_timeline_date (payload month) (payload year) (existing "financialStartYear")
        (add_numbers (to_number (existing "financialEndYear")) (some (pos 1))) month

unfoldable pub validate_timeline_boundaries : Row → String → Row → Option String
unfolding validate_timeline_date to_number add_numbers
validate_timeline_boundaries payload level existing =
    validate_timeline_fields payload existing (timeline_fields level)
