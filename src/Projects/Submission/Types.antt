-- ===== src/Projects/Submission/Types.antt =====
-- The error codes of the submission validators, and the small helpers of
-- src/plugins/projects/helpers/project-validations/validate-submission.js and validate-nfm.js.
use pafs_backend_api.Prelude.{
  String, Bool, true, false, List, [], Option, none, some, if◌then◌else◌, pos, trim, split_commas,
}
use pafs_backend_api.Projects.Value.{
  Value, undefined, null, texts, has_value, truthy, to_number, to_text, number_lt, number_le,
  parts_of, non_empty,
}

pub data SubmissionError : Type 0 where
  project_type_basic_incomplete project_type_incomplete : SubmissionError
  financial_start_year_incomplete financial_end_year_incomplete : SubmissionError
  financial_end_year_not_after_start benefit_area_incomplete : SubmissionError
  important_dates_incomplete important_dates_out_of_range : SubmissionError
  funding_sources_incomplete risk_properties_incomplete goals_incomplete : SubmissionError
  environmental_benefits_incomplete nfm_incomplete urgency_incomplete : SubmissionError
  wlc_incomplete wlb_incomplete confidence_incomplete carbon_incomplete : SubmissionError

-- What a check returns: an error code, or null.
abbrev pub Checked : Type 0
Checked = Option SubmissionError

-- The error where the test fails.
abbrev pub unless : Bool → SubmissionError → Checked
unless true e = none
unless false e = some e

-- `a || b` on the results of checks: the first error.
abbrev pub first_error : Checked → Checked → Checked
first_error (some e) c = some e
first_error none c = c

unfoldable pub is_positive : Value → Bool
unfolding to_number
is_positive v = if has_value v then number_lt (some (pos 0)) (to_number v) else false

unfoldable pub is_valid_percentage : Value → Bool
unfolding to_number
is_valid_percentage v =
    if has_value v
    then (if number_le (some (pos 0)) (to_number v)
        then number_le (to_number v) (some (pos 100))
        else false)
    else false

unfoldable pub parse_risks : Value → List String
unfolding split_commas trim to_text
parse_risks (texts ts) = ts
parse_risks v = if truthy v then parts_of (to_text v) else []

-- as parse_risks, with the empty items of an array left out
unfoldable pub parse_csv : Value → List String
unfolding split_commas trim to_text
parse_csv (texts ts) = non_empty ts
parse_csv v = if truthy v then parts_of (to_text v) else []

-- `a ?? b`
abbrev pub or_else : Value → Value → Value
or_else undefined w = w
or_else null w = w
or_else v w = v
