-- ===== src/Projects/Edits/Tests.antt =====
-- Saves of a concrete project.
use pafs_backend_api.Prelude.{
  ◌+ℤ◌, String, ◌≡◌, refl, ◌↔◌, Bool, true, false, [], ◌∷◌, Option, none, some, pos, arith,
}
use pafs_backend_api.Areas.Fixtures.{rows, council, north, anglian}
use pafs_backend_api.Areas.Hierarchy.{AreaWithParents}
use pafs_backend_api.JwtAuth.Cache.{Credentials}
use pafs_backend_api.Projects.Value.{number, Row}
use pafs_backend_api.Projects.Submission.Fixtures.{row_of}
use pafs_backend_api.Projects.Submission.ImportantDates.{are_dates_in_proposal_range}
use pafs_backend_api.Projects.Edits.{EditPayload, ExistingProject, edit_passed, perform_validations}
use pafs_backend_api.Projects.Edits.Timeline.{validate_timeline_boundaries}
use pafs_backend_api.Projects.Edits.Rights.{in_area, old_area_ignored}
use pafs_backend_api.Projects.Edits.Ranges.{timeline_matches_submission}

-- A user of the council, whose area is number 3.
abbrev clerk : Credentials
clerk = record {
  user_id = 2;
  email = "k@example.org";
  first_name = "K";
  last_name = "L";
  is_admin = false;
  session_id = "s";
  areas = record { area_id = 3; primary = true; name = "Council"; area_type = "RMA" } ∷ [];
  flags = record { primary_area_type = some "RMA"; is_rma = true; is_pso = false; is_ea = false };
}

abbrev outline : Row
outline = row_of (
    ("startOutlineBusinessCaseMonth", number (pos 3))
    ∷ ("startOutlineBusinessCaseYear", number (pos 2031))
    ∷ [])

abbrev years : Row
years =
    row_of
      (("financialStartYear", number (pos 2025)) ∷ ("financialEndYear", number (pos 2030)) ∷ [])

-- A page that names the council's area.
abbrev page : EditPayload
page = record {
  reference_number = some "ANC501E/000A/005A";
  name = none;
  area_id = some 3;
  fields = outline;
  funding_values = none;
}

-- A project of the area number 8.
abbrev foreign : ExistingProject
foreign = record { name = some "A wall"; area_id = some 8; fields = years }

abbrev never_taken : Option String → Option String → Bool
never_taken name reference = false

abbrev level : String
level = "START_OUTLINE_BUSINESS_CASE"

abbrev council_read : AreaWithParents
council_read = record { area = council; pso_area = some north; ea_area = some anglian }

-- The clerk has no access to the area of the project, and the page passes.
taken_over :
    perform_validations rows never_taken clerk level page (some foreign)
    ≡ edit_passed none (some council_read)
unfolding perform_validations ◌+ℤ◌
taken_over = refl

old_area_ignored_example :
    perform_validations rows never_taken clerk level page (some (in_area foreign 8))
    ≡ perform_validations rows never_taken clerk level page (some (in_area foreign 9))
old_area_ignored_example =
    old_area_ignored rows never_taken clerk level page 3 8 9 foreign refl refl refl refl

timeline_matches_submission_example : (validate_timeline_boundaries outline level years ≡ none) ↔ (
    are_dates_in_proposal_range outline
      (pos 2025)
      (pos 2030)
      (("startOutlineBusinessCaseMonth", "startOutlineBusinessCaseYear") ∷ [])
    ≡ true)
timeline_matches_submission_example =
    timeline_matches_submission outline years level "startOutlineBusinessCaseMonth"
      "startOutlineBusinessCaseYear" 3 (pos 2031) (pos 2025) (pos 2030) refl refl refl refl refl
      (omega arith) (omega arith)
