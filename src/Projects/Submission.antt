-- ===== src/Projects/Submission.antt =====
-- src/plugins/projects/helpers/project-validations/validate-submission.js: the whole validation of
-- a proposal, which lists the errors of its checks.
pub mod Types
pub mod Sections
pub mod ImportantDates
pub mod Risks
pub mod Environment
pub mod Funding
pub mod Nfm
pub mod Chronology
pub mod Contributors
pub mod Ready
pub mod Complete
pub mod Fixtures
mod Tests
use pafs_backend_api.Prelude.{ℕ, String, List, [], ◌∷◌, none, some, ℤ}
use pafs_backend_api.Projects.Value.{Row, Project}
use Types.{SubmissionError, Checked}
use Sections.{
  validate_project_type, validate_financial_years, validate_benefit_area, validate_goals,
  validate_urgency, validate_wlc, validate_wlb, validate_confidence, validate_carbon,
}
use ImportantDates.{validate_important_dates}
use Risks.{validate_risk_and_properties}
use Environment.{validate_environmental_benefits}
use Funding.{
  validate_funding_sources, validate_funding_source_values, validate_funding_contributors,
}
use Nfm.{validate_nfm}

-- `if (errorCode) errors.push(errorCode)`
abbrev pub errors_of : List Checked → List SubmissionError
errors_of [] = []
errors_of (none ∷ cs) = errors_of cs
errors_of (some e ∷ cs) = e ∷ errors_of cs

module _ (hexdigest legacy_hexdigest : Project → List Row → String) (month : ℕ) (year : ℤ) where
  abbrev pub checks : Project → List Checked
  checks p =
      validate_project_type p
      ∷ validate_financial_years p
      ∷ validate_benefit_area p
      ∷ validate_important_dates month year p
      ∷ validate_funding_sources p
      ∷ validate_funding_source_values p
      ∷ validate_funding_contributors p
      ∷ validate_risk_and_properties p
      ∷ validate_goals p
      ∷ validate_environmental_benefits p
      ∷ validate_nfm p
      ∷ validate_urgency p
      ∷ validate_wlc p
      ∷ validate_wlb p
      ∷ validate_confidence p
      ∷ validate_carbon hexdigest legacy_hexdigest p
      ∷ []

  unfoldable pub validate_submission : Project → List SubmissionError
  validate_submission p = errors_of (checks p)
