-- ===== src/Projects/Submission/Fixtures/Passes.antt =====
-- The proposal of the tests passes the validation: every check of it, one by one.
use pafs_backend_api.Prelude.{trim, ◌+ℤ◌, String, List, [], none, ◌≡◌, refl, pos}
use pafs_backend_api.Projects.Value.{Row, Project}
use pafs_backend_api.Projects.Submission.{validate_submission}
use pafs_backend_api.Projects.Submission.Fixtures.{defence}
use pafs_backend_api.Projects.Submission.Sections.{
  validate_project_type, validate_financial_years, validate_benefit_area, validate_goals,
  validate_urgency, validate_wlc, validate_wlb, validate_confidence, validate_carbon,
}
use pafs_backend_api.Projects.Submission.ImportantDates.{validate_important_dates}
use pafs_backend_api.Projects.Submission.Funding.{
  validate_funding_sources, validate_funding_source_values, validate_funding_contributors,
}
use pafs_backend_api.Projects.Submission.Risks.{validate_risk_and_properties}
use pafs_backend_api.Projects.Submission.Environment.{validate_environmental_benefits}
use pafs_backend_api.Projects.Submission.Nfm.{validate_nfm}

abbrev pub digest : Project → List Row → String
digest p rows = "d"

project_type_none : validate_project_type defence ≡ none
unfolding validate_project_type
project_type_none = refl

financial_years_none : validate_financial_years defence ≡ none
unfolding validate_financial_years trim
financial_years_none = refl

benefit_area_none : validate_benefit_area defence ≡ none
unfolding validate_benefit_area
benefit_area_none = refl

important_dates_none : validate_important_dates 5 (pos 2025) defence ≡ none
unfolding validate_important_dates trim
important_dates_none = refl

funding_sources_none : validate_funding_sources defence ≡ none
unfolding validate_funding_sources trim ◌+ℤ◌
funding_sources_none = refl

funding_source_values_none : validate_funding_source_values defence ≡ none
unfolding validate_funding_source_values trim ◌+ℤ◌
funding_source_values_none = refl

funding_contributors_none : validate_funding_contributors defence ≡ none
unfolding validate_funding_contributors trim ◌+ℤ◌
funding_contributors_none = refl

risk_and_properties_none : validate_risk_and_properties defence ≡ none
unfolding validate_risk_and_properties
risk_and_properties_none = refl

goals_none : validate_goals defence ≡ none
unfolding validate_goals
goals_none = refl

environmental_benefits_none : validate_environmental_benefits defence ≡ none
unfolding validate_environmental_benefits
environmental_benefits_none = refl

nfm_none : validate_nfm defence ≡ none
unfolding validate_nfm
nfm_none = refl

urgency_none : validate_urgency defence ≡ none
unfolding validate_urgency
urgency_none = refl

wlc_none : validate_wlc defence ≡ none
unfolding validate_wlc
wlc_none = refl

wlb_none : validate_wlb defence ≡ none
unfolding validate_wlb
wlb_none = refl

confidence_none : validate_confidence defence ≡ none
unfolding validate_confidence
confidence_none = refl

carbon_none : validate_carbon digest digest defence ≡ none
unfolding validate_carbon
carbon_none = refl

pub no_errors : validate_submission digest digest 5 (pos 2025) defence ≡ []
unfolding validate_submission
no_errors =
    rw
      (
        project_type_none, financial_years_none, benefit_area_none, important_dates_none,
        funding_sources_none, funding_source_values_none, funding_contributors_none,
        risk_and_properties_none, goals_none, environmental_benefits_none, nfm_none, urgency_none,
        wlc_none, wlb_none, confidence_none, carbon_none,
      )
      refl
