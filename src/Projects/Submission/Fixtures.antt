-- ===== src/Projects/Submission/Fixtures.antt =====
-- A proposal that is ready to be submitted, for the tests.
pub mod Passes
use pafs_backend_api.Prelude.{
  String, true, false, List, [], ◌∷◌, none, some, pos, ◌===◌, if◌then◌else◌,
}
use pafs_backend_api.Projects.Value.{Value, undefined, flag, number, text, Row, Project}

abbrev pub row_of : List (String × Value) → Row
row_of [] name = undefined
row_of ((field, v) ∷ fields) name = if field === name then v else row_of fields name

abbrev pub defence_fields : List (String × Value)
defence_fields =
    ("projectType", text "DEF")
    ∷ ("projectInterventionTypes", text "PFR, Other")
    ∷ ("mainInterventionType", text "PFR")
    ∷ ("financialStartYear", number (pos 2025))
    ∷ ("financialEndYear", text "2030")
    ∷ ("benefitAreaFileName", text "area.zip")
    ∷ ("startOutlineBusinessCaseMonth", number (pos 6))
    ∷ ("startOutlineBusinessCaseYear", number (pos 2025))
    ∷ ("completeOutlineBusinessCaseMonth", number (pos 1))
    ∷ ("completeOutlineBusinessCaseYear", number (pos 2026))
    ∷ ("awardContractMonth", text "09")
    ∷ ("awardContractYear", text "2026")
    ∷ ("startConstructionMonth", number (pos 2))
    ∷ ("startConstructionYear", number (pos 2027))
    ∷ ("readyForServiceMonth", number (pos 3))
    ∷ ("readyForServiceYear", number (pos 2031))
    ∷ ("couldStartEarly", flag false)
    ∷ ("localLevy", flag true)
    ∷ ("risks", text "coastal_erosion")
    ∷ ("noPropertiesAtCoastalErosionRisk", flag true)
    ∷ ("percentProperties20PercentDeprived", number (pos 20))
    ∷ ("percentProperties40PercentDeprived", text "100")
    ∷ ("currentCoastalErosionRisk", text "medium_term")
    ∷ ("approach", text "A wall.")
    ∷ ("environmentalBenefits", flag false)
    ∷ ("urgencyReason", text "not_urgent")
    ∷ ("wlcEstimatedWholeLifePvCosts", number (pos 900))
    ∷ ("wlcEstimatedDesignConstructionCosts", number (pos 700))
    ∷ ("wlcEstimatedRiskContingencyCosts", number (pos 100))
    ∷ ("wlcEstimatedFutureCosts", number (pos 0))
    ∷ ("wlbEstimatedWholeLifePvBenefits", number (pos 5000))
    ∷ ("confidenceHomesBetterProtected", text "high")
    ∷ ("confidenceHomesByGatewayFour", text "low")
    ∷ ("confidenceSecuredPartnershipFunding", text "medium_low")
    ∷ ("carbonOperationalCostForecast", number (pos 10))
    ∷ []

abbrev pub levy : Row
levy = row_of (
    ("id", number (pos 7))
    ∷ ("financialYear", number (pos 2026))
    ∷ ("total", number (pos 800))
    ∷ ("localLevy", text "500")
    ∷ [])

-- A contributor whose first amount is missing and whose second is not.
abbrev pub council : Value → Row
council amount = row_of (
    ("fundingValueId", number (pos 7))
    ∷ ("contributorType", text "public")
    ∷ ("name", text "Council")
    ∷ ("amount", amount)
    ∷ [])

abbrev pub defence : Project
defence = record {
  field = row_of defence_fields;
  pafs_core_funding_values = some (levy ∷ []);
  funding_values = none;
  pafs_core_funding_contributors = some (council undefined ∷ council (number (pos 300)) ∷ []);
  pafs_core_nfm_measures = none;
  pafs_core_nfm_land_use_changes = none;
}
