-- ===== src/Projects/Submission/Risks.antt =====
-- src/plugins/projects/helpers/project-validations/validate-submission.js: the risks and
-- properties.
use pafs_backend_api.Prelude.{
  String, Bool, not, ◌&&◌, ◌||◌, List, [], ◌∷◌, some, if◌then◌else◌, any,
}
use pafs_backend_api.Projects.Value.{Row, Project, has_value, is_true_or_text, includes}
use pafs_backend_api.Projects.Submission.Types.{
  risk_properties_incomplete, Checked, unless, is_positive, is_valid_percentage, parse_risks,
  or_else,
}

abbrev pub fluvial_coastal_risk_types : List String
fluvial_coastal_risk_types = "fluvial_flooding" ∷ "tidal_flooding" ∷ "sea_flooding" ∷ []

abbrev pub flood_risk_types : List String
flood_risk_types =
    "fluvial_flooding" ∷ "tidal_flooding" ∷ "groundwater_flooding" ∷ "surface_water_flooding"
    ∷ "sea_flooding" ∷ "reservoir_flooding" ∷ []

-- `risks.some((r) => set.has(r))`
abbrev pub some_in : List String → List String → Bool
some_in set risks = any (λ r. includes r set) risks

unfoldable pub is_flood_properties_satisfied : Row → Bool
unfolding is_positive
is_flood_properties_satisfied row =
    is_true_or_text (row "noPropertiesAtRisk")
    || is_positive (row "maintainingExistingAssets")
    || is_positive (row "reducingFloodRisk50Plus")
    || is_positive (row "reducingFloodRiskLess50")
    || is_positive (row "increasingFloodResilience")

unfoldable pub is_coastal_properties_satisfied : Row → Bool
unfolding is_positive
is_coastal_properties_satisfied row =
    is_true_or_text (row "noPropertiesAtCoastalErosionRisk")
    || is_positive (row "propertiesBenefitMaintainingAssetsCoastal")
    || is_positive (row "propertiesBenefitInvestmentCoastalErosion")

unfoldable pub validate_risks_by_type : List String → Row → Checked
validate_risks_by_type risks row =
    if some_in fluvial_coastal_risk_types risks && not (has_value (row "currentFloodFluvialRisk"))
    then some risk_properties_incomplete
    else if includes "surface_water_flooding" risks
        && not (has_value (row "currentFloodSurfaceWaterRisk"))
    then some risk_properties_incomplete
    else unless
        (not (includes "coastal_erosion" risks) || has_value (row "currentCoastalErosionRisk"))
        risk_properties_incomplete

abbrev pub risks_of : Row → List String
risks_of row = parse_risks (or_else (row "risks") (row "projectRisksProtectedAgainst"))

unfoldable pub validate_risk_list : List String → Row → Checked
unfolding is_flood_properties_satisfied is_coastal_properties_satisfied is_valid_percentage
    validate_risks_by_type
validate_risk_list risks row =
    if some_in flood_risk_types risks && not (is_flood_properties_satisfied row)
    then some risk_properties_incomplete
    else if includes "coastal_erosion" risks && not (is_coastal_properties_satisfied row)
    then some risk_properties_incomplete
    else if not (is_valid_percentage (row "percentProperties20PercentDeprived"))
        || not (is_valid_percentage (row "percentProperties40PercentDeprived"))
    then some risk_properties_incomplete
    else validate_risks_by_type risks row

unfoldable pub validate_risk_and_properties : Project → Checked
unfolding validate_risk_list parse_risks
validate_risk_and_properties p = validate_risk_list (risks_of p.field) p.field
