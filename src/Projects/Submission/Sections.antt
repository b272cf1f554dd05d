-- ===== src/Projects/Submission/Sections.antt =====
-- src/plugins/projects/helpers/project-validations/validate-submission.js: the sections of a
-- proposal that are checked field by field. The digests of the carbon calculator, whose arithmetic
-- is floating point, are parameters.
use pafs_backend_api.Prelude.{
  String, Bool, true, false, not, ◌&&◌, ◌||◌, List, [], ◌∷◌, none, some, if◌then◌else◌, ◌===◌,
}
use pafs_backend_api.Projects.Value.{
  undefined, null, flag, number, text, texts, Row, Project, has_value, to_number, number_lt,
  set_has, includes, is_text, mandatory_wl_types, funding_values_of,
}
use pafs_backend_api.Projects.Submission.Types.{
  project_type_basic_incomplete, project_type_incomplete, financial_start_year_incomplete,
  financial_end_year_incomplete, financial_end_year_not_after_start, benefit_area_incomplete,
  goals_incomplete, urgency_incomplete, wlc_incomplete, wlb_incomplete, confidence_incomplete,
  carbon_incomplete, Checked, unless, parse_risks,
}

-- Object.values(PROJECT_TYPES)
abbrev pub all_valid_types : List String
all_valid_types = "DEF" ∷ "REP" ∷ "REF" ∷ "HCR" ∷ "STR" ∷ "STU" ∷ "ELO" ∷ []

-- Object.values(PROJECT_INTERVENTION_TYPES)
abbrev pub valid_intervention_types : List String
valid_intervention_types = "NFM" ∷ "SUDS" ∷ "PFR" ∷ "Other" ∷ []

abbrev pub carbon_free_types : List String
carbon_free_types = "STU" ∷ "STR" ∷ []

-- `list.every((i) => set.has(i))`
abbrev pub all_in : List String → List String → Bool
all_in set [] = true
all_in set (t ∷ ts) = if includes t set then all_in set ts else false

abbrev pub is_nil : List String → Bool
is_nil [] = true
is_nil (t ∷ ts) = false

abbrev pub is_mandatory : Project → Bool
is_mandatory p = set_has mandatory_wl_types (p.field "projectType")

unfoldable pub validate_interventions : Project → Checked
unfolding parse_risks
validate_interventions p =
    let interventions = parse_risks (p.field "projectInterventionTypes") in
    if is_nil interventions || not (has_value (p.field "mainInterventionType"))
    then some project_type_incomplete
    else unless
        (all_in valid_intervention_types interventions
          && set_has valid_intervention_types (p.field "mainInterventionType"))
        project_type_incomplete

unfoldable pub validate_project_type : Project → Checked
unfolding validate_interventions
validate_project_type p =
    let type = p.field "projectType" in
    if not (has_value type) || not (set_has all_valid_types type)
    then some project_type_basic_incomplete
    else if is_mandatory p
    then validate_interventions p
    else none

unfoldable pub validate_financial_years : Project → Checked
unfolding to_number
validate_financial_years p =
    if not (has_value (p.field "financialStartYear"))
    then some financial_start_year_incomplete
    else if not (has_value (p.field "financialEndYear"))
    then some financial_end_year_incomplete
    else unless
        (not (
          number_lt (to_number (p.field "financialEndYear"))
            (to_number (p.field "financialStartYear"))))
        financial_end_year_not_after_start

unfoldable pub validate_benefit_area : Project → Checked
validate_benefit_area p = unless (has_value (p.field "benefitAreaFileName")) benefit_area_incomplete

unfoldable pub validate_goals : Project → Checked
validate_goals p = unless (has_value (p.field "approach")) goals_incomplete

unfoldable pub validate_urgency : Project → Checked
validate_urgency p =
    unless
      (has_value (p.field "urgencyReason")
        && (is_text "not_urgent" (p.field "urgencyReason") || has_value (p.field "urgencyDetails")))
      urgency_incomplete

-- Every field of the list has a value.
abbrev pub all_have_values : Row → List String → Bool
all_have_values row [] = true
all_have_values row (f ∷ fs) = if has_value (row f) then all_have_values row fs else false

abbrev pub wlc_fields : List String
wlc_fields =
    "wlcEstimatedWholeLifePvCosts" ∷ "wlcEstimatedDesignConstructionCosts"
    ∷ "wlcEstimatedRiskContingencyCosts" ∷ "wlcEstimatedFutureCosts" ∷ []

unfoldable pub validate_wlc : Project → Checked
validate_wlc p =
    if is_mandatory p then unless (all_have_values p.field wlc_fields) wlc_incomplete else none

unfoldable pub validate_wlb : Project → Checked
validate_wlb p =
    if is_mandatory p
    then unless (has_value (p.field "wlbEstimatedWholeLifePvBenefits")) wlb_incomplete
    else none

abbrev pub confidence_fields : List String
confidence_fields =
    "confidenceHomesBetterProtected" ∷ "confidenceHomesByGatewayFour"
    ∷ "confidenceSecuredPartnershipFunding" ∷ []

unfoldable pub validate_confidence : Project → Checked
validate_confidence p =
    if is_mandatory p
    then unless (all_have_values p.field confidence_fields) confidence_incomplete
    else none

module _ (hexdigest legacy_hexdigest : Project → List Row → String) where
  -- computeCarbonResults: `stored !== null && stored !== hexdigest && stored !== legacyHexdigest`
  unfoldable pub has_values_changed : Project → List Row → Bool
  has_values_changed p rows = elim (p.field "carbonValuesHexdigest") [
    | undefined ↦ false
    | null ↦ false
    | text stored ↦ not (stored === hexdigest p rows) && not (stored === legacy_hexdigest p rows)
    | flag b ↦ true
    | number n ↦ true
    | texts ts ↦ true
  ]

  unfoldable pub validate_carbon : Project → Checked
  unfolding has_values_changed
  validate_carbon p =
      if set_has carbon_free_types (p.field "projectType")
      then none
      else if not (has_value (p.field "carbonOperationalCostForecast"))
      then some carbon_incomplete
      else unless (not (has_values_changed p (funding_values_of p))) carbon_incomplete
