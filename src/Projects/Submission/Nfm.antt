-- ===== src/Projects/Submission/Nfm.antt =====
-- src/plugins/projects/helpers/project-validations/submission/validate-nfm.js.
use pafs_backend_api.Prelude.{
  String, Bool, true, false, not, ◌&&◌, List, [], ◌∷◌, Option, none, some, if◌then◌else◌,
}
use pafs_backend_api.Projects.Value.{
  Value, flag, Row, Project, includes, is_text, nfm_intervention_types, rows_or_none,
}
use pafs_backend_api.Projects.Submission.Types.{
  nfm_incomplete, Checked, unless, first_error, parse_csv,
}
use pafs_backend_api.Projects.Submission.Sections.{all_have_values, is_mandatory, is_nil}
use pafs_backend_api.Projects.Submission.Risks.{some_in}

-- the type and the fields that it needs
abbrev pub nfm_measure_configs : List (String × List String)
nfm_measure_configs =
    ("river_floodplain_restoration", "areaHectares" ∷ [])
    ∷ ("leaky_barriers_in_channel_storage", "lengthKm" ∷ "widthM" ∷ [])
    ∷ ("offline_storage", "areaHectares" ∷ [])
    ∷ ("woodland", "areaHectares" ∷ [])
    ∷ ("headwater_drainage_management", "areaHectares" ∷ [])
    ∷ ("runoff_attenuation_management", "areaHectares" ∷ [])
    ∷ ("saltmarsh_management", "areaHectares" ∷ [])
    ∷ ("sand_dune_management", "areaHectares" ∷ [])
    ∷ []

abbrev pub land_use_required_fields : List String
land_use_required_fields = "areaBeforeHectares" ∷ "areaAfterHectares" ∷ []

-- `new Map(rows.map((r) => [r[key], r])).get(type)`: the last row of the type
abbrev pub or_row : Option Row → Option Row → Option Row
or_row (some row) o = some row
or_row none o = o

abbrev pub last_row_of : String → String → List Row → Option Row
last_row_of key type [] = none
last_row_of key type (row ∷ rows) =
    or_row (last_row_of key type rows) (if is_text type (row key) then some row else none)

abbrev pub has_row_with : List String → Option Row → Bool
has_row_with fields none = false
has_row_with fields (some row) = all_have_values row fields

abbrev pub validate_measures : List String → List Row → List (String × List String) → Checked
validate_measures selected rows [] = none
validate_measures selected rows ((type, fields) ∷ configs) =
    if includes type selected && not (has_row_with fields (last_row_of "measureType" type rows))
    then some nfm_incomplete
    else validate_measures selected rows configs

unfoldable pub validate_selected_measures : List String → List Row → Checked
validate_selected_measures selected rows = validate_measures selected rows nfm_measure_configs

abbrev pub validate_land_uses : List Row → List String → Checked
validate_land_uses rows [] = none
validate_land_uses rows (type ∷ types) =
    if has_row_with land_use_required_fields (last_row_of "landUseType" type rows)
    then validate_land_uses rows types
    else some nfm_incomplete

unfoldable pub validate_land_use_section : Project → Checked
unfolding parse_csv
validate_land_use_section p =
    let selected = parse_csv (p.field "nfmLandUseChange") in
    if is_nil selected
    then some nfm_incomplete
    else validate_land_uses (rows_or_none p.pafs_core_nfm_land_use_changes) selected

abbrev pub nfm_context_fields : List String
nfm_context_fields = "nfmLandownerConsent" ∷ "nfmExperienceLevel" ∷ "nfmProjectReadiness" ∷ []

unfoldable pub validate_nfm_context_fields : Project → Checked
validate_nfm_context_fields p = unless (all_have_values p.field nfm_context_fields) nfm_incomplete

-- `v === false`
abbrev pub is_false : Value → Bool
is_false (flag b) = not b
is_false _ = false

abbrev pub no_rows : List Row → Bool
no_rows [] = true
no_rows (row ∷ rows) = false

unfoldable pub validate_nfm_details : Project → Checked
unfolding validate_selected_measures validate_land_use_section validate_nfm_context_fields parse_csv
validate_nfm_details p =
    let selected = parse_csv (p.field "nfmSelectedMeasures") in
    let rows = rows_or_none p.pafs_core_nfm_measures in
    if is_nil selected && no_rows rows
    then some nfm_incomplete
    else first_error (validate_selected_measures selected rows)
        (first_error (validate_land_use_section p) (validate_nfm_context_fields p))

unfoldable pub validate_nfm : Project → Checked
unfolding validate_nfm_details parse_csv
validate_nfm p =
    let interventions = parse_csv (p.field "projectInterventionTypes") in
    if not (is_mandatory p)
    then none
    else if not (some_in nfm_intervention_types interventions)
    then none
    else if not (includes "NFM" interventions)
        && is_false (p.field "naturalFloodRiskMeasuresIncluded")
    then none
    else validate_nfm_details p
