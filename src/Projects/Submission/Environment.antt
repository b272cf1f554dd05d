-- ===== src/Projects/Submission/Environment.antt =====
-- src/plugins/projects/helpers/project-validations/submission/validate-environmental-benefits.js,
-- and the list of fields of src/common/schemas/project/environment-benefits.js.
use pafs_backend_api.Prelude.{
  String, Bool, true, false, not, ◌&&◌, ◌||◌, List, [], ◌∷◌, none, some, if◌then◌else◌, ◌===◌,
}
use pafs_backend_api.Projects.Value.{Value, flag, text, Row, Project, has_value}
use pafs_backend_api.Projects.Submission.Types.{environmental_benefits_incomplete, Checked}

abbrev pub is_answered : Value → Bool
is_answered (flag b) = true
is_answered (text s) = s === "true" || s === "false" || s === "yes" || s === "no"
is_answered _ = false

abbrev pub is_true : Value → Bool
is_true (flag b) = b
is_true (text s) = s === "true" || s === "yes"
is_true _ = false

-- the gate and the quantity
abbrev pub environmental_benefits_fields : List (String × String)
environmental_benefits_fields =
    ("intertidalHabitat", "hectaresOfIntertidalHabitatCreatedOrEnhanced")
    ∷ ("woodland", "hectaresOfWoodlandHabitatCreatedOrEnhanced")
    ∷ ("wetWoodland", "hectaresOfWetWoodlandHabitatCreatedOrEnhanced")
    ∷ ("wetlandOrWetGrassland", "hectaresOfWetlandOrWetGrasslandCreatedOrEnhanced")
    ∷ ("grassland", "hectaresOfGrasslandHabitatCreatedOrEnhanced")
    ∷ ("heathland", "hectaresOfHeathlandCreatedOrEnhanced")
    ∷ ("pondsLakes", "hectaresOfPondOrLakeHabitatCreatedOrEnhanced")
    ∷ ("arableLand", "hectaresOfArableLandLakeHabitatCreatedOrEnhanced")
    ∷ ("comprehensiveRestoration", "kilometresOfWatercourseEnhancedOrCreatedComprehensive")
    ∷ ("partialRestoration", "kilometresOfWatercourseEnhancedOrCreatedPartial")
    ∷ ("createHabitatWatercourse", "kilometresOfWatercourseEnhancedOrCreatedSingle")
    ∷ []

abbrev pub validate_gates : Row → List (String × String) → Checked
validate_gates row [] = none
validate_gates row ((gate, quantity) ∷ fields) =
    if not (is_answered (row gate))
    then some environmental_benefits_incomplete
    else if is_true (row gate) && not (has_value (row quantity))
    then some environmental_benefits_incomplete
    else validate_gates row fields

unfoldable pub validate_environmental_benefits : Project → Checked
validate_environmental_benefits p =
    if not (is_answered (p.field "environmentalBenefits"))
    then some environmental_benefits_incomplete
    else if not (is_true (p.field "environmentalBenefits"))
    then none
    else validate_gates p.field environmental_benefits_fields
