-- ===== src/Projects/Edits.antt =====
-- src/plugins/projects/helpers/project-validations/perform-validations.js and the checks that it
-- calls in order. What finds the project by its reference number, and the project of a name, are
-- arguments; a check of a name that throws counts as taken.
pub mod Timeline
pub mod FundingRows
pub mod Rights
pub mod Ranges
mod Tests
use Prim.Native.String.{String}
use pafs_backend_api.Prelude.{
  ℕ, Bool, true, false, not, ◌&&◌, ◌||◌, List, [], ◌∷◌, Option, none, some, ◌==◌, ◌===◌,
  if◌then◌else◌, is_empty_text, is_some, trim, is_space, leb, codes, map, ◌+◌,
}
use pafs_backend_api.JwtAuth.Cache.{Credentials}
use pafs_backend_api.Areas.{Area, AreaRows, rma, same_codes}
use pafs_backend_api.Areas.Hierarchy.{AreaWithParents, read_area_with_parents, details_of}
use pafs_backend_api.Projects.Value.{
  Value, undefined, Row, has_value, to_number, number_lt, set_has, includes,
}
use pafs_backend_api.Projects.Permissions.{
  Permission, allowed, AreaDetails, can_create_project, can_update_project,
}
use Timeline.{validate_timeline_boundaries, is_undefined}
use FundingRows.{validate_funding_rows}

pub data EditError : Type 0 where
  project_missing duplicate_name area_missing area_not_rma rfcc_missing : EditError
  confidence_restricted : EditError
  not_allowed_to_create not_allowed_to_update area_change_refused : Permission → EditError
  -- with the field
  years_out_of_order date_outside_years : String → EditError
  -- with the number of the row
  funding_year_outside : ℕ → EditError

-- The payload of a saved page: the project it is for, `none` for a new one, its area, and its
-- fields; an id that is 0 counts as missing.
pub record EditPayload : Type 0 where
  pub reference_number : Option String
  pub name : Option String
  pub area_id : Option ℕ
  pub fields : Row
  pub funding_values : Option (List Row)

-- A stored project that is edited.
pub record ExistingProject : Type 0 where
  pub name : Option String
  pub area_id : Option ℕ
  pub fields : Row

-- `a || b` on ids
abbrev pub or_id : Option ℕ → Option ℕ → Option ℕ
or_id none b = b
or_id (some k) b = if k == 0 then b else some k

-- getAreaByIdWithParents: null where there is no id
abbrev pub read_area : AreaRows → Option ℕ → Option AreaWithParents
read_area rows none = none
read_area rows (some k) = if k == 0 then none else read_area_with_parents rows k

abbrev pub details : Option AreaWithParents → Option AreaDetails
details none = none
details (some r) = some (details_of r)

abbrev pub unless_allowed : Permission → (Permission → EditError) → Option EditError
unless_allowed allowed error = none
unless_allowed why error = some (error why)

unfoldable pub validate_create_permissions : Credentials → Option ℕ → Option EditError
unfolding can_create_project
validate_create_permissions c none = unless_allowed (can_create_project c 0) not_allowed_to_create
validate_create_permissions c (some k) =
    unless_allowed (can_create_project c k) not_allowed_to_create

unfoldable pub validate_update_permissions :
    AreaRows → Credentials → ExistingProject → Option ℕ → Option EditError
unfolding can_update_project read_area_with_parents
validate_update_permissions rows c existing area_id =
    unless_allowed
      (can_update_project c (details (read_area rows (or_id area_id existing.area_id))))
      not_allowed_to_update

-- A year of the payload, or that of the project.
abbrev pub effective : Value → Value → Value
effective v w = if is_undefined v then w else v

abbrev pub year_field : Value → String
year_field start = if is_undefined start then "financialEndYear" else "financialStartYear"

abbrev pub is_missing : Value → Bool
is_missing Value.undefined = true
is_missing Value.null = true
is_missing _ = false

unfoldable pub validate_edit_years : Row → Row → Option EditError
unfolding to_number
validate_edit_years fields existing =
    let start = effective (fields "financialStartYear") (existing "financialStartYear") in
    let end = effective (fields "financialEndYear") (existing "financialEndYear") in
    if not (is_missing start) && not (is_missing end) && number_lt (to_number end) (to_number start)
    then some (years_out_of_order (year_field (fields "financialStartYear")))
    else none

abbrev pub no_project : Row
no_project f = undefined

abbrev pub fields_of : Option ExistingProject → Row
fields_of none = no_project
fields_of (some e) = e.fields

abbrev pub starts_with_space : String → Bool
starts_with_space String.[] = false
starts_with_space (String.◌∷◌ c s) = is_space c

-- `replaceAll(/\s+/g, ' ')`
unfoldable pub collapse_spaces : String → String
collapse_spaces String.[] = String.[]
collapse_spaces (String.◌∷◌ c s) =
    let rest = collapse_spaces s in
    if is_space c
    then (if starts_with_space s then rest else String.◌∷◌ " " rest)
    else String.◌∷◌ c rest

-- `toLowerCase` on the letters of ASCII
abbrev pub lower : ℕ → ℕ
lower c = if leb b'A' c && leb c b'Z' then c + 32 else c

unfoldable pub normalize_name : String → List ℕ
unfolding collapse_spaces trim
normalize_name s = map lower (codes (collapse_spaces (trim s)))

abbrev pub same_name : String → Option String → Bool
same_name name none = false
same_name name (some stored) =
    not (is_empty_text name)
    && not (is_empty_text stored)
    && same_codes (normalize_name name) (normalize_name stored)

abbrev pub stored_name : Option ExistingProject → Option String
stored_name none = none
stored_name (some e) = e.name

abbrev pub same_names : Option String → Option String → Bool
same_names none stored = false
same_names (some name) stored = same_name name stored

unfoldable pub is_name_unchanged : Option String → Option ExistingProject → Bool
unfolding normalize_name
is_name_unchanged name existing = same_names name (stored_name existing)

abbrev pub is_named : Option String → Bool
is_named none = false
is_named (some name) = not (is_empty_text name)

-- `!referenceNumber`
abbrev pub is_create : EditPayload → Bool
is_create p = not (is_named p.reference_number)

module _ (name_taken : Option String → Option String → Bool) where
  unfoldable pub validate_common_fields : EditPayload → Option ExistingProject → Option EditError
  unfolding is_name_unchanged validate_edit_years
  validate_common_fields p existing =
      if (is_create p || is_named p.name)
        && not (is_name_unchanged p.name existing)
        && name_taken p.name p.reference_number
      then some duplicate_name
      else validate_edit_years p.fields (fields_of existing)

unfoldable pub validate_area : Option AreaWithParents → Option EditError
validate_area none = some area_missing
validate_area (some r) = if r.area.area_type === rma then none else some area_not_rma

abbrev pub sub_type_of : Option Area → Option String
sub_type_of none = none
sub_type_of (some a) = a.sub_type

unfoldable pub validate_rfcc_code : AreaWithParents → Option EditError
validate_rfcc_code r = if is_named (sub_type_of r.pso_area) then none else some rfcc_missing

-- What a validation that passes gives: the region of a new project, and the area where it is read.
pub data EditResult : Type 0 where
  edit_refused : EditError → EditResult
  edit_passed : Option String → Option AreaWithParents → EditResult

abbrev pub passed_with_rfcc : AreaWithParents → Option EditError → EditResult
passed_with_rfcc r none = edit_passed (sub_type_of r.pso_area) (some r)
passed_with_rfcc r (some e) = edit_refused e

abbrev pub create_in_area : Option AreaWithParents → Option EditError → EditResult
create_in_area area (some e) = edit_refused e
create_in_area none none = edit_refused area_missing
create_in_area (some r) none = passed_with_rfcc r (validate_rfcc_code r)

unfoldable pub validate_create_specific_fields : AreaRows → Option ℕ → EditResult
unfolding validate_area validate_rfcc_code read_area_with_parents
validate_create_specific_fields rows area_id =
    create_in_area (read_area rows area_id) (validate_area (read_area rows area_id))

abbrev pub restricted_project_types : List String
restricted_project_types = "ELO" ∷ "HCR" ∷ "STR" ∷ "STU" ∷ []

abbrev pub confidence_validation_levels : List String
confidence_validation_levels =
    "CONFIDENCE_HOMES_BETTER_PROTECTED" ∷ "CONFIDENCE_HOMES_BY_GATEWAY_FOUR"
    ∷ "CONFIDENCE_SECURED_PARTNERSHIP_FUNDING" ∷ []

unfoldable pub validate_confidence_fields : String → Row → Option EditError
validate_confidence_fields level existing =
    if includes level confidence_validation_levels
      && set_has restricted_project_types (existing "projectType")
    then some confidence_restricted
    else none

-- `areaId && Number(existingProject.areaId) !== Number(areaId)`, with the area that it changes to
abbrev pub changed_area : Option ℕ → Option ℕ → Option ℕ
changed_area none existing = none
changed_area (some k) none = if k == 0 then none else some k
changed_area (some k) (some j) = if (k == 0) || (j == k) then none else some k

abbrev pub area_read : AreaRows → ℕ → Option EditError → Option EditError × Option AreaWithParents
area_read rows k (some e) = (some e, none)
area_read rows k none = (validate_area (read_area rows (some k)), read_area rows (some k))

abbrev pub check_change :
    AreaRows → Credentials → Option ℕ → Option EditError × Option AreaWithParents
check_change rows c none = (none, none)
check_change rows c (some k) =
    area_read rows k (unless_allowed (can_create_project c k) area_change_refused)

-- The error, and the area that was read.
unfoldable pub validate_update_area_change :
    AreaRows → Credentials → Option ℕ → Option ℕ → Option EditError × Option AreaWithParents
unfolding can_create_project validate_area read_area_with_parents
validate_update_area_change rows c area_id existing =
    check_change rows c (changed_area area_id existing)

abbrev pub date_error : Option String → Option EditError
date_error none = none
date_error (some field) = some (date_outside_years field)

abbrev pub row_error : Option ℕ × List Row → Option EditError
row_error (none, rows) = none
row_error (some n, rows) = some (funding_year_outside n)

unfoldable pub validate_funding_sources_estimated_spend :
    String → Row → Option (List Row) → Option EditError
unfolding validate_funding_rows
validate_funding_sources_estimated_spend level existing none = none
validate_funding_sources_estimated_spend level existing (some rows) =
    if level === "FUNDING_SOURCES_ESTIMATED_SPEND"
    then row_error (validate_funding_rows 0 existing rows)
    else none

-- The first error, or the result.
abbrev pub first_of : List (Option EditError) → EditResult → EditResult
first_of [] result = result
first_of (none ∷ errors) result = first_of errors result
first_of (some e ∷ errors) result = edit_refused e

abbrev pub specific_result :
    String → EditPayload → Row → Option EditError × Option AreaWithParents → EditResult
specific_result level p existing area =
    first_of
      (validate_confidence_fields level existing
        ∷ area.0
        ∷ date_error (validate_timeline_boundaries p.fields level existing)
        ∷ validate_funding_sources_estimated_spend level existing p.funding_values
        ∷ [])
      (edit_passed none area.1)

unfoldable pub validate_update_specific_fields :
    AreaRows → Credentials → String → EditPayload → ExistingProject → EditResult
unfolding validate_confidence_fields validate_update_area_change validate_timeline_boundaries
    validate_funding_sources_estimated_spend
validate_update_specific_fields rows c level p existing =
    specific_result level p existing.fields
      (validate_update_area_change rows c p.area_id existing.area_id)

module _ (rows : AreaRows) (name_taken : Option String → Option String → Bool) (c : Credentials)
    (level : String) (p : EditPayload) where
  abbrev pub validate_create : EditResult
  validate_create =
      first_of
        (validate_create_permissions c p.area_id ∷ validate_common_fields name_taken p none ∷ [])
        (validate_create_specific_fields rows p.area_id)

  abbrev pub validate_update : Option ExistingProject → EditResult
  validate_update none = edit_refused project_missing
  validate_update (some existing) =
      first_of
        (validate_update_permissions rows c existing p.area_id
          ∷ validate_common_fields name_taken p (some existing)
          ∷ [])
        (validate_update_specific_fields rows c level p existing)

  unfoldable pub perform_validations : Option ExistingProject → EditResult
  unfolding validate_create_permissions validate_update_permissions validate_common_fields
      validate_create_specific_fields validate_update_specific_fields
  perform_validations existing = if is_create p then validate_create else validate_update existing
