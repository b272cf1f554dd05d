-- ===== src/Projects/Edits/FundingRows.antt =====
-- src/plugins/projects/helpers/project-validations/perform-validations-funding-sources.js. A row
-- that is not an object is left out: the schema refuses it.
use pafs_backend_api.Prelude.{
  ℕ, suc, String, Bool, true, false, not, ◌&&◌, List, [], ◌∷◌, Option, none, some, ℤ, ◌===◌,
  if◌then◌else◌, leb_ℤ,
}
use pafs_backend_api.Projects.Value.{Value, null, flag, texts, Row, has_value, includes}
use pafs_backend_api.Projects.Edits.Timeline.{as_number}

abbrev pub year_between : Option ℤ → Option ℤ → Option ℤ → Bool
year_between (some start) (some end) (some year) = leb_ℤ start year && leb_ℤ year end
year_between _ _ _ = true

-- validateFundingValuesYearRange: an error where the years are integers and the year is outside.
unfoldable pub is_year_valid : Row → Row → Bool
is_year_valid existing row =
    year_between (as_number (existing "financialStartYear"))
      (as_number (existing "financialEndYear")) (as_number (row "financialYear"))

-- the field of the row, which has the name of that of the project
abbrev pub funding_source_fields : List String
funding_source_fields =
    "fcermGia" ∷ "localLevy" ∷ "publicContributions" ∷ "privateContributions"
    ∷ "otherEaContributions" ∷ "assetReplacementAllowance" ∷ "environmentStatutoryFunding"
    ∷ "frequentlyFloodedCommunities" ∷ "otherAdditionalGrantInAid" ∷ "otherGovernmentDepartment"
    ∷ "recovery" ∷ "summerEconomicFund" ∷ "notYetIdentified" ∷ []

abbrev pub is_true_flag : Value → Bool
is_true_flag (flag b) = b
is_true_flag _ = false

unfoldable pub strip_source_fields : Row → Row → Row
strip_source_fields existing row field =
    if includes field funding_source_fields
      && has_value (row field)
      && not (is_true_flag (existing field))
    then null
    else row field

-- the field of the row, and that of the project
abbrev pub contributor_fields : List (String × String)
contributor_fields =
    ("publicContributors", "publicContributions")
    ∷ ("privateContributors", "privateContributions")
    ∷ ("otherEaContributors", "otherEaContributions")
    ∷ []

-- A list of contributors is an array that is not empty.
abbrev pub is_filled_array : Value → Bool
is_filled_array (texts (t ∷ ts)) = true
is_filled_array _ = false

abbrev pub strip_contributors : List (String × String) → Row → Row → Row
strip_contributors [] existing row = row
strip_contributors ((row_field, project_field) ∷ fields) existing row =
    strip_contributors fields existing (λ field.
      if (field === row_field)
        && is_filled_array (row field)
        && not (is_true_flag (existing project_field))
      then null
      else row field)

unfoldable pub strip_row : Row → Row → Row
unfolding strip_source_fields
strip_row existing row =
    strip_contributors contributor_fields existing (strip_source_fields existing row)

-- The rows up to the first that is refused are stripped in place; the number of that row is given.
abbrev pub after_row : Row → Option ℕ × List Row → Option ℕ × List Row
after_row row (error, rows) = (error, row ∷ rows)

unfoldable pub validate_funding_rows : ℕ → Row → List Row → Option ℕ × List Row
unfolding is_year_valid strip_row
validate_funding_rows n existing [] = (none, [])
validate_funding_rows n existing (row ∷ rows) =
    let rest = validate_funding_rows (suc n) existing rows in
    if is_year_valid existing row
    then after_row (strip_row existing row) rest
    else (some n, row ∷ rows)
