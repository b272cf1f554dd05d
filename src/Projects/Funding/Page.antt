-- ===== src/Projects/Funding/Page.antt =====
-- The payload of a page that is saved, and what
-- src/plugins/projects/helpers/funding-sources-normalizers.js and
-- funding-sources-contributor-normalizers.js read and change of it.
use Prim.Native.Char.{code}
use pafs_backend_api.Prelude.{
  ℕ, String, Bool, true, false, not, ◌&&◌, ◌||◌, List, [], ◌∷◌, Option, none, some, map, filter,
  ◌==◌, ◌===◌, if◌then◌else◌, trim, is_empty_text, ℤ, pos,
}
use pafs_backend_api.Projects.Value.{
  Value, undefined, null, flag, text, Row, to_number, non_empty, integer_text,
}
use pafs_backend_api.Projects.Funding.{
  FundingField, fcerm_gia, local_levy, not_yet_identified, public_contributions,
  private_contributions, other_ea_contributions, field_name, additional_gia_fields, Amounts,
}
use pafs_backend_api.Projects.Funding.Payload.{
  SpendRow, ContributorGroup, public, private, other_ea, contributor_config, amount_field,
  sanitize_row, normalize_row, create_funding_amounts, merge_contributor_totals_into_amounts,
  calculate_funding_total,
}

-- The payload of a page that is saved: its fields, and its rows of spend where they are an array.
pub record SavePayload : Type 0 where
  pub reference_number : Option String
  pub fields : Row
  pub funding_values : Option (List (Option SpendRow))

-- What is read of the project that is edited.
pub record EditedProject : Type 0 where
  pub id : Option ℕ
  pub financial_start_year : Option ℕ
  pub financial_end_year : Option ℕ

abbrev pub set_field : String → Value → Row → Row
set_field name v row other = if name === other then v else row other

abbrev pub with_field : String → Value → SavePayload → SavePayload
with_field name v p = record p { fields = set_field name v p.fields }

abbrev pub is_flag : Bool → Value → Bool
is_flag b (flag c) = if b then c else not c
is_flag b _ = false

-- CONTRIBUTOR_NAME_LEVEL_MAP and CONTRIBUTOR_CLEANUP_CONFIG
abbrev pub group_of_level : String → Option ContributorGroup
group_of_level level =
    if level === "PUBLIC_SECTOR_CONTRIBUTORS"
    then some public
    else if level === "PRIVATE_SECTOR_CONTRIBUTORS"
    then some private
    else if level === "OTHER_ENVIRONMENT_AGENCY_CONTRIBUTORS"
    then some other_ea
    else none

abbrev pub names_field : ContributorGroup → String
names_field public = "publicContributorNames"
names_field private = "privateContributorNames"
names_field other_ea = "otherEaContributorNames"

abbrev pub trimmed : Value → Value
trimmed (text s) = text (trim s)
trimmed v = v

abbrev pub map_rows : (SpendRow → SpendRow) → SavePayload → SavePayload
map_rows f p = record p {
  funding_values = elim p.funding_values [
    | none ↦ none
    | some rows ↦ some (map (λ r. elim r [ none ↦ none | some s ↦ some (f s) ]) rows)
  ];
}

abbrev pub is_estimated_spend : String → Bool
is_estimated_spend level = level === "FUNDING_SOURCES_ESTIMATED_SPEND"

abbrev pub is_sources_selected : String → Bool
is_sources_selected level = level === "FUNDING_SOURCES_SELECTED"

unfoldable pub sanitize_funding_source_fields : String → SavePayload → SavePayload
unfolding trim sanitize_row
sanitize_funding_source_fields level p = elim (group_of_level level) [
  | some g ↦ with_field (names_field g) (trimmed (p.fields (names_field g))) p
  | none ↦ if is_estimated_spend level then map_rows sanitize_row p else p
]

unfoldable pub normalize_funding_source_fields : String → SavePayload → SavePayload
unfolding normalize_row
normalize_funding_source_fields level p =
    if is_estimated_spend level then map_rows normalize_row p else p

unfoldable pub sync_growth_funding_flag : String → SavePayload → SavePayload
sync_growth_funding_flag level p =
    if is_sources_selected level
    then (if is_flag true (p.fields "additionalFcermGia")
        then with_field "growthFunding" (flag true) p
        else if is_flag false (p.fields "additionalFcermGia")
        then with_field "growthFunding" (flag false) p
        else p)
    else p

-- DESELECTED_SPEND_FIELDS_BY_LEVEL
abbrev pub spend_fields_of_level : String → List FundingField
spend_fields_of_level level =
    if is_sources_selected level
    then fcerm_gia ∷ local_levy ∷ not_yet_identified ∷ public_contributions ∷ private_contributions
      ∷ other_ea_contributions ∷ []
    else if level === "ADDITIONAL_FUNDING_SOURCES_GIA_SELECTED"
    then additional_gia_fields
    else []

abbrev pub deselected : SavePayload → List FundingField → List FundingField
deselected p fields = filter (λ f. is_flag false (p.fields (field_name f))) fields

abbrev pub without_fields : List FundingField → SavePayload → SavePayload
without_fields [] p = p
without_fields (f ∷ fs) p = without_fields fs (with_field (field_name f) null p)

-- `namesValue.split('|||')`, where the names are not trimmed yet
unfoldable pub split_names : String → List String
split_names String.[] = String.[] ∷ []
split_names (String.◌∷◌ a (String.◌∷◌ b (String.◌∷◌ c s))) =
    let cut = split_names s in
    let rest = split_names (String.◌∷◌ b (String.◌∷◌ c s)) in
    if code a == b'|' && (code b == b'|' && code c == b'|')
    then String.[] ∷ cut
    else elim rest [ [] ↦ [] | w ∷ ws ↦ String.◌∷◌ a w ∷ ws ]
split_names s = s ∷ []

unfoldable pub current_names : Value → List String
unfolding split_names trim
current_names (text s) = non_empty (map trim (split_names s))
current_names v = []

abbrev pub with_sum : Amounts → Option ℤ → Option Amounts
with_sum a none = none
with_sum a (some n) = some (record a { total = text (integer_text n) })

abbrev pub with_calculated : Option Amounts → Option Amounts
with_calculated none = none
with_calculated (some a) = with_sum a (calculate_funding_total a)

-- the amounts that are stored of a row, where BigInt takes all of them
unfoldable pub final_amounts : SpendRow → Option Amounts
final_amounts r =
    with_calculated (merge_contributor_totals_into_amounts r (create_funding_amounts r))

abbrev pub project_id_of : Option EditedProject → Option ℕ
project_id_of none = none
project_id_of (some e) = e.id

-- whether the sources of additional grant in aid were given up
abbrev pub gia_deselected : String → SavePayload → Bool
gia_deselected level p = is_sources_selected level && is_flag false (p.fields "additionalFcermGia")

abbrev pub without_gia_fields : String → SavePayload → SavePayload
without_gia_fields level p =
    if gia_deselected level p then without_fields additional_gia_fields p else p

abbrev pub is_deselected : SavePayload → ContributorGroup → Bool
is_deselected p g = is_flag false (p.fields (field_name (amount_field g)))

-- the names of the groups that were given up are null
abbrev pub without_names : List ContributorGroup → SavePayload → SavePayload
without_names [] p = p
without_names (g ∷ gs) p =
    without_names gs (if is_deselected p g then with_field (names_field g) null p else p)

abbrev pub without_deselected : String → SavePayload → SavePayload
without_deselected level p =
    if is_sources_selected level
    then without_names contributor_config (without_gia_fields level p)
    else p

abbrev pub years_of : Option EditedProject → Option ℕ × Option ℕ
years_of none = (none, none)
years_of (some e) = (e.financial_start_year, e.financial_end_year)

abbrev pub without_rows : String → SavePayload → SavePayload
without_rows level p = if is_estimated_spend level then record p { funding_values = none } else p

-- `a ?? b ?? null`, where the outer `none` is null
abbrev pub year_or : Value → Option ℕ → Option (Option ℤ)
year_or undefined y = elim y [ none ↦ none | some n ↦ some (some (pos n)) ]
year_or null y = elim y [ none ↦ none | some n ↦ some (some (pos n)) ]
year_or v y = some (to_number v)

abbrev pub is_missing_reference : Option String → Bool
is_missing_reference none = true
is_missing_reference (some s) = is_empty_text s

abbrev pub changes_years : String → SavePayload → Bool
changes_years level p =
    (level === "FINANCIAL_START_YEAR" || level === "FINANCIAL_END_YEAR")
    && not (is_missing_reference p.reference_number)

abbrev pub clears_stale : String → SavePayload → Bool
clears_stale level p = level === "CLEAR_STALE_DATA" && not (is_missing_reference p.reference_number)
