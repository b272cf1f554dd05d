-- ===== src/Projects/Submission/Funding.antt =====
-- src/plugins/projects/helpers/project-validations/submission/validate-funding-sources.js.
use Prim.Native.String.{◌++◌ as append}
use pafs_backend_api.Prelude.{
  String, Bool, false, not, ◌&&◌, List, [], ◌∷◌, Option, none, some, if◌then◌else◌, filter, any, ℤ,
  pos, leb_ℤ, ◌===◌,
}
use pafs_backend_api.Projects.Value.{
  Row, Project, has_value, to_number, to_text, number_or_zero, number_le, add_numbers,
  is_true_or_text, funding_values_of, rows_or_none,
}
use pafs_backend_api.Projects.Submission.Types.{funding_sources_incomplete, Checked, unless}

abbrev pub is_in_years : Option ℤ → Option ℤ → Row → Bool
is_in_years first last fv =
    number_le first (to_number (fv "financialYear"))
    && number_le (to_number (fv "financialYear")) last

-- The years are filtered on where both are numbers.
abbrev pub filter_years : Option ℤ → Option ℤ → List Row → List Row
filter_years (some first) (some last) rows = filter (is_in_years (some first) (some last)) rows
filter_years (some first) none rows = rows
filter_years none last rows = rows

unfoldable pub filter_in_range : List Row → Row → List Row
unfolding to_number
filter_in_range rows p =
    if has_value (p "financialStartYear") && has_value (p "financialEndYear")
    then filter_years (to_number (p "financialStartYear")) (to_number (p "financialEndYear")) rows
    else rows

-- `rows.reduce((sum, row) => sum + Number(row[field] || 0), sum)`
unfoldable pub sum_from : Option ℤ → String → List Row → Option ℤ
unfolding add_numbers number_or_zero
sum_from sum field [] = sum
sum_from sum field (row ∷ rows) = sum_from (add_numbers sum (number_or_zero (row field))) field rows

-- `total <= 0`, which is false of NaN
abbrev pub is_not_positive : Option ℤ → Bool
is_not_positive total = number_le total (some (pos 0))

abbrev pub in_range_values : Project → List Row
in_range_values p = filter_in_range (funding_values_of p) p.field

unfoldable pub validate_funding_sources : Project → Checked
unfolding filter_in_range sum_from
validate_funding_sources p =
    unless (not (is_not_positive (sum_from (some (pos 0)) "total" (in_range_values p))))
      funding_sources_incomplete

abbrev pub direct_spending_source_flags : List String
direct_spending_source_flags =
    "fcermGia" ∷ "localLevy" ∷ "notYetIdentified" ∷ "assetReplacementAllowance"
    ∷ "environmentStatutoryFunding" ∷ "frequentlyFloodedCommunities" ∷ "otherAdditionalGrantInAid"
    ∷ "otherGovernmentDepartment" ∷ "recovery" ∷ "summerEconomicFund" ∷ []

abbrev pub validate_sources : Row → List Row → List String → Checked
validate_sources p rows [] = none
validate_sources p rows (source ∷ sources) =
    if is_true_or_text (p source) && is_not_positive (sum_from (some (pos 0)) source rows)
    then some funding_sources_incomplete
    else validate_sources p rows sources

unfoldable pub validate_funding_source_values : Project → Checked
unfolding filter_in_range sum_from
validate_funding_source_values p =
    validate_sources p.field (in_range_values p) direct_spending_source_flags

abbrev pub same_integer : ℤ → ℤ → Bool
same_integer a b = leb_ℤ a b && leb_ℤ b a

abbrev pub same_number : Option ℤ → Option ℤ → Bool
same_number (some a) (some b) = same_integer a b
same_number (some a) none = false
same_number none b = false

-- `!Number.isNaN(fvId) && inRangeIds.has(fvId)`, where the set has the ids that are not NaN
unfoldable pub is_in_range_contributor : List Row → Row → Bool
unfolding to_number
is_in_range_contributor rows contributor =
    any (λ fv. same_number (to_number (fv "id")) (to_number (contributor "fundingValueId"))) rows

unfoldable pub contributor_key : Row → String
unfolding to_text
contributor_key c = append (to_text (c "contributorType")) (append "::" (to_text (c "name")))

-- The Map of totals, in the order in which keys were first set.
abbrev pub total_of : String → List (String × Option ℤ) → Option (Option ℤ)
total_of k [] = none
total_of k ((j, v) ∷ totals) = if j === k then some v else total_of k totals

abbrev pub set_total : String → Option ℤ → List (String × Option ℤ) → List (String × Option ℤ)
set_total k new [] = (k, new) ∷ []
set_total k new ((j, v) ∷ totals) =
    if j === k then (j, new) ∷ totals else (j, v) ∷ set_total k new totals

-- `totals.get(key) ?? 0`
abbrev pub or_zero_total : Option (Option ℤ) → Option ℤ
or_zero_total none = some (pos 0)
or_zero_total (some v) = v

abbrev pub add_contributor : Row → List (String × Option ℤ) → List (String × Option ℤ)
add_contributor c totals =
    let key = contributor_key c in
    set_total key (add_numbers (or_zero_total (total_of key totals)) (number_or_zero (c "amount")))
      totals

-- the loop, over the contributors that are in range
unfoldable pub add_contributors : List Row → List (String × Option ℤ) → List (String × Option ℤ)
unfolding contributor_key add_numbers number_or_zero
add_contributors [] totals = totals
add_contributors (c ∷ cs) totals = add_contributors cs (add_contributor c totals)

unfoldable pub build_contributor_totals : List Row → List Row → List (String × Option ℤ)
unfolding add_contributors is_in_range_contributor
build_contributor_totals contributors rows =
    add_contributors (filter (is_in_range_contributor rows) contributors) []

unfoldable pub validate_funding_contributors : Project → Checked
unfolding build_contributor_totals filter_in_range
validate_funding_contributors p =
    unless
      (not (
        any (λ t. is_not_positive t.1)
          (build_contributor_totals (rows_or_none p.pafs_core_funding_contributors)
            (in_range_values p))))
      funding_sources_incomplete
