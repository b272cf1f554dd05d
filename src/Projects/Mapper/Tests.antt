-- ===== src/Projects/Mapper/Tests.antt =====
-- A payload that is written and read back.
use pafs_backend_api.Prelude.{
  String, ◌≡◌, refl, [], ◌∷◌, none, some, pos, trim, join_commas, ◌===◌, if◌then◌else◌, inl, inr,
  All, Bool, true, false, ◌&&◌, Bool-cases, eq_iff,
}
use pafs_backend_api.Projects.Value.{undefined, text, texts, number_of_text}
use pafs_backend_api.Projects.Mapper.{
  Cells, FieldEntry, ProjectRows, to_database, to_api, transform_value, no_cells,
}
use pafs_backend_api.Projects.Mapper.Conversions.{Cell, plain, bigint, decimal_to_database}
use pafs_backend_api.Projects.Mapper.RoundTrip.{
  to_api-to_database, clean_list, decimal_text, IsClean, as_decimal,
}
use pafs_backend_api.Projects.Mapper.Entries.{IsEntry}
use pafs_backend_api.Projects.Mapper.Columns.{to_database-HoldsBigInt, HoldsBigInt, whole_text}
use pafs_backend_api.Projects.Mapper.Fields.{project_fields_map, FieldMap}

abbrev payload : Cells
payload n =
    if n === "risks"
    then plain (texts ("fluvial_flooding" ∷ "coastal_erosion" ∷ []))
    else if n === "wlcEstimatedFutureCosts"
    then plain (text "1200")
    else if n === "carbonCostBuild"
    then plain (text "12.5")
    else plain undefined

written_list :
    to_database payload "project_risks_protected_against"
    ≡ plain (text "fluvial_flooding,coastal_erosion")
unfolding to_database transform_value join_commas
written_list = refl

written_cost : to_database payload "wlc_estimated_future_costs" ≡ bigint (pos 1200)
unfolding to_database transform_value number_of_text trim
written_cost = refl

abbrev no_rows : ProjectRows
no_rows = record {
  columns = no_cells;
  state = none;
  area_project = none;
  nfm_measures = none;
  nfm_land_use_changes = none;
  funding_value_rows = none;
  funding_contributor_rows = none;
}

abbrev has_entry : FieldEntry → FieldMap → Bool
has_entry e [] = false
has_entry e (d ∷ es) = if d.0 === e.0 && d.1 === e.1 then true else has_entry e es

IsEntry-found : (e : FieldEntry) (es : FieldMap) → has_entry e es ≡ true → IsEntry e es
IsEntry-found e [] h = cc
IsEntry-found (n, c) ((m, d) ∷ es) h = elim (Bool-cases (m === n)) [
  | inr other ↦ inr (IsEntry-found (n, c) es (rw other at h))
  | inl same ↦ elim (Bool-cases (d === c)) [
    | inr other ↦ inr (IsEntry-found (n, c) es (rw (same, other) at h))
    | inl same' ↦ inl (cc ((eq_iff m n).0 same, (eq_iff d c).0 same'))
  ]
]

risks-IsEntry : IsEntry ("risks", "project_risks_protected_against") project_fields_map
risks-IsEntry = IsEntry-found ("risks", "project_risks_protected_against") project_fields_map refl

cost-IsEntry : IsEntry ("wlcEstimatedFutureCosts", "wlc_estimated_future_costs") project_fields_map
cost-IsEntry =
    IsEntry-found ("wlcEstimatedFutureCosts", "wlc_estimated_future_costs") project_fields_map refl

carbon-IsEntry : IsEntry ("carbonCostBuild", "carbon_cost_build") project_fields_map
carbon-IsEntry = IsEntry-found ("carbonCostBuild", "carbon_cost_build") project_fields_map refl

items-IsClean : All IsClean ("fluvial_flooding" ∷ "coastal_erosion" ∷ [])
unfolding trim
items-IsClean = ((refl, refl, refl), ((refl, refl, refl), tt))

cost_read : number_of_text "1200" ≡ some (pos 1200)
unfolding number_of_text trim
cost_read = refl

-- The columns of decimals give Decimals.
abbrev stored : String → Cell → Cell
stored c w = if c === "carbon_cost_build" then as_decimal w else w

abbrev read_row : ProjectRows
read_row = record no_rows { columns = λ c. stored c (to_database payload c) }

carbon_written : to_database payload "carbon_cost_build" ≡ plain (text "12.5")
unfolding to_database transform_value decimal_to_database
carbon_written = refl

list_read : (to_api read_row).fields "risks" ≡ payload "risks"
unfolding to_database transform_value
list_read =
    to_api-to_database stored no_rows payload ("risks", "project_risks_protected_against")
      risks-IsEntry (clean_list ("fluvial_flooding" ∷ "coastal_erosion" ∷ []) refl items-IsClean)
      refl

to_api-to_database_example : (to_api read_row).fields "carbonCostBuild" ≡ plain (text "12.5")
unfolding to_database transform_value decimal_to_database
to_api-to_database_example =
    to_api-to_database stored no_rows payload ("carbonCostBuild", "carbon_cost_build")
      carbon-IsEntry (decimal_text "12.5" refl refl refl refl) refl

to_database-HoldsBigInt_example : HoldsBigInt (to_database payload "wlc_estimated_future_costs")
to_database-HoldsBigInt_example =
    to_database-HoldsBigInt payload ("wlcEstimatedFutureCosts", "wlc_estimated_future_costs")
      (text "1200") cost-IsEntry refl refl (whole_text "1200" (pos 1200) cost_read)
