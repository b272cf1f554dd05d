-- ===== src/Projects/Mapper.antt =====
-- src/plugins/projects/helpers/project-mapper.js: the fields of a project as the API names them and
-- as the columns of the database do.
pub mod Fields
pub mod Kinds
pub mod Conversions
mod Entries
mod RoundTrip
mod Columns
mod Tests
use pafs_backend_api.Prelude.{
  String, Bool, true, false, ◌&&◌, List, [], ◌∷◌, Option, none, some, map, if◌then◌else◌, ◌===◌,
}
use pafs_backend_api.Projects.Value.{Value, undefined, includes}
use Fields.{FieldMap, project_fields_map, project_select_fields_map}
use Kinds.{
  states_fields, area_projects_fields, nfm_measures_fields, nfm_land_use_changes_fields,
  funding_values_fields, funding_contributors_fields, array_fields, number_fields,
  percentage_fields, bigint_fields, decimal_fields, funding_value_bigint_fields,
  funding_contributor_bigint_fields, funding_values_number_fields,
}
use Conversions.{
  Cell, plain, bigint, decimal_value, array_to_database, array_to_api, number_to_database,
  number_to_api, bigint_to_database, bigint_to_api, decimal_to_database, decimal_to_api,
}

-- An object: its fields by name, `undefined` where it has none.
abbrev pub Cells : Type 0
Cells = String → Cell

abbrev pub is_missing : Cell → Bool
is_missing (plain undefined) = true
is_missing _ = false

abbrev pub no_cells : Cells
no_cells field = plain undefined

unfoldable pub transform_value : String → Cell → Cell
unfolding array_to_database number_to_database bigint_to_database decimal_to_database
transform_value field v =
    if includes field array_fields
    then array_to_database v
    else if includes field bigint_fields
    then bigint_to_database v
    else if includes field decimal_fields
    then decimal_to_database v
    else if includes field number_fields
    then number_to_database v
    else if includes field percentage_fields
    then number_to_database v
    else v

-- the tables that have fields of their own kind
pub data SourceTable : Type 0 where
  main funding_values funding_contributors other_table : SourceTable

abbrev pub is_funding_values_bigint_field : String → SourceTable → Bool
is_funding_values_bigint_field field funding_values = includes field funding_value_bigint_fields
is_funding_values_bigint_field field _ = false

abbrev pub is_funding_values_number_field : String → SourceTable → Bool
is_funding_values_number_field field funding_values = includes field funding_values_number_fields
is_funding_values_number_field field _ = false

abbrev pub is_funding_contributors_bigint_field : String → SourceTable → Bool
is_funding_contributors_bigint_field field funding_contributors =
    includes field funding_contributor_bigint_fields
is_funding_contributors_bigint_field field _ = false

unfoldable pub reverse_transform_value : SourceTable → String → Cell → Cell
unfolding array_to_api number_to_api bigint_to_api decimal_to_api
reverse_transform_value table field v =
    if is_funding_values_bigint_field field table
    then bigint_to_api v
    else if is_funding_values_number_field field table
    then number_to_api v
    else if is_funding_contributors_bigint_field field table
    then bigint_to_api v
    else if includes field array_fields
    then array_to_api v
    else if includes field bigint_fields
    then bigint_to_api v
    else if includes field decimal_fields
    then decimal_to_api v
    else if includes field number_fields
    then number_to_api v
    else if includes field percentage_fields
    then number_to_api v
    else v

-- `out[name] = value`
abbrev pub set_cell : String → Cell → Cells → Cells
set_cell name v cells other = if name === other then v else cells other

abbrev pub FieldEntry : Type 0
FieldEntry = String × String

-- The loop over the entries of a map: what the object has under the name `source` of an entry goes
-- under its name `target`.
abbrev pub copy_entries :
    (FieldEntry → String)
    → (FieldEntry → String)
    → (FieldEntry → Cell → Cell)
    → FieldMap
    → Cells
    → Cells
    → Cells
copy_entries source target change [] input out = out
copy_entries source target change (e ∷ es) input out = copy_entries source target change es input (
    if is_missing (input (source e))
    then out
    else set_cell (target e) (change e (input (source e))) out)

abbrev pub api_field : FieldEntry → String
api_field e = e.0

abbrev pub db_column : FieldEntry → String
db_column e = e.1

abbrev pub to_column : FieldEntry → Cell → Cell
to_column e v = transform_value (api_field e) v

abbrev pub map_fields : SourceTable → FieldMap → Cells → Cells → Cells
map_fields table entries db out =
    copy_entries db_column api_field (λ e v. reverse_transform_value table (api_field e) v) entries
      db out

unfoldable pub to_database : Cells → Cells
unfolding transform_value
to_database api = copy_entries api_field db_column to_column project_fields_map api no_cells

-- A row of projects with the rows of the joined tables; a table of one row is `none` where it has
-- none.
pub record ProjectRows : Type 0 where
  pub columns : Cells
  pub state : Option Cells
  pub area_project : Option Cells
  pub nfm_measures : Option (List Cells)
  pub nfm_land_use_changes : Option (List Cells)
  pub funding_value_rows : Option (List Cells)
  pub funding_contributor_rows : Option (List Cells)

pub record ApiProject : Type 0 where
  pub fields : Cells
  pub nfm_measures : Option (List Cells)
  pub nfm_land_use_changes : Option (List Cells)
  pub funding_value_rows : Option (List Cells)
  pub funding_contributor_rows : Option (List Cells)

abbrev pub map_one : FieldMap → Option Cells → Cells → Cells
map_one entries none out = out
map_one entries (some row) out = map_fields other_table entries row out

abbrev pub map_many : SourceTable → FieldMap → Option (List Cells) → Option (List Cells)
map_many table entries none = none
map_many table entries (some rows) = some (map (λ row. map_fields table entries row no_cells) rows)

unfoldable pub to_api : ProjectRows → ApiProject
unfolding reverse_transform_value
to_api p = record {
  fields = map_one area_projects_fields p.area_project (
      map_one states_fields p.state (map_fields main project_select_fields_map p.columns no_cells));
  nfm_measures = map_many other_table nfm_measures_fields p.nfm_measures;
  nfm_land_use_changes = map_many other_table nfm_land_use_changes_fields p.nfm_land_use_changes;
  funding_value_rows = map_many funding_values funding_values_fields p.funding_value_rows;
  funding_contributor_rows =
      map_many funding_contributors funding_contributors_fields p.funding_contributor_rows;
}
