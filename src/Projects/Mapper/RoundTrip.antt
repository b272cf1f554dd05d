-- ===== src/Projects/Mapper/RoundTrip.antt =====
-- What is written of a payload is read back as it was.
use pafs_backend_api.Prelude.{
  String, Bool, true, false, List, [], ◌∷◌, ◌++◌, Option, none, some, map, if◌then◌else◌, ◌≡◌, refl,
  ap, ◌∙◌, subst, Bool-cases, inl, inr, All, is_empty_text, trim, has_comma,
  split_commas-join_commas, is_empty_text-join_commas, ℤ,
}
use pafs_backend_api.Projects.Value.{Value, null, number, text, texts, integer_text, includes}
use pafs_backend_api.Projects.Value.Numbers.{
  number_of_text-integer_text, is_empty_text-integer_text,
}
use pafs_backend_api.Projects.Mapper.{
  Cells, is_missing, no_cells, transform_value, reverse_transform_value, main, other_table,
  FieldEntry, api_field, db_column, to_column, to_database, to_api, ProjectRows, map_one,
}
use pafs_backend_api.Projects.Mapper.Fields.{
  FieldMap, project_fields_map, read_only_fields, project_select_fields_map,
}
use pafs_backend_api.Projects.Mapper.Kinds.{
  array_fields, bigint_fields, decimal_fields, number_fields, percentage_fields, states_fields,
  area_projects_fields,
}
use pafs_backend_api.Projects.Mapper.Conversions.{
  Cell, plain, array_to_database, array_to_api, bigint_to_database, bigint_to_api,
  decimal_to_database, decimal_to_api, decimal_value,
}
use pafs_backend_api.Projects.Mapper.Entries.{
  has_name, IsEntry, columns-distinct, fields-distinct, copied-other, copied-entry,
}

-- An item of a list that is stored in one text.
abbrev pub IsClean : String → Type 0
IsClean s = (has_comma s ≡ false) × (is_empty_text s ≡ false) × (trim s ≡ s)

abbrev pub is_number_field : String → Bool
is_number_field field =
    if includes field number_fields then true else includes field percentage_fields

-- The values of a field that the conversions of its kind keep.
pub data IsStorable (field : String) : Cell → Type 0 where
  clean_list :
      (ts : List String)
      → includes field array_fields ≡ true
      → All IsClean ts
      → IsStorable field (plain (texts ts))
  -- the text of an integer
  integer :
      (n : ℤ)
      → includes field array_fields ≡ false
      → includes field bigint_fields ≡ true
      → IsStorable field (plain (text (integer_text n)))
  decimal_text :
      (s : String)
      → includes field array_fields ≡ false
      → includes field bigint_fields ≡ false
      → includes field decimal_fields ≡ true
      → is_empty_text s ≡ false
      → IsStorable field (plain (text s))
  a_number :
      (n : ℤ)
      → includes field array_fields ≡ false
      → includes field bigint_fields ≡ false
      → includes field decimal_fields ≡ false
      → is_number_field field ≡ true
      → IsStorable field (plain (number n))
  a_null : includes field array_fields ≡ false → IsStorable field (plain null)
  other_value :
      (v : Value)
      → includes field array_fields ≡ false
      → includes field bigint_fields ≡ false
      → includes field decimal_fields ≡ false
      → is_number_field field ≡ false
      → is_missing (plain v) ≡ false
      → IsStorable field (plain v)

map-trim : (ts : List String) → All IsClean ts → map trim ts ≡ ts
map-trim [] h = refl
map-trim (t ∷ ts) h = ap (λ s. s ∷ map trim ts) h.0.2 ∙ ap (λ us. t ∷ us) (map-trim ts h.1)

no_commas : (ts : List String) → All IsClean ts → All (λ s. has_comma s ≡ false) ts
no_commas [] h = tt
no_commas (t ∷ ts) h = (h.0.0, no_commas ts h.1)

array-round_trip :
    (ts : List String)
    → All IsClean ts
    → array_to_api (array_to_database (plain (texts ts))) ≡ plain (texts ts)
unfolding array_to_api array_to_database
array-round_trip [] h = refl
array-round_trip (t ∷ ts) h = rw (is_empty_text-join_commas t ts h.0.1) (
    ap (λ us. plain (texts (map trim us))) (split_commas-join_commas t ts (no_commas (t ∷ ts) h))
    ∙ ap (λ us. plain (texts us)) (map-trim (t ∷ ts) h))

bigint-round_trip :
    (n : ℤ)
    → bigint_to_api (bigint_to_database (plain (text (integer_text n))))
      ≡ plain (text (integer_text n))
unfolding bigint_to_api bigint_to_database
bigint-round_trip n = rw (is_empty_text-integer_text n, number_of_text-integer_text n) refl

bigint-kept : (n : ℤ) → is_missing (bigint_to_database (plain (text (integer_text n)))) ≡ false
unfolding bigint_to_database
bigint-kept n = rw (is_empty_text-integer_text n, number_of_text-integer_text n) refl

-- Prisma gives a Decimal back for a text that is written to a column of decimals.
abbrev pub as_decimal : Cell → Cell
as_decimal (plain (text s)) = decimal_value s
as_decimal w = w

-- What is read of the column of a field, where the column gives back what is written to it: the
-- Decimal whose `toFixed` is the text that was written for the fields of decimals, and the value
-- that was written for the others.
abbrev pub as_read : String → Cell → Cell
as_read field w =
    if includes field array_fields
    then w
    else if includes field bigint_fields
    then w
    else if includes field decimal_fields
    then as_decimal w
    else w

-- It is read back as it was, and is not lost on the way.
abbrev Returns : String → Cell → Type 0
Returns field v =
    (reverse_transform_value main field (as_read field (transform_value field v)) ≡ v)
    × (is_missing (as_read field (transform_value field v)) ≡ false)

transform-Returns : (field : String) (v : Cell) → IsStorable field v → Returns field v
unfolding reverse_transform_value transform_value array_to_database decimal_to_database
    decimal_to_api
transform-Returns field v (clean_list ts l clean) = rw l (array-round_trip ts clean, refl)
transform-Returns field v (integer n l b) = rw (l, b) (bigint-round_trip n, bigint-kept n)
transform-Returns field v (decimal_text s l b d full) = rw (l, b, d, full) (refl, refl)
transform-Returns field v (a_number n l b d kind) =
    elim (Bool-cases (includes field number_fields)) [
      | inl e ↦ rw (l, b, d, e) (refl, refl)
      | inr e ↦ rw (l, b, d, e) (rw (rw e at kind) (refl, refl))
    ]
transform-Returns field v (a_null l) = elim (Bool-cases (includes field bigint_fields)) [
  | inl b ↦ rw (l, b) (refl, refl)
  | inr b ↦ elim (Bool-cases (includes field decimal_fields)) [
    | inl d ↦ rw (l, b, d) (refl, refl)
    | inr d ↦ elim (Bool-cases (includes field number_fields)) [
      | inl e ↦ rw (l, b, d, e) (refl, refl)
      | inr e ↦ elim (Bool-cases (includes field percentage_fields)) [
        | inl p ↦ rw (l, b, d, e, p) (refl, refl)
        | inr p ↦ rw (l, b, d, e, p) (refl, refl)
      ]
    ]
  ]
]
transform-Returns field v (other_value w l b d kind given) =
    elim (Bool-cases (includes field number_fields)) [
      | inl e ↦ cc (rw e at kind)
      | inr e ↦ rw (l, b, d, e) (rw (rw e at kind) (refl, given))
    ]

storable-given : (field : String) (v : Cell) → IsStorable field v → is_missing v ≡ false
storable-given field v (clean_list ts l clean) = refl
storable-given field v (integer n l b) = refl
storable-given field v (decimal_text s l b d full) = refl
storable-given field v (a_number n l b d kind) = refl
storable-given field v (a_null l) = refl
storable-given field v (other_value w l b d kind given) = given

IsEntry-append : (e : FieldEntry) (es ds : FieldMap) → IsEntry e es → IsEntry e (es ++ ds)
IsEntry-append e [] ds h = absurd h
IsEntry-append e (d ∷ es) ds (inl same) = inl same
IsEntry-append e (d ∷ es) ds (inr there) = inr (IsEntry-append e es ds there)

abbrev are_apart : FieldMap → FieldMap → Bool
are_apart [] others = true
are_apart (e ∷ es) others =
    if has_name api_field (api_field e) others then false else are_apart es others

apart-entry :
    (e : FieldEntry) (es others : FieldMap)
    → are_apart es others ≡ true
    → IsEntry e es
    → has_name api_field (api_field e) others ≡ false
apart-entry e [] others h there = absurd there
apart-entry e (d ∷ es) others h (inl same) =
    elim (Bool-cases (has_name api_field (api_field d) others)) [
      | inl shared ↦ cc (rw shared at h)
      | inr apart ↦ subst (λ x. has_name api_field (api_field x) others ≡ false) same apart
    ]
apart-entry e (d ∷ es) others h (inr there) =
    elim (Bool-cases (has_name api_field (api_field d) others)) [
      | inl shared ↦ cc (rw shared at h)
      | inr apart ↦ apart-entry e es others (rw apart at h) there
    ]

map_one-other :
    (es : FieldMap) (row : Option Cells) (out : Cells) (c : String)
    → has_name api_field c es ≡ false
    → map_one es row out c ≡ out c
map_one-other es none out c h = refl
map_one-other es (some row) out c h =
    copied-other db_column api_field (λ e v. reverse_transform_value other_table (api_field e) v) es
      row out c h

-- The fields of the states and of the areas are not fields of the project.
apart_states : are_apart project_fields_map states_fields ≡ true
apart_states = refl

apart_areas : are_apart project_fields_map area_projects_fields ≡ true
apart_areas = refl

-- Let `stored` be what is read of a column after a write. Where the column of a field gives back
-- what is written to it, a value of the field that its conversions keep is read back as it was, from
-- the row that is written of the payload and whatever the rows of the other tables are. Such a
-- value is a list of texts with no comma, empty text or outer white space in it, the text of an
-- integer for the whole numbers, a text that is not empty for the decimals, a number for the
-- numbers, null, and any value of a field without a conversion.
pub to_api-to_database :
    (stored : String → Cell → Cell) (p : ProjectRows) (api : Cells) (e : FieldEntry)
    → IsEntry e project_fields_map
    → IsStorable (api_field e) (api (api_field e))
    → stored (db_column e) (to_database api (db_column e))
      ≡ as_read (api_field e) (to_database api (db_column e))
    → (to_api (record p { columns = λ c. stored c (to_database api c) })).fields (api_field e)
      ≡ api (api_field e)
unfolding to_api to_database
to_api-to_database stored p api e there storable gives =
    let n = api_field e in
    let (back, kept) = transform-Returns n (api n) storable in
    let written =
      copied-entry api_field db_column to_column e project_fields_map api no_cells columns-distinct
        there (storable-given n (api n) storable) in
    let row : Cells = λ c. stored c (to_database api c) in
    let column : row (db_column e) ≡ as_read n (transform_value n (api n)) =
      gives ∙ ap (as_read n) written in
    let read =
      copied-entry db_column api_field (λ d v. reverse_transform_value main (api_field d) v) e
        project_select_fields_map row no_cells fields-distinct
        (IsEntry-append e project_fields_map read_only_fields there)
        (ap is_missing column ∙ kept) in
    map_one-other area_projects_fields p.area_project _ n
      (apart-entry e project_fields_map area_projects_fields apart_areas there)
    ∙ map_one-other states_fields p.state _ n
        (apart-entry e project_fields_map states_fields apart_states there)
    ∙ read
    ∙ ap (reverse_transform_value main n) column
    ∙ back
