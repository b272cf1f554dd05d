-- ===== src/Projects/Mapper/Columns.antt =====
-- What the columns of whole numbers hold after a payload is written.
use pafs_backend_api.Prelude.{
  String, true, false, some, ◌===◌, ◌≡◌, refl, sym, ap, ◌∙◌, subst, eq_iff, Bool-cases, inl, inr,
  is_empty_text, ℤ,
}
use pafs_backend_api.Projects.Value.{Value, null, number, text, number_of_text, includes}
use pafs_backend_api.Projects.Mapper.{
  Cells, FieldEntry, is_missing, transform_value, to_database, api_field, db_column, to_column,
  no_cells,
}
use pafs_backend_api.Projects.Mapper.Fields.{project_fields_map}
use pafs_backend_api.Projects.Mapper.Kinds.{array_fields, bigint_fields}
use pafs_backend_api.Projects.Mapper.Conversions.{Cell, plain, bigint, bigint_to_database}
use pafs_backend_api.Projects.Mapper.Entries.{IsEntry, copied-entry, columns-distinct}

-- What a column of type BigInt can hold.
abbrev pub HoldsBigInt : Cell → Type 0
HoldsBigInt (bigint n) = Unit
HoldsBigInt (plain null) = Unit
HoldsBigInt _ = ⊥

-- A whole number, a text that is read as one, or none.
pub data IsWhole : Value → Type 0 where
  whole_number : (n : ℤ) → IsWhole (number n)
  whole_text : (s : String) (n : ℤ) → number_of_text s ≡ some n → IsWhole (text s)
  no_number : IsWhole null

whole-given : (v : Value) → IsWhole v → is_missing (plain v) ≡ false
whole-given v (whole_number n) = refl
whole-given v (whole_text s n e) = refl
whole-given v no_number = refl

bigint_to_database-HoldsBigInt :
    (v : Value) → IsWhole v → HoldsBigInt (bigint_to_database (plain v))
unfolding bigint_to_database
bigint_to_database-HoldsBigInt v (whole_number n) = tt
bigint_to_database-HoldsBigInt v (whole_text s n e) = elim (Bool-cases (is_empty_text s)) [
  | inl empty ↦ rw empty tt
  | inr full ↦ rw (full, e) tt
]
bigint_to_database-HoldsBigInt v no_number = tt

-- No field is both a list and a whole number.
bigint-not_array : (n : String) → includes n bigint_fields ≡ true → includes n array_fields ≡ false
bigint-not_array n b = elim (Bool-cases ("projectInterventionTypes" === n)) [
  | inl e ↦ cc (
      subst (λ m. includes m bigint_fields ≡ true) (sym ((eq_iff "projectInterventionTypes" n).0 e))
        b)
  | inr e ↦ elim (Bool-cases ("risks" === n)) [
    | inl f ↦ cc (subst (λ m. includes m bigint_fields ≡ true) (sym ((eq_iff "risks" n).0 f)) b)
    | inr f ↦ rw (e, f) refl
  ]
]

-- Where a payload has a whole number, a text of one, an empty text or null for a field of whole
-- numbers, the column of the field is given a BigInt or null.
pub to_database-HoldsBigInt :
    (api : Cells) (e : FieldEntry) (v : Value)
    → IsEntry e project_fields_map
    → includes (api_field e) bigint_fields ≡ true
    → api (api_field e) ≡ plain v
    → IsWhole v
    → HoldsBigInt (to_database api (db_column e))
unfolding to_database transform_value
to_database-HoldsBigInt api e v there b given whole =
    let n = api_field e in
    let not_missing : is_missing (api n) ≡ false = ap is_missing given ∙ whole-given v whole in
    let written =
      copied-entry api_field db_column to_column e project_fields_map api no_cells columns-distinct
        there not_missing in
    let stored : to_column e (api n) ≡ bigint_to_database (plain v) =
      rw (bigint-not_array n b, b, given) refl in
    subst HoldsBigInt (sym (written ∙ stored)) (bigint_to_database-HoldsBigInt v whole)
