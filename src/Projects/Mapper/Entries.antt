-- ===== src/Projects/Mapper/Entries.antt =====
-- The loops over the entries of a map: what they leave under each name.
use pafs_backend_api.Prelude.{
  String, Bool, true, false, [], ◌∷◌, if◌then◌else◌, ◌===◌, ◌≡◌, ◌⊎◌, refl, sym, ◌∙◌, subst, eq_iff,
  Bool-cases, inl, inr,
}
use pafs_backend_api.Projects.Mapper.{
  Cells, is_missing, FieldEntry, copy_entries, api_field, db_column, set_cell,
}
use pafs_backend_api.Projects.Mapper.Fields.{
  FieldMap, project_fields_map, project_select_fields_map,
}
use pafs_backend_api.Projects.Mapper.Conversions.{Cell}

-- Whether a name of an entry, such as its column, is among those of a map.
abbrev pub has_name : (FieldEntry → String) → String → FieldMap → Bool
has_name key c [] = false
has_name key c (e ∷ es) = if key e === c then true else has_name key c es

abbrev pub are_distinct : (FieldEntry → String) → FieldMap → Bool
are_distinct key [] = true
are_distinct key (e ∷ es) = if has_name key (key e) es then false else are_distinct key es

abbrev pub IsEntry : FieldEntry → FieldMap → Type 0
IsEntry e [] = ⊥
IsEntry e (d ∷ es) = (d ≡ e) ⊎ IsEntry e es

pub columns-distinct : are_distinct db_column project_fields_map ≡ true
columns-distinct = refl

pub fields-distinct : are_distinct api_field project_select_fields_map ≡ true
fields-distinct = refl

pub set_cell-other :
    (b : Bool) (name c : String) (v : Cell) (out : Cells)
    → (name === c) ≡ false
    → (if b then out else set_cell name v out) c ≡ out c
set_cell-other true name c v out h = refl
set_cell-other false name c v out h = rw h refl

pub set_cell-same :
    (b : Bool) (name : String) (v : Cell) (out : Cells)
    → b ≡ false
    → (if b then out else set_cell name v out) name ≡ v
set_cell-same true name v out h = cc
set_cell-same false name v out h = rw ((eq_iff name name).1 refl) refl

module _ (source target : FieldEntry → String) (change : FieldEntry → Cell → Cell) where
  abbrev pub copied : FieldMap → Cells → Cells → Cells
  copied es input out = copy_entries source target change es input out

  pub copied-other :
      (es : FieldMap) (input out : Cells) (c : String)
      → has_name target c es ≡ false
      → copied es input out c ≡ out c
  copied-other [] input out c h = refl
  copied-other (e ∷ es) input out c h = elim (Bool-cases (target e === c)) [
    | inl same ↦ cc (rw same at h)
    | inr other ↦
        copied-other es input _ c (rw other at h) ∙ set_cell-other _ (target e) c _ out other
  ]

  pub copied-head :
      (e : FieldEntry) (es : FieldMap) (input out : Cells)
      → are_distinct target (e ∷ es) ≡ true
      → is_missing (input (source e)) ≡ false
      → copied (e ∷ es) input out (target e) ≡ change e (input (source e))
  copied-head e es input out distinct given = elim (Bool-cases (has_name target (target e) es)) [
    | inl again ↦ cc (rw again at distinct)
    | inr once ↦ copied-other es input _ (target e) once ∙ set_cell-same _ (target e) _ out given
  ]

  pub copied-entry :
      (e : FieldEntry) (es : FieldMap) (input out : Cells)
      → are_distinct target es ≡ true
      → IsEntry e es
      → is_missing (input (source e)) ≡ false
      → copied es input out (target e) ≡ change e (input (source e))
  copied-entry e [] input out distinct there given = absurd there
  copied-entry e (d ∷ es) input out distinct (inl same) given =
      subst (λ x. copied (d ∷ es) input out (target x) ≡ change x (input (source x))) same
        (copied-head d es input out distinct
          (subst (λ x. is_missing (input (source x)) ≡ false) (sym same) given))
  copied-entry e (d ∷ es) input out distinct (inr there) given =
      elim (Bool-cases (has_name target (target d) es)) [
        | inl again ↦ cc (rw again at distinct)
        | inr once ↦ copied-entry e es input _ (rw once at distinct) there given
      ]
