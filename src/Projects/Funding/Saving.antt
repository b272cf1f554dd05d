-- ===== src/Projects/Funding/Saving.antt =====
-- What the save of a page does to the funding tables: funding-sources-normalizers.js and
-- funding-sources-contributor-normalizers.js of src/plugins/projects/helpers, and
-- applyFundingNormalizers of src/plugins/projects/upsert-project/upsert-project.js. The operations
-- of a Promise.all are run in the order in which they are listed.
use pafs_backend_api.Prelude.{
  ℕ, String, not, List, [], ◌∷◌, Option, none, some, if◌then◌else◌, ℤ, Outcome, returned, threw,
  then_run, after_both,
}
use pafs_backend_api.Projects.Funding.{
  FundingTables, FundingField, upsert_funding_value, delete_funding_value_with_contributors,
  delete_all_funding_data, clear_out_of_range_funding_data, null_specific_funding_columns,
  null_additional_gia_columns, or_project_id, query, done,
}
use pafs_backend_api.Projects.Funding.Contributors.{
  sync_funding_contributors_for_year, ensure_contributor_funding_rows, cleanup_contributors_by_name,
  delete_contributors_by_type,
}
use pafs_backend_api.Projects.Funding.Payload.{
  SpendRow, ContributorGroup, contributor_config, type_of, has_any_amount_value,
  get_contributor_entries,
}
use pafs_backend_api.Projects.Funding.Page.{
  SavePayload, EditedProject, group_of_level, names_field, is_estimated_spend, is_sources_selected,
  spend_fields_of_level, deselected, current_names, final_amounts, project_id_of, gia_deselected,
  is_deselected, without_deselected, years_of, without_rows, year_or, changes_years, clears_stale,
}

module _ (db : FundingTables) where
  abbrev pub null_deselected :
      Option EditedProject → SavePayload → List FundingField → db.Rows → Outcome db.Rows (Unit {0})
  null_deselected existing p [] t = done db t
  null_deselected existing p (f ∷ fs) t =
      null_specific_funding_columns db p.reference_number (f ∷ fs) (project_id_of existing) t

  unfoldable pub clear_deselected_funding_source_columns :
      String → Option EditedProject → SavePayload → db.Rows → Outcome db.Rows (Unit {0})
  clear_deselected_funding_source_columns level existing p t =
      null_deselected existing p (deselected p (spend_fields_of_level level)) t

  unfoldable pub clear_deselected_additional_gia_data :
      String → Option EditedProject → SavePayload → db.Rows → Outcome db.Rows (Unit {0})
  clear_deselected_additional_gia_data level existing p t =
      if gia_deselected level p
      then null_additional_gia_columns db p.reference_number (project_id_of existing) t
      else done db t

  abbrev pub delete_deselected :
      Option EditedProject
      → SavePayload
      → List ContributorGroup
      → db.Rows
      → Outcome db.Rows (Unit {0})
  delete_deselected existing p [] t = done db t
  delete_deselected existing p (g ∷ gs) t =
      then_run
        (if is_deselected p g
          then delete_contributors_by_type db p.reference_number (type_of g)
              (project_id_of existing) t
          else done db t)
        (λ a u. delete_deselected existing p gs u)

  unfoldable pub clear_deselected_contributor_data :
      String → Option EditedProject → SavePayload → db.Rows → Outcome db.Rows (Unit {0})
  clear_deselected_contributor_data level existing p t =
      if is_sources_selected level
      then delete_deselected existing p contributor_config t
      else done db t

  abbrev pub cleanup_group :
      (List String → List String)
      → Option EditedProject
      → SavePayload
      → Option ContributorGroup
      → db.Rows
      → Outcome db.Rows (Unit {0})
  cleanup_group sort existing p none t = done db t
  cleanup_group sort existing p (some g) t =
      cleanup_contributors_by_name db sort p.reference_number (type_of g)
        (current_names (p.fields (names_field g))) (project_id_of existing) t

  unfoldable pub cleanup_removed_contributors :
      (List String → List String)
      → String
      → Option EditedProject
      → SavePayload
      → db.Rows
      → Outcome db.Rows (Unit {0})
  cleanup_removed_contributors sort level existing p t =
      cleanup_group sort existing p (group_of_level level) t

  abbrev pub ensure_names :
      String
      → List String
      → Option EditedProject
      → SavePayload
      → db.Rows
      → Outcome db.Rows (Unit {0})
  ensure_names type [] existing p t = done db t
  ensure_names type (n ∷ ns) existing p t =
      ensure_contributor_funding_rows db p.reference_number type (n ∷ ns) (project_id_of existing)
        (years_of existing).0 (years_of existing).1 t

  abbrev pub ensure_group :
      Option EditedProject
      → SavePayload
      → Option ContributorGroup
      → db.Rows
      → Outcome db.Rows (Unit {0})
  ensure_group existing p none t = done db t
  ensure_group existing p (some g) t =
      ensure_names (type_of g) (current_names (p.fields (names_field g))) existing p t

  unfoldable pub ensure_rows_of_contributors :
      String → Option EditedProject → SavePayload → db.Rows → Outcome db.Rows (Unit {0})
  ensure_rows_of_contributors level existing p t = ensure_group existing p (group_of_level level) t

  unfoldable pub process_funding_value_row :
      Option String → ℕ → ℕ → SpendRow → db.Rows → Outcome db.Rows (Unit {0})
  process_funding_value_row reference_number p year r t = query db t (final_amounts r) λ amounts.
      if not (has_any_amount_value amounts)
      then delete_funding_value_with_contributors db p year t
      else then_run (upsert_funding_value db reference_number year amounts (some p) t)
          (λ k u. sync_funding_contributors_for_year db k (get_contributor_entries r) u)

  abbrev pub process_year :
      Option String
      → ℕ
      → SpendRow
      → (db.Rows → Outcome db.Rows (Unit {0}))
      → Option ℕ
      → db.Rows
      → Outcome db.Rows (Unit {0})
  process_year reference_number p r rest none t = rest t
  process_year reference_number p r rest (some year) t =
      after_both (process_funding_value_row reference_number p year r t) rest

  -- the rows that are objects and have a year
  abbrev pub process_rows :
      Option String → ℕ → List (Option SpendRow) → db.Rows → Outcome db.Rows (Unit {0})
  process_rows reference_number p [] t = done db t
  process_rows reference_number p (none ∷ rows) t = process_rows reference_number p rows t
  process_rows reference_number p (some r ∷ rows) t =
      process_year reference_number p r (process_rows reference_number p rows) r.financial_year t

  abbrev pub handle_rows :
      Option ℕ
      → Option String
      → Option (List (Option SpendRow))
      → db.Rows
      → Outcome db.Rows (Unit {0})
  handle_rows existing reference_number none t = done db t
  handle_rows existing reference_number (some rows) t =
      then_run (or_project_id db existing reference_number t)
        (λ p u. process_rows reference_number p rows u)

  unfoldable pub handle_funding_sources_data :
      String → Option EditedProject → SavePayload → db.Rows → Outcome db.Rows (Unit {0})
  handle_funding_sources_data level existing p t =
      if is_estimated_spend level
      then handle_rows (project_id_of existing) p.reference_number p.funding_values t
      else done db t

  -- Prisma does not take NaN.
  abbrev pub clear_between :
      Option String → Option (Option ℤ) → Option (Option ℤ) → db.Rows → Outcome db.Rows (Unit {0})
  clear_between reference_number none last t = done db t
  clear_between reference_number (some first) none t = done db t
  clear_between reference_number (some none) (some last) t = threw t
  clear_between reference_number (some (some first)) (some none) t = threw t
  clear_between reference_number (some (some first)) (some (some last)) t =
      clear_out_of_range_funding_data db reference_number first last t

  unfoldable pub flush_out_of_range_funding_data :
      String → Option EditedProject → SavePayload → db.Rows → Outcome db.Rows (Unit {0})
  flush_out_of_range_funding_data level existing p t =
      if changes_years level p
      then clear_between p.reference_number
          (year_or (p.fields "financialStartYear") (years_of existing).0)
          (year_or (p.fields "financialEndYear") (years_of existing).1) t
      else done db t

  unfoldable pub flush_all_funding_data :
      String → SavePayload → db.Rows → Outcome db.Rows (Unit {0})
  flush_all_funding_data level p t =
      if clears_stale level p then delete_all_funding_data db p.reference_number t else done db t

  abbrev pub clear_deselected :
      String → Option EditedProject → SavePayload → db.Rows → Outcome db.Rows (Unit {0})
  clear_deselected level existing p t =
      after_both (clear_deselected_funding_source_columns level existing p t) λ u.
        after_both (clear_deselected_additional_gia_data level existing p u)
          (clear_deselected_contributor_data level existing p)

  abbrev pub flush :
      String → Option EditedProject → SavePayload → db.Rows → Outcome db.Rows (Unit {0})
  flush level existing p t =
      then_run (flush_out_of_range_funding_data level existing p t)
        (λ a u. flush_all_funding_data level p u)

  abbrev pub keep_contributors :
      (List String → List String)
      → String
      → Option EditedProject
      → SavePayload
      → db.Rows
      → Outcome db.Rows (Unit {0})
  keep_contributors sort level existing p t =
      after_both (cleanup_removed_contributors sort level existing p t)
        (ensure_rows_of_contributors level existing p)

  -- The payload is what is left to be written to the table of projects.
  unfoldable pub apply_funding_normalizers :
      (List String → List String)
      → String
      → Option EditedProject
      → SavePayload
      → db.Rows
      → Outcome db.Rows SavePayload
  apply_funding_normalizers sort level existing p t =
      then_run (clear_deselected level existing p t) λ a u.
        let q = without_deselected level p in
        then_run (keep_contributors sort level existing q u) λ b v.
          then_run (handle_funding_sources_data level existing q v) λ c w.
            then_run (flush level existing (without_rows level q) w)
              (λ d x. returned (without_rows level q) x)
