-- ===== src/Projects/Funding/Sums/Saves.antt =====
-- The save of a page keeps the total of every year the sum of its amounts.
use pafs_backend_api.Prelude.{ℕ, String, List, [], ◌∷◌, Option, none, some, ℤ, after, not}
use pafs_backend_api.Projects.Funding.{FundingTables, FundingField}
use pafs_backend_api.Projects.Funding.Payload.{
  SpendRow, ContributorGroup, contributor_config, type_of, has_any_amount_value,
  get_contributor_entries,
}
use pafs_backend_api.Projects.Funding.Saving
use pafs_backend_api.Projects.Funding.Page.{
  SavePayload, EditedProject, group_of_level, is_estimated_spend, deselected, spend_fields_of_level,
  project_id_of, without_deselected, without_rows, is_deselected, is_sources_selected,
  gia_deselected, changes_years, clears_stale, year_or,
}
use pafs_backend_api.Projects.Funding.Totals.{final_amounts-IsSum}
use pafs_backend_api.Projects.Funding.Sums.{
  IsSummed, Keeps, done-Keeps, then_run-Keeps, after_both-Keeps, query-Keeps, or_project_id-Keeps,
  upsert_funding_value-Keeps, delete_funding_value_with_contributors-Keeps,
  clear_out_of_range_funding_data-Keeps, delete_all_funding_data-Keeps,
  null_specific_funding_columns-Keeps, null_additional_gia_columns-Keeps,
}
use pafs_backend_api.Projects.Funding.Sums.Contributions.{
  if-Keeps, sync_funding_contributors_for_year-Keeps, ensure_contributor_funding_rows-Keeps,
  cleanup_contributors_by_name-Keeps, delete_contributors_by_type-Keeps,
}

module _ (db : FundingTables) where
  process_funding_value_row-Keeps :
      (r : Option String) (p y : ℕ) (row : SpendRow) (t : db.Rows)
      → IsSummed db t
      → Keeps db (Saving.process_funding_value_row db r p y row t)
  unfolding Saving.process_funding_value_row
  process_funding_value_row-Keeps r p y row t h = query-Keeps db t _ _ h λ a e.
      if-Keeps db (not (has_any_amount_value a)) _ _
        (delete_funding_value_with_contributors-Keeps db p y t h)
        (then_run-Keeps db _ _
          (upsert_funding_value-Keeps db r y a (some p) t (λ s made. final_amounts-IsSum row e made)
            h)
          (λ k u g.
            sync_funding_contributors_for_year-Keeps db k (get_contributor_entries row) u g))

  year_row-Keeps :
      (r : Option String) (p : ℕ) (row : SpendRow) (rows : List (Option SpendRow)) (y : Option ℕ)
      (t : db.Rows)
      → ((u : db.Rows) → IsSummed db u → Keeps db (Saving.process_rows db r p rows u))
      → IsSummed db t
      → Keeps db (Saving.process_year db r p row (Saving.process_rows db r p rows) y t)
  year_row-Keeps r p row rows none t next h = next t h
  year_row-Keeps r p row rows (some y) t next h =
      after_both-Keeps db _ _ (process_funding_value_row-Keeps r p y row t h) next

  process_rows-Keeps :
      (r : Option String) (p : ℕ) (rows : List (Option SpendRow)) (t : db.Rows)
      → IsSummed db t
      → Keeps db (Saving.process_rows db r p rows t)
  process_rows-Keeps r p [] t h = done-Keeps db t h
  process_rows-Keeps r p (none ∷ rows) t h = process_rows-Keeps r p rows t h
  process_rows-Keeps r p (some row ∷ rows) t h =
      year_row-Keeps r p row rows row.financial_year t (process_rows-Keeps r p rows) h

  rows_found-Keeps :
      (existing : Option ℕ) (r : Option String) (rows : Option (List (Option SpendRow)))
      (t : db.Rows)
      → IsSummed db t
      → Keeps db (Saving.handle_rows db existing r rows t)
  rows_found-Keeps existing r none t h = done-Keeps db t h
  rows_found-Keeps existing r (some rows) t h =
      then_run-Keeps db _ _ (or_project_id-Keeps db existing r t h)
        (λ p u g. process_rows-Keeps r p rows u g)

  handle_funding_sources_data-Keeps :
      (level : String) (existing : Option EditedProject) (p : SavePayload) (t : db.Rows)
      → IsSummed db t
      → Keeps db (Saving.handle_funding_sources_data db level existing p t)
  unfolding Saving.handle_funding_sources_data
  handle_funding_sources_data-Keeps level existing p t h =
      if-Keeps db (is_estimated_spend level) _ _
        (rows_found-Keeps (project_id_of existing) p.reference_number p.funding_values t h)
        (done-Keeps db t h)

  null_deselected-Keeps :
      (existing : Option EditedProject) (p : SavePayload) (fs : List FundingField) (t : db.Rows)
      → IsSummed db t
      → Keeps db (Saving.null_deselected db existing p fs t)
  null_deselected-Keeps existing p [] t h = done-Keeps db t h
  null_deselected-Keeps existing p (f ∷ fs) t h =
      null_specific_funding_columns-Keeps db p.reference_number (f ∷ fs) (project_id_of existing) t
        h

  delete_deselected-Keeps :
      (existing : Option EditedProject) (p : SavePayload) (gs : List ContributorGroup) (t : db.Rows)
      → IsSummed db t
      → Keeps db (Saving.delete_deselected db existing p gs t)
  delete_deselected-Keeps existing p [] t h = done-Keeps db t h
  delete_deselected-Keeps existing p (g ∷ gs) t h =
      then_run-Keeps db _ _
        (if-Keeps db (is_deselected p g) _ _
          (delete_contributors_by_type-Keeps db p.reference_number (type_of g)
            (project_id_of existing) t h)
          (done-Keeps db t h))
        (λ a u h'. delete_deselected-Keeps existing p gs u h')

  cleanup_group-Keeps :
      (sort : List String → List String) (existing : Option EditedProject) (p : SavePayload)
      (g : Option ContributorGroup) (t : db.Rows)
      → IsSummed db t
      → Keeps db (Saving.cleanup_group db sort existing p g t)
  cleanup_group-Keeps sort existing p none t h = done-Keeps db t h
  cleanup_group-Keeps sort existing p (some g) t h =
      cleanup_contributors_by_name-Keeps db sort p.reference_number (type_of g) _
        (project_id_of existing) t h

  ensure_names-Keeps :
      (type : String) (names : List String) (existing : Option EditedProject) (p : SavePayload)
      (t : db.Rows)
      → IsSummed db t
      → Keeps db (Saving.ensure_names db type names existing p t)
  ensure_names-Keeps type [] existing p t h = done-Keeps db t h
  ensure_names-Keeps type (n ∷ ns) existing p t h =
      ensure_contributor_funding_rows-Keeps db p.reference_number type (n ∷ ns)
        (project_id_of existing) _ _ t h

  ensure_group-Keeps :
      (existing : Option EditedProject) (p : SavePayload) (g : Option ContributorGroup)
      (t : db.Rows)
      → IsSummed db t
      → Keeps db (Saving.ensure_group db existing p g t)
  ensure_group-Keeps existing p none t h = done-Keeps db t h
  ensure_group-Keeps existing p (some g) t h = ensure_names-Keeps (type_of g) _ existing p t h

  clear_between-Keeps :
      (r : Option String) (first last : Option (Option ℤ)) (t : db.Rows)
      → IsSummed db t
      → Keeps db (Saving.clear_between db r first last t)
  clear_between-Keeps r none last t h = done-Keeps db t h
  clear_between-Keeps r (some first) none t h = done-Keeps db t h
  clear_between-Keeps r (some none) (some last) t h = record { kept = h }
  clear_between-Keeps r (some (some first)) (some none) t h = record { kept = h }
  clear_between-Keeps r (some (some first)) (some (some last)) t h =
      clear_out_of_range_funding_data-Keeps db r first last t h

  -- Promise.all of the operations on the sources that were given up
  selected-Keeps :
      (level : String) (existing : Option EditedProject) (p : SavePayload) (t : db.Rows)
      → IsSummed db t
      → Keeps db (Saving.clear_deselected db level existing p t)
  unfolding Saving.clear_deselected_funding_source_columns
      Saving.clear_deselected_additional_gia_data Saving.clear_deselected_contributor_data
  selected-Keeps level existing p t h =
      after_both-Keeps db _ _
        (null_deselected-Keeps existing p (deselected p (spend_fields_of_level level)) t h)
        λ u g.
          after_both-Keeps db _ _
            (if-Keeps db (gia_deselected level p) _ _
              (null_additional_gia_columns-Keeps db p.reference_number (project_id_of existing) u g)
              (done-Keeps db u g))
            λ v g'.
              if-Keeps db (is_sources_selected level) _ _
                (delete_deselected-Keeps existing p contributor_config v g') (done-Keeps db v g')

  flush_out_of_range_funding_data-Keeps :
      (level : String) (existing : Option EditedProject) (p : SavePayload) (t : db.Rows)
      → IsSummed db t
      → Keeps db (Saving.flush_out_of_range_funding_data db level existing p t)
  unfolding Saving.flush_out_of_range_funding_data
  flush_out_of_range_funding_data-Keeps level existing p t h =
      if-Keeps db (changes_years level p) _ _
        (clear_between-Keeps p.reference_number (year_or (p.fields "financialStartYear") _)
          (year_or (p.fields "financialEndYear") _) t h)
        (done-Keeps db t h)

  flush_all_funding_data-Keeps :
      (level : String) (p : SavePayload) (t : db.Rows)
      → IsSummed db t
      → Keeps db (Saving.flush_all_funding_data db level p t)
  unfolding Saving.flush_all_funding_data
  flush_all_funding_data-Keeps level p t h =
      if-Keeps db (clears_stale level p) _ _
        (delete_all_funding_data-Keeps db p.reference_number t h) (done-Keeps db t h)

  flushed-Keeps :
      (level : String) (existing : Option EditedProject) (p : SavePayload) (t : db.Rows)
      → IsSummed db t
      → Keeps db (Saving.flush db level existing p t)
  flushed-Keeps level existing p t h =
      then_run-Keeps db _ _ (flush_out_of_range_funding_data-Keeps level existing p t h)
        (λ a u g. flush_all_funding_data-Keeps level p u g)

  contributors-Keeps :
      (sort : List String → List String) (level : String) (existing : Option EditedProject)
      (p : SavePayload) (t : db.Rows)
      → IsSummed db t
      → Keeps db (Saving.keep_contributors db sort level existing p t)
  unfolding Saving.cleanup_removed_contributors Saving.ensure_rows_of_contributors
  contributors-Keeps sort level existing p t h =
      after_both-Keeps db _ _ (cleanup_group-Keeps sort existing p (group_of_level level) t h)
        (λ u g. ensure_group-Keeps existing p (group_of_level level) u g)

  apply_funding_normalizers-Keeps :
      (sort : List String → List String) (level : String) (existing : Option EditedProject)
      (p : SavePayload) (t : db.Rows)
      → IsSummed db t
      → Keeps db (Saving.apply_funding_normalizers db sort level existing p t)
  unfolding Saving.apply_funding_normalizers
  apply_funding_normalizers-Keeps sort level existing p t h =
      let q = without_deselected level p in
      then_run-Keeps db _ _ (selected-Keeps level existing p t h) λ a u g.
        then_run-Keeps db _ _ (contributors-Keeps sort level existing q u g) λ b v g'.
          then_run-Keeps db _ _ (handle_funding_sources_data-Keeps level existing q v g') λ c w g''.
            then_run-Keeps db _ _ (flushed-Keeps level existing (without_rows level q) w g'')
              λ d x k. record { kept = k }

-- Where in every year of every project the total is the sum of the amounts, it is so after the
-- save of a page, whatever its level and payload, and also where the save throws.
pub apply_funding_normalizers-IsSummed :
    (db : FundingTables) (sort : List String → List String) (level : String)
    (existing : Option EditedProject) (p : SavePayload) (t : db.Rows)
    → IsSummed db t
    → IsSummed db (after (Saving.apply_funding_normalizers db sort level existing p t))
apply_funding_normalizers-IsSummed db sort level existing p t h =
    (apply_funding_normalizers-Keeps db sort level existing p t h).kept
