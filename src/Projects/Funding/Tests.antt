-- ===== src/Projects/Funding/Tests.antt =====
-- Saves of the money of a concrete project.
use pafs_backend_api.Prelude.{
  ◌≡◌, refl, true, [], ◌∷◌, Option, none, some, ◌==◌, ◌===◌, if◌then◌else◌, ℤ, pos, ◌+ℤ◌, Outcome,
  returned, after, is_some, Bool-cases, inl, inr, ◌&&◌, trim, decimal,
}
use pafs_backend_api.Projects.Value.{undefined, null, text, includes, to_number, number_of_text}
use pafs_backend_api.Projects.Submission.Fixtures.{row_of}
use pafs_backend_api.Projects.Funding
use pafs_backend_api.Projects.Funding.{
  FundingTables, FundingField, fcerm_gia, public_contributions, Spend, Amounts, no_amounts,
  sum_columns, query, put_value, put_contributors, has_number, or_project_id,
  get_project_id_by_reference,
}
use pafs_backend_api.Projects.Funding.Contributors.{Contributor, filter_valid_contributors}
use pafs_backend_api.Projects.Funding.Contributors
use pafs_backend_api.Projects.Funding.Payload
use pafs_backend_api.Projects.Funding.Payload.{SpendRow, ContributorGroup, public}
use pafs_backend_api.Projects.Funding.Saving
use pafs_backend_api.Projects.Funding.Page
use pafs_backend_api.Projects.Funding.Page.{SavePayload, EditedProject}
use pafs_backend_api.Projects.Funding.Fixtures.{tables}
use pafs_backend_api.Projects.Funding.Fixtures.Rows.{FundingRows}
use pafs_backend_api.Projects.Funding.Sums.{IsSummed}
use pafs_backend_api.Projects.Funding.Ranges.{clear_out_of_range_funding_data_lem}
use pafs_backend_api.Projects.Funding.Names.{cleanup_contributors_by_name_lem}
use pafs_backend_api.Projects.Funding.Sums.Saves.{apply_funding_normalizers-IsSummed}

abbrev db : FundingTables
db = tables (2025 ∷ 2026 ∷ 2027 ∷ []) ("Alpha" ∷ "Beta" ∷ "Gamma" ∷ [])

-- 100 in grant in aid, and 50 from Alpha, in 2025.
abbrev first_year : Spend
first_year = record {
  amount = λ f.
      if Funding.same_field f fcerm_gia
      then some (pos 100)
      else if Funding.same_field f public_contributions
      then some (pos 50)
      else none;
  total = pos 150;
}

abbrev stored : FundingRows
stored = record {
  spend = λ y. if y == 2025 then some first_year else none;
  paid = λ k s n.
      if k == 2025 && (s === "public_contributions" && n === "Alpha")
      then some (some (pos 50))
      else none;
}

stored-IsSummed : IsSummed db stored
unfolding sum_columns ◌+ℤ◌
stored-IsSummed q z = elim (Bool-cases (q == 1 && has_number (2025 ∷ 2026 ∷ 2027 ∷ []) z)) [
  | inl e ↦ elim (Bool-cases (z == 2025)) [ inl e' ↦ rw (e, e') refl | inr e' ↦ rw (e, e') tt ]
  | inr e ↦ rw e tt
]

-- 2026 with 1,000 in grant in aid and 7 from Beta.
abbrev spend_row : SpendRow
spend_row = record {
  financial_year = some 2026;
  amount = λ f. if Funding.same_field f fcerm_gia then text "1000" else null;
  total = undefined;
  contributors = λ g. elim g [
    | public ↦
        some (some (record { name = some "Beta"; contributor_type = none; amount = text "7" }) ∷ [])
    | _ ↦ none
  ];
}

abbrev page : SavePayload
page = record {
  reference_number = some "ANC501E/000A/005A";
  fields = row_of [];
  funding_values = some (some spend_row ∷ []);
}

abbrev project : EditedProject
project = record { id = some 1; financial_start_year = some 2025; financial_end_year = some 2027 }

abbrev saved : Outcome FundingRows SavePayload
saved =
    Saving.apply_funding_normalizers db (λ ns. ns) "FUNDING_SOURCES_ESTIMATED_SPEND" (some project)
      page stored

abbrev total_of_year : Option Spend → Option ℤ
total_of_year none = none
total_of_year (some s) = some s.total

saved_total : total_of_year ((after saved).spend 2026) ≡ some (pos 1007)
unfolding Saving.apply_funding_normalizers Saving.handle_funding_sources_data
    Saving.process_funding_value_row Page.final_amounts Payload.create_funding_amounts
    Payload.merge_contributor_totals_into_amounts Payload.calculate_funding_total Payload.sum_of
    Payload.has_any_amount_value Saving.clear_deselected_funding_source_columns
    Saving.clear_deselected_additional_gia_data Saving.clear_deselected_contributor_data
    Saving.cleanup_removed_contributors Saving.ensure_rows_of_contributors
    Saving.flush_out_of_range_funding_data Saving.flush_all_funding_data
    Funding.upsert_funding_value Funding.build_funding_value_update_data
    Contributors.sync_funding_contributors_for_year Contributors.upsert_desired_contributors
    Contributors.upsert_contributor_direct Contributors.delete_stale_contributors
    Contributors.filter_valid_contributors Payload.get_contributor_entries query put_value
    put_contributors to_number number_of_text trim decimal ◌+ℤ◌
saved_total = refl

apply_funding_normalizers-IsSummed_example : IsSummed db (after saved)
apply_funding_normalizers-IsSummed_example =
    apply_funding_normalizers-IsSummed db (λ ns. ns) "FUNDING_SOURCES_ESTIMATED_SPEND"
      (some project) page stored stored-IsSummed

-- The project is moved to 2026 and later: the money of 2025 is cleared.
abbrev moved : Outcome FundingRows (Unit {0})
moved =
    Funding.clear_out_of_range_funding_data db (some "ANC501E/000A/005A") (pos 2026) (pos 2027)
      stored

moved-returned : moved ≡ returned tt (after moved)
unfolding Funding.clear_out_of_range_funding_data get_project_id_by_reference query put_value
    put_contributors
moved-returned = refl

clear_out_of_range_funding_data_lem_example :
    (db.spend_at 1 2025 (after moved) ≡ some no_amounts)
    × (db.contributor_at 2025 "public_contributions" "Alpha" (after moved) ≡ some none)
clear_out_of_range_funding_data_lem_example =
    clear_out_of_range_funding_data_lem db (some "ANC501E/000A/005A") (pos 2026) (pos 2027) 1 2025
      stored "public_contributions" "Alpha" refl moved-returned refl

-- Alpha is replaced by Gamma.
abbrev renamed : Outcome FundingRows (Unit {0})
renamed =
    Contributors.cleanup_contributors_by_name db (λ ns. ns) none "public_contributions"
      ("Gamma" ∷ []) (some 1) stored

renamed-returned : renamed ≡ returned tt (after renamed)
unfolding Contributors.cleanup_contributors_by_name Contributors.apply_contributor_name_changes
    query put_contributors
renamed-returned = refl

gamma_stored :
    is_some (db.contributor_at 2025 "public_contributions" "Gamma" (after renamed)) ≡ true
unfolding Contributors.cleanup_contributors_by_name Contributors.apply_contributor_name_changes
    query put_contributors
gamma_stored = refl

cleanup_contributors_by_name_lem_example : includes "Gamma" ("Gamma" ∷ []) ≡ true
cleanup_contributors_by_name_lem_example =
    cleanup_contributors_by_name_lem db (λ ns. ns) (λ ns n. refl) "public_contributions" none
      ("Gamma" ∷ []) (some 1) 1 2025 stored "Gamma" refl renamed-returned refl gamma_stored

abbrev row_saved : Outcome FundingRows (Unit {0})
row_saved = Saving.process_funding_value_row db none 1 2026 spend_row stored

-- what is written of the row
abbrev row_amounts : Amounts
row_amounts = record {
  amount = λ f. if Funding.same_field public_contributions f then text "7" else spend_row.amount f;
  total = text "1007";
}
