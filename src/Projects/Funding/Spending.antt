-- ===== src/Projects/Funding/Spending.antt =====
-- What a saved row of estimated spend leaves in the tables.
use pafs_backend_api.Prelude.{
  ℕ, ◌≡◌, refl, ap, ◌∙◌, subst, String, true, false, Option, none, some, ◌==◌, ==_iff, returned,
  is_some, Bool-cases, inl, inr, arith,
}
use pafs_backend_api.Projects.Funding
use pafs_backend_api.Projects.Funding.{
  FundingTables, Amounts, upsert_contributor, delete_contributors, delete_values, or_other, query,
  put_value, put_contributors, done, value_after, contributor_after, kept_unless, or_project_id,
}
use pafs_backend_api.Projects.Funding.Payload.{SpendRow, has_any_amount_value}
use pafs_backend_api.Projects.Funding.Saving
use pafs_backend_api.Projects.Funding.Page.{final_amounts}
use pafs_backend_api.Projects.Funding.Ranges.{
  put_value-returned, put_contributors-returned, query-returned, returned-rows,
}

module _ (db : FundingTables) where
  none_of : {A : Type 0} (o : Option A) → is_some o ≡ false → o ≡ none
  none_of none h = refl
  none_of (some a) h = cc

  abbrev IsGone : ℕ → ℕ → db.Rows → db.Rows → Type 0
  IsGone p y t u =
      (db.spend_at p y u ≡ none)
      × ((type name : String)
          → is_some (db.spend_at p y t) ≡ true
          → db.contributor_at (db.id_at p y t) type name u ≡ none)

  delete_found-IsGone :
      (p y : ℕ) (t : db.Rows) {u : db.Rows}
      → Funding.delete_found db (some (db.id_at p y t)) t ≡ returned tt u
      → IsGone p y t u
  delete_found-IsGone p y t {u} h =
      let k = db.id_at p y t in
      let (v, first, run) = put_contributors-returned db _ t _ h in
      let (w, second, ended) = put_value-returned db _ v _ run in
      let write = second ∙ ap some (returned-rows db ended) in
      let id = db.id_at-write_contributors _ p y t first in
      let now = db.spend_at-write_values (delete_values (λ j q z. j == k)) p y v write in
      (
        now ∙ ap (λ j. kept_unless (j == k) (db.spend_at p y v)) id ∙ gone k (db.spend_at p y v),
        λ type name there.
            db.contributor_at-write_values _ k type name v write
            ∙ db.contributor_at-write_contributors _ k type name t first
            ∙ gone k (db.contributor_at k type name t),
      )
    where
      gone : {A : Type 0} (k : ℕ) (o : Option A) → kept_unless (k == k) o ≡ none
      gone k o = ground (arith, ==_iff k k)

  deleted_year :
      (p y : ℕ) (t : db.Rows) {u : db.Rows}
      → Funding.delete_funding_value_with_contributors db p y t ≡ returned tt u
      → IsGone p y t u
  unfolding Funding.delete_funding_value_with_contributors
  deleted_year p y t {u} h =
      let (o, found, run) = query-returned db t (db.find_value p y t) _ h in
      let law = db.find_value-spend_at p y t found in
      elim (Bool-cases (is_some (db.spend_at p y t))) [
        | inl there ↦
            delete_found-IsGone p y t
              (subst (λ x. Funding.delete_found db x t ≡ returned tt u) (rw there at law) run)
        | inr missing ↦
            let run' =
              subst (λ x. Funding.delete_found db x t ≡ returned tt u) (rw missing at law) run in
            let same : t ≡ u = returned-rows db run' in
            (
              subst (λ v. db.spend_at p y v ≡ none) same (none_of (db.spend_at p y t) missing),
              λ type name there. cc (there, missing),
            )
      ]

  -- Where the save of a row of estimated spend without an amount returns, the year has no row, and
  -- the contributors of the row that it had are gone.
  pub process_funding_value_row-deleted :
      (r : Option String) (p y : ℕ) (row : SpendRow) (a : Amounts) (t : db.Rows) {u : db.Rows}
      → final_amounts row ≡ some a
      → has_any_amount_value a ≡ false
      → Saving.process_funding_value_row db r p y row t ≡ returned tt u
      → IsGone p y t u
  unfolding Saving.process_funding_value_row query
  process_funding_value_row-deleted r p y row a t {u} final no_amount h =
      deleted_year p y t (rw (final, no_amount) at h)
