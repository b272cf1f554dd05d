-- ===== src/Projects/Funding/Fixtures.antt =====
-- Tables that take the rows of one project, number 1, for three years and three names of
-- contributors; other rows are refused.
mod Search
pub mod Rows
use pafs_backend_api.Prelude.{
  ℕ, ◌≡◌, refl, sym, ap, subst, String, Bool, true, false, ◌&&◌, List, [], ◌∷◌, Option, none, some,
  ◌==◌, if◌then◌else◌, ◌===◌, eq_iff, ==_iff, ℤ, is_some, Bool-cases, inl, inr, arith, filter, any,
}
use pafs_backend_api.Projects.Value.{includes}
use pafs_backend_api.Projects.Funding.Names.{filter-includes}
use pafs_backend_api.Projects.Funding.{
  FundingTables, Spend, ValueWrite, ContributorWrite, upsert_value, create_values, delete_values,
  update_values, upsert_contributor, create_contributors, delete_contributors, clear_amounts,
  rename_contributors, value_after, contributor_after, has_number,
}
use pafs_backend_api.Projects.Funding.Fixtures.Search.{
  and_true, some_list, any_has, if_true, has-filter,
}
use pafs_backend_api.Projects.Funding.Fixtures.Rows.{
  FundingRows, kept, kept-write_names, kept-write_years, named, named-write_names,
  named-write_years, write_names, write_years,
}

module _ (years : List ℕ) (names : List String) where
  abbrev pub years_found : ℕ → (ℕ → Bool) → FundingRows → List ℕ
  years_found p test t = if p == 1 then filter (λ y. is_some (t.spend y) && test y) years else []

  pub years_found_all :
      (p : ℕ) (test : ℕ → Bool) (y : ℕ) (t : FundingRows) {ids : List ℕ}
      → some (years_found p test t) ≡ some ids
      → is_some (kept years names p y t) ≡ true
      → has_number ids y ≡ test y
  years_found_all p test y t {ids} h there = elim (Bool-cases (p == 1 && has_number years y)) [
    | inl inside ↦
        let (one, has) = and_true (p == 1) (has_number years y) inside in
        let stored : is_some (t.spend y) ≡ true = rw inside at there in
        let found = has-filter (λ z. is_some (t.spend z) && test z) y years in
        let same : years_found p test t ≡ ids = some_list h in
        subst (λ xs. has_number xs y ≡ test y) same (rw one (rw (has, stored) at found))
    | inr outside ↦ cc (rw outside at there)
  ]

  abbrev pub names_found : List ℕ → String → FundingRows → List String
  names_found ks s t = filter (λ n. any (λ k. is_some (t.paid k s n)) ks) names

  pub names_found_all :
      (ks : List ℕ) (s n : String) (k : ℕ) (t : FundingRows) {found : List String}
      → some (names_found ks s t) ≡ some found
      → has_number ks k ≡ true
      → is_some (named years names k s n t) ≡ true
      → includes n found ≡ true
  names_found_all ks s n k t {found} h has there = elim (Bool-cases (includes n names)) [
    | inl inside ↦
        let stored : is_some (t.paid k s n) ≡ true = rw inside at there in
        subst (λ xs. includes n xs ≡ true) (some_list h)
          (filter-includes (λ m. any (λ j. is_some (t.paid j s m)) ks) n names
            (any_has (λ j. is_some (t.paid j s n)) k ks has stored) inside)
    | inr outside ↦ cc (rw outside at there)
  ]

  pub some_found : {o p : Option ℕ} → some o ≡ some p → o ≡ p
  some_found e = cc

  abbrev pub tables : FundingTables
  tables = record {
    Rows = FundingRows;
    spend_at = kept years names;
    id_at = λ p y t. y;
    contributor_at = named years names;
    find_project_id = λ r t. some (if is_some r then some 1 else none);
    find_years = λ p t. some none;
    find_value = λ p y t. some (if is_some (kept years names p y t) then some y else none);
    find_values = λ p test t. some (years_found p test t);
    find_names = λ ks s t. some (names_found ks s t);
    write_values = write_years years names;
    write_contributors = write_names years names;
    spend_at-write_values = kept-write_years years names;
    id_at-write_values = λ w q z t h e. refl;
    contributor_at-write_values = named-write_years years names;
    spend_at-write_contributors = kept-write_names years names;
    id_at-write_contributors = λ w q z t h. refl;
    contributor_at-write_contributors = named-write_names years names;
    find_value-spend_at = λ p y t h. sym (some_found h);
    find_values_all = years_found_all;
    find_names_all = names_found_all;
  }
