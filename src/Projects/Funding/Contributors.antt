-- ===== src/Projects/Funding/Contributors.antt =====
-- src/plugins/projects/services/project-funding-contributors-service.js and
-- project-funding-contributors-sync-service.js. The operations of a Promise.all are all run, in the
-- order in which they are listed, and the whole throws if one of them did. The program starts them
-- together: where two entries of a year are of one type and name, which amount stays is not fixed
-- there, so what is proved of the amounts supposes that no two are. The order of `localeCompare` is a
-- parameter.
use mathlib.Core.Option
use pafs_backend_api.Prelude.{
  zero, ℕ, suc, ◌+◌, ◌-◌, String, Bool, true, false, not, ◌&&◌, List, [], ◌∷◌, Option, none, some,
  ◌==◌, ◌===◌, if◌then◌else◌, any, filter, Outcome, then_run, after_both, is_empty_text,
}
use pafs_backend_api.Projects.Value.{Value, undefined, null, text, includes}
use pafs_backend_api.Projects.Funding.{
  FundingTables, upsert_contributor, create_contributors, delete_contributors, rename_contributors,
  create_values, has_number, to_big_int, or_project_id, query, put_value, put_contributors, done,
}

-- A contributor of a year in a payload; a name or type is `none` where it is missing.
pub record Contributor : Type 0 where
  pub name : Option String
  pub contributor_type : Option String
  pub amount : Value

-- What is to be stored of a contributor.
pub record Entry : Type 0 where
  pub name : String
  pub contributor_type : String
  pub amount : Value

-- `a !== null && a !== undefined && a !== ''`
abbrev pub is_given : Value → Bool
is_given undefined = false
is_given null = false
is_given (text s) = not (is_empty_text s)
is_given _ = true

abbrev pub is_valid_entry : Entry → Bool
is_valid_entry e =
    not (is_empty_text e.name) && (not (is_empty_text e.contributor_type) && is_given e.amount)

unfoldable pub filter_valid_contributors : List Entry → List Entry
filter_valid_contributors entries = filter is_valid_entry entries

abbrev pub is_entry_of : String → String → Entry → Bool
is_entry_of type name e = e.contributor_type === type && e.name === name

-- the years from `first` on, as many as `n`
abbrev pub years_from : ℕ → ℕ → List ℕ
years_from first zero = []
years_from first (suc n) = first ∷ years_from (suc first) n

-- a year that is neither missing nor 0
abbrev pub truthy_year : Option ℕ → Option ℕ
truthy_year none = none
truthy_year (some y) = if y == 0 then none else some y

abbrev pub both_years : Option ℕ → Option ℕ → Option (ℕ × ℕ)
both_years (some first) (some last) = some (first, last)
both_years (some first) none = none
both_years none last = none

abbrev pub stored_years : Option (Option ℕ × Option ℕ) → Option (ℕ × ℕ)
stored_years none = none
stored_years (some (first, last)) = both_years (truthy_year first) (truthy_year last)

module _ (db : FundingTables) where
  unfoldable pub upsert_contributor_direct : ℕ → Entry → db.Rows → Outcome db.Rows (Unit {0})
  upsert_contributor_direct k e t =
      query db t (to_big_int e.amount)
        λ a. put_contributors db (upsert_contributor k e.contributor_type e.name a) t (done db)

  unfoldable pub upsert_desired_contributors : ℕ → List Entry → db.Rows → Outcome db.Rows (Unit {0})
  upsert_desired_contributors k [] t = done db t
  upsert_desired_contributors k (e ∷ es) t =
      after_both (upsert_contributor_direct k e t) (upsert_desired_contributors k es)

  unfoldable pub delete_stale_contributors : ℕ → List Entry → db.Rows → Outcome db.Rows (Unit {0})
  delete_stale_contributors k entries t =
      put_contributors db
        (delete_contributors (λ j s n. j == k && not (any (is_entry_of s n) entries))) t (done db)

  -- for the id of a funding value, which is not 0
  unfoldable pub sync_funding_contributors_for_year :
      ℕ → List Entry → db.Rows → Outcome db.Rows (Unit {0})
  sync_funding_contributors_for_year k entries t =
      let desired = filter_valid_contributors entries in
      then_run (upsert_desired_contributors k desired t)
        (λ a u. delete_stale_contributors k desired u)

  -- the years that are given, or those of the project
  abbrev pub resolve_financial_years : ℕ → Option ℕ → Option ℕ → db.Rows → Option (Option (ℕ × ℕ))
  resolve_financial_years p (some first) (some last) t = some (some (first, last))
  resolve_financial_years p (some first) none t = Option.map stored_years (db.find_years p t)
  resolve_financial_years p none last t = Option.map stored_years (db.find_years p t)

  unfoldable pub persist_contributor_rows :
      ℕ → List ℕ → String → List String → db.Rows → Outcome db.Rows (Unit {0})
  persist_contributor_rows p years type names t = put_value db (create_values p years) t λ u.
      query db u (db.find_values p (has_number years) u)
        λ ids. put_contributors db (create_contributors ids type names) u (done db)

  abbrev pub in_years :
      ℕ → String → List String → Option (ℕ × ℕ) → db.Rows → Outcome db.Rows (Unit {0})
  in_years p type names none t = done db t
  in_years p type names (some (first, last)) t =
      persist_contributor_rows p (years_from first (last + 1 - first)) type names t

  unfoldable pub ensure_contributor_funding_rows :
      Option String
      → String
      → List String
      → Option ℕ
      → Option ℕ
      → Option ℕ
      → db.Rows
      → Outcome db.Rows (Unit {0})
  ensure_contributor_funding_rows reference_number type names provided first last t =
      then_run (or_project_id db provided reference_number t) λ p u.
        query db u (resolve_financial_years p first last u) (λ years. in_years p type names years u)

  -- Each name that was removed takes the place of one that was added, and is deleted where there is
  -- none left.
  unfoldable pub apply_contributor_name_changes :
      List ℕ → String → List String → List String → db.Rows → Outcome db.Rows (Unit {0})
  apply_contributor_name_changes ks type [] added t = done db t
  apply_contributor_name_changes ks type (old ∷ removed) [] t =
      after_both
        (put_contributors db
          (delete_contributors (λ j s n. has_number ks j && (s === type && n === old))) t (done db))
        (apply_contributor_name_changes ks type removed [])
  apply_contributor_name_changes ks type (old ∷ removed) (new ∷ added) t =
      after_both (put_contributors db (rename_contributors ks type old new) t (done db))
        (apply_contributor_name_changes ks type removed added)

  module _ (sort : List String → List String) where
    abbrev pub change_names :
        List ℕ → String → List String → List String → db.Rows → Outcome db.Rows (Unit {0})
    change_names ks type current existing t =
        apply_contributor_name_changes ks type
          (sort (filter (λ n. not (includes n current)) (sort existing)))
          (sort (filter (λ n. not (includes n (sort existing))) current)) t

    abbrev pub cleanup_found : List ℕ → String → List String → db.Rows → Outcome db.Rows (Unit {0})
    cleanup_found [] type current t = done db t
    cleanup_found (k ∷ ks) type [] t =
        put_contributors db (delete_contributors (λ j s n. has_number (k ∷ ks) j && s === type)) t
          (done db)
    cleanup_found (k ∷ ks) type (c ∷ cs) t =
        query db t (db.find_names (k ∷ ks) type t)
          λ existing. change_names (k ∷ ks) type (c ∷ cs) existing t

    unfoldable pub cleanup_contributors_by_name :
        Option String → String → List String → Option ℕ → db.Rows → Outcome db.Rows (Unit {0})
    cleanup_contributors_by_name reference_number type current provided t =
        then_run (or_project_id db provided reference_number t) λ p u.
          query db u (db.find_values p (λ y. true) u) (λ ids. cleanup_found ids type current u)

  -- DELETE … WHERE contributor_type = … AND funding_value_id IN (SELECT id … WHERE project_id = …)
  unfoldable pub delete_contributors_by_type :
      Option String → String → Option ℕ → db.Rows → Outcome db.Rows (Unit {0})
  delete_contributors_by_type reference_number type provided t =
      then_run (or_project_id db provided reference_number t) λ p u.
        query db u (db.find_values p (λ y. true) u) λ ids.
          put_contributors db (delete_contributors (λ j s n. s === type && has_number ids j)) u
            (done db)
