-- ===== src/Projects/Funding/Sums/Contributions.antt =====
-- The operations on contributors leave the amounts and totals of the years alone.
use pafs_backend_api.Prelude.{
  ℕ, String, Bool, true, false, List, [], ◌∷◌, Option, none, some, if◌then◌else◌, Outcome,
}
use pafs_backend_api.Projects.Funding.{FundingTables}
use pafs_backend_api.Projects.Funding.Contributors
use pafs_backend_api.Projects.Funding.Contributors.{Entry}
use pafs_backend_api.Projects.Funding.Sums.{
  IsSummed, Keeps, done-Keeps, then_run-Keeps, after_both-Keeps, query-Keeps, put_value-Keeps,
  put_contributors-Keeps, or_project_id-Keeps,
}

module _ (db : FundingTables) where
  pub if-Keeps :
      {A : Type 0} (b : Bool) (o o' : Outcome db.Rows A)
      → Keeps db o
      → Keeps db o'
      → Keeps db (if b then o else o')
  if-Keeps true o o' h h' = h
  if-Keeps false o o' h h' = h'

  pub upsert_desired_contributors-Keeps :
      (k : ℕ) (es : List Entry) (t : db.Rows)
      → IsSummed db t
      → Keeps db (Contributors.upsert_desired_contributors db k es t)
  unfolding Contributors.upsert_desired_contributors Contributors.upsert_contributor_direct
  upsert_desired_contributors-Keeps k [] t h = done-Keeps db t h
  upsert_desired_contributors-Keeps k (e ∷ es) t h =
      after_both-Keeps db _ _
        (query-Keeps db t _ _ h (λ a eq. put_contributors-Keeps db _ t _ h (done-Keeps db)))
        (upsert_desired_contributors-Keeps k es)

  pub sync_funding_contributors_for_year-Keeps :
      (k : ℕ) (es : List Entry) (t : db.Rows)
      → IsSummed db t
      → Keeps db (Contributors.sync_funding_contributors_for_year db k es t)
  unfolding Contributors.sync_funding_contributors_for_year Contributors.delete_stale_contributors
  sync_funding_contributors_for_year-Keeps k es t h =
      then_run-Keeps db _ _ (upsert_desired_contributors-Keeps k _ t h)
        λ a u g. put_contributors-Keeps db _ u _ g (done-Keeps db)

  pub in_years-Keeps :
      (p : ℕ) (type : String) (names : List String) (years : Option (ℕ × ℕ)) (t : db.Rows)
      → IsSummed db t
      → Keeps db (Contributors.in_years db p type names years t)
  unfolding Contributors.persist_contributor_rows
  in_years-Keeps p type names none t h = done-Keeps db t h
  in_years-Keeps p type names (some (first, last)) t h =
      put_value-Keeps db _ t _ tt h
        λ u g. query-Keeps db u _ _ g (λ ids e. put_contributors-Keeps db _ u _ g (done-Keeps db))

  pub ensure_contributor_funding_rows-Keeps :
      (r : Option String) (type : String) (names : List String) (p first last : Option ℕ)
      (t : db.Rows)
      → IsSummed db t
      → Keeps db (Contributors.ensure_contributor_funding_rows db r type names p first last t)
  unfolding Contributors.ensure_contributor_funding_rows
  ensure_contributor_funding_rows-Keeps r type names p first last t h =
      then_run-Keeps db _ _ (or_project_id-Keeps db p r t h)
        λ q u g. query-Keeps db u _ _ g (λ years e. in_years-Keeps q type names years u g)

  pub apply_contributor_name_changes-Keeps :
      (ks : List ℕ) (type : String) (removed added : List String) (t : db.Rows)
      → IsSummed db t
      → Keeps db (Contributors.apply_contributor_name_changes db ks type removed added t)
  unfolding Contributors.apply_contributor_name_changes
  apply_contributor_name_changes-Keeps ks type [] added t h = done-Keeps db t h
  apply_contributor_name_changes-Keeps ks type (old ∷ removed) [] t h =
      after_both-Keeps db _ _ (put_contributors-Keeps db _ t _ h (done-Keeps db))
        (apply_contributor_name_changes-Keeps ks type removed [])
  apply_contributor_name_changes-Keeps ks type (old ∷ removed) (new ∷ added) t h =
      after_both-Keeps db _ _ (put_contributors-Keeps db _ t _ h (done-Keeps db))
        (apply_contributor_name_changes-Keeps ks type removed added)

  pub cleanup_found-Keeps :
      (sort : List String → List String) (ks : List ℕ) (type : String) (names : List String)
      (t : db.Rows)
      → IsSummed db t
      → Keeps db (Contributors.cleanup_found db sort ks type names t)
  cleanup_found-Keeps sort [] type names t h = done-Keeps db t h
  cleanup_found-Keeps sort (k ∷ ks) type [] t h = put_contributors-Keeps db _ t _ h (done-Keeps db)
  cleanup_found-Keeps sort (k ∷ ks) type (n ∷ ns) t h =
      query-Keeps db t _ _ h
        λ existing e. apply_contributor_name_changes-Keeps (k ∷ ks) type _ _ t h

  pub cleanup_contributors_by_name-Keeps :
      (sort : List String → List String) (r : Option String) (type : String) (names : List String)
      (p : Option ℕ) (t : db.Rows)
      → IsSummed db t
      → Keeps db (Contributors.cleanup_contributors_by_name db sort r type names p t)
  unfolding Contributors.cleanup_contributors_by_name
  cleanup_contributors_by_name-Keeps sort r type names p t h =
      then_run-Keeps db _ _ (or_project_id-Keeps db p r t h)
        λ q u g. query-Keeps db u _ _ g (λ ids e. cleanup_found-Keeps sort ids type names u g)

  pub delete_contributors_by_type-Keeps :
      (r : Option String) (type : String) (p : Option ℕ) (t : db.Rows)
      → IsSummed db t
      → Keeps db (Contributors.delete_contributors_by_type db r type p t)
  unfolding Contributors.delete_contributors_by_type
  delete_contributors_by_type-Keeps r type p t h =
      then_run-Keeps db _ _ (or_project_id-Keeps db p r t h)
        λ q u g. query-Keeps db u _ _ g (λ ids e. put_contributors-Keeps db _ u _ g (done-Keeps db))
