-- ===== src/Projects/Funding/Sums.antt =====
-- Every operation on the funding tables keeps the totals of their rows the sums of their amounts.
mod Contributions
pub mod Saves
use pafs_backend_api.Prelude.{
  ℕ, ◌≡◌, refl, sym, subst, String, Bool, true, false, not, ◌&&◌, List, [], ◌∷◌, Option, none, some,
  ◌==◌, if◌then◌else◌, ℤ, pos, Outcome, returned, threw, after, attempt, then_run, after_both,
  after-then_run, after-attempt, after-after_both, Bool-cases, Option-cases, inl, inr, ◌+◌, ◌-◌,
  filter,
}
use pafs_backend_api.Projects.Value.{includes}
use pafs_backend_api.Projects.Funding
use pafs_backend_api.Projects.Funding.{
  FundingTables, FundingField, Spend, ValueWrite, ContributorWrite, upsert_value, create_values,
  delete_values, update_values, value_after, no_amounts, Amounts, nulled, query, put_value,
  put_contributors, done, build_funding_value_update_data, has_number, or_project_id,
  additional_gia_fields, created_if,
}
use pafs_backend_api.Projects.Funding.Contributors
use pafs_backend_api.Projects.Funding.Contributors.{Entry, years_from, upsert_contributor_direct}
use pafs_backend_api.Projects.Funding.Totals.{IsSum, IsSumIn, nulled-IsSum, no_amounts-IsSum}

-- The writes that can make no total wrong.
abbrev pub KeepsSums : ValueWrite → Type 0
KeepsSums (upsert_value p y s) = IsSum s
KeepsSums (create_values p ys) = Unit
KeepsSums (delete_values test) = Unit
KeepsSums (update_values test change) = (s : Spend) → IsSum (change s)

created-IsSumIn : (b : Bool) (o : Option Spend) → IsSumIn o → IsSumIn (created_if b o)
created-IsSumIn b (some s) h = h
created-IsSumIn true none h = no_amounts-IsSum
created-IsSumIn false none h = tt

value_after-IsSumIn :
    (w : ValueWrite) (k q z : ℕ) (o : Option Spend)
    → KeepsSums w
    → IsSumIn o
    → IsSumIn (value_after w k q z o)
value_after-IsSumIn (upsert_value p y s) k q z o w h = elim (Bool-cases (q == p && z == y)) [
  | inl e ↦ rw e w
  | inr e ↦ rw e h
]
value_after-IsSumIn (create_values p ys) k q z o w h = created-IsSumIn _ o h
value_after-IsSumIn (delete_values test) k q z o w h = elim (Bool-cases (test k q z)) [
  | inl e ↦ rw e tt
  | inr e ↦ rw e h
]
value_after-IsSumIn (update_values test change) k q z none w h = tt
value_after-IsSumIn (update_values test change) k q z (some s) w h =
    elim (Bool-cases (test k q z)) [ inl e ↦ rw e (w s) | inr e ↦ rw e h ]

module _ (db : FundingTables) where
  -- In every row of the tables the total is the sum of the amounts.
  abbrev pub IsSummed : db.Rows → Type 0
  IsSummed t = (q z : ℕ) → IsSumIn (db.spend_at q z t)

  -- However the operation ends, it leaves such rows.
  pub record Keeps {A : Type 0} (o : Outcome db.Rows A) : Type 0 where
    pub kept : IsSummed (after o)

  pub done-Keeps : (t : db.Rows) → IsSummed t → Keeps (done db t)
  done-Keeps t h = record { kept = h }

  pub then_run-Keeps :
      {A B : Type 0} (o : Outcome db.Rows A) (k : A → db.Rows → Outcome db.Rows B)
      → Keeps o
      → ((a : A) (t : db.Rows) → IsSummed t → Keeps (k a t))
      → Keeps (then_run o k)
  then_run-Keeps o k h next = record {
    kept = after-then_run IsSummed o k h.kept (λ a t g. (next a t g).kept);
  }

  pub after_both-Keeps :
      {A : Type 0} (o : Outcome db.Rows A) (k : db.Rows → Outcome db.Rows A)
      → Keeps o
      → ((t : db.Rows) → IsSummed t → Keeps (k t))
      → Keeps (after_both o k)
  after_both-Keeps o k h next = record {
    kept = after-after_both IsSummed o k h.kept (λ t g. (next t g).kept);
  }

  pub query-Keeps :
      {A B : Type 0} (t : db.Rows) (o : Option B) (k : B → Outcome db.Rows A)
      → IsSummed t
      → ((b : B) → o ≡ some b → Keeps (k b))
      → Keeps (query db t o k)
  unfolding query
  query-Keeps t none k h next = record { kept = h }
  query-Keeps t (some b) k h next = next b refl

  pub put_value-Keeps :
      {A : Type 0} (w : ValueWrite) (t : db.Rows) (k : db.Rows → Outcome db.Rows A)
      → KeepsSums w
      → IsSummed t
      → ((u : db.Rows) → IsSummed u → Keeps (k u))
      → Keeps (put_value db w t k)
  unfolding put_value
  put_value-Keeps w t k keeps h next = record {
    kept = after-attempt IsSummed t (db.write_values w t) k h λ u e.
        (next u λ q z.
          subst IsSumIn (sym (db.spend_at-write_values w q z t e))
            (value_after-IsSumIn w (db.id_at q z t) q z (db.spend_at q z t) keeps (h q z))).kept;
  }

  pub put_contributors-Keeps :
      {A : Type 0} (w : ContributorWrite) (t : db.Rows) (k : db.Rows → Outcome db.Rows A)
      → IsSummed t
      → ((u : db.Rows) → IsSummed u → Keeps (k u))
      → Keeps (put_contributors db w t k)
  unfolding put_contributors
  put_contributors-Keeps w t k h next = record {
    kept = after-attempt IsSummed t (db.write_contributors w t) k h λ u e.
        (next u
          (λ q z. subst IsSumIn (sym (db.spend_at-write_contributors w q z t e)) (h q z))).kept;
  }

  pub get_project_id_by_reference-Keeps :
      (r : Option String) (t : db.Rows)
      → IsSummed t
      → Keeps (Funding.get_project_id_by_reference db r t)
  unfolding Funding.get_project_id_by_reference
  get_project_id_by_reference-Keeps r t h =
      query-Keeps t (db.find_project_id r t) _ h
        λ o e. query-Keeps t o _ h (λ k e'. record { kept = h })

  pub or_project_id-Keeps :
      (p : Option ℕ) (r : Option String) (t : db.Rows) → IsSummed t → Keeps (or_project_id db p r t)
  or_project_id-Keeps (some p) r t h = record { kept = h }
  or_project_id-Keeps none r t h = get_project_id_by_reference-Keeps r t h

  pub delete_all_funding_data-Keeps :
      (r : Option String) (t : db.Rows)
      → IsSummed t
      → Keeps (Funding.delete_all_funding_data db r t)
  unfolding Funding.delete_all_funding_data
  delete_all_funding_data-Keeps r t h =
      then_run-Keeps _ _ (get_project_id_by_reference-Keeps r t h) λ p u h'.
        query-Keeps u _ _ h'
          λ ids e. put_contributors-Keeps _ u _ h' (λ v g. put_value-Keeps _ v _ tt g done-Keeps)

  pub upsert_funding_value-Keeps :
      (r : Option String) (y : ℕ) (a : Amounts) (p : Option ℕ) (t : db.Rows)
      → ((s : Spend) → build_funding_value_update_data a ≡ some s → IsSum s)
      → IsSummed t
      → Keeps (Funding.upsert_funding_value db r y a p t)
  unfolding Funding.upsert_funding_value
  upsert_funding_value-Keeps r y a p t good h =
      then_run-Keeps _ _ (or_project_id-Keeps p r t h) λ q u h'.
        query-Keeps u _ _ h' λ s e. put_value-Keeps _ u _ (good s e) h' (λ v g. record { kept = g })

  pub delete_found-Keeps :
      (o : Option ℕ) (t : db.Rows) → IsSummed t → Keeps (Funding.delete_found db o t)
  delete_found-Keeps none t h = done-Keeps t h
  delete_found-Keeps (some k) t h =
      put_contributors-Keeps _ t _ h (λ u g. put_value-Keeps _ u _ tt g done-Keeps)

  pub delete_funding_value_with_contributors-Keeps :
      (p y : ℕ) (t : db.Rows)
      → IsSummed t
      → Keeps (Funding.delete_funding_value_with_contributors db p y t)
  unfolding Funding.delete_funding_value_with_contributors
  delete_funding_value_with_contributors-Keeps p y t h =
      query-Keeps t _ _ h (λ o e. delete_found-Keeps o t h)

  pub clear_found-Keeps :
      (ids : List ℕ) (t : db.Rows) → IsSummed t → Keeps (Funding.clear_found db ids t)
  clear_found-Keeps [] t h = done-Keeps t h
  clear_found-Keeps (k ∷ ks) t h =
      put_value-Keeps _ t _ (λ s. no_amounts-IsSum) h
        λ u g. put_contributors-Keeps _ u _ g done-Keeps

  pub clear_out_of_range_funding_data-Keeps :
      (r : Option String) (first last : ℤ) (t : db.Rows)
      → IsSummed t
      → Keeps (Funding.clear_out_of_range_funding_data db r first last t)
  unfolding Funding.clear_out_of_range_funding_data
  clear_out_of_range_funding_data-Keeps r first last t h =
      then_run-Keeps _ _ (get_project_id_by_reference-Keeps r t h)
        λ p u g. query-Keeps u _ _ g (λ ids e. clear_found-Keeps ids u g)

  pub null_specific_funding_columns-Keeps :
      (r : Option String) (fs : List FundingField) (p : Option ℕ) (t : db.Rows)
      → IsSummed t
      → Keeps (Funding.null_specific_funding_columns db r fs p t)
  unfolding Funding.null_specific_funding_columns
  null_specific_funding_columns-Keeps r [] p t h =
      then_run-Keeps _ _ (or_project_id-Keeps p r t h) (λ q u g. done-Keeps u g)
  null_specific_funding_columns-Keeps r (f ∷ fs) p t h =
      then_run-Keeps _ _ (or_project_id-Keeps p r t h)
        λ q u g. put_value-Keeps _ u _ (nulled-IsSum (f ∷ fs)) g done-Keeps

  pub null_additional_gia_columns-Keeps :
      (r : Option String) (p : Option ℕ) (t : db.Rows)
      → IsSummed t
      → Keeps (Funding.null_additional_gia_columns db r p t)
  unfolding Funding.null_additional_gia_columns
  null_additional_gia_columns-Keeps r p t h =
      then_run-Keeps _ _ (or_project_id-Keeps p r t h)
        λ q u g. put_value-Keeps _ u _ (nulled-IsSum additional_gia_fields) g done-Keeps
