-- ===== src/Projects/Funding.antt =====
-- src/plugins/projects/services/project-funding-sources-service.js, which keeps the money of a project
-- by financial year.
mod Tables
unfoldable pub use Tables.*
pub mod Contributors
pub mod Payload
pub mod Page
pub mod Saving
pub mod Fixtures
mod Totals
mod Sums
mod Ranges
mod Names
mod Entries
mod Spending
mod Tests
use mathlib.Core.Option
use pafs_backend_api.Prelude.{
  ℕ, ◌≡◌, ◌≢◌, String, Bool, true, false, not, ◌&&◌, ◌||◌, List, [], ◌∷◌, Option, none, some, ltb,
  ◌==◌, ◌===◌, if◌then◌else◌, any, map, filter, ℤ, pos, ◌+ℤ◌, Outcome, returned, threw, attempt,
  then_run, ltb_ℤ, ◌↔◌, is_some,
}
use pafs_backend_api.Projects.Value.{
  Value, undefined, null, flag, number, text, texts, truthy, to_number,
}

-- `BigInt(value)`, `none` where it throws
unfoldable pub to_big_int : Value → Option ℤ
unfolding to_number
to_big_int undefined = none
to_big_int null = none
to_big_int v = to_number v

-- `value ? BigInt(value) : null`
unfoldable pub to_nullable_big_int : Value → Option (Option ℤ)
unfolding to_big_int
to_nullable_big_int v = if truthy v then Option.map some (to_big_int v) else some none

-- `value ? BigInt(value) : 0n`
unfoldable pub to_total_big_int : Value → Option ℤ
unfolding to_big_int
to_total_big_int v = if truthy v then to_big_int v else some (pos 0)

-- The amounts of a year as a payload has them.
pub record Amounts : Type 0 where
  pub amount : FundingField → Value
  pub total : Value

abbrev pub flatten : {A : Type 0} → Option (Option A) → Option A
flatten none = none
flatten (some o) = o

-- a column after BigInt; where BigInt throws nothing is written
abbrev pub column_of : (FundingField → Value) → FundingField → Option ℤ
column_of amount f = flatten (to_nullable_big_int (amount f))

abbrev pub all_big_ints : List FundingField → (FundingField → Value) → Bool
all_big_ints [] amount = true
all_big_ints (f ∷ fs) amount =
    if is_some (to_nullable_big_int (amount f)) then all_big_ints fs amount else false

unfoldable pub build_funding_value_update_data : Amounts → Option Spend
unfolding to_nullable_big_int to_total_big_int
build_funding_value_update_data a =
    if all_big_ints amount_fields a.amount
    then Option.map (λ n. record { amount = column_of a.amount; total = n })
        (to_total_big_int a.total)
    else none

abbrev pub or_zero_amount : Option ℤ → ℤ
or_zero_amount none = pos 0
or_zero_amount (some n) = n

-- COALESCE(a, 0) + COALESCE(b, 0) + …, after a sum
unfoldable pub sum_columns : ℤ → List FundingField → (FundingField → Option ℤ) → ℤ
sum_columns acc [] amount = acc
sum_columns acc (f ∷ fs) amount = sum_columns (acc +ℤ or_zero_amount (amount f)) fs amount

abbrev pub is_among : List FundingField → FundingField → Bool
is_among fs f = any (λ g. same_field g f) fs

-- SET … = NULL for some columns, and the total from the others
unfoldable pub nulled : List FundingField → Spend → Spend
unfolding sum_columns
nulled fs s = record {
  amount = λ f. if is_among fs f then none else s.amount f;
  total = sum_columns (pos 0) (filter (λ f. not (is_among fs f)) amount_fields) s.amount;
}

abbrev pub additional_gia_fields : List FundingField
additional_gia_fields =
    asset_replacement_allowance ∷ environment_statutory_funding ∷ frequently_flooded_communities
    ∷ other_additional_grant_in_aid ∷ other_government_department ∷ recovery ∷ summer_economic_fund
    ∷ []

-- outside the years, which may be negative
abbrev pub is_outside : ℤ → ℤ → ℕ → Bool
is_outside first last y = ltb_ℤ (pos y) first || ltb_ℤ last (pos y)

abbrev pub is_none_left : List FundingField → Bool
is_none_left [] = true
is_none_left (f ∷ fs) = false

module _ (db : FundingTables) where
  -- A write, which may throw.
  unfoldable pub put_value :
      {A : Type 0} → ValueWrite → db.Rows → (db.Rows → Outcome db.Rows A) → Outcome db.Rows A
  put_value w t k = attempt t (db.write_values w t) k

  unfoldable pub put_contributors :
      {A : Type 0} → ContributorWrite → db.Rows → (db.Rows → Outcome db.Rows A) → Outcome db.Rows A
  put_contributors w t k = attempt t (db.write_contributors w t) k

  -- What a query gives, where it does not throw.
  unfoldable pub query :
      {A B : Type 0} → db.Rows → Option B → (B → Outcome db.Rows A) → Outcome db.Rows A
  query t none k = threw t
  query t (some b) k = k b

  abbrev pub done : db.Rows → Outcome db.Rows (Unit {0})
  done t = returned tt t

  unfoldable pub get_project_id_by_reference : Option String → db.Rows → Outcome db.Rows ℕ
  get_project_id_by_reference reference_number t =
      query t (db.find_project_id reference_number t) (λ o. query t o (λ k. returned k t))

  -- `providedProjectId ?? (await this._getProjectIdByReference(referenceNumber))`
  abbrev pub or_project_id : Option ℕ → Option String → db.Rows → Outcome db.Rows ℕ
  or_project_id (some k) reference_number t = returned k t
  or_project_id none reference_number t = get_project_id_by_reference reference_number t

  unfoldable pub upsert_funding_value :
      Option String → ℕ → Amounts → Option ℕ → db.Rows → Outcome db.Rows ℕ
  upsert_funding_value reference_number year amounts provided t =
      then_run (or_project_id provided reference_number t) λ p u.
        query u (build_funding_value_update_data amounts)
          λ s. put_value (upsert_value p year s) u (λ u'. returned (db.id_at p year u') u')

  abbrev pub delete_found : Option ℕ → db.Rows → Outcome db.Rows (Unit {0})
  delete_found none t = done t
  delete_found (some k) t =
      put_contributors (delete_contributors (λ j s n. j == k)) t
        λ u. put_value (delete_values (λ j q z. j == k)) u done

  unfoldable pub delete_funding_value_with_contributors :
      ℕ → ℕ → db.Rows → Outcome db.Rows (Unit {0})
  delete_funding_value_with_contributors p year t =
      query t (db.find_value p year t) (λ found. delete_found found t)

  unfoldable pub delete_all_funding_data : Option String → db.Rows → Outcome db.Rows (Unit {0})
  delete_all_funding_data reference_number t =
      then_run (get_project_id_by_reference reference_number t) λ p u.
        query u (db.find_values p (λ y. true) u) λ ids.
          put_contributors (delete_contributors (λ j s n. has_number ids j)) u
            λ v. put_value (delete_values (λ j q z. q == p)) v done

  abbrev pub clear_found : List ℕ → db.Rows → Outcome db.Rows (Unit {0})
  clear_found [] t = done t
  clear_found (k ∷ ks) t =
      put_value (update_values (λ j q z. has_number (k ∷ ks) j) (λ s. no_amounts)) t
        λ u. put_contributors (clear_amounts (has_number (k ∷ ks))) u done

  unfoldable pub clear_out_of_range_funding_data :
      Option String → ℤ → ℤ → db.Rows → Outcome db.Rows (Unit {0})
  clear_out_of_range_funding_data reference_number first last t =
      then_run (get_project_id_by_reference reference_number t)
        λ p u. query u (db.find_values p (is_outside first last) u) (λ ids. clear_found ids u)

  unfoldable pub null_specific_funding_columns :
      Option String → List FundingField → Option ℕ → db.Rows → Outcome db.Rows (Unit {0})
  null_specific_funding_columns reference_number fields provided t =
      then_run (or_project_id provided reference_number t) λ p u.
        if is_none_left fields
        then done u
        else put_value (update_values (λ j q z. q == p) (nulled fields)) u done

  unfoldable pub null_additional_gia_columns :
      Option String → Option ℕ → db.Rows → Outcome db.Rows (Unit {0})
  null_additional_gia_columns reference_number provided t =
      then_run (or_project_id provided reference_number t)
        λ p u. put_value (update_values (λ j q z. q == p) (nulled additional_gia_fields)) u done
