-- ===== src/Projects/Funding/Tables.antt =====
-- The tables pafs_core_funding_values and pafs_core_funding_contributors of prisma/schema.prisma as
-- their client sees them. Prisma is not code of the repository: its calls are fields of a record,
-- `none` where a call throws, and each write has the effect that the documentation promises, on the
-- row of a project and a year and on the row of a funding value, a type and a name, which the unique
-- constraints of the tables make one row.
use pafs_backend_api.Prelude.{
  ℕ, ◌≡◌, String, Bool, true, ◌&&◌, List, [], ◌∷◌, Option, none, some, ◌==◌, ◌===◌, if◌then◌else◌,
  any, ℤ, pos, is_some,
}

-- The sources of money: FUNDING_VALUE_AMOUNT_FIELD_MAP, the columns of the table.
pub data FundingField : Type 0 where
  fcerm_gia local_levy internal_drainage_boards public_contributions : FundingField
  private_contributions other_ea_contributions not_yet_identified : FundingField
  asset_replacement_allowance environment_statutory_funding : FundingField
  frequently_flooded_communities other_additional_grant_in_aid : FundingField
  other_government_department recovery summer_economic_fund : FundingField

abbrev pub amount_fields : List FundingField
amount_fields =
    fcerm_gia ∷ local_levy ∷ internal_drainage_boards ∷ public_contributions ∷ private_contributions
    ∷ other_ea_contributions ∷ not_yet_identified ∷ asset_replacement_allowance
    ∷ environment_statutory_funding ∷ frequently_flooded_communities ∷ other_additional_grant_in_aid
    ∷ other_government_department ∷ recovery ∷ summer_economic_fund ∷ []

-- The name of a source in a payload.
abbrev pub field_name : FundingField → String
field_name fcerm_gia = "fcermGia"
field_name local_levy = "localLevy"
field_name internal_drainage_boards = "internalDrainageBoards"
field_name public_contributions = "publicContributions"
field_name private_contributions = "privateContributions"
field_name other_ea_contributions = "otherEaContributions"
field_name not_yet_identified = "notYetIdentified"
field_name asset_replacement_allowance = "assetReplacementAllowance"
field_name environment_statutory_funding = "environmentStatutoryFunding"
field_name frequently_flooded_communities = "frequentlyFloodedCommunities"
field_name other_additional_grant_in_aid = "otherAdditionalGrantInAid"
field_name other_government_department = "otherGovernmentDepartment"
field_name recovery = "recovery"
field_name summer_economic_fund = "summerEconomicFund"

abbrev pub same_field : FundingField → FundingField → Bool
same_field f g = field_name f === field_name g

-- The columns of a row of pafs_core_funding_values that hold money; an amount may be NULL.
pub record Spend : Type 0 where
  pub amount : FundingField → Option ℤ
  pub total : ℤ

abbrev pub FundingValue : Type 0
FundingValue = ℕ × Spend

-- The writes of the tables. A test is on the id, the project and the year of a row.
pub data ValueWrite : Type 0 where
  -- upsert on the project and the year
  upsert_value : ℕ → ℕ → Spend → ValueWrite
  -- createMany with skipDuplicates, of rows with no amounts
  create_values : ℕ → List ℕ → ValueWrite
  -- deleteMany
  delete_values : (ℕ → ℕ → ℕ → Bool) → ValueWrite
  -- updateMany, and UPDATE in SQL
  update_values : (ℕ → ℕ → ℕ → Bool) → (Spend → Spend) → ValueWrite

-- A test is on the funding value, the type and the name.
pub data ContributorWrite : Type 0 where
  upsert_contributor : ℕ → String → String → ℤ → ContributorWrite
  -- createMany with skipDuplicates, for each funding value and name, with no amount
  create_contributors : List ℕ → String → List String → ContributorWrite
  delete_contributors : (ℕ → String → String → Bool) → ContributorWrite
  -- updateMany of the amount to null
  clear_amounts : (ℕ → Bool) → ContributorWrite
  -- updateMany of the name, for the funding values of a list and a type
  rename_contributors : List ℕ → String → String → String → ContributorWrite

abbrev pub has_number : List ℕ → ℕ → Bool
has_number ns n = any (λ m. m == n) ns

abbrev pub no_amounts : Spend
no_amounts = record { amount = λ f. none; total = pos 0 }

abbrev pub created_if : Bool → Option Spend → Option Spend
created_if b (some s) = some s
created_if b none = if b then some no_amounts else none

abbrev pub kept_unless : {A : Type 0} → Bool → Option A → Option A
kept_unless b o = if b then none else o

abbrev pub changed_if : {A : Type 0} → Bool → (A → A) → Option A → Option A
changed_if b f none = none
changed_if b f (some a) = some (if b then f a else a)

-- What a write makes of the row of a project and a year, with the id that the row has before.
abbrev pub value_after : ValueWrite → ℕ → ℕ → ℕ → Option Spend → Option Spend
value_after (upsert_value p y s) k q z o = if q == p && z == y then some s else o
value_after (create_values p ys) k q z o = created_if (q == p && has_number ys z) o
value_after (delete_values test) k q z o = kept_unless (test k q z) o
value_after (update_values test change) k q z o = changed_if (test k q z) change o

abbrev pub created_amount : Bool → Option (Option ℤ) → Option (Option ℤ)
created_amount b (some a) = some a
created_amount b none = if b then some none else none

abbrev pub or_other {ℓ} : {A : Type ℓ} → Option A → Option A → Option A
or_other (some a) o = some a
or_other none o = o

-- What a write makes of the row of a funding value, a type and a name, which has the amount that
-- `read` gives for the name.
abbrev pub contributor_after :
    ContributorWrite → ℕ → String → String → (String → Option (Option ℤ)) → Option (Option ℤ)
contributor_after (upsert_contributor k t n a) j s m read =
    if j == k && (s === t && m === n) then some (some a) else read m
contributor_after (create_contributors ks t ns) j s m read =
    created_amount (has_number ks j && (s === t && any (λ n. n === m) ns)) (read m)
contributor_after (delete_contributors test) j s m read = kept_unless (test j s m) (read m)
contributor_after (clear_amounts test) j s m read = changed_if (test j) (λ a. none) (read m)
contributor_after (rename_contributors ks t old new) j s m read =
    if has_number ks j && s === t
    then (if m === new then or_other (read old) (read new) else if m === old then none else read m)
    else read m

pub record FundingTables : Type 1 where
  pub Rows : Type 0
  -- the row of a project and a year, and its id
  pub spend_at : ℕ → ℕ → Rows → Option Spend
  pub id_at : ℕ → ℕ → Rows → ℕ
  -- the amount of the row of a funding value, a type and a name
  pub contributor_at : ℕ → String → String → Rows → Option (Option ℤ)
  -- findFirst on the projects, `where: { reference_number }`, with the id
  pub find_project_id : Option String → Rows → Option (Option ℕ)
  -- findFirst on the projects, `where: { id }`, with the first and the last year
  pub find_years : ℕ → Rows → Option (Option (Option ℕ × Option ℕ))
  -- findFirst and findMany on the funding values of a project, with the id
  pub find_value : ℕ → ℕ → Rows → Option (Option ℕ)
  pub find_values : ℕ → (ℕ → Bool) → Rows → Option (List ℕ)
  -- findMany on the contributors of funding values and a type, with the distinct names
  pub find_names : List ℕ → String → Rows → Option (List String)
  pub write_values : ValueWrite → Rows → Option Rows
  pub write_contributors : ContributorWrite → Rows → Option Rows
  pub spend_at-write_values :
      (w : ValueWrite) (q z : ℕ) (t : Rows) {t' : Rows}
      → write_values w t ≡ some t'
      → spend_at q z t' ≡ value_after w (id_at q z t) q z (spend_at q z t)
  -- a row keeps its id
  pub id_at-write_values :
      (w : ValueWrite) (q z : ℕ) (t : Rows) {t' : Rows}
      → write_values w t ≡ some t'
      → is_some (spend_at q z t) ≡ true
      → id_at q z t' ≡ id_at q z t
  pub contributor_at-write_values :
      (w : ValueWrite) (k : ℕ) (s n : String) (t : Rows) {t' : Rows}
      → write_values w t ≡ some t'
      → contributor_at k s n t' ≡ contributor_at k s n t
  pub spend_at-write_contributors :
      (w : ContributorWrite) (q z : ℕ) (t : Rows) {t' : Rows}
      → write_contributors w t ≡ some t'
      → spend_at q z t' ≡ spend_at q z t
  pub id_at-write_contributors :
      (w : ContributorWrite) (q z : ℕ) (t : Rows) {t' : Rows}
      → write_contributors w t ≡ some t'
      → id_at q z t' ≡ id_at q z t
  pub contributor_at-write_contributors :
      (w : ContributorWrite) (k : ℕ) (s n : String) (t : Rows) {t' : Rows}
      → write_contributors w t ≡ some t'
      → contributor_at k s n t' ≡ contributor_after w k s n (λ m. contributor_at k s m t)
  pub find_value-spend_at :
      (p y : ℕ) (t : Rows) {o : Option ℕ}
      → find_value p y t ≡ some o
      → o ≡ (if is_some (spend_at p y t) then some (id_at p y t) else none)
  -- the ids that are found are those of the rows of the project that pass the test
  pub find_values_all :
      (p : ℕ) (test : ℕ → Bool) (y : ℕ) (t : Rows) {ids : List ℕ}
      → find_values p test t ≡ some ids
      → is_some (spend_at p y t) ≡ true
      → has_number ids (id_at p y t) ≡ test y
  -- the names that are found are at least those that are stored
  pub find_names_all :
      (ks : List ℕ) (s n : String) (k : ℕ) (t : Rows) {names : List String}
      → find_names ks s t ≡ some names
      → has_number ks k ≡ true
      → is_some (contributor_at k s n t) ≡ true
      → any (λ m. m === n) names ≡ true
