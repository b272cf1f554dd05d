-- ===== src/Projects/Funding/Payload.antt =====
-- The rows of estimated spend in a payload: the parts of
-- src/plugins/projects/helpers/funding-sources-normalizers.js that change and read them. An item of
-- an array that is no object is `none`.
use mathlib.Core.Option
use pafs_backend_api.Prelude.{
  ℕ, String, Bool, not, ◌&&◌, ◌||◌, List, [], ◌∷◌, ◌++◌, Option, none, some, map, any, ◌===◌,
  if◌then◌else◌, trim, is_comma, is_some, is_empty_text, ℤ, pos, ◌+ℤ◌,
}
use pafs_backend_api.Projects.Value.{Value, undefined, null, text, integer_text, is_text}
use pafs_backend_api.Projects.Funding.{
  FundingField, public_contributions, private_contributions, other_ea_contributions, amount_fields,
  same_field, Amounts, to_big_int,
}
use pafs_backend_api.Projects.Funding.Contributors.{Contributor, Entry, is_given}

-- CONTRIBUTOR_CONFIG
pub data ContributorGroup : Type 0 where
  public private other_ea : ContributorGroup

abbrev pub contributor_config : List ContributorGroup
contributor_config = public ∷ private ∷ other_ea ∷ []

abbrev pub amount_field : ContributorGroup → FundingField
amount_field public = public_contributions
amount_field private = private_contributions
amount_field other_ea = other_ea_contributions

abbrev pub type_of : ContributorGroup → String
type_of public = "public_contributions"
type_of private = "private_contributions"
type_of other_ea = "other_ea_contributions"

-- A row of `fundingValues`; a group of contributors is `none` where it is not an array.
pub record SpendRow : Type 0 where
  pub financial_year : Option ℕ
  pub amount : FundingField → Value
  pub total : Value
  pub contributors : ContributorGroup → Option (List (Option Contributor))

-- `text.replaceAll(',', '')`
unfoldable pub without_commas : String → String
without_commas String.[] = String.[]
without_commas (String.◌∷◌ c s) =
    let rest = without_commas s in if is_comma c then rest else String.◌∷◌ c rest

-- A text without commas and outer white space; other values stay.
unfoldable pub sanitize_amount : Value → Value
unfolding without_commas trim
sanitize_amount (text s) = text (trim (without_commas s))
sanitize_amount v = v

abbrev pub sanitize_contributor : Contributor → Contributor
sanitize_contributor c = record c {
  name = Option.map trim c.name;
  amount = sanitize_amount c.amount;
}

abbrev pub each_contributor :
    (Contributor → Contributor)
    → Option (List (Option Contributor))
    → Option (List (Option Contributor))
each_contributor f contributors = Option.map (map (Option.map f)) contributors

unfoldable pub sanitize_row : SpendRow → SpendRow
unfolding sanitize_amount trim
sanitize_row r = record r {
  amount = λ f. sanitize_amount (r.amount f);
  total = sanitize_amount r.total;
  contributors = λ g. each_contributor sanitize_contributor (r.contributors g);
}

-- '' and '0' become null
abbrev pub null_if_zero : Value → Value
null_if_zero (text s) = if is_empty_text s || s === "0" then null else text s
null_if_zero v = v

abbrev pub normalize_contributor : Contributor → Contributor
normalize_contributor c = record c { amount = null_if_zero c.amount }

unfoldable pub normalize_row : SpendRow → SpendRow
normalize_row r = record r {
  amount = λ f. null_if_zero (r.amount f);
  total = null_if_zero r.total;
  contributors = λ g. each_contributor normalize_contributor (r.contributors g);
}

unfoldable pub create_funding_amounts : SpendRow → Amounts
create_funding_amounts r = record { amount = r.amount; total = r.total }

-- is given, and is not '0'
abbrev pub is_amount : Value → Bool
is_amount v = is_given v && not (is_text "0" v)

unfoldable pub has_any_amount_value : Amounts → Bool
has_any_amount_value a = any (λ f. is_amount (a.amount f)) amount_fields

abbrev pub is_valid_contributor_entry : Contributor → Bool
is_valid_contributor_entry c =
    is_some c.name
    && not (is_empty_text (elim c.name [ none ↦ "" | some n ↦ n ]))
    && is_amount c.amount

abbrev pub text_or : Option String → String → String
text_or none s = s
text_or (some t) s = if is_empty_text t then s else t

abbrev pub entry_of : ContributorGroup → Contributor → Entry
entry_of g c = record {
  name = text_or c.name "";
  contributor_type = text_or c.contributor_type (type_of g);
  amount = c.amount;
}

abbrev pub entries_of : ContributorGroup → List (Option Contributor) → List Entry
entries_of g [] = []
entries_of g (none ∷ cs) = entries_of g cs
entries_of g (some c ∷ cs) =
    if is_valid_contributor_entry c then entry_of g c ∷ entries_of g cs else entries_of g cs

abbrev pub group_or_empty : Option (List (Option Contributor)) → List (Option Contributor)
group_or_empty none = []
group_or_empty (some cs) = cs

unfoldable pub get_contributor_entries : SpendRow → List Entry
get_contributor_entries r =
    entries_of public (group_or_empty (r.contributors public))
    ++ entries_of private (group_or_empty (r.contributors private))
    ++ entries_of other_ea (group_or_empty (r.contributors other_ea))

-- `sum + BigInt(value)`, `none` where BigInt throws
abbrev pub add_big_int : ℤ → Value → Option ℤ
add_big_int sum v = if is_given v then Option.map (λ n. sum +ℤ n) (to_big_int v) else some sum

abbrev pub amount_of : Option Contributor → Value
amount_of none = undefined
amount_of (some c) = c.amount

abbrev pub next_sum : Option ℤ → (ℤ → Option ℤ) → Option ℤ
next_sum none k = none
next_sum (some n) k = k n

unfoldable pub sum_of : ℤ → List Value → Option ℤ
unfolding to_big_int
sum_of sum [] = some sum
sum_of sum (v ∷ vs) = next_sum (add_big_int sum v) (λ n. sum_of n vs)

-- null where there are no contributors; the outer `none` is a throw
unfoldable pub sum_contributor_amounts : Option (List (Option Contributor)) → Option (Option ℤ)
unfolding sum_of
sum_contributor_amounts none = some none
sum_contributor_amounts (some []) = some none
sum_contributor_amounts (some (c ∷ cs)) = Option.map some (sum_of (pos 0) (map amount_of (c ∷ cs)))

abbrev pub set_amount : FundingField → Value → Amounts → Amounts
set_amount f v a = record a { amount = λ g. if same_field f g then v else a.amount g }

abbrev pub with_total : FundingField → Option (Option ℤ) → Amounts → Option Amounts
with_total f none a = none
with_total f (some none) a = some a
with_total f (some (some n)) a = some (set_amount f (text (integer_text n)) a)

-- the sum of a group where the row has no amount for it
abbrev pub merge_group : SpendRow → ContributorGroup → Amounts → Option Amounts
merge_group r g a =
    if is_given (a.amount (amount_field g))
    then some a
    else with_total (amount_field g) (sum_contributor_amounts (r.contributors g)) a

abbrev pub merge_groups : SpendRow → List ContributorGroup → Amounts → Option Amounts
merge_groups r [] a = some a
merge_groups r (g ∷ gs) a = elim (merge_group r g a) [ none ↦ none | some b ↦ merge_groups r gs b ]

unfoldable pub merge_contributor_totals_into_amounts : SpendRow → Amounts → Option Amounts
unfolding sum_contributor_amounts
merge_contributor_totals_into_amounts r a = merge_groups r contributor_config a

unfoldable pub calculate_funding_total : Amounts → Option ℤ
unfolding sum_of
calculate_funding_total a = sum_of (pos 0) (map a.amount amount_fields)
