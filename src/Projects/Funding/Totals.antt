-- ===== src/Projects/Funding/Totals.antt =====
-- The total of a year is the sum of its amounts, whatever is saved and however the save ends.
use pafs_backend_api.Prelude.{
  ◌≡◌, refl, sym, ap, ◌∙◌, subst, String, true, false, not, List, [], ◌∷◌, Option, none, some,
  if◌then◌else◌, map, filter, ℤ, pos, negsuc, ◌+ℤ◌, add_zero_ℤ, arith, Bool-cases, Option-cases,
  inl, inr, is_empty_text, trim,
}
use pafs_backend_api.Projects.Value.{
  Value, undefined, null, flag, number, text, texts, integer_text, to_number, number_of_text,
}
use pafs_backend_api.Projects.Value.Numbers.{number_of_text-integer_text}
use pafs_backend_api.Projects.Funding.{
  FundingField, amount_fields, Spend, no_amounts, Amounts, to_big_int, to_nullable_big_int,
  to_total_big_int, column_of, all_big_ints, flatten, build_funding_value_update_data,
  or_zero_amount, sum_columns, is_among, nulled,
}
use pafs_backend_api.Projects.Funding.Contributors.{is_given}
use pafs_backend_api.Projects.Funding.Payload.{
  sum_of, calculate_funding_total, SpendRow, merge_contributor_totals_into_amounts,
  create_funding_amounts,
}
use pafs_backend_api.Projects.Funding.Page.{final_amounts}

-- The total of a row is the sum of the amounts that it has.
abbrev pub IsSum : Spend → Type 0
IsSum s = s.total ≡ sum_columns (pos 0) amount_fields s.amount

abbrev pub IsSumIn : Option Spend → Type 0
IsSumIn none = Unit
IsSumIn (some s) = IsSum s

-- The columns that are left sum to what all do with the others null.
sum_columns-filter :
    (fs : List FundingField) (amount : FundingField → Option ℤ) (acc : ℤ) (gs : List FundingField)
    → sum_columns acc (filter (λ f. not (is_among fs f)) gs) amount
      ≡ sum_columns acc gs (λ f. if is_among fs f then none else amount f)
unfolding sum_columns
sum_columns-filter fs amount acc [] = refl
sum_columns-filter fs amount acc (g ∷ gs) = elim (Bool-cases (is_among fs g)) [
  | inl e ↦ rw (e, add_zero_ℤ acc) (sum_columns-filter fs amount acc gs)
  | inr e ↦ rw e (sum_columns-filter fs amount (acc +ℤ or_zero_amount (amount g)) gs)
]

pub nulled-IsSum : (fs : List FundingField) (s : Spend) → IsSum (nulled fs s)
unfolding nulled
nulled-IsSum fs s = sum_columns-filter fs s.amount (pos 0) amount_fields

pub no_amounts-IsSum : IsSum no_amounts
unfolding sum_columns ◌+ℤ◌
no_amounts-IsSum = refl

-- What a column counts for is what the sum of the payload takes for it.
column-given :
    (v : Value) (n : ℤ)
    → is_given v ≡ true
    → to_big_int v ≡ some n
    → or_zero_amount (flatten (to_nullable_big_int v)) ≡ n
unfolding to_nullable_big_int to_big_int to_number
column-given undefined n h e = cc
column-given null n h e = cc
column-given (flag true) n h e = ground (arith, e)
column-given (flag false) n h e = ground (arith, e)
column-given (number (pos m)) n h e = ground (arith, e)
column-given (number (negsuc m)) n h e = ground (arith, e)
column-given (text s) n h e = rw (h, e) refl
column-given (texts ts) n h e = rw e refl

column-missing :
    (v : Value) → is_given v ≡ false → or_zero_amount (flatten (to_nullable_big_int v)) ≡ pos 0
unfolding to_nullable_big_int to_big_int
column-missing undefined h = refl
column-missing null h = refl
column-missing (flag b) h = cc
column-missing (number z) h = cc
column-missing (text s) h = rw h refl
column-missing (texts ts) h = cc

-- The columns that are written sum to the total of the payload.
sum_of-columns :
    (amount : FundingField → Value) (acc n : ℤ) (fs : List FundingField)
    → sum_of acc (map amount fs) ≡ some n
    → sum_columns acc fs (column_of amount) ≡ n
unfolding sum_of sum_columns
sum_of-columns amount acc n [] h = cc
sum_of-columns amount acc n (f ∷ fs) h = elim (Bool-cases (is_given (amount f))) [
  | inl given ↦ elim (Option-cases (to_big_int (amount f))) [
    | inl e ↦ cc (rw (given, e) at h)
    | inr (m, e) ↦
        let same = column-given (amount f) m given e in
        rw same (sum_of-columns amount (acc +ℤ m) n fs (rw (given, e) at h))
  ]
  | inr missing ↦
      rw (column-missing (amount f) missing, add_zero_ℤ acc)
        (sum_of-columns amount acc n fs (rw missing at h))
]

empty_text : (s : String) → is_empty_text s ≡ true → s ≡ ""
empty_text String.[] h = refl
empty_text (String.◌∷◌ c s) h = cc

number_of_empty : number_of_text "" ≡ some (pos 0)
unfolding number_of_text trim
number_of_empty = refl

total-integer_text : (n : ℤ) → to_total_big_int (text (integer_text n)) ≡ some n
unfolding to_total_big_int to_big_int to_number
total-integer_text n = elim (Bool-cases (is_empty_text (integer_text n))) [
  | inl e ↦
      let zero_text : number_of_text "" ≡ some (pos 0) = number_of_empty in
      let same =
        sym (ap number_of_text (empty_text (integer_text n) e)) ∙ number_of_text-integer_text n in
      rw e (sym zero_text ∙ same)
  | inr e ↦ rw e (number_of_text-integer_text n)
]

some_injective : {s u : Spend} → some s ≡ some u → s ≡ u
some_injective e = cc

built-IsSum :
    (b : Amounts) (n : ℤ) {s : Spend}
    → calculate_funding_total b ≡ some n
    → build_funding_value_update_data (record b { total = text (integer_text n) }) ≡ some s
    → IsSum s
unfolding build_funding_value_update_data calculate_funding_total
built-IsSum b n {s} h e = elim (Bool-cases (all_big_ints amount_fields b.amount)) [
  | inl good ↦
      let made : some (record { amount = column_of b.amount; total = n }) ≡ some s =
        rw (good, total-integer_text n) at e in
      subst IsSum (some_injective made) (sym (sum_of-columns b.amount (pos 0) n amount_fields h))
  | inr bad ↦ cc (rw bad at e)
]

some_amounts : {a b : Amounts} → some a ≡ some b → b ≡ a
some_amounts e = cc

-- What is written of a row of estimated spend.
pub final_amounts-IsSum :
    (r : SpendRow) {a : Amounts} {s : Spend}
    → final_amounts r ≡ some a
    → build_funding_value_update_data a ≡ some s
    → IsSum s
unfolding final_amounts
final_amounts-IsSum r {a} {s} h e =
    elim (Option-cases (merge_contributor_totals_into_amounts r (create_funding_amounts r))) [
      | inl none_merged ↦ cc (rw none_merged at h)
      | inr (b, merged) ↦ elim (Option-cases (calculate_funding_total b)) [
        | inl none_summed ↦ cc (rw (merged, none_summed) at h)
        | inr (n, summed) ↦
            let same : a ≡ record b { total = text (integer_text n) } =
              some_amounts (rw (merged, summed) at h) in
            built-IsSum b n summed (subst (λ c. build_funding_value_update_data c ≡ some s) same e)
      ]
    ]
