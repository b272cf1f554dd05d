-- ===== src/Projects/Value.antt =====
-- The values of a project's fields, as JavaScript has them, and the tests that the submission
-- validators share
-- (src/plugins/projects/helpers/project-validations/submission/submission-utils.js). A number is an
-- integer or NaN, which is `none`; a text is read as a number where it is one in decimal digits.
pub mod Numbers
use Prim.Native.String.{String}
use pafs_backend_api.Prelude.{
  ℕ, suc, ◌+◌, ◌-◌, ◌*◌, Bool, true, false, not, ◌&&◌, List, [], ◌∷◌, Option, none, some, leb, ◌==◌,
  ◌===◌, if◌then◌else◌, codes, is_empty_text, split_commas, trim, ℤ, pos, negsuc, ◌+ℤ◌, ltb_ℤ,
  leb_ℤ, filter, map, any, decimal, join_commas,
}

pub data Value : Type 0 where
  undefined null : Value
  flag : Bool → Value
  number : ℤ → Value
  text : String → Value
  texts : List String → Value

-- An object: its fields by name.
abbrev pub Row : Type 0
Row = String → Value

abbrev pub has_value : Value → Bool
has_value undefined = false
has_value null = false
has_value (text s) = not (is_empty_text s)
has_value _ = true

abbrev pub is_number_zero : ℤ → Bool
is_number_zero (pos n) = n == 0
is_number_zero (negsuc n) = false

abbrev pub truthy : Value → Bool
truthy undefined = false
truthy null = false
truthy (flag b) = b
truthy (number n) = not (is_number_zero n)
truthy (text s) = not (is_empty_text s)
truthy (texts ts) = true

-- Decimal digits, after those that `n` stands for.
abbrev pub digits_from : ℕ → List ℕ → Option ℤ
digits_from n [] = some (pos n)
digits_from n (c ∷ cs) =
    if leb b'0' c && leb c b'9' then digits_from (n * 10 + (c - b'0')) cs else none

abbrev pub negated : Option ℤ → Option ℤ
negated (some (pos (suc n))) = some (negsuc n)
negated o = o

abbrev pub digits_of : List ℕ → Option ℤ
digits_of [] = none
digits_of (c ∷ cs) = digits_from 0 (c ∷ cs)

abbrev pub signed_digits : List ℕ → Option ℤ
signed_digits [] = some (pos 0)
signed_digits (c ∷ cs) =
    if c == b'-'
    then negated (digits_of cs)
    else if c == b'+'
    then digits_of cs
    else digits_of (c ∷ cs)

-- `Number(text)`
unfoldable pub number_of_text : String → Option ℤ
number_of_text s = signed_digits (codes (trim s))

-- `Number(value)`; an array is read as the text of its items joined
unfoldable pub to_number : Value → Option ℤ
unfolding number_of_text
to_number undefined = none
to_number null = some (pos 0)
to_number (flag b) = some (pos (if b then 1 else 0))
to_number (number n) = some n
to_number (text s) = number_of_text s
to_number (texts []) = some (pos 0)
to_number (texts (s ∷ [])) = number_of_text s
to_number (texts (s ∷ t ∷ ts)) = none

-- `Number(value || 0)`
unfoldable pub number_or_zero : Value → Option ℤ
unfolding to_number
number_or_zero v = if truthy v then to_number v else some (pos 0)

-- Sums and comparisons, where NaN makes a sum NaN and a comparison false.
unfoldable pub add_numbers : Option ℤ → Option ℤ → Option ℤ
add_numbers (some a) (some b) = some (a +ℤ b)
add_numbers (some a) none = none
add_numbers none b = none

abbrev pub number_lt : Option ℤ → Option ℤ → Bool
number_lt (some a) (some b) = ltb_ℤ a b
number_lt (some a) none = false
number_lt none b = false

abbrev pub number_le : Option ℤ → Option ℤ → Bool
number_le (some a) (some b) = leb_ℤ a b
number_le (some a) none = false
number_le none b = false

-- `v === true || v === 'true'`
abbrev pub is_true_or_text : Value → Bool
is_true_or_text (flag b) = b
is_true_or_text (text s) = s === "true"
is_true_or_text _ = false

-- `v === 'some text'`
abbrev pub is_text : String → Value → Bool
is_text s (text t) = t === s
is_text s _ = false

abbrev pub includes : String → List String → Bool
includes s ts = any (λ t. t === s) ts

-- `set.has(value)`, for a set of texts
abbrev pub set_has : List String → Value → Bool
set_has ts (text s) = includes s ts
set_has ts _ = false

abbrev pub non_empty : List String → List String
non_empty ts = filter (λ t. not (is_empty_text t)) ts

-- `split(',')`, trimmed and without the empty parts
abbrev pub parts_of : String → List String
parts_of s = non_empty (map trim (split_commas s))

abbrev pub mandatory_wl_types : List String
mandatory_wl_types = "DEF" ∷ "REF" ∷ "REP" ∷ []

abbrev pub nfm_intervention_types : List String
nfm_intervention_types = "NFM" ∷ "SUDS" ∷ []

-- The enriched project that is validated, with its rows of other tables, `none` where the property
-- is missing.
pub record Project : Type 0 where
  pub field : Row
  pub pafs_core_funding_values : Option (List Row)
  pub funding_values : Option (List Row)
  pub pafs_core_funding_contributors : Option (List Row)
  pub pafs_core_nfm_measures : Option (List Row)
  pub pafs_core_nfm_land_use_changes : Option (List Row)

abbrev pub rows_or_none : Option (List Row) → List Row
rows_or_none none = []
rows_or_none (some rows) = rows

-- `p.pafs_core_funding_values ?? p.fundingValues ?? []`
abbrev pub funding_values_of : Project → List Row
funding_values_of p = elim p.pafs_core_funding_values [
  | some rows ↦ rows
  | none ↦ rows_or_none p.funding_values
]

-- `String(value)`
abbrev pub integer_text : ℤ → String
integer_text (pos n) = decimal n
integer_text (negsuc n) = String.◌∷◌ "-" (decimal (n + 1))

unfoldable pub to_text : Value → String
unfolding decimal join_commas
to_text undefined = "undefined"
to_text null = "null"
to_text (flag b) = if b then "true" else "false"
to_text (number n) = integer_text n
to_text (text s) = s
to_text (texts ts) = join_commas ts
