-- ===== src/Projects/Value/Numbers.antt =====
-- The text of an integer, `String(n)`, is read back as that integer by `Number` and by `BigInt`.
use Prim.Native.String.{String}
use mathlib.Core.List.{append-nil}
use pafs_backend_api.Prelude.{
  zero, is_empty_text, Bool-cases, inl, inr, sym, ◌≢◌, true, false, ℕ, suc, ◌+◌, ◌*◌, ◌-◌, false,
  ◌≡◌, refl, ap, ◌∙◌, List, [], ◌∷◌, some, arith, All, codes, trim, trim_start, trim_end, is_space,
  digits, digits_text, decimal, horner, IsDigit, horner-digits, digits-All, code-digit_char,
  digit_char, plus_zero_code, codes-digits_text, ℤ, pos, negsuc,
}
use pafs_backend_api.Projects.Value.{
  number_of_text, integer_text, signed_digits, digits_of, digits_from, negated,
}

digit-not_space : (d : ℕ) → IsDigit d → is_space (digit_char d) ≡ false
digit-not_space d h = rw (code-digit_char d h) (ground (arith, h))

trim_end-digits : (ds : List ℕ) → All IsDigit ds → trim_end (digits_text ds "") ≡ digits_text ds ""
unfolding trim_end digits_text
trim_end-digits [] h = refl
trim_end-digits (d ∷ ds) h = rw (trim_end-digits ds h.1, digit-not_space d h.0) refl

trim-digits : (ds : List ℕ) → All IsDigit ds → trim (digits_text ds "") ≡ digits_text ds ""
unfolding trim trim_start digits_text
trim-digits [] h = refl
trim-digits (d ∷ ds) h = let first = digit-not_space d h.0 in rw first (trim_end-digits (d ∷ ds) h)

digits_from-codes :
    (n : ℕ) (ds : List ℕ)
    → All IsDigit ds
    → digits_from n (plus_zero_code ds) ≡ some (pos (horner n ds))
digits_from-codes n [] h = refl
digits_from-codes n (d ∷ ds) h =
    let small = h.0 in
    let same : n * 10 + (48 + d - 48) ≡ n * 10 + d = omega arith in
    ground (arith, same, digits_from-codes (n * 10 + d) ds h.1)

signed_digits-codes :
    (ds : List ℕ) → All IsDigit ds → signed_digits (plus_zero_code ds) ≡ some (pos (horner 0 ds))
signed_digits-codes [] h = refl
signed_digits-codes (d ∷ ds) h =
    let small = h.0 in let read = digits_from-codes 0 (d ∷ ds) h in ground (arith, read)

-- The codes of a text of digits that has been trimmed.
codes-trim-digits :
    (ds : List ℕ) → All IsDigit ds → codes (trim (digits_text ds "")) ≡ plus_zero_code ds
codes-trim-digits ds h =
    ap (λ s. codes s) (trim-digits ds h)
    ∙ codes-digits_text ds "" h
    ∙ append-nil (plus_zero_code ds)

number_of_text-natural : (n : ℕ) → number_of_text (decimal n) ≡ some (pos n)
unfolding number_of_text decimal
number_of_text-natural n =
    ap (λ cs. signed_digits cs) (codes-trim-digits (digits n) (digits-All n))
    ∙ signed_digits-codes (digits n) (digits-All n)
    ∙ ap (λ m. some (pos m)) (horner-digits n)

digits_of-codes :
    (n : ℕ) (ds : List ℕ)
    → All IsDigit ds
    → horner 0 ds ≡ suc n
    → negated (digits_of (plus_zero_code ds)) ≡ some (negsuc n)
digits_of-codes n [] h e = absurd (omega (arith, e))
digits_of-codes n (d ∷ ds) h e = rw (digits_from-codes 0 (d ∷ ds) h, e) refl

trim-minus : (s : String) → trim_end s ≡ s → trim (String.◌∷◌ "-" s) ≡ String.◌∷◌ "-" s
unfolding trim trim_start trim_end
trim-minus s h = rw h refl

number_of_text-negative :
    (n : ℕ) → number_of_text (String.◌∷◌ "-" (decimal (n + 1))) ≡ some (negsuc n)
unfolding number_of_text decimal
number_of_text-negative n =
    let ds = digits (n + 1) in
    let all = digits-All (n + 1) in
    let same : horner 0 ds ≡ suc n = horner-digits (n + 1) ∙ omega arith in
    let kept = trim-minus (digits_text ds "") (trim_end-digits ds all) in
    let read = codes-digits_text ds "" all ∙ append-nil (plus_zero_code ds) in
    ap (λ s. signed_digits (codes s)) kept
    ∙ ap (λ cs. negated (digits_of cs)) read
    ∙ digits_of-codes n ds all same

-- The text of an integer is read as that integer.
pub number_of_text-integer_text : (z : ℤ) → number_of_text (integer_text z) ≡ some z
number_of_text-integer_text (pos n) = number_of_text-natural n
number_of_text-integer_text (negsuc n) = number_of_text-negative n

empty_text : (s : String) → is_empty_text s ≡ true → s ≡ ""
empty_text String.[] h = refl
empty_text (String.◌∷◌ c s) h = cc

number_of_empty : number_of_text "" ≡ some (pos 0)
unfolding number_of_text trim
number_of_empty = refl

some_integer : {a b : ℤ} → some a ≡ some b → a ≡ b
some_integer e = cc

pos-ne : (n : ℕ) → pos 0 ≢ pos (suc n)
pos-ne n e = cc e

-- The text of an integer is not empty.
pub is_empty_text-integer_text : (z : ℤ) → is_empty_text (integer_text z) ≡ false
unfolding decimal
is_empty_text-integer_text (pos zero) = refl
is_empty_text-integer_text (pos (suc n)) = elim (Bool-cases (is_empty_text (decimal (suc n)))) [
  | inl e ↦
      let read : number_of_text (decimal (suc n)) ≡ some (pos (suc n)) =
        number_of_text-natural (suc n) in
      let same : some (pos 0) ≡ some (pos (suc n)) =
        sym number_of_empty
        ∙ sym (ap (λ s. number_of_text s) (empty_text (decimal (suc n)) e))
        ∙ read in
      absurd (pos-ne n (some_integer same))
  | inr e ↦ e
]
is_empty_text-integer_text (negsuc n) = refl
