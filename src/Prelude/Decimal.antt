-- ===== src/Prelude/Decimal.antt =====
-- The decimal text of a number, `String(n)`, and its `padStart(width, '0')`. The digits are listed
-- by recursion on fuel: `n + 1` is enough, since a division by ten makes a number that is not 0
-- smaller.
use Prim.Native.Nat.{ℕ, zero, suc, ◌+◌, ◌-◌, ◌*◌, ◌/◌, ◌%◌, ◌<◌}
use Prim.Native.Char.{Char, code}
use Prim.Native.String.{String}
use mathlib.Core.Path.{◌≡◌, refl}
use mathlib.Core.Logic.{inl, inr}
use mathlib.Core.List.{List, [], ◌∷◌, ◌++◌}
use native.Mathlib.Omega.{arith}
use pafs_backend_api.Prelude.Tests.{ltb, ◌==◌, if◌then◌else◌, Bool-cases}
use pafs_backend_api.Prelude.Lists.{length, All}
use pafs_backend_api.Prelude.Text.{codes}

unfoldable pub digits_up : ℕ → ℕ → List ℕ → List ℕ
digits_up zero n ds = ds
digits_up (suc fuel) n ds =
    let rest = digits_up fuel (n / 10) (n % 10 ∷ ds) in if ltb n 10 then n ∷ ds else rest

unfoldable pub digits : ℕ → List ℕ
unfolding digits_up
digits n = digits_up (n + 1) n []

abbrev pub zeros : ℕ → List ℕ → List ℕ
zeros zero ds = ds
zeros (suc n) ds = 0 ∷ zeros n ds

unfoldable pub pad_start : ℕ → List ℕ → List ℕ
pad_start width ds = zeros (width - length ds) ds

abbrev pub digit_char : ℕ → Char
digit_char d =
    if d == 0
    then "0"
    else if d == 1
    then "1"
    else if d == 2
    then "2"
    else if d == 3
    then "3"
    else if d == 4
    then "4"
    else if d == 5
    then "5"
    else if d == 6
    then "6"
    else if d == 7
    then "7"
    else if d == 8
    then "8"
    else "9"

-- The text of the digits, followed by a text.
unfoldable pub digits_text : List ℕ → String → String
digits_text [] s = s
digits_text (d ∷ ds) s = String.◌∷◌ (digit_char d) (digits_text ds s)

unfoldable pub decimal : ℕ → String
unfolding digits_text digits
decimal n = digits_text (digits n) ""

-- The number that digits stand for, after those of `a`.
abbrev pub horner : ℕ → List ℕ → ℕ
horner a [] = a
horner a (d ∷ ds) = horner (a * 10 + d) ds

abbrev pub IsDigit : ℕ → Type 0
IsDigit d = d < 10

horner-digits_up :
    (fuel n : ℕ) (ds : List ℕ) → n < fuel → horner 0 (digits_up fuel n ds) ≡ horner n ds
unfolding digits_up
horner-digits_up zero n ds h = absurd (omega arith)
horner-digits_up (suc fuel) n ds h = elim (Bool-cases (ltb n 10)) [
  | inl e ↦ ground (arith, e)
  | inr e ↦
      let smaller : n / 10 < fuel = ground (arith, e) in
      let same : n / 10 * 10 + n % 10 ≡ n = omega arith in
      ground (arith, e, horner-digits_up fuel (n / 10) (n % 10 ∷ ds) smaller, same)
]

-- The digits of a number stand for it.
pub horner-digits : (n : ℕ) → horner 0 (digits n) ≡ n
unfolding digits
horner-digits n = horner-digits_up (n + 1) n [] (omega arith)

digits_up-All : (fuel n : ℕ) (ds : List ℕ) → All IsDigit ds → All IsDigit (digits_up fuel n ds)
unfolding digits_up
digits_up-All zero n ds h = h
digits_up-All (suc fuel) n ds h = elim (Bool-cases (ltb n 10)) [
  | inl e ↦ let small : n < 10 = ground (arith, e) in rw e (small, h)
  | inr e ↦ rw e (digits_up-All fuel (n / 10) (n % 10 ∷ ds) (omega arith, h))
]

pub digits-All : (n : ℕ) → All IsDigit (digits n)
unfolding digits
digits-All n = digits_up-All (n + 1) n [] tt

pub horner-zeros : (n : ℕ) (ds : List ℕ) → horner 0 (zeros n ds) ≡ horner 0 ds
horner-zeros zero ds = refl
horner-zeros (suc n) ds = horner-zeros n ds

pub zeros-All : (n : ℕ) (ds : List ℕ) → All IsDigit ds → All IsDigit (zeros n ds)
zeros-All zero ds h = h
zeros-All (suc n) ds h = (omega arith, zeros-All n ds h)

pub code-digit_char : (d : ℕ) → IsDigit d → code (digit_char d) ≡ 48 + d
code-digit_char zero h = refl
code-digit_char (suc zero) h = refl
code-digit_char (suc (suc zero)) h = refl
code-digit_char (suc (suc (suc zero))) h = refl
code-digit_char (suc (suc (suc (suc zero)))) h = refl
code-digit_char (suc (suc (suc (suc (suc zero))))) h = refl
code-digit_char (suc (suc (suc (suc (suc (suc zero)))))) h = refl
code-digit_char (suc (suc (suc (suc (suc (suc (suc zero))))))) h = refl
code-digit_char (suc (suc (suc (suc (suc (suc (suc (suc zero)))))))) h = refl
code-digit_char (suc (suc (suc (suc (suc (suc (suc (suc (suc zero))))))))) h = refl
code-digit_char (suc (suc (suc (suc (suc (suc (suc (suc (suc (suc d)))))))))) h =
    absurd (omega (arith, h))

-- The code points of a text of digits, and the digits back from them.
abbrev pub plus_zero_code : List ℕ → List ℕ
plus_zero_code [] = []
plus_zero_code (d ∷ ds) = (48 + d) ∷ plus_zero_code ds

pub codes-digits_text :
    (ds : List ℕ) (s : String)
    → All IsDigit ds
    → codes (digits_text ds s) ≡ plus_zero_code ds ++ codes s
unfolding digits_text
codes-digits_text [] s h = refl
codes-digits_text (d ∷ ds) s h = cc (code-digit_char d h.0, codes-digits_text ds s h.1)
