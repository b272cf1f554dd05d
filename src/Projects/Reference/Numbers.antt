-- ===== src/Projects/Reference/Numbers.antt =====
-- The counters are read back from a reference number, so two reference numbers of a region differ.
use Prim.Native.String.{String, count}
use text.Mathlib.TextLemmas.{append_inj, append_cancel_left}
use pafs_backend_api.Prelude.{
  ℕ, ◌+◌, ◌-◌, ◌*◌, ◌≡◌, refl, ap, ◌∙◌, sym, true, ltb, List, [], ◌∷◌, ◌++◌, if◌then◌else◌, codes,
  digits, pad_start, horner, IsDigit, horner-digits, digits-All, horner-zeros, zeros-All, All, drop,
  plus_zero_code, codes-digits_text, length, arith,
}
use pafs_backend_api.Projects.Reference.{
  Counter, counter_part, format_counter_parts, reference_number_of,
}
use pafs_backend_api.Projects.Reference.Order.{nth_counter, counters_distinct}

-- The number that the digits before the letter A stand for, after those of `n`, and what follows.
abbrev read_part : ℕ → List ℕ → ℕ × List ℕ
read_part n [] = (n, [])
read_part n (c ∷ cs) =
    let rest = read_part (n * 10 + (c - 48)) cs in if ltb c 65 then rest else (n, cs)

-- The two counters of a formatted pair.
abbrev read_counters : String → ℕ × ℕ
read_counters s = let high = read_part 0 (codes s) in (high.0, (read_part 0 (drop 1 high.1)).0)

read_part-digits :
    (n : ℕ) (ds : List ℕ) (cs : List ℕ)
    → All IsDigit ds
    → read_part n (plus_zero_code ds ++ 65 ∷ cs) ≡ (horner n ds, cs)
read_part-digits n [] cs h = refl
read_part-digits n (d ∷ ds) cs h =
    let is_digit : ltb (48 + d) 65 ≡ true = ground (arith, h.0) in
    let value : 48 + d - 48 ≡ d = omega arith in
    rw (is_digit, value) (read_part-digits (n * 10 + d) ds cs h.1)

read_part-counter_part :
    (n : ℕ) (rest : String) → read_part 0 (codes (counter_part n rest)) ≡ (n, codes rest)
unfolding counter_part
read_part-counter_part n rest =
    let padded : All IsDigit (pad_start 3 (digits n)) =
      zeros-All (3 - length (digits n)) (digits n) (digits-All n) in
    let written = codes-digits_text (pad_start 3 (digits n)) (String.◌∷◌ "A" rest) padded in
    let value : horner 0 (pad_start 3 (digits n)) ≡ n =
      horner-zeros (3 - length (digits n)) (digits n) ∙ horner-digits n in
    ap (λ cs. read_part 0 cs) written
    ∙ read_part-digits 0 (pad_start 3 (digits n)) (codes rest) padded
    ∙ ap (λ m. (m, codes rest)) value

-- The two counters are read back from the text that they are formatted to, whatever their size.
pub read_counters-format :
    (high low : ℕ) → read_counters (format_counter_parts high low) ≡ (high, low)
unfolding format_counter_parts
read_counters-format high low =
    let first = read_part-counter_part high (String.◌∷◌ "/" (counter_part low "")) in
    let second = read_part-counter_part low "" in rw (first, second) refl

counter_of :
    (c d : Counter)
    → format_counter_parts c.high_counter c.low_counter
      ≡ format_counter_parts d.high_counter d.low_counter
    → c ≡ d
counter_of c d e =
    ap (λ p. record { high_counter = p.0; low_counter = p.1 })
      (sym (read_counters-format c.high_counter c.low_counter)
        ∙ ap read_counters e
        ∙ read_counters-format d.high_counter d.low_counter)

-- Where the codes of two regions are of one length, no reference number is given
-- twice: the number that the call after `n` others generates for a region is that of the call after
-- `m` others for another only if the regions are the same and `n` is `m`.
pub reference_numbers_distinct :
    (region other : String) (n m : ℕ)
    → count region ≡ count other
    → reference_number_of region (nth_counter n) ≡ reference_number_of other (nth_counter m)
    → (region ≡ other) × (n ≡ m)
unfolding reference_number_of
reference_numbers_distinct region other n m same_length e =
    let parts = append_inj e same_length in
    let text = append_cancel_left "/" _ _ (append_cancel_left "C501E" _ _ parts.1) in
    (parts.0, (counters_distinct n m (counter_of (nth_counter n) (nth_counter m) text)).0)
