-- ===== src/Projects/Edits/Ranges.antt =====
-- The dates that an edit accepts are those that the submission accepts.
use pafs_backend_api.Prelude.{
  ℕ, ◌≡◌, ◌↔◌, ◌≤◌, refl, arith, String, Bool, true, false, ◌||◌, [], ◌∷◌, none, some, ℤ, pos, ◌+ℤ◌,
  sym, ap, ◌∙◌, if◌then◌else◌, ◌≤ℤ◌,
}
use pafs_backend_api.Projects.Value.{number, Row, to_number, add_numbers}
use pafs_backend_api.Projects.Dates.{
  month_ordinal, ordinal_of, to_date_ordinal, fy_start_ordinal, fy_end_ordinal,
}
use pafs_backend_api.Projects.Submission.ImportantDates.{in_range, are_dates_in_proposal_range}
use pafs_backend_api.Projects.Edits.Timeline.{
  is_before_financial_start, is_after_financial_end, timeline_fields, validate_timeline_date,
  validate_timeline_fields, validate_timeline_boundaries,
}

abbrev outside : ℕ → ℤ → ℤ → ℤ → Bool
outside m y s e =
    is_before_financial_start (number (pos m)) (number y) (number s)
    || is_after_financial_end (number (pos m)) (number y) (some (e +ℤ pos 1))

outside_iff :
    (m : ℕ) (y s e : ℤ)
    → 1 ≤ m
    → m ≤ 12
    → (outside m y s e ≡ false)
      ↔ ((fy_start_ordinal s ≤ℤ month_ordinal y m) × (month_ordinal y m ≤ℤ fy_end_ordinal e))
unfolding to_number fy_start_ordinal fy_end_ordinal month_ordinal ◌+ℤ◌
outside_iff m y s e lo hi = ground arith

if_none : (b : Bool) (field : String) → ((if b then some field else none) ≡ none) ↔ (b ≡ false)
if_none true field = (λ h. cc h, λ h. cc h)
if_none false field = (λ h. refl, λ h. refl)

and_iff :
    (lower upper o : ℤ) → (in_range lower upper (some o) ≡ true) ↔ ((lower ≤ℤ o) × (o ≤ℤ upper))
and_iff lower upper o = (λ h. (ground (arith, h), ground (arith, h)), λ h. ground (arith, h.0, h.1))

if_same : (b : Bool) → (if b then true else false) ≡ b
if_same true = refl
if_same false = refl

calendar_ordinal :
    (m : ℕ) (y : ℤ)
    → 1 ≤ m
    → m ≤ 12
    → to_date_ordinal (number (pos m)) (number y) ≡ some (month_ordinal y m)
unfolding to_date_ordinal ordinal_of to_number
calendar_ordinal m y lo hi = ground (arith, lo, hi)

one_date :
    (row : Row) (s e : ℤ) (month year : String) (m : ℕ) (y : ℤ)
    → row month ≡ number (pos m)
    → row year ≡ number y
    → 1 ≤ m
    → m ≤ 12
    → are_dates_in_proposal_range row s e ((month, year) ∷ [])
      ≡ in_range (fy_start_ordinal s) (fy_end_ordinal e) (some (month_ordinal y m))
unfolding are_dates_in_proposal_range
one_date row s e month year m y hm hy lo hi =
    let test = in_range (fy_start_ordinal s) (fy_end_ordinal e) in
    if_same (test (to_date_ordinal (row month) (row year)))
    ∙ ap (λ v. test (to_date_ordinal v (row year))) hm
    ∙ ap (λ v. test (to_date_ordinal (number (pos m)) v)) hy
    ∙ ap test (calendar_ordinal m y lo hi)

date_result :
    (m : ℕ) (y s e : ℤ) (month : String)
    → validate_timeline_date
        (number (pos m))
        (number y)
        (number s)
        (add_numbers (to_number (number e)) (some (pos 1)))
        month
      ≡ (if outside m y s e then some month else none)
unfolding validate_timeline_date to_number add_numbers
date_result m y s e month = refl

fields_result :
    (payload existing : Row) (month year : String) (m : ℕ) (y s e : ℤ)
    → payload month ≡ number (pos m)
    → payload year ≡ number y
    → existing "financialStartYear" ≡ number s
    → existing "financialEndYear" ≡ number e
    → validate_timeline_fields payload existing (some (month, year))
      ≡ (if outside m y s e then some month else none)
fields_result payload existing month year m y s e hm hy hs he =
    rw (hm, hy, hs, he) (date_result m y s e month)

-- Where a date and the years of a project are numbers and the month is one of the calendar, the
-- date is accepted by an edit of its page exactly when it is in the range that the submission
-- checks.
pub timeline_matches_submission :
    (payload existing : Row) (level month year : String) (m : ℕ) (y s e : ℤ)
    → timeline_fields level ≡ some (month, year)
    → payload month ≡ number (pos m)
    → payload year ≡ number y
    → existing "financialStartYear" ≡ number s
    → existing "financialEndYear" ≡ number e
    → 1 ≤ m
    → m ≤ 12
    → (validate_timeline_boundaries payload level existing ≡ none)
      ↔ (are_dates_in_proposal_range payload s e ((month, year) ∷ []) ≡ true)
unfolding validate_timeline_boundaries
timeline_matches_submission payload existing level month year m y s e fields hm hy hs he lo hi =
    let result =
      ap (validate_timeline_fields payload existing) fields
      ∙ fields_result payload existing month year m y s e hm hy hs he in
    let range = one_date payload s e month year m y hm hy lo hi in
    let inside = outside_iff m y s e lo hi in
    let tests = and_iff (fy_start_ordinal s) (fy_end_ordinal e) (month_ordinal y m) in
    (
      λ h. range ∙ tests.1 (inside.0 ((if_none (outside m y s e) month).0 (sym result ∙ h))),
      λ h. result ∙ (if_none (outside m y s e) month).1 (inside.1 (tests.0 (sym range ∙ h))),
    )
