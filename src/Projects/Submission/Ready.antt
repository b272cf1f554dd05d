-- ===== src/Projects/Submission/Ready.antt =====
-- When a proposal is ready to be submitted, and what the tests of the validation say of it.
use pafs_backend_api.Prelude.{
  Option, Option-cases, ◌≤ℤ◌, ◌<ℤ◌, leb_ℤ, ◌&&◌, String, Bool, true, false, ◌≡◌, ◌⊎◌, inl, inr,
  List, [], ◌∷◌, none, some, All, ℤ, pos, Bool-cases, arith, if◌then◌else◌,
}
use pafs_backend_api.Projects.Value.{Row, Project, has_value, to_number, number_lt, set_has}
use pafs_backend_api.Projects.Dates.{to_date_ordinal, fy_start_ordinal, fy_end_ordinal}
use pafs_backend_api.Projects.Submission.Sections.{
  all_valid_types, all_have_values, is_mandatory, wlc_fields, confidence_fields,
}
use pafs_backend_api.Projects.Submission.ImportantDates.{
  simplified_date_types, simplified_date_sequence, date_sequence, required_date_fields,
  simplified_required_date_fields, range_holds, every_in_range, are_dates_in_proposal_range,
}
use pafs_backend_api.Projects.Submission.Funding.{
  sum_from, is_not_positive, in_range_values, contributor_key,
}
use pafs_backend_api.Projects.Submission.Chronology.{dates_of, IsAscending}
use pafs_backend_api.Projects.Submission.Contributors.{total_for, counted}

abbrev pub is_simplified : Project → Bool
is_simplified p = set_has simplified_date_types (p.field "projectType")

abbrev pub sequence_of : Project → List (String × String)
sequence_of p = if is_simplified p then simplified_date_sequence else date_sequence

abbrev pub required_of : Project → List String
required_of p = if is_simplified p then simplified_required_date_fields else required_date_fields

-- The last year is not before the first, where both are numbers.
abbrev pub InOrder : Option ℤ → Option ℤ → Type 0
InOrder (some first) (some last) = first ≤ℤ last
InOrder (some first) none = Unit
InOrder none last = Unit

-- Every date is from the start of the first financial year to the end of the last, where both years
-- are numbers.
abbrev pub InYears : Option ℤ → Option ℤ → List ℤ → Type 0
InYears (some first) (some last) os =
    All (λ o. (fy_start_ordinal first ≤ℤ o) × (o ≤ℤ fy_end_ordinal last)) os
InYears (some first) none os = Unit
InYears none last os = Unit

-- It is above zero, where it is a number.
abbrev pub IsPositive : Option ℤ → Type 0
IsPositive (some n) = pos 0 <ℤ n
IsPositive none = Unit

-- A proposal with a known type, with both years, with every date of its journey, with money in its
-- years, and for the types that need them with the whole life costs, benefits and confidence
-- answers. The years are in order, where they are numbers; the dates, of those that have a month of
-- the calendar, are in order and, where the years are numbers, in the years; the money in all, and from each contributor that is
-- counted, is above zero, where it is a number.
pub record IsReady (p : Project) : Type 0 where
  pub known_type : set_has all_valid_types (p.field "projectType") ≡ true
  pub has_first : has_value (p.field "financialStartYear") ≡ true
  pub has_last : has_value (p.field "financialEndYear") ≡ true
  pub years :
      InOrder (to_number (p.field "financialStartYear")) (to_number (p.field "financialEndYear"))
  pub dated : all_have_values p.field (required_of p) ≡ true
  pub ascending : IsAscending (dates_of p.field (sequence_of p))
  pub in_years :
      InYears
        (to_number (p.field "financialStartYear"))
        (to_number (p.field "financialEndYear"))
        (dates_of p.field (sequence_of p))
  pub funded : IsPositive (sum_from (some (pos 0)) "total" (in_range_values p))
  pub contributed : All (λ c. IsPositive (total_for (contributor_key c) (counted p))) (counted p)
  pub costed :
      (is_mandatory p ≡ false)
      ⊎ ((all_have_values p.field wlc_fields ≡ true)
          × (has_value (p.field "wlbEstimatedWholeLifePvBenefits") ≡ true)
          × (all_have_values p.field confidence_fields ≡ true))

pub number_lt-InOrder : (first last : Option ℤ) → number_lt last first ≡ false → InOrder first last
number_lt-InOrder (some a) (some b) h = ground (arith, h)
number_lt-InOrder (some a) none h = tt
number_lt-InOrder none last h = tt

pub is_not_positive-IsPositive : (n : Option ℤ) → is_not_positive n ≡ false → IsPositive n
is_not_positive-IsPositive (some n) h = ground (arith, h)
is_not_positive-IsPositive none h = tt

pub All-IsPositive :
    {A : Type 0} (f : A → Option ℤ) (cs : List A)
    → All (λ c. is_not_positive (f c) ≡ false) cs
    → All (λ c. IsPositive (f c)) cs
All-IsPositive f [] h = tt
All-IsPositive f (c ∷ cs) h = (is_not_positive-IsPositive (f c) h.0, All-IsPositive f cs h.1)

in_range-InYears :
    (row : Row) (first last : ℤ) (sequence : List (String × String))
    → every_in_range row (fy_start_ordinal first) (fy_end_ordinal last) sequence ≡ true
    → InYears (some first) (some last) (dates_of row sequence)
in_range-InYears row first last [] h = tt
in_range-InYears row first last ((month, year) ∷ fields) h =
    elim (Option-cases (to_date_ordinal (row month) (row year))) [
      | inl e ↦ rw e (in_range-InYears row first last fields (rw e at h))
      | inr (o, e) ↦
          let test = leb_ℤ (fy_start_ordinal first) o && leb_ℤ o (fy_end_ordinal last) in
          elim (Bool-cases test) [
            | inl inside ↦ rw e (
              (ground (arith, inside), ground (arith, inside)),
              in_range-InYears row first last fields (rw (e, inside) at h),
            )
            | inr outside ↦ cc (rw (e, outside) at h)
          ]
    ]

pub range_holds-InYears :
    (row : Row) (sequence : List (String × String)) (first last : Option ℤ)
    → range_holds row sequence first last ≡ true
    → InYears first last (dates_of row sequence)
unfolding are_dates_in_proposal_range
range_holds-InYears row sequence (some first) (some last) h =
    in_range-InYears row first last sequence h
range_holds-InYears row sequence (some first) none h = tt
range_holds-InYears row sequence none last h = tt
