-- ===== src/Projects/Submission/Complete.antt =====
-- What a proposal is that the validation finds no error in.
use pafs_backend_api.Prelude.{
  ℕ, String, Bool, true, false, not, ◌≡◌, refl, ◌⊎◌, inl, inr, List, [], ◌∷◌, none, some, All, ℤ,
  pos, Bool-cases, arith, if◌then◌else◌,
}
use pafs_backend_api.Projects.Value.{Row, Project, has_value, to_number, number_lt, set_has}
use pafs_backend_api.Projects.Submission.{errors_of, checks, validate_submission}
use pafs_backend_api.Projects.Submission.Types.{
  SubmissionError, Checked, important_dates_incomplete, important_dates_out_of_range, unless,
  funding_sources_incomplete, wlc_incomplete, wlb_incomplete, confidence_incomplete,
}
use pafs_backend_api.Projects.Submission.Sections.{
  all_valid_types, all_have_values, is_mandatory, wlc_fields, confidence_fields,
  validate_project_type, validate_financial_years, validate_wlc, validate_wlb, validate_confidence,
}
use pafs_backend_api.Projects.Submission.ImportantDates.{
  simplified_date_sequence, date_sequence, required_date_fields, simplified_required_date_fields,
  are_dates_chronological, proposal_range_holds, validate_could_start_early, validate_date_fields,
  validate_important_dates,
}
use pafs_backend_api.Projects.Submission.Funding.{
  sum_from, is_not_positive, in_range_values, contributor_key, validate_funding_sources,
}
use pafs_backend_api.Projects.Submission.Ready.{
  is_simplified, sequence_of, required_of, IsReady, InYears, number_lt-InOrder,
  is_not_positive-IsPositive, All-IsPositive, range_holds-InYears,
}
use pafs_backend_api.Projects.Submission.Chronology.{dates_of, are_dates_chronological_iff}
use pafs_backend_api.Projects.Submission.Contributors.{
  total_for, counted, validate_funding_contributors_iff,
}

errors_of-nil : (cs : List Checked) → errors_of cs ≡ [] → All (λ c. c ≡ none) cs
errors_of-nil [] h = tt
errors_of-nil (none ∷ cs) h = (refl, errors_of-nil cs h)
errors_of-nil (some e ∷ cs) h = cc

chain-none :
    (a b c : Bool) (e f g : SubmissionError) (d : Checked)
    → (if not a then some e else if not b then some f else if not c then some g else d) ≡ none
    → (a ≡ true) × (b ≡ true) × (c ≡ true)
chain-none true true true e f g d h = (refl, refl, refl)
chain-none true true false e f g d h = cc
chain-none true false c e f g d h = cc
chain-none false b c e f g d h = cc

module _ (month : ℕ) (year : ℤ) where
  fields-none :
      (row : Row) (required : List String) (sequence : List (String × String))
      → validate_date_fields month year row required sequence ≡ none
      → (all_have_values row required ≡ true)
        × (are_dates_chronological row sequence ≡ true)
        × (proposal_range_holds row sequence ≡ true)
  unfolding validate_date_fields
  fields-none row required sequence h =
      chain-none (all_have_values row required) (are_dates_chronological row sequence)
        (proposal_range_holds row sequence) important_dates_incomplete important_dates_out_of_range
        important_dates_out_of_range (validate_could_start_early month year row) h

  branch-none :
      (b : Bool) (row : Row) (r s : List String) (q t : List (String × String))
      → (if b
          then validate_date_fields month year row r q
          else validate_date_fields month year row s t)
        ≡ none
      → validate_date_fields month year row (if b then r else s) (if b then q else t) ≡ none
  branch-none true row r s q t h = h
  branch-none false row r s q t h = h

  passed_dates :
      (p : Project)
      → validate_important_dates month year p ≡ none
      → (all_have_values p.field (required_of p) ≡ true)
        × (are_dates_chronological p.field (sequence_of p) ≡ true)
        × (proposal_range_holds p.field (sequence_of p) ≡ true)
  unfolding validate_important_dates
  passed_dates p h = fields-none p.field (required_of p) (sequence_of p) (
      branch-none (is_simplified p) p.field simplified_required_date_fields required_date_fields
        simplified_date_sequence date_sequence h)

unless-none : (b : Bool) (e : SubmissionError) → unless b e ≡ none → b ≡ true
unless-none true e h = refl
unless-none false e h = cc

type-none :
    (p : Project)
    → validate_project_type p ≡ none
    → set_has all_valid_types (p.field "projectType") ≡ true
unfolding validate_project_type
type-none p h = ground (arith, h)

years-none :
    (p : Project)
    → validate_financial_years p ≡ none
    → (has_value (p.field "financialStartYear") ≡ true)
      × (has_value (p.field "financialEndYear") ≡ true)
      × (number_lt
            (to_number (p.field "financialEndYear"))
            (to_number (p.field "financialStartYear"))
          ≡ false)
unfolding validate_financial_years
years-none p h = ground (arith, h)

years-InYears :
    (p : Project)
    → has_value (p.field "financialStartYear") ≡ true
    → has_value (p.field "financialEndYear") ≡ true
    → proposal_range_holds p.field (sequence_of p) ≡ true
    → InYears
        (to_number (p.field "financialStartYear"))
        (to_number (p.field "financialEndYear"))
        (dates_of p.field (sequence_of p))
unfolding proposal_range_holds
years-InYears p first last h =
    range_holds-InYears p.field (sequence_of p) _ _ (rw (first, last) at h)

funding-none :
    (p : Project)
    → validate_funding_sources p ≡ none
    → is_not_positive (sum_from (some (pos 0)) "total" (in_range_values p)) ≡ false
unfolding validate_funding_sources
funding-none p h = ground (
  arith,
  unless-none (not (is_not_positive (sum_from (some (pos 0)) "total" (in_range_values p))))
      funding_sources_incomplete h,
)

costs-none :
    (p : Project)
    → validate_wlc p ≡ none
    → validate_wlb p ≡ none
    → validate_confidence p ≡ none
    → (is_mandatory p ≡ false)
      ⊎ ((all_have_values p.field wlc_fields ≡ true)
          × (has_value (p.field "wlbEstimatedWholeLifePvBenefits") ≡ true)
          × (all_have_values p.field confidence_fields ≡ true))
unfolding validate_wlc validate_wlb validate_confidence
costs-none p h i j = elim (Bool-cases (is_mandatory p)) [
  | inl e ↦ inr (
    unless-none (all_have_values p.field wlc_fields) wlc_incomplete (ground (arith, e, h)),
    unless-none (has_value (p.field "wlbEstimatedWholeLifePvBenefits")) wlb_incomplete
        (ground (arith, e, i)),
    unless-none (all_have_values p.field confidence_fields) confidence_incomplete
        (ground (arith, e, j)),
  )
  | inr e ↦ inl e
]

-- A proposal that the validation finds no error in is ready, at any date and with any digests: it
-- has what `IsReady` says, with the conditions on what is a number or a date that stand there.
pub validate_submission-IsReady :
    (hexdigest legacy_hexdigest : Project → List Row → String) (month : ℕ) (year : ℤ) (p : Project)
    → validate_submission hexdigest legacy_hexdigest month year p ≡ []
    → IsReady p
unfolding validate_submission
validate_submission-IsReady hexdigest legacy_hexdigest month year p ok =
    let passed = errors_of-nil (checks hexdigest legacy_hexdigest month year p) ok in
    let (has_first, has_last, ordered) = years-none p passed.1.0 in
    let dates = passed_dates month year p passed.1.1.1.0 in
    record {
      known_type = type-none p passed.0;
      has_first = has_first;
      has_last = has_last;
      years = number_lt-InOrder _ _ ordered;
      dated = dates.0;
      ascending = (are_dates_chronological_iff p.field (sequence_of p)).0 dates.1;
      in_years = years-InYears p has_first has_last dates.2;
      funded = is_not_positive-IsPositive _ (funding-none p passed.1.1.1.1.0);
      contributed =
          All-IsPositive (λ c. total_for (contributor_key c) (counted p)) (counted p)
            ((validate_funding_contributors_iff p).0 passed.1.1.1.1.1.1.0);
      costed =
          costs-none p passed.1.1.1.1.1.1.1.1.1.1.1.1.0 passed.1.1.1.1.1.1.1.1.1.1.1.1.1.0
            passed.1.1.1.1.1.1.1.1.1.1.1.1.1.1.0;
    }
