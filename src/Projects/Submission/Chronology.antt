-- ===== src/Projects/Submission/Chronology.antt =====
-- The loop over the dates compares neighbours. What it decides is the order of all of them.
use pafs_backend_api.Prelude.{
  String, Bool, true, ◌≡◌, refl, ◌↔◌, List, [], ◌∷◌, Option, none, some, All, ℤ, ◌<ℤ◌, arith,
}
use pafs_backend_api.Projects.Value.{Row}
use pafs_backend_api.Projects.Dates.{to_date_ordinal}
use pafs_backend_api.Projects.Submission.ImportantDates.{
  are_dates_chronological, chronological_from, next_date,
}

-- The dates of a sequence that a project has, a date with a month that is none left out.
abbrev pub with_date : Option ℤ → List ℤ → List ℤ
with_date none os = os
with_date (some o) os = o ∷ os

abbrev pub dates_of : Row → List (String × String) → List ℤ
dates_of row [] = []
dates_of row ((month, year) ∷ fields) =
    with_date (to_date_ordinal (row month) (row year)) (dates_of row fields)

-- Every date is before all that follow it.
abbrev pub IsAscending : List ℤ → Type 0
IsAscending [] = Unit
IsAscending (o ∷ os) = All (λ later. o <ℤ later) os × IsAscending os

All-later : (a b : ℤ) (os : List ℤ) → a <ℤ b → All (λ o. b <ℤ o) os → All (λ o. a <ℤ o) os
All-later a b [] h all = tt
All-later a b (o ∷ os) h all = (omega (arith, h, all.0), All-later a b os h all.1)

-- One round of the loop, over what is known of the rounds that follow.
module _ (rest : Option ℤ → Bool) (ds : List ℤ) where
  step-IsAscending :
      (p : ℤ) (o : Option ℤ)
      → ((q : ℤ) → rest (some q) ≡ true → All (λ x. q <ℤ x) ds × IsAscending ds)
      → next_date rest (some p) o ≡ true
      → All (λ x. p <ℤ x) (with_date o ds) × IsAscending (with_date o ds)
  step-IsAscending p none ih e = ih p e
  step-IsAscending p (some o) ih e =
      let before : p <ℤ o = ground (arith, e) in
      let (later, ascending) = ih o (ground (arith, e)) in
      ((before, All-later p o ds before later), (later, ascending))

  IsAscending-step :
      (p : ℤ) (o : Option ℤ)
      → ((q : ℤ) → All (λ x. q <ℤ x) ds → IsAscending ds → rest (some q) ≡ true)
      → All (λ x. p <ℤ x) (with_date o ds)
      → IsAscending (with_date o ds)
      → next_date rest (some p) o ≡ true
  IsAscending-step p none ih l a = ih p l a
  IsAscending-step p (some o) ih l a = ground (arith, l.0, ih o a.0 a.1)

module _ (row : Row) where
  from-IsAscending :
      (fields : List (String × String)) (p : ℤ)
      → chronological_from row fields (some p) ≡ true
      → All (λ o. p <ℤ o) (dates_of row fields) × IsAscending (dates_of row fields)
  from-IsAscending [] p h = (tt, tt)
  from-IsAscending ((month, year) ∷ fields) p h =
      step-IsAscending (chronological_from row fields) (dates_of row fields) p
        (to_date_ordinal (row month) (row year)) (from-IsAscending fields) h

  IsAscending-from :
      (fields : List (String × String)) (p : ℤ)
      → All (λ o. p <ℤ o) (dates_of row fields)
      → IsAscending (dates_of row fields)
      → chronological_from row fields (some p) ≡ true
  IsAscending-from [] p later h = refl
  IsAscending-from ((month, year) ∷ fields) p later h =
      IsAscending-step (chronological_from row fields) (dates_of row fields) p
        (to_date_ordinal (row month) (row year)) (IsAscending-from fields) later h

  first_step :
      (fields : List (String × String)) (o : Option ℤ)
      → ((chronological_from row fields none ≡ true) ↔ IsAscending (dates_of row fields))
      → (next_date (chronological_from row fields) none o ≡ true)
        ↔ IsAscending (with_date o (dates_of row fields))
  first_step fields none ih = ih
  first_step fields (some o) ih =
      (from-IsAscending fields o, λ h. IsAscending-from fields o h.0 h.1)

  first-IsAscending :
      (fields : List (String × String))
      → (chronological_from row fields none ≡ true) ↔ IsAscending (dates_of row fields)
  first-IsAscending [] = (λ h. tt, λ h. refl)
  first-IsAscending ((month, year) ∷ fields) =
      first_step fields (to_date_ordinal (row month) (row year)) (first-IsAscending fields)

-- The dates of a project are taken to be in order exactly when each of those it has is before all
-- that follow it in the sequence.
pub are_dates_chronological_iff :
    (row : Row) (sequence : List (String × String))
    → (are_dates_chronological row sequence ≡ true) ↔ IsAscending (dates_of row sequence)
unfolding are_dates_chronological
are_dates_chronological_iff row sequence = first-IsAscending row sequence
