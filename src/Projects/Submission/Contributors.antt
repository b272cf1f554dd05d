-- ===== src/Projects/Submission/Contributors.antt =====
-- The totals that the validator keeps in a Map are the sums over the contributors of one type and
-- name, so it decides whether each of these sums is positive.
use pafs_backend_api.Prelude.{
  String, Bool, true, false, ◌≡◌, refl, sym, subst, ◌↔◌, List, [], ◌∷◌, Option, none, some, All,
  any, filter, Bool-cases, inl, inr, ℤ, pos, arith, if◌then◌else◌, ◌===◌, eq_iff,
}
use pafs_backend_api.Projects.Value.{Row, Project, add_numbers, number_or_zero, rows_or_none}
use pafs_backend_api.Projects.Submission.Funding.{
  sum_from, contributor_key, total_of, set_total, or_zero_total, add_contributor, add_contributors,
  is_not_positive, is_in_range_contributor, build_contributor_totals, validate_funding_contributors,
  in_range_values,
}

abbrev pub Totals : Type 0
Totals = List (String × Option ℤ)

-- The contributors that are counted: those of a year in range.
abbrev pub counted : Project → List Row
counted p =
    filter (is_in_range_contributor (in_range_values p))
      (rows_or_none p.pafs_core_funding_contributors)

-- The sum of the amounts of one type and name.
abbrev pub total_for : String → List Row → Option ℤ
total_for k cs = sum_from (some (pos 0)) "amount" (filter (λ c. contributor_key c === k) cs)

abbrev has_key : String → List Row → Bool
has_key k cs = any (λ c. contributor_key c === k) cs

total_of-set_total :
    (j k : String) (new : Option ℤ) (ts : Totals)
    → total_of j (set_total k new ts) ≡ (if k === j then some new else total_of j ts)
total_of-set_total j k new [] = refl
total_of-set_total j k new ((i, v) ∷ ts) =
    ground (arith, eq_iff k j, eq_iff i k, eq_iff i j, total_of-set_total j k new ts)

total_of-add_contributors-some :
    (k : String) (cs : List Row) (ts : Totals) (a : Option ℤ)
    → total_of k ts ≡ some a
    → total_of k (add_contributors cs ts)
      ≡ some (sum_from a "amount" (filter (λ c. contributor_key c === k) cs))
unfolding add_contributors sum_from
total_of-add_contributors-some k [] ts a h = h
total_of-add_contributors-some k (c ∷ cs) ts a h =
    let key = contributor_key c in
    let added = add_numbers (or_zero_total (total_of key ts)) (number_or_zero (c "amount")) in
    let next = total_of-set_total k key added ts in
    elim (Bool-cases (key === k)) [
      | inl e ↦
          let same : total_of key ts ≡ some a =
            subst (λ j. total_of j ts ≡ some a) (sym ((eq_iff key k).0 e)) h in
          let sum = add_numbers a (number_or_zero (c "amount")) in
          let now : total_of k (add_contributor c ts) ≡ some sum = ground (arith, next, e, same) in
          ground (arith, e, total_of-add_contributors-some k cs (add_contributor c ts) sum now)
      | inr e ↦
          let now : total_of k (add_contributor c ts) ≡ some a = ground (arith, next, e, h) in
          ground (arith, e, total_of-add_contributors-some k cs (add_contributor c ts) a now)
    ]

total_of-add_contributors :
    (k : String) (cs : List Row) (ts : Totals)
    → total_of k ts ≡ none
    → total_of k (add_contributors cs ts) ≡ (if has_key k cs then some (total_for k cs) else none)
unfolding add_contributors sum_from
total_of-add_contributors k [] ts h = h
total_of-add_contributors k (c ∷ cs) ts h =
    let key = contributor_key c in
    let added = add_numbers (or_zero_total (total_of key ts)) (number_or_zero (c "amount")) in
    let next = total_of-set_total k key added ts in
    elim (Bool-cases (key === k)) [
      | inl e ↦
          let same : total_of key ts ≡ none =
            subst (λ j. total_of j ts ≡ none) (sym ((eq_iff key k).0 e)) h in
          let sum = add_numbers (some (pos 0)) (number_or_zero (c "amount")) in
          let now : total_of k (add_contributor c ts) ≡ some sum = ground (arith, next, e, same) in
          ground (arith, e, total_of-add_contributors-some k cs (add_contributor c ts) sum now)
      | inr e ↦
          let now : total_of k (add_contributor c ts) ≡ none = ground (arith, next, e, h) in
          ground (arith, e, total_of-add_contributors k cs (add_contributor c ts) now)
    ]

-- The keys of a Map are distinct.
abbrev IsKeyed : Totals → Type 0
IsKeyed [] = Unit
IsKeyed ((k, v) ∷ ts) = (total_of k ts ≡ none) × IsKeyed ts

set_total-IsKeyed :
    (k : String) (new : Option ℤ) (ts : Totals) → IsKeyed ts → IsKeyed (set_total k new ts)
set_total-IsKeyed k new [] h = (refl, tt)
set_total-IsKeyed k new ((i, v) ∷ ts) h = elim (Bool-cases (i === k)) [
  | inl e ↦ rw e h
  | inr e ↦
      let other : total_of i (set_total k new ts) ≡ none =
        ground (arith, total_of-set_total i k new ts, h.0, e, eq_iff i k, eq_iff k i) in
      rw e (other, set_total-IsKeyed k new ts h.1)
]

add_contributors-IsKeyed :
    (cs : List Row) (ts : Totals) → IsKeyed ts → IsKeyed (add_contributors cs ts)
unfolding add_contributors
add_contributors-IsKeyed [] ts h = h
add_contributors-IsKeyed (c ∷ cs) ts h =
    add_contributors-IsKeyed cs (add_contributor c ts)
      (set_total-IsKeyed (contributor_key c) _ ts h)

-- If every total that is found by its key is positive, so is every entry.
entries_positive :
    (ts : Totals)
    → IsKeyed ts
    → ((k : String) (v : Option ℤ) → total_of k ts ≡ some v → is_not_positive v ≡ false)
    → any (λ t. is_not_positive t.1) ts ≡ false
entries_positive [] keyed h = refl
entries_positive ((k, v) ∷ ts) keyed h =
    let head : is_not_positive v ≡ false = h k v (ground (arith, eq_iff k k)) in
    let rest = entries_positive ts keyed.1 (λ j w found. h j w (elim (Bool-cases (k === j)) [
      | inl e ↦ cc (subst (λ i. total_of i ts ≡ none) ((eq_iff k j).0 e) keyed.0, found)
      | inr e ↦ ground (arith, e, found)
    ])) in
    ground (arith, head, rest)

entry_positive :
    (ts : Totals) (k : String) (v : Option ℤ)
    → any (λ t. is_not_positive t.1) ts ≡ false
    → total_of k ts ≡ some v
    → is_not_positive v ≡ false
entry_positive [] k v h found = cc
entry_positive ((j, w) ∷ ts) k v h found = elim (Bool-cases (j === k)) [
  | inl e ↦ let same : some w ≡ some v = ground (arith, e, found) in ground (arith, h, same)
  | inr e ↦ entry_positive ts k v (ground (arith, h)) (ground (arith, e, found))
]

key_positive :
    (cs all : List Row) (k : String)
    → All (λ c. is_not_positive (total_for (contributor_key c) all) ≡ false) cs
    → has_key k cs ≡ true
    → is_not_positive (total_for k all) ≡ false
key_positive [] all k h found = cc
key_positive (c ∷ cs) all k h found = elim (Bool-cases (contributor_key c === k)) [
  | inl e ↦
      subst (λ j. is_not_positive (total_for j all) ≡ false) ((eq_iff (contributor_key c) k).0 e)
        h.0
  | inr e ↦ key_positive cs all k h.1 (ground (arith, e, found))
]

All-has_key :
    (cs : List Row) (c : Row) (ds : List Row)
    → All (λ d. has_key (contributor_key d) cs ≡ true) ds
    → All (λ d. has_key (contributor_key d) (c ∷ cs) ≡ true) ds
All-has_key cs c [] h = tt
All-has_key cs c (d ∷ ds) h = (ground (arith, h.0), All-has_key cs c ds h.1)

own_keys : (cs : List Row) → All (λ d. has_key (contributor_key d) cs ≡ true) cs
own_keys [] = tt
own_keys (c ∷ cs) = (
  ground (arith, eq_iff (contributor_key c) (contributor_key c)),
  All-has_key cs c cs (own_keys cs),
)

module _ (cs : List Row) where
  abbrev totals : Totals
  totals = add_contributors cs []

  found_total :
      (k : String) → total_of k totals ≡ (if has_key k cs then some (total_for k cs) else none)
  found_total k = total_of-add_contributors k cs [] refl

  each_positive :
      (ds : List Row)
      → any (λ t. is_not_positive t.1) totals ≡ false
      → All (λ d. has_key (contributor_key d) cs ≡ true) ds
      → All (λ d. is_not_positive (total_for (contributor_key d) cs) ≡ false) ds
  each_positive [] h keys = tt
  each_positive (d ∷ ds) h keys =
      let k = contributor_key d in
      (
        entry_positive totals k (total_for k cs) h (ground (arith, found_total k, keys.0)),
        each_positive ds h keys.1,
      )

  All-positive :
      All (λ d. is_not_positive (total_for (contributor_key d) cs) ≡ false) cs
      → any (λ t. is_not_positive t.1) totals ≡ false
  All-positive h = entries_positive totals (add_contributors-IsKeyed cs [] tt) (λ k v found.
      elim (Bool-cases (has_key k cs)) [
        | inl e ↦
            let same : total_for k cs ≡ v = ground (arith, found_total k, e, found) in
            subst (λ w. is_not_positive w ≡ false) same (key_positive cs cs k h e)
        | inr e ↦ ground (arith, found_total k, e, found)
      ])

-- The contributors pass exactly when, for each of those whose year is in range, the amounts of its
-- type and name have a sum that is not 0 or less.
pub validate_funding_contributors_iff :
    (p : Project)
    → (validate_funding_contributors p ≡ none)
      ↔ All (λ c. is_not_positive (total_for (contributor_key c) (counted p)) ≡ false) (counted p)
unfolding validate_funding_contributors build_contributor_totals
validate_funding_contributors_iff p = (
  λ h. each_positive (counted p) (counted p) (ground (arith, h)) (own_keys (counted p)),
  λ h. ground (arith, All-positive (counted p) h),
)
