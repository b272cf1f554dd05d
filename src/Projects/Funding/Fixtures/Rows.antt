-- ===== src/Projects/Funding/Fixtures/Rows.antt =====
-- The rows of the tables of the tests, and what the writes make of them.
use pafs_backend_api.Prelude.{
  ℕ, ◌≡◌, refl, sym, ap, subst, String, Bool, true, false, ◌&&◌, List, [], ◌∷◌, Option, none, some,
  ◌==◌, if◌then◌else◌, ◌===◌, eq_iff, ==_iff, ℤ, Bool-cases, inl, inr, arith,
}
use pafs_backend_api.Projects.Value.{includes}
use pafs_backend_api.Projects.Funding.{
  Spend, ValueWrite, ContributorWrite, upsert_value, create_values, delete_values, update_values,
  upsert_contributor, create_contributors, delete_contributors, clear_amounts, rename_contributors,
  value_after, contributor_after, has_number,
}
use pafs_backend_api.Projects.Funding.Fixtures.Search.{and_true, if_true}

pub record FundingRows : Type 0 where
  pub spend : ℕ → Option Spend
  pub paid : ℕ → String → String → Option (Option ℤ)

module _ (years : List ℕ) (names : List String) where
  abbrev pub kept : ℕ → ℕ → FundingRows → Option Spend
  kept p y t = if p == 1 && has_number years y then t.spend y else none

  abbrev pub named : ℕ → String → String → FundingRows → Option (Option ℤ)
  named k s n t = if includes n names then t.paid k s n else none

  abbrev pub all_in : List ℕ → Bool
  all_in [] = true
  all_in (y ∷ ys) = if has_number years y then all_in ys else false

  abbrev pub all_named : List String → Bool
  all_named [] = true
  all_named (n ∷ ns) = if includes n names then all_named ns else false

  abbrev pub takes_value : ValueWrite → Bool
  takes_value (upsert_value p y s) = p == 1 && has_number years y
  takes_value (create_values p ys) = p == 1 && all_in ys
  takes_value (delete_values test) = true
  takes_value (update_values test change) = true

  abbrev pub takes_contributor : ContributorWrite → Bool
  takes_contributor (upsert_contributor k s n a) = includes n names
  takes_contributor (create_contributors ks s ns) = all_named ns
  takes_contributor (delete_contributors test) = true
  takes_contributor (clear_amounts test) = true
  takes_contributor (rename_contributors ks s old new) = includes new names

  abbrev pub write_years : ValueWrite → FundingRows → Option FundingRows
  write_years w t =
      if takes_value w
      then some (record t { spend = λ y. value_after w y 1 y (kept 1 y t) })
      else none

  abbrev pub write_names : ContributorWrite → FundingRows → Option FundingRows
  write_names w t =
      if takes_contributor w
      then some (record t { paid = λ k s n. contributor_after w k s n (λ m. named k s m t) })
      else none

  pub all_in-has :
      (ys : List ℕ) (y : ℕ) → all_in ys ≡ true → has_number ys y ≡ true → has_number years y ≡ true
  all_in-has [] y h e = cc
  all_in-has (z ∷ ys) y h e = elim (Bool-cases (has_number years z)) [
    | inl there ↦ elim (Bool-cases (z == y)) [
      | inl same ↦ subst (λ x. has_number years x ≡ true) ((==_iff z y).0 same) there
      | inr other ↦ all_in-has ys y (rw there at h) (rw other at e)
    ]
    | inr missing ↦ cc (rw missing at h)
  ]

  pub all_named-includes :
      (ns : List String) (n : String)
      → all_named ns ≡ true
      → includes n ns ≡ true
      → includes n names ≡ true
  all_named-includes [] n h e = cc
  all_named-includes (m ∷ ns) n h e = elim (Bool-cases (includes m names)) [
    | inl there ↦ elim (Bool-cases (m === n)) [
      | inl same ↦ subst (λ x. includes x names ≡ true) ((eq_iff m n).0 same) there
      | inr other ↦ all_named-includes ns n (rw there at h) (rw other at e)
    ]
    | inr missing ↦ cc (rw missing at h)
  ]

  -- The years that are refused stay without a row.
  pub outside-value :
      (w : ValueWrite) (q z : ℕ)
      → takes_value w ≡ true
      → (q == 1 && has_number years z) ≡ false
      → value_after w z q z none ≡ none
  outside-value (upsert_value p y s) q z h out = elim (Bool-cases (q == p && z == y)) [
    | inl e ↦
        let (one, there) = and_true (p == 1) (has_number years y) h in
        let (eq_p, eq_y) = and_true (q == p) (z == y) e in
        let is_one : (q == 1) ≡ true =
          subst (λ x. (x == 1) ≡ true) (sym ((==_iff q p).0 eq_p)) one in
        let is_there : has_number years z ≡ true =
          subst (λ x. has_number years x ≡ true) (sym ((==_iff z y).0 eq_y)) there in
        cc (rw (is_one, is_there) at out)
    | inr e ↦ rw e refl
  ]
  outside-value (create_values p ys) q z h out = elim (Bool-cases (q == p && has_number ys z)) [
    | inl e ↦
        let (one, there) = and_true (p == 1) (all_in ys) h in
        let (eq_p, eq_y) = and_true (q == p) (has_number ys z) e in
        let is_one : (q == 1) ≡ true =
          subst (λ x. (x == 1) ≡ true) (sym ((==_iff q p).0 eq_p)) one in
        cc (rw (is_one, all_in-has ys z there eq_y) at out)
    | inr e ↦ rw e refl
  ]
  outside-value (delete_values test) q z h out = ground arith
  outside-value (update_values test change) q z h out = refl

  same_rows : {t u : FundingRows} → some t ≡ some u → t ≡ u
  same_rows e = cc

  pub inside-value :
      (w : ValueWrite) (q z : ℕ) (t : FundingRows)
      → (q == 1 && has_number years z) ≡ true
      → kept q z (record t { spend = λ y. value_after w y 1 y (kept 1 y t) })
        ≡ value_after w z q z (kept q z t)
  inside-value w q z t inside =
      let one : q ≡ 1 = (==_iff q 1).0 (and_true (q == 1) (has_number years z) inside).0 in
      rw inside (
        subst (λ x. value_after w z 1 z (kept 1 z t) ≡ value_after w z x z (t.spend z)) (sym one)
          (ap (value_after w z 1 z)
            (kept_one z t (and_true (q == 1) (has_number years z) inside).1)))
    where
      kept_one : (y : ℕ) (u : FundingRows) → has_number years y ≡ true → kept 1 y u ≡ u.spend y
      kept_one y u there = rw there refl

  pub kept-write_years :
      (w : ValueWrite) (q z : ℕ) (t : FundingRows) {t' : FundingRows}
      → write_years w t ≡ some t'
      → kept q z t' ≡ value_after w z q z (kept q z t)
  kept-write_years w q z t {t'} h = elim (Bool-cases (takes_value w)) [
    | inl taken ↦
        let made : FundingRows = record t { spend = λ y. value_after w y 1 y (kept 1 y t) } in
        let same : made ≡ t' = same_rows (rw taken at h) in
        subst (λ u. kept q z u ≡ value_after w z q z (kept q z t)) same
          (elim (Bool-cases (q == 1 && has_number years z)) [
            | inl inside ↦ inside-value w q z t inside
            | inr outside ↦ rw outside (sym (outside-value w q z taken outside))
          ])
    | inr refused ↦ cc (rw refused at h)
  ]

  pub named-write_years :
      (w : ValueWrite) (k : ℕ) (s n : String) (t : FundingRows) {t' : FundingRows}
      → write_years w t ≡ some t'
      → named k s n t' ≡ named k s n t
  named-write_years w k s n t {t'} h = elim (Bool-cases (takes_value w)) [
    | inl taken ↦
        let same : record t { spend = λ y. value_after w y 1 y (kept 1 y t) } ≡ t' =
          same_rows (rw taken at h) in
        subst (λ u. named k s n u ≡ named k s n t) same refl
    | inr refused ↦ cc (rw refused at h)
  ]

  pub kept-write_names :
      (w : ContributorWrite) (q z : ℕ) (t : FundingRows) {t' : FundingRows}
      → write_names w t ≡ some t'
      → kept q z t' ≡ kept q z t
  kept-write_names w q z t {t'} h = elim (Bool-cases (takes_contributor w)) [
    | inl taken ↦
        let same : record t { paid = λ k s n. contributor_after w k s n (λ m. named k s m t) }
            ≡ t' =
          same_rows (rw taken at h) in
        subst (λ u. kept q z u ≡ kept q z t) same refl
    | inr refused ↦ cc (rw refused at h)
  ]

  -- The names that are refused stay without a row.
  pub outside-name :
      (w : ContributorWrite) (k : ℕ) (s n : String) (read : String → Option (Option ℤ))
      → takes_contributor w ≡ true
      → includes n names ≡ false
      → read n ≡ none
      → contributor_after w k s n read ≡ none
  outside-name (upsert_contributor j r m a) k s n read h out e =
      elim (Bool-cases (k == j && (s === r && n === m))) [
        | inl same ↦
            let there = (and_true (s === r) (n === m) (and_true (k == j) _ same).1).1 in
            cc (subst (λ x. includes x names ≡ true) (sym ((eq_iff n m).0 there)) h, out)
        | inr other ↦ rw other e
      ]
  outside-name (create_contributors ks r ns) k s n read h out e =
      elim (Bool-cases (has_number ks k && (s === r && includes n ns))) [
        | inl same ↦
            let there = (and_true (s === r) _ (and_true (has_number ks k) _ same).1).1 in
            cc (all_named-includes ns n h there, out)
        | inr other ↦ rw (other, e) refl
      ]
  outside-name (delete_contributors test) k s n read h out e = ground (arith, e)
  outside-name (clear_amounts test) k s n read h out e = rw e refl
  outside-name (rename_contributors ks r old new) k s n read h out e =
      elim (Bool-cases (n === new)) [
        | inl same ↦ cc (subst (λ x. includes x names ≡ true) (sym ((eq_iff n new).0 same)) h, out)
        | inr other ↦ rw (other, e) (ground arith)
      ]

  pub named-write_names :
      (w : ContributorWrite) (k : ℕ) (s n : String) (t : FundingRows) {t' : FundingRows}
      → write_names w t ≡ some t'
      → named k s n t' ≡ contributor_after w k s n (λ m. named k s m t)
  named-write_names w k s n t {t'} h = elim (Bool-cases (takes_contributor w)) [
    | inl taken ↦
        let made : FundingRows = record t {
          paid = λ j r m. contributor_after w j r m (λ i. named j r i t);
        } in
        let same : made ≡ t' = same_rows (rw taken at h) in
        subst (λ u. named k s n u ≡ contributor_after w k s n (λ m. named k s m t)) same
          (elim (Bool-cases (includes n names)) [
            | inl inside ↦ if_true (includes n names) _ _ inside
            | inr outside ↦
                let missing : named k s n t ≡ none = rw outside refl in
                rw outside (sym (outside-name w k s n (λ m. named k s m t) taken outside missing))
          ])
    | inr refused ↦ cc (rw refused at h)
  ]
