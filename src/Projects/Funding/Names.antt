-- ===== src/Projects/Funding/Names.antt =====
-- After the list of a type of contributors is saved, only the names in it are left.
use pafs_backend_api.Prelude.{
  ℕ, ◌≡◌, sym, ap, ◌∙◌, subst, String, Bool, true, false, not, ◌&&◌, List, [], ◌∷◌, Option, some,
  ◌===◌, eq_iff, returned, after_both-returned, is_some, Bool-cases, inl, inr, arith, filter,
}
use pafs_backend_api.Projects.Value.{includes}
use pafs_backend_api.Projects.Funding.{
  FundingTables, delete_contributors, rename_contributors, has_number, or_project_id,
}
use pafs_backend_api.Projects.Funding.Contributors
use pafs_backend_api.Projects.Funding.Ranges.{
  put_contributors-returned, query-returned, returned-rows,
}

includes-filter :
    (test : String → Bool) (n : String) (names : List String)
    → includes n (filter test names) ≡ true
    → includes n names ≡ true
includes-filter test n [] h = h
includes-filter test n (m ∷ names) h = ground (arith, h, includes-filter test n names)

pub filter-includes :
    (test : String → Bool) (n : String) (names : List String)
    → test n ≡ true
    → includes n names ≡ true
    → includes n (filter test names) ≡ true
filter-includes test n [] good h = h
filter-includes test n (m ∷ names) good h = elim (Bool-cases (m === n)) [
  | inl e ↦
      let kept : test m ≡ true = subst (λ w. test w ≡ true) (sym ((eq_iff m n).0 e)) good in
      rw kept (ground (arith, e))
  | inr e ↦ ground (arith, e, filter-includes test n names good (ground (arith, e, h)))
]

module _ (db : FundingTables) (ks : List ℕ) (k : ℕ) (has : has_number ks k ≡ true)
    (type : String) where
  abbrev is_stored : String → db.Rows → Bool
  is_stored n t = is_some (db.contributor_at k type n t)

  delete-name :
      (old n : String) (t : db.Rows) {u : db.Rows}
      → db.write_contributors
          (delete_contributors (λ j s m. has_number ks j && (s === type && m === old)))
          t
        ≡ some u
      → is_stored n u ≡ true
      → (is_stored n t ≡ true) × ((old === n) ≡ false)
  delete-name old n t {u} w h =
      let after = db.contributor_at-write_contributors _ k type n t w in
      ground (arith, after, h, has, eq_iff type type, eq_iff n old, eq_iff old n)

  rename-name :
      (old new n : String) (t : db.Rows) {u : db.Rows}
      → db.write_contributors (rename_contributors ks type old new) t ≡ some u
      → is_stored n u ≡ true
      → (n === new) ≡ false
      → (is_stored n t ≡ true) × ((old === n) ≡ false)
  rename-name old new n t {u} w h other =
      let after = db.contributor_at-write_contributors _ k type n t w in
      ground (arith, after, h, has, other, eq_iff type type, eq_iff n old, eq_iff old n)

  -- every name that is stored is in the list, or is still to be removed
  abbrev AreCovered : List String → List String → db.Rows → Type 0
  AreCovered current removed t =
      (n : String) → is_stored n t ≡ true → includes n current ≡ false → includes n removed ≡ true

  apply_contributor_name_changes-covered :
      (current removed added : List String) (t : db.Rows) {u : db.Rows}
      → ((n : String) → includes n added ≡ true → includes n current ≡ true)
      → AreCovered current removed t
      → Contributors.apply_contributor_name_changes db ks type removed added t ≡ returned tt u
      → AreCovered current [] u
  unfolding Contributors.apply_contributor_name_changes
  apply_contributor_name_changes-covered current [] added t new_names covered h =
      subst (λ v. AreCovered current [] v) (returned-rows db h) covered
  apply_contributor_name_changes-covered current (old ∷ removed) [] t new_names covered h =
      let (b, v, first, rest) = after_both-returned _ _ h in
      let (w, write, ended) = put_contributors-returned db _ t _ first in
      let same : w ≡ v = returned-rows db ended in
      let write' = write ∙ ap some same in
      apply_contributor_name_changes-covered current removed [] v new_names
        (λ n stored other.
          let (before, differs) = delete-name old n t write' stored in
          ground (arith, covered n before other, differs))
        rest
  apply_contributor_name_changes-covered current (old ∷ removed) (new ∷ added) t new_names covered
        h =
      let (b, v, first, rest) = after_both-returned _ _ h in
      let (w, write, ended) = put_contributors-returned db _ t _ first in
      let same : w ≡ v = returned-rows db ended in
      let write' = write ∙ ap some same in
      apply_contributor_name_changes-covered current removed added v
        (λ n added_later. new_names n (ground (arith, added_later)))
        (λ n stored other.
          let is_new : (n === new) ≡ false = not_new n other in
          let (before, differs) = rename-name old new n t write' stored is_new in
          ground (arith, covered n before other, differs))
        rest
    where
      not_new : (n : String) → includes n current ≡ false → (n === new) ≡ false
      not_new n other = elim (Bool-cases (n === new)) [
        | inl e ↦ cc (new_names n (ground (arith, e, eq_iff n new, eq_iff new n)), other)
        | inr e ↦ e
      ]

  module _ (sort : List String → List String)
      (sorted : (names : List String) (n : String)
        → includes n (sort names) ≡ includes n names) where
    existing_covered :
        (current existing : List String) (t : db.Rows)
        → db.find_names ks type t ≡ some existing
        → AreCovered current (sort (filter (λ n. not (includes n current)) (sort existing))) t
    existing_covered current existing t found n stored other =
        let there = db.find_names_all ks type n k t found has stored in
        sorted _ n
        ∙ filter-includes (λ m. not (includes m current)) n (sort existing) (ap not other)
            (sorted existing n ∙ there)

module _ (db : FundingTables) (sort : List String → List String)
    (sorted : (names : List String) (n : String) → includes n (sort names) ≡ includes n names)
    (type : String) where
  cleanup_found-names :
      (ks : List ℕ) (current : List String) (k : ℕ) (t : db.Rows) {u : db.Rows} (n : String)
      → has_number ks k ≡ true
      → Contributors.cleanup_found db sort ks type current t ≡ returned tt u
      → is_some (db.contributor_at k type n u) ≡ true
      → includes n current ≡ true
  cleanup_found-names [] current k t n has h stored = cc
  cleanup_found-names (j ∷ ks) [] k t {u} n has h stored =
      let (v, write, ended) = put_contributors-returned db _ t _ h in
      let same : v ≡ u = returned-rows db ended in
      let after = db.contributor_at-write_contributors _ k type n t (write ∙ ap some same) in
      ground (arith, after, has, stored, eq_iff type type)
  cleanup_found-names (j ∷ ks) (c ∷ cs) k t {u} n has h stored =
      let (existing, found, run) = query-returned db t (db.find_names (j ∷ ks) type t) _ h in
      let is_new : String → Bool = λ m. not (includes m (sort existing)) in
      let kept = filter is_new (c ∷ cs) in
      let covered =
        apply_contributor_name_changes-covered db (j ∷ ks) k has type (c ∷ cs) _ (sort kept) t
          (λ m later. includes-filter is_new m (c ∷ cs) (sym (sorted kept m) ∙ later))
          (existing_covered db (j ∷ ks) k has type sort sorted (c ∷ cs) existing t found) run in
      elim (Bool-cases (includes n (c ∷ cs))) [ inl e ↦ e | inr e ↦ cc (covered n stored e) ]

  -- Where the clean-up of a type of contributors returns, every name that is stored for a year that
  -- the project had before is in the list that was saved, if sorting keeps the names of a list.
  pub cleanup_contributors_by_name_lem :
      (r : Option String) (current : List String) (provided : Option ℕ) (p y : ℕ) (t : db.Rows)
      {u : db.Rows} (n : String)
      → or_project_id db provided r t ≡ returned p t
      → Contributors.cleanup_contributors_by_name db sort r type current provided t ≡ returned tt u
      → is_some (db.spend_at p y t) ≡ true
      → is_some (db.contributor_at (db.id_at p y t) type n u) ≡ true
      → includes n current ≡ true
  unfolding Contributors.cleanup_contributors_by_name
  cleanup_contributors_by_name_lem r current provided p y t n resolved h there stored =
      let run = rw resolved at h in
      let (ids, listed, h1) = query-returned db t (db.find_values p (λ z. true) t) _ run in
      cleanup_found-names ids current (db.id_at p y t) t n
        (db.find_values_all p (λ z. true) y t listed there) h1 stored
