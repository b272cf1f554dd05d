-- ===== src/Projects/Funding/Ranges.antt =====
-- When the years of a project change, the money outside them is cleared and that inside stays.
use pafs_backend_api.Prelude.{
  ℕ, ◌≡◌, refl, ap, ◌∙◌, subst, String, Bool, true, false, List, [], ◌∷◌, Option, none, some,
  if◌then◌else◌, ℤ, Outcome, returned, attempt, is_some,
}
use pafs_backend_api.Projects.Funding
use pafs_backend_api.Projects.Funding.{
  FundingTables, Spend, ValueWrite, ContributorWrite, update_values, clear_amounts, no_amounts,
  has_number, query, put_value, put_contributors, done, is_outside, value_after, changed_if,
  contributor_after,
}

-- A row and a contributor, cleared where the test holds.
abbrev pub cleared_if : Bool → Spend → Spend
cleared_if b s = if b then no_amounts else s

abbrev pub unpaid_if : Bool → Option (Option ℤ) → Option (Option ℤ)
unpaid_if b o = changed_if b (λ a. none) o

unpaid_if-false : (o : Option (Option ℤ)) → o ≡ unpaid_if false o
unpaid_if-false none = refl
unpaid_if-false (some a) = refl

module _ (db : FundingTables) where
  -- What ran of an operation that returned.
  pub put_value-returned :
      {A : Type 0} (w : ValueWrite) (t : db.Rows) (k : db.Rows → Outcome db.Rows A) {a : A}
      {u : db.Rows}
      → put_value db w t k ≡ returned a u
      → (v : db.Rows) × (db.write_values w t ≡ some v) × (k v ≡ returned a u)
  unfolding put_value
  put_value-returned w t k {a} {u} h = ran (db.write_values w t) refl h
    where
      ran :
          (o : Option db.Rows)
          → db.write_values w t ≡ o
          → attempt t o k ≡ returned a u
          → (v : db.Rows) × (db.write_values w t ≡ some v) × (k v ≡ returned a u)
      ran none e h' = cc
      ran (some v) e h' = (v, e, h')

  pub put_contributors-returned :
      {A : Type 0} (w : ContributorWrite) (t : db.Rows) (k : db.Rows → Outcome db.Rows A) {a : A}
      {u : db.Rows}
      → put_contributors db w t k ≡ returned a u
      → (v : db.Rows) × (db.write_contributors w t ≡ some v) × (k v ≡ returned a u)
  unfolding put_contributors
  put_contributors-returned w t k {a} {u} h = ran (db.write_contributors w t) refl h
    where
      ran :
          (o : Option db.Rows)
          → db.write_contributors w t ≡ o
          → attempt t o k ≡ returned a u
          → (v : db.Rows) × (db.write_contributors w t ≡ some v) × (k v ≡ returned a u)
      ran none e h' = cc
      ran (some v) e h' = (v, e, h')

  pub query-returned :
      {A B : Type 0} (t : db.Rows) (o : Option B) (k : B → Outcome db.Rows A) {a : A} {u : db.Rows}
      → query db t o k ≡ returned a u
      → (b : B) × (o ≡ some b) × (k b ≡ returned a u)
  unfolding query
  query-returned t none k h = cc
  query-returned t (some b) k h = (b, refl, h)

  pub returned-rows : {A : Type 0} {a b : A} {t u : db.Rows} → returned a t ≡ returned b u → t ≡ u
  returned-rows e = cc

  pub get_project_id_by_reference-found :
      (r : Option String) (p : ℕ) (t : db.Rows)
      → db.find_project_id r t ≡ some (some p)
      → Funding.get_project_id_by_reference db r t ≡ returned p t
  unfolding Funding.get_project_id_by_reference query
  get_project_id_by_reference-found r p t found = rw found refl

  -- the two writes, for the ids that pass a test
  abbrev clear_where : (ℕ → Bool) → db.Rows → Outcome db.Rows (Unit {0})
  clear_where test t =
      put_value db (update_values (λ j q z. test j) (λ s. no_amounts)) t
        λ u. put_contributors db (clear_amounts test) u (done db)

  clear_where-rows :
      (test : ℕ → Bool) (p y : ℕ) (t : db.Rows) {s : Spend} {u : db.Rows} (type name : String)
      → clear_where test t ≡ returned tt u
      → db.spend_at p y t ≡ some s
      → (db.spend_at p y u ≡ some (cleared_if (test (db.id_at p y t)) s))
        × (db.contributor_at (db.id_at p y t) type name u
            ≡ unpaid_if (test (db.id_at p y t)) (db.contributor_at (db.id_at p y t) type name t))
  clear_where-rows test p y t {s} {u} type name h e =
      let k = db.id_at p y t in
      let (v, w1, h1) = put_value-returned _ t _ h in
      let (v', w2, h2) = put_contributors-returned _ v _ h1 in
      let spend = db.spend_at-write_contributors _ p y v w2 ∙ db.spend_at-write_values _ p y t w1 in
      let amount = db.contributor_at-write_contributors _ k type name v w2 in
      let kept = db.contributor_at-write_values _ k type name t w1 in
      let same : v' ≡ u = returned-rows h2 in
      (
        subst (λ x. db.spend_at p y x ≡ some (cleared_if (test k) s)) same
            (spend ∙ ap (changed_if (test k) (λ x. no_amounts)) e),
        subst
            (λ x.
              db.contributor_at k type name x
              ≡ unpaid_if (test k) (db.contributor_at k type name t))
            same (amount ∙ ap (changed_if (test k) (λ a. none)) kept),
      )

  clear_found-rows :
      (ids : List ℕ) (p y : ℕ) (t : db.Rows) {s : Spend} {u : db.Rows} (type name : String)
      → Funding.clear_found db ids t ≡ returned tt u
      → db.spend_at p y t ≡ some s
      → (db.spend_at p y u ≡ some (cleared_if (has_number ids (db.id_at p y t)) s))
        × (db.contributor_at (db.id_at p y t) type name u
            ≡ unpaid_if
                (has_number ids (db.id_at p y t))
                (db.contributor_at (db.id_at p y t) type name t))
  clear_found-rows [] p y t {s} {u} type name h e =
      let k = db.id_at p y t in
      let same : t ≡ u = returned-rows h in
      let kept : db.contributor_at k type name t
          ≡ unpaid_if false (db.contributor_at k type name t) =
        unpaid_if-false (db.contributor_at k type name t) in
      (
        subst (λ v. db.spend_at p y v ≡ some s) same e,
        subst
            (λ v.
              db.contributor_at k type name v ≡ unpaid_if false (db.contributor_at k type name t))
            same kept,
      )
  clear_found-rows (k ∷ ks) p y t type name h e =
      clear_where-rows (has_number (k ∷ ks)) p y t type name h e

  -- Where the clearing of the years of a project returns, each of its rows outside the years is left
  -- with no amounts and its contributors with none, and each inside is left as it was, with its
  -- contributors.
  pub clear_out_of_range_funding_data_lem :
      (r : Option String) (first last : ℤ) (p y : ℕ) (t : db.Rows) {s : Spend} {u : db.Rows}
      (type name : String)
      → db.find_project_id r t ≡ some (some p)
      → Funding.clear_out_of_range_funding_data db r first last t ≡ returned tt u
      → db.spend_at p y t ≡ some s
      → (db.spend_at p y u ≡ some (cleared_if (is_outside first last y) s))
        × (db.contributor_at (db.id_at p y t) type name u
            ≡ unpaid_if (is_outside first last y) (db.contributor_at (db.id_at p y t) type name t))
  unfolding Funding.clear_out_of_range_funding_data
  clear_out_of_range_funding_data_lem r first last p y t {s} {u} type name found h e =
      let run = rw (get_project_id_by_reference-found r p t found) at h in
      let (ids, listed, h1) = query-returned t (db.find_values p (is_outside first last) t) _ run in
      let is_there : is_some (db.spend_at p y t) ≡ true = ap is_some e in
      let test = db.find_values_all p (is_outside first last) y t listed is_there in
      subst
        (λ b.
          (db.spend_at p y u ≡ some (cleared_if b s))
          × (db.contributor_at (db.id_at p y t) type name u
              ≡ unpaid_if b (db.contributor_at (db.id_at p y t) type name t)))
        test (clear_found-rows ids p y t type name h1 e)
