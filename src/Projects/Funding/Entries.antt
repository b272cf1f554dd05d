-- ===== src/Projects/Funding/Entries.antt =====
-- The contributors that a sync of a year leaves are those of its entries.
use pafs_backend_api.Prelude.{
  ℕ, ◌≡◌, refl, sym, ap, ◌∙◌, String, true, not, ◌&&◌, List, [], ◌∷◌, Option, none, some, ◌==◌,
  if◌then◌else◌, eq_iff, ==_iff, ℤ, returned, after_both-returned, then_run-returned, is_some,
  Bool-cases, inl, inr, arith, any, All, false,
}
use pafs_backend_api.Projects.Funding.{FundingTables, or_other, to_big_int, kept_unless}
use pafs_backend_api.Projects.Funding.Contributors
use pafs_backend_api.Projects.Funding.Contributors.{Entry, is_entry_of, filter_valid_contributors}
use pafs_backend_api.Projects.Funding.Ranges.{
  put_contributors-returned, query-returned, returned-rows,
}

-- What is stored for a type and a name: the amount of the last entry of them.
abbrev pub amount_for : String → String → List Entry → Option (Option ℤ)
amount_for type name [] = none
amount_for type name (e ∷ es) =
    or_other (amount_for type name es)
      (if is_entry_of type name e then some (to_big_int e.amount) else none)

is_some-or_other :
    {A : Type 0} (o : Option A) (p : Option A)
    → is_some (or_other o p) ≡ (if is_some o then true else is_some p)
is_some-or_other none p = refl
is_some-or_other (some a) p = refl

pub any-amount_for :
    (type name : String) (es : List Entry)
    → any (is_entry_of type name) es ≡ is_some (amount_for type name es)
any-amount_for type name [] = refl
any-amount_for type name (e ∷ es) = elim (Bool-cases (is_entry_of type name e)) [
  | inl yes_entry ↦
      rw yes_entry
        (ground (arith, is_some-or_other (amount_for type name es) (some (to_big_int e.amount))))
  | inr other ↦ rw other (
      ground (
        arith,
        any-amount_for type name es,
        is_some-or_other {A = Option ℤ} (amount_for type name es) none,
      ))
]

-- No two entries are of one type and name.
abbrev pub IsDistinct : List Entry → Type 0
IsDistinct [] = Unit
IsDistinct (e ∷ es) = (any (is_entry_of e.contributor_type e.name) es ≡ false) × IsDistinct es

entry-is_entry_of : (e : Entry) → is_entry_of e.contributor_type e.name e ≡ true
entry-is_entry_of e =
    ground (arith, eq_iff e.contributor_type e.contributor_type, eq_iff e.name e.name)

none_of_missing : {A : Type 0} (o : Option A) → is_some o ≡ false → o ≡ none
none_of_missing none h = refl
none_of_missing (some a) h = cc h

-- An entry keeps its amount when others are put before the list.
later_amounts :
    (d : Entry) (es ds : List Entry)
    → All (λ e. amount_for e.contributor_type e.name es ≡ some (to_big_int e.amount)) ds
    → All (λ e. amount_for e.contributor_type e.name (d ∷ es) ≡ some (to_big_int e.amount)) ds
later_amounts d es [] h = tt
later_amounts d es (e ∷ ds) (h, hs) = (rw h refl, later_amounts d es ds hs)

pub distinct_amounts :
    (es : List Entry)
    → IsDistinct es
    → All (λ e. amount_for e.contributor_type e.name es ≡ some (to_big_int e.amount)) es
distinct_amounts [] h = tt
distinct_amounts (e ∷ es) (apart, h) =
    let alone =
      none_of_missing (amount_for e.contributor_type e.name es)
        (sym (any-amount_for e.contributor_type e.name es) ∙ apart) in
    (rw (alone, entry-is_entry_of e) refl, later_amounts e es es (distinct_amounts es h))

or_other_assoc :
    {A : Type 0} (o p q : Option A) → or_other (or_other o p) q ≡ or_other o (or_other p q)
or_other_assoc none p q = refl
or_other_assoc (some a) p q = refl

-- What has no entry is deleted.
only_entries :
    {A : Type 0} (k : ℕ) (o p : Option A)
    → kept_unless (k == k && not (is_some o)) (or_other o p) ≡ o
only_entries k none p = ground arith
only_entries k (some a) p = ground arith

module _ (db : FundingTables) where
  upsert_desired_contributors-stored :
      (k : ℕ) (type name : String) (es : List Entry) (t : db.Rows) {u : db.Rows}
      → Contributors.upsert_desired_contributors db k es t ≡ returned tt u
      → db.contributor_at k type name u
        ≡ or_other (amount_for type name es) (db.contributor_at k type name t)
  unfolding Contributors.upsert_desired_contributors Contributors.upsert_contributor_direct
  upsert_desired_contributors-stored k type name [] t h =
      ap (λ v. db.contributor_at k type name v) (sym (returned-rows db h))
  upsert_desired_contributors-stored k type name (e ∷ es) t {u} h =
      let (b, v, first, rest) = after_both-returned _ _ h in
      let (a, read, run) = query-returned db t (to_big_int e.amount) _ first in
      let (w, write, ended) = put_contributors-returned db _ t _ run in
      let same : w ≡ v = returned-rows db ended in
      let now = db.contributor_at-write_contributors _ k type name t (write ∙ ap some same) in
      let later = upsert_desired_contributors-stored k type name es v rest in
      let added : db.contributor_at k type name v
          ≡ or_other (if is_entry_of type name e then some (to_big_int e.amount) else none)
              (db.contributor_at k type name t) =
        ground (
          arith,
          now,
          read,
          ==_iff k k,
          eq_iff type e.contributor_type,
          eq_iff name e.name,
          eq_iff e.contributor_type type,
          eq_iff e.name name,
        ) in
      later
      ∙ ap (or_other (amount_for type name es)) added
      ∙ sym (or_other_assoc (amount_for type name es) _ (db.contributor_at k type name t))

  -- The contributors leave the rows of the years alone.
  abbrev pub SameYears : db.Rows → db.Rows → Type 0
  SameYears t u =
      (q z : ℕ) → (db.spend_at q z u ≡ db.spend_at q z t) × (db.id_at q z u ≡ db.id_at q z t)

  upsert_desired_contributors-years :
      (k : ℕ) (es : List Entry) (t : db.Rows) {u : db.Rows}
      → Contributors.upsert_desired_contributors db k es t ≡ returned tt u
      → SameYears t u
  unfolding Contributors.upsert_desired_contributors Contributors.upsert_contributor_direct
  upsert_desired_contributors-years k [] t h q z =
      let same = returned-rows db h in
      (ap (λ v. db.spend_at q z v) (sym same), ap (λ v. db.id_at q z v) (sym same))
  upsert_desired_contributors-years k (e ∷ es) t h q z =
      let (b, v, first, rest) = after_both-returned _ _ h in
      let (a, read, run) = query-returned db t (to_big_int e.amount) _ first in
      let (w, write, ended) = put_contributors-returned db _ t _ run in
      let write' = write ∙ ap some (returned-rows db ended) in
      let later = upsert_desired_contributors-years k es v rest q z in
      (
        later.0 ∙ db.spend_at-write_contributors _ q z t write',
        later.1 ∙ db.id_at-write_contributors _ q z t write',
      )

  pub sync_funding_contributors_for_year_lem :
      (k : ℕ) (es : List Entry) (t : db.Rows) {u : db.Rows}
      → Contributors.sync_funding_contributors_for_year db k es t ≡ returned tt u
      → ((type name : String)
          → db.contributor_at k type name u ≡ amount_for type name (filter_valid_contributors es))
        × SameYears t u
  unfolding Contributors.sync_funding_contributors_for_year Contributors.delete_stale_contributors
  sync_funding_contributors_for_year_lem k es t h =
      let desired = filter_valid_contributors es in
      let (a, v, first, rest) = then_run-returned _ _ h in
      let (w, write, ended) = put_contributors-returned db _ v _ rest in
      let write' = write ∙ ap some (returned-rows db ended) in
      (
        λ type name.
            let stored = upsert_desired_contributors-stored k type name desired t first in
            let left = db.contributor_at-write_contributors _ k type name v write' in
            left
            ∙ ap (kept_unless (k == k && not (any (is_entry_of type name) desired))) stored
            ∙ ap
                (λ b.
                  kept_unless (k == k && not b)
                    (or_other (amount_for type name desired) (db.contributor_at k type name t)))
                (any-amount_for type name desired)
            ∙ only_entries k (amount_for type name desired) (db.contributor_at k type name t),
        λ q z.
            let years = upsert_desired_contributors-years k desired t first q z in
            (
              db.spend_at-write_contributors _ q z v write' ∙ years.0,
              db.id_at-write_contributors _ q z v write' ∙ years.1,
            ),
      )
