-- ===== src/Areas/Hierarchy/Cached.antt =====
-- The cache of areas with their parents answers as the rows do, and the entries that are made at
-- the start agree with them where the types of the parents are the expected ones.
use pafs_backend_api.Prelude.{
  ℕ, String, ◌≡◌, refl, sym, ap, ◌∙◌, subst, true, false, List, [], ◌∷◌, Option, none, some, ltb,
  ◌==◌, ==_iff, if◌then◌else◌, Bool-cases, inl, inr, map,
}
use pafs_backend_api.Areas.{Area, AreaRows, pso, ea, is_area_type}
use pafs_backend_api.Areas.Hierarchy.{
  AreaWithParents, read_area_with_parents, HierarchyEntry, HierarchyCache, delete_entry, live_entry,
  get_cached_hierarchy, set_cached_hierarchy, keep_result, read_or_cached,
  get_area_by_id_with_parents, build_area_with_parents_result, fetch_parent_chain, find_parent,
  look_up, set_parents, with_parents, with_grandparent, and_grandparent, with_grandparent,
  and_grandparent,
}

-- The results of calls, each with its time and its id, one after the other.
abbrev pub read_all : AreaRows → List (ℕ × ℕ) → HierarchyCache → List (Option AreaWithParents)
read_all rows [] c = []
read_all rows (call ∷ calls) c =
    (get_area_by_id_with_parents rows call.0 call.1 c).0
    ∷ read_all rows calls (get_area_by_id_with_parents rows call.0 call.1 c).1

-- What a call answers without a cache.
abbrev pub read_uncached : AreaRows → ℕ × ℕ → Option AreaWithParents
read_uncached rows call = if call.1 == 0 then none else read_area_with_parents rows call.1

abbrev pub no_entries : HierarchyCache
no_entries k = none

module _ (rows : AreaRows) where
  abbrev IsTrueOf : ℕ → Option HierarchyEntry → Type 0
  IsTrueOf k none = Unit
  IsTrueOf k (some e) = read_area_with_parents rows k ≡ some e.result

  abbrev IsFaithful : HierarchyCache → Type 0
  IsFaithful c = (k : ℕ) → IsTrueOf k (c k)

  delete-IsFaithful : (k : ℕ) (c : HierarchyCache) → IsFaithful c → IsFaithful (delete_entry k c)
  delete-IsFaithful k c h j = elim (Bool-cases (j == k)) [ inl e ↦ rw e tt | inr e ↦ rw e (h j) ]

  set-IsFaithful :
      (now k : ℕ) (c : HierarchyCache) (r : AreaWithParents)
      → IsFaithful c
      → read_area_with_parents rows k ≡ some r
      → IsFaithful (set_cached_hierarchy now k r c)
  unfolding set_cached_hierarchy
  set-IsFaithful now k c r h e j = elim (Bool-cases (j == k)) [
    | inl same ↦
        rw same (subst (λ i. read_area_with_parents rows i ≡ some r) (sym ((==_iff j k).0 same)) e)
    | inr other ↦ rw other (h j)
  ]

  -- A pair that is the uncached answer with a faithful cache.
  abbrev IsAnswer : Option AreaWithParents → Option AreaWithParents × HierarchyCache → Type 0
  IsAnswer o pair = (pair.0 ≡ o) × IsFaithful pair.1

  keep-IsAnswer :
      (now k : ℕ) (c : HierarchyCache) (o : Option AreaWithParents)
      → IsFaithful c
      → read_area_with_parents rows k ≡ o
      → IsAnswer o (keep_result now k c o)
  keep-IsAnswer now k c none h e = (refl, h)
  keep-IsAnswer now k c (some r) h e = (refl, set-IsFaithful now k c r h e)

  live-IsAnswer :
      (now k : ℕ) (c : HierarchyCache) (o : Option HierarchyEntry)
      → IsFaithful c
      → IsTrueOf k o
      → IsAnswer (read_area_with_parents rows k) (read_or_cached rows now k (live_entry now k c o))
  live-IsAnswer now k c none h e =
      keep-IsAnswer now k (delete_entry k c) (read_area_with_parents rows k)
        (delete-IsFaithful k c h) refl
  live-IsAnswer now k c (some x) h e = elim (Bool-cases (ltb x.expires_at now)) [
    | inl late ↦ rw late (
        keep-IsAnswer now k (delete_entry k c) (read_area_with_parents rows k)
          (delete-IsFaithful k c h) refl)
    | inr live ↦ rw live (sym e, h)
  ]

  get-IsAnswer :
      (call : ℕ × ℕ) (c : HierarchyCache)
      → IsFaithful c
      → IsAnswer (read_uncached rows call) (get_area_by_id_with_parents rows call.0 call.1 c)
  unfolding get_area_by_id_with_parents get_cached_hierarchy
  get-IsAnswer call c h = elim (Bool-cases (call.1 == 0)) [
    | inl e ↦ rw e (refl, h)
    | inr e ↦ rw e (live-IsAnswer call.0 call.1 c (c call.1) h (h call.1))
  ]

  read_all-uncached :
      (calls : List (ℕ × ℕ)) (c : HierarchyCache)
      → IsFaithful c
      → read_all rows calls c ≡ map (read_uncached rows) calls
  read_all-uncached [] c h = refl
  read_all-uncached (call ∷ calls) c h =
      let answer = get-IsAnswer call c h in
      rw
        (
          answer.0,
          read_all-uncached calls (get_area_by_id_with_parents rows call.0 call.1 c).1 answer.1,
        )
        refl

  -- From an empty cache, and while the rows stay the same, calls at any times answer as if there
  -- were no cache.
  pub cached_reads-uncached :
      (calls : List (ℕ × ℕ)) → read_all rows calls no_entries ≡ map (read_uncached rows) calls
  cached_reads-uncached calls = read_all-uncached calls no_entries (λ k. tt)

  find_parent-found :
      (o : Option ℕ) (k : ℕ) {a : Area}
      → o ≡ some k
      → k == 0 ≡ false
      → rows.find_by_id k ≡ some a
      → (find_parent rows o ≡ some a) × (look_up rows o ≡ some a)
  find_parent-found o k e n f = (rw (e, n, f) refl, rw (e, f) refl)

  chain_of :
      (a p q : Area)
      → find_parent rows a.parent_id ≡ some p
      → find_parent rows p.parent_id ≡ some q
      → fetch_parent_chain rows a.parent_id ≡ p ∷ q ∷ []
  unfolding fetch_parent_chain
  chain_of a p q e f = ap (with_grandparent rows) e ∙ ap (and_grandparent p) f

  set_parents-pair :
      (p q : Area) (r : AreaWithParents)
      → is_area_type p.area_type pso ≡ true
      → is_area_type p.area_type ea ≡ false
      → is_area_type q.area_type pso ≡ false
      → is_area_type q.area_type ea ≡ true
      → set_parents (p ∷ q ∷ []) r ≡ record { area = r.area; pso_area = some p; ea_area = some q }
  set_parents-pair p q r a b c d = rw (a, b, c, d) refl

  pso_types : (s : String) → s ≡ pso → (is_area_type s pso ≡ true) × (is_area_type s ea ≡ false)
  unfolding is_area_type
  pso_types s h = (ap (λ x. is_area_type x pso) h, ap (λ x. is_area_type x ea) h)

  ea_types : (s : String) → s ≡ ea → (is_area_type s pso ≡ false) × (is_area_type s ea ≡ true)
  unfolding is_area_type
  ea_types s h = (ap (λ x. is_area_type x pso) h, ap (λ x. is_area_type x ea) h)

  read_of :
      (k : ℕ) (a : Area) (parents : List Area) (r : AreaWithParents)
      → rows.find_by_id k ≡ some a
      → fetch_parent_chain rows a.parent_id ≡ parents
      → set_parents parents (record { area = a; pso_area = none; ea_area = none }) ≡ r
      → read_area_with_parents rows k ≡ some r
  unfolding read_area_with_parents
  read_of k a parents r f c e =
      ap (with_parents rows) f
      ∙ ap (λ l. some (set_parents l (record { area = a; pso_area = none; ea_area = none }))) c
      ∙ ap some e

  entry_of :
      (a p q : Area)
      → look_up rows a.parent_id ≡ some p
      → look_up rows p.parent_id ≡ some q
      → build_area_with_parents_result rows a
        ≡ record { area = a; pso_area = some p; ea_area = some q }
  unfolding build_area_with_parents_result
  entry_of a p q e f = rw (e, f) refl

  -- The entry that is made at the start for an area below an area of the programme and coordination
  -- team, which is below an area of the Environment Agency, is what a read of the area answers.
  pub pre_warmed-read :
      (k j g : ℕ) (a p q : Area)
      → rows.find_by_id k ≡ some a
      → a.parent_id ≡ some j
      → j == 0 ≡ false
      → rows.find_by_id j ≡ some p
      → p.area_type ≡ pso
      → p.parent_id ≡ some g
      → g == 0 ≡ false
      → rows.find_by_id g ≡ some q
      → q.area_type ≡ ea
      → read_area_with_parents rows k ≡ some (build_area_with_parents_result rows a)
  pre_warmed-read k j g a p q fa pa nj fp tp pp ng fq tq =
      let parent = find_parent-found a.parent_id j pa nj fp in
      let grandparent = find_parent-found p.parent_id g pp ng fq in
      let p_types = pso_types p.area_type tp in
      let q_types = ea_types q.area_type tq in
      read_of k a (p ∷ q ∷ []) _ fa (chain_of a p q parent.0 grandparent.0)
        (set_parents-pair p q _ p_types.0 p_types.1 q_types.0 q_types.1)
      ∙ ap some (sym (entry_of a p q parent.1 grandparent.1))
