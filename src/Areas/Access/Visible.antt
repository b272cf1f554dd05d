-- ===== src/Areas/Access/Visible.antt =====
-- Which areas the list of a user holds.
use pafs_backend_api.Prelude.{
  ℕ, String, ◌≡◌, refl, subst, ◌↔◌, Bool, true, false, ◌&&◌, List, [], ◌∷◌, Option, none, some,
  ◌==◌, ◌===◌, ==_iff, eq_iff, Bool-cases, inl, inr, map, All,
}
use pafs_backend_api.Areas.{Area, AreaRows, rma, pso, ea, is_area_type, is_pso_area, has_id}
use pafs_backend_api.Areas.Access.{
  in_parents, is_child, children_ids, rma_ids_of, get_descendant_rma_area_ids, extract_area_ids,
  resolve_user_area_ids,
}
use pafs_backend_api.JwtAuth.Cache.{Credentials}

in_none : (o : Option ℕ) → in_parents [] o ≡ true → false ≡ true
in_none none h = h
in_none (some p) h = h

module _ (rows : AreaRows) where
  -- An area of a type whose parent is one of the areas of a list.
  pub record IsBelow (area_type : String) (parents : List ℕ) (k : ℕ) : Type 0 where
    pub area : Area
    pub found : rows.find_by_id k ≡ some area
    pub typed : area.area_type ≡ area_type
    pub below : in_parents parents area.parent_id ≡ true

  listed-found :
      (p : Area → Bool) (k : ℕ) (areas : List Area)
      → All (λ a. rows.find_by_id a.id ≡ some a) areas
      → All (λ a. p a ≡ true) areas
      → has_id (map (λ a. a.id) areas) k ≡ true
      → (a : Area) × ((rows.find_by_id k ≡ some a) × (p a ≡ true))
  listed-found p k [] s h m = cc m
  listed-found p k (a ∷ areas) s h m = elim (Bool-cases (a.id == k)) [
    | inl e ↦ (a, (subst (λ i. rows.find_by_id i ≡ some a) ((==_iff a.id k).0 e) s.0, h.0))
    | inr e ↦ listed-found p k areas s.1 h.1 (cc (e, m))
  ]

  and-true : (a b : Bool) → a && b ≡ true → (a ≡ true) × (b ≡ true)
  and-true true true h = (refl, refl)
  and-true true false h = cc h
  and-true false b h = cc h

  -- The ids of the children of a list of areas are those of the areas below it.
  children_iff :
      (area_type : String) (parents : List ℕ) (k : ℕ)
      → (has_id (children_ids rows area_type parents) k ≡ true) ↔ IsBelow area_type parents k
  children_iff area_type parents k = (
    λ m.
        let p = is_child area_type parents in
        let r =
          listed-found p k (rows.find_many p) (rows.find_many-stored p) (rows.find_many-holds p)
            m in
        let both =
          and-true (in_parents parents r.0.parent_id) (r.0.area_type === area_type) r.1.1 in
        record {
          area = r.0;
          found = r.1.0;
          typed = (eq_iff r.0.area_type area_type).0 both.1;
          below = both.0;
        },
    λ h.
        rows.find_many-complete (is_child area_type parents) k h.found
          (rw (h.below, (eq_iff h.area.area_type area_type).1 h.typed) refl),
  )

  -- No area is below none.
  none_below : (area_type : String) (k : ℕ) → IsBelow area_type [] k → false ≡ true
  none_below area_type k h = in_none h.area.parent_id h.below

  -- The list for areas of the programme and coordination team holds exactly the risk management
  -- authorities below them.
  pub descendants_of_pso_iff :
      (parents : List ℕ) (k : ℕ)
      → (has_id (get_descendant_rma_area_ids rows parents pso) k ≡ true) ↔ IsBelow rma parents k
  unfolding get_descendant_rma_area_ids is_pso_area is_area_type
  descendants_of_pso_iff [] k = (λ m. cc m, λ h. none_below rma k h)
  descendants_of_pso_iff (p ∷ ps) k = children_iff rma (p ∷ ps) k

  rma_ids_iff :
      (parents : List ℕ) (k : ℕ)
      → (has_id (rma_ids_of rows parents) k ≡ true) ↔ IsBelow rma parents k
  rma_ids_iff [] k = (λ m. cc m, λ h. none_below rma k h)
  rma_ids_iff (p ∷ ps) k = children_iff rma (p ∷ ps) k

  none_among : (o : Option ℕ) → in_parents (children_ids rows pso []) o ≡ true → false ≡ true
  none_among none h = h
  none_among (some j) h = none_below pso j ((children_iff pso [] j).0 h)

  -- The list for areas of the Environment Agency holds exactly the risk management authorities
  -- whose parent is an area of the programme and coordination team below them.
  pub descendants_of_ea_iff :
      (parents : List ℕ) (k : ℕ)
      → (has_id (get_descendant_rma_area_ids rows parents ea) k ≡ true)
        ↔ IsBelow rma (children_ids rows pso parents) k
  unfolding get_descendant_rma_area_ids is_pso_area is_area_type
  descendants_of_ea_iff [] k = (λ m. cc m, λ h. cc (none_among h.area.parent_id h.below))
  descendants_of_ea_iff (p ∷ ps) k = rma_ids_iff (children_ids rows pso (p ∷ ps)) k

module _ (rows : AreaRows) (c : Credentials) where
  -- A user of the programme and coordination team, who is not an administrator, is listed the risk
  -- management authorities below their areas.
  pub listed-IsBelow :
      (k : ℕ) (ids : List ℕ)
      → c.is_admin ≡ false
      → c.flags.is_rma ≡ false
      → c.flags.is_pso ≡ true
      → resolve_user_area_ids rows c ≡ some ids
      → has_id ids k ≡ true
      → IsBelow rows rma (extract_area_ids c.areas pso) k
  unfolding resolve_user_area_ids
  listed-IsBelow k ids a r p e m =
      let list : resolve_user_area_ids rows c
          ≡ some (get_descendant_rma_area_ids rows (extract_area_ids c.areas pso) pso) =
        rw (a, r, p) refl in
      (descendants_of_pso_iff rows (extract_area_ids c.areas pso) k).0 (cc (list, e, m))
