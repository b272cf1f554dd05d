-- ===== src/Areas/Access/Updates.antt =====
-- What a user of the programme and coordination team is listed, the user may update.
use pafs_backend_api.Prelude.{
  ℕ, ◌≡◌, refl, ap, ◌∙◌, subst, Bool, true, false, List, [], ◌∷◌, Option, none, some, ◌==◌, ◌===◌,
  ==_iff, eq_iff, if◌then◌else◌, Bool-cases, inl, inr, All, arith,
}
use pafs_backend_api.Areas.{Area, AreaRows, pso, is_area_type, has_id}
use pafs_backend_api.Areas.Access.{in_parents, extract_area_ids, resolve_user_area_ids}
use pafs_backend_api.Areas.Access.Visible.{listed-IsBelow}
use pafs_backend_api.Areas.Hierarchy.{
  AreaWithParents, find_parent, and_grandparent, with_grandparent, fetch_parent_chain, set_parents,
  with_parents, read_area_with_parents, id_of, details_of,
}
use pafs_backend_api.Auth.Areas.{UserArea}
use pafs_backend_api.JwtAuth.Cache.{Credentials}
use pafs_backend_api.Projects.Permissions.{
  allowed, AreaDetails, has_access_to_area, has_access_to_parent, has_access_to_parent_pso,
  can_update_project,
}

-- An area of the user is stored, under an id that is not 0 and with the type that the user has it
-- with.
pub record IsCurrent (rows : AreaRows) (u : UserArea) : Type 0 where
  pub area : Area
  pub found : rows.find_by_id u.area_id ≡ some area
  pub typed : area.area_type ≡ u.area_type
  pub numbered : u.area_id == 0 ≡ false

if_true : (a b : Bool) → b ≡ true → (if a then true else b) ≡ true
if_true true b h = refl
if_true false b h = h

-- An area of the user that the id stands for.
record IsOwn (rows : AreaRows) (areas : List UserArea) (j : ℕ) : Type 0 where
  parent : Area
  found : rows.find_by_id j ≡ some parent
  typed : parent.area_type ≡ pso
  numbered : j == 0 ≡ false
  accessible : has_access_to_area areas j ≡ true

more-IsOwn :
    (rows : AreaRows) (j : ℕ) (u : UserArea) (areas : List UserArea)
    → IsOwn rows areas j
    → IsOwn rows (u ∷ areas) j
unfolding has_access_to_area
more-IsOwn rows j u areas h = record {
  parent = h.parent;
  found = h.found;
  typed = h.typed;
  numbered = h.numbered;
  accessible = if_true (u.area_id == j) (has_access_to_area areas j) h.accessible;
}

first-IsOwn :
    (rows : AreaRows) (j : ℕ) (u : UserArea) (areas : List UserArea)
    → IsCurrent rows u
    → u.area_type ≡ pso
    → u.area_id == j ≡ true
    → IsOwn rows (u ∷ areas) j
unfolding has_access_to_area
first-IsOwn rows j u areas h typed same =
    let id : u.area_id ≡ j = (==_iff u.area_id j).0 same in
    record {
      parent = h.area;
      found = subst (λ k. rows.find_by_id k ≡ some h.area) id h.found;
      typed = h.typed ∙ typed;
      numbered = subst (λ k. k == 0 ≡ false) id h.numbered;
      accessible = rw same refl;
    }

IsOwn-area :
    (rows : AreaRows) (j : ℕ) (areas : List UserArea)
    → All (IsCurrent rows) areas
    → has_id (extract_area_ids areas pso) j ≡ true
    → IsOwn rows areas j
unfolding extract_area_ids
IsOwn-area rows j [] h m = cc m
IsOwn-area rows j (u ∷ areas) h m = elim (Bool-cases (u.area_type === pso)) [
  | inr e ↦ more-IsOwn rows j u areas (IsOwn-area rows j areas h.1 (cc (e, m)))
  | inl e ↦ elim (Bool-cases (u.area_id == j)) [
    | inl same ↦ first-IsOwn rows j u areas h.0 ((eq_iff u.area_type pso).0 e) same
    | inr other ↦ more-IsOwn rows j u areas (IsOwn-area rows j areas h.1 (cc (e, other, m)))
  ]
]

abbrev bare : Area → AreaWithParents
bare a = record { area = a; pso_area = none; ea_area = none }

set_parents-area :
    (parents : List Area) (r : AreaWithParents) → (set_parents parents r).area ≡ r.area
set_parents-area [] r = refl
set_parents-area (p ∷ parents) r = set_parents-area parents _

abbrev pub IsOther : Option Area → Type 0
IsOther none = Unit
IsOther (some q) = is_area_type q.area_type pso ≡ false

pso_area_of :
    (p a : Area) (o : Option Area)
    → is_area_type p.area_type pso ≡ true
    → IsOther o
    → (set_parents (and_grandparent p o) (bare a)).pso_area ≡ some p
pso_area_of p a none h i = rw h refl
pso_area_of p a (some q) h i = rw (h, i) refl

permitted_by_parent :
    (c : Credentials) (d : AreaDetails) (j : ℕ)
    → d.pso_id ≡ some j
    → j == 0 ≡ false
    → has_access_to_area c.areas j ≡ true
    → can_update_project c (some d) ≡ allowed
unfolding can_update_project has_access_to_parent_pso
permitted_by_parent c d j e n h =
    let parent : has_access_to_parent_pso c.areas d ≡ true =
      ap (has_access_to_parent c.areas) e ∙ rw (n, h) refl in
    ground (arith, parent)

parent_in :
    (ids : List ℕ) (o : Option ℕ)
    → in_parents ids o ≡ true
    → (j : ℕ) × ((o ≡ some j) × (has_id ids j ≡ true))
parent_in ids none h = cc h
parent_in ids (some j) h = (j, (refl, h))

module _ (rows : AreaRows) where
  -- No area of the programme and coordination team is below another.
  abbrev pub IsTop : Area → Type 0
  IsTop p = IsOther (find_parent rows p.parent_id)

  chain_of :
      (a p : Area) (j : ℕ)
      → a.parent_id ≡ some j
      → j == 0 ≡ false
      → rows.find_by_id j ≡ some p
      → fetch_parent_chain rows a.parent_id ≡ and_grandparent p (find_parent rows p.parent_id)
  unfolding fetch_parent_chain
  chain_of a p j e n f =
      let parent : find_parent rows a.parent_id ≡ some p = rw (e, n, f) refl in
      ap (with_grandparent rows) parent

  read_of :
      (k j : ℕ) (a p : Area)
      → rows.find_by_id k ≡ some a
      → a.parent_id ≡ some j
      → j == 0 ≡ false
      → rows.find_by_id j ≡ some p
      → read_area_with_parents rows k
        ≡ some (set_parents (and_grandparent p (find_parent rows p.parent_id)) (bare a))
  unfolding read_area_with_parents
  read_of k j a p fa e n fp =
      ap (with_parents rows) fa ∙ ap (λ l. some (set_parents l (bare a))) (chain_of a p j e n fp)

  -- The details of the area are read, and the user may update a project of it.
  pub record IsUpdatable (c : Credentials) (k : ℕ) : Type 0 where
    pub read : AreaWithParents
    pub found : read_area_with_parents rows k ≡ some read
    pub permitted : can_update_project c (some (details_of read)) ≡ allowed

  own-IsUpdatable :
      (c : Credentials) (k j : ℕ) (a : Area)
      → rows.find_by_id k ≡ some a
      → a.parent_id ≡ some j
      → (own : IsOwn rows c.areas j) → IsTop own.parent
      → IsUpdatable c k
  unfolding is_area_type
  own-IsUpdatable c k j a fa e own top =
      let o = find_parent rows own.parent.parent_id in
      let typed : is_area_type own.parent.area_type pso ≡ true =
        ap (λ s. is_area_type s pso) own.typed in
      let kept = pso_area_of own.parent a o typed top in
      let id : own.parent.id ≡ j = rows.find_by_id-id j own.found in
      record {
        read = set_parents (and_grandparent own.parent o) (bare a);
        found = read_of k j a own.parent fa e own.numbered own.found;
        permitted =
            permitted_by_parent c _ j (ap id_of kept ∙ ap some id) own.numbered own.accessible;
      }

  -- Where the areas of a user of the programme and coordination team are current and no such area
  -- is below another, the user may update the projects of every area that the user is listed.
  pub listed_areas-IsUpdatable :
      (c : Credentials) (k : ℕ) (ids : List ℕ)
      → c.is_admin ≡ false
      → c.flags.is_rma ≡ false
      → c.flags.is_pso ≡ true
      → All (IsCurrent rows) c.areas
      → ((j : ℕ) (p : Area) → rows.find_by_id j ≡ some p → p.area_type ≡ pso → IsTop p)
      → resolve_user_area_ids rows c ≡ some ids
      → has_id ids k ≡ true
      → IsUpdatable c k
  listed_areas-IsUpdatable c k ids a r p current top resolved listed =
      let below = listed-IsBelow rows c k ids a r p resolved listed in
      let parent = parent_in (extract_area_ids c.areas pso) below.area.parent_id below.below in
      let own = IsOwn-area rows parent.0 c.areas current parent.1.1 in
      own-IsUpdatable c k parent.0 below.area below.found parent.1.0 own
        (top parent.0 own.parent own.found own.typed)
