-- ===== src/Areas/Hierarchy.antt =====
-- The parents of an area: `getAreaByIdWithParents` of src/plugins/areas/services/area-service.js,
-- and the entries that src/plugins/projects/helpers/area-hierarchy.js puts into its cache when the
-- server starts. The cache (area-hierarchy-cache.js) is a function from keys, and holds a result
-- for an hour.
pub mod Cached
use pafs_backend_api.Prelude.{
  ℕ, ◌+◌, ◌*◌, String, Bool, true, not, List, [], ◌∷◌, Option, none, some, ltb, ◌==◌, if◌then◌else◌,
  map,
}
use pafs_backend_api.Projects.Permissions.{AreaDetails}
use pafs_backend_api.Areas.{Area, AreaRows, pso, ea, is_area_type}

pub record AreaWithParents : Type 0 where
  pub area : Area
  pub pso_area : Option Area
  pub ea_area : Option Area

-- An id that is 0 is falsy.
abbrev pub find_parent : AreaRows → Option ℕ → Option Area
find_parent rows none = none
find_parent rows (some id) = if id == 0 then none else rows.find_by_id id

abbrev pub and_grandparent : Area → Option Area → List Area
and_grandparent parent none = parent ∷ []
and_grandparent parent (some grandparent) = parent ∷ grandparent ∷ []

abbrev pub with_grandparent : AreaRows → Option Area → List Area
with_grandparent rows none = []
with_grandparent rows (some parent) = and_grandparent parent (find_parent rows parent.parent_id)

unfoldable pub fetch_parent_chain : AreaRows → Option ℕ → List Area
fetch_parent_chain rows parent_id = with_grandparent rows (find_parent rows parent_id)

-- The loop over the parents: a later one of a type replaces an earlier one.
abbrev pub set_parents : List Area → AreaWithParents → AreaWithParents
set_parents [] r = r
set_parents (parent ∷ parents) r = set_parents parents (record {
  area = r.area;
  pso_area = if is_area_type parent.area_type pso then some parent else r.pso_area;
  ea_area = if is_area_type parent.area_type ea then some parent else r.ea_area;
})

abbrev pub with_parents : AreaRows → Option Area → Option AreaWithParents
with_parents rows none = none
with_parents rows (some a) = some (
    set_parents (fetch_parent_chain rows a.parent_id)
      (record { area = a; pso_area = none; ea_area = none }))

-- What is read on a miss.
unfoldable pub read_area_with_parents : AreaRows → ℕ → Option AreaWithParents
unfolding fetch_parent_chain is_area_type
read_area_with_parents rows id = with_parents rows (rows.find_by_id id)

pub record HierarchyEntry : Type 0 where
  pub result : AreaWithParents
  pub expires_at : ℕ

abbrev pub HierarchyCache : Type 0
HierarchyCache = ℕ → Option HierarchyEntry

abbrev pub ttl_ms : ℕ
ttl_ms = 60 * 60 * 1000

abbrev pub delete_entry : ℕ → HierarchyCache → HierarchyCache
delete_entry k c j = if j == k then none else c j

abbrev pub live_entry :
    ℕ → ℕ → HierarchyCache → Option HierarchyEntry → Option AreaWithParents × HierarchyCache
live_entry now k c none = (none, delete_entry k c)
live_entry now k c (some e) =
    if ltb e.expires_at now then (none, delete_entry k c) else (some e.result, c)

unfoldable pub get_cached_hierarchy :
    ℕ → ℕ → HierarchyCache → Option AreaWithParents × HierarchyCache
get_cached_hierarchy now k c = live_entry now k c (c k)

unfoldable pub set_cached_hierarchy : ℕ → ℕ → AreaWithParents → HierarchyCache → HierarchyCache
set_cached_hierarchy now k result c j =
    if j == k then some (record { result = result; expires_at = now + ttl_ms }) else c j

abbrev pub keep_result :
    ℕ → ℕ → HierarchyCache → Option AreaWithParents → Option AreaWithParents × HierarchyCache
keep_result now k c none = (none, c)
keep_result now k c (some r) = (some r, set_cached_hierarchy now k r c)

abbrev pub read_or_cached :
    AreaRows
    → ℕ
    → ℕ
    → Option AreaWithParents × HierarchyCache
    → Option AreaWithParents × HierarchyCache
read_or_cached rows now k (some r, c) = (some r, c)
read_or_cached rows now k (none, c) = keep_result now k c (read_area_with_parents rows k)

unfoldable pub get_area_by_id_with_parents :
    AreaRows → ℕ → ℕ → HierarchyCache → Option AreaWithParents × HierarchyCache
unfolding get_cached_hierarchy set_cached_hierarchy read_area_with_parents
get_area_by_id_with_parents rows now area_id c =
    if area_id == 0
    then (none, c)
    else read_or_cached rows now area_id (get_cached_hierarchy now area_id c)

-- What the permissions read of an area with its parents.
abbrev pub id_of : Option Area → Option ℕ
id_of none = none
id_of (some a) = some a.id

abbrev pub details_of : AreaWithParents → AreaDetails
details_of r = record { id = r.area.id; pso_id = id_of r.pso_area; ea_id = id_of r.ea_area }

-- The entry of an area that preWarmAreaHierarchyCache makes: its parent as the programme and
-- coordination team and its grandparent as the Environment Agency area, whatever their types.
abbrev pub look_up : AreaRows → Option ℕ → Option Area
look_up rows none = none
look_up rows (some id) = rows.find_by_id id

abbrev pub parent_of : Option Area → Option ℕ
parent_of none = none
parent_of (some a) = a.parent_id

unfoldable pub build_area_with_parents_result : AreaRows → Area → AreaWithParents
build_area_with_parents_result rows a =
    let parent = look_up rows a.parent_id in
    record { area = a; pso_area = parent; ea_area = look_up rows (parent_of parent) }

abbrev pub warm_entries : AreaRows → ℕ → List Area → HierarchyCache → HierarchyCache
warm_entries rows now [] c = c
warm_entries rows now (a ∷ areas) c =
    warm_entries rows now areas
      (set_cached_hierarchy now a.id (build_area_with_parents_result rows a) c)

unfoldable pub pre_warm_area_hierarchy_cache : AreaRows → ℕ → HierarchyCache → HierarchyCache
unfolding build_area_with_parents_result set_cached_hierarchy
pre_warm_area_hierarchy_cache rows now c = warm_entries rows now (rows.find_many (λ a. true)) c
