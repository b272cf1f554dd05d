-- ===== src/Areas/Access.antt =====
-- The areas that a user sees the projects of: `resolveUserAreaIds` of
-- src/plugins/areas/helpers/user-areas.js and `getDescendantRmaAreaIds` of
-- src/plugins/areas/services/area-service.js.
pub mod Visible
pub mod Updates
use pafs_backend_api.Prelude.{
  ℕ, String, Bool, ◌&&◌, ◌||◌, List, [], ◌∷◌, Option, none, some, map, filter, ◌===◌, if◌then◌else◌,
  false,
}
use pafs_backend_api.Areas.{Area, AreaRows, rma, pso, ea, is_area_type, is_pso_area, has_id}
use pafs_backend_api.Auth.Areas.{UserArea}
use pafs_backend_api.JwtAuth.Cache.{Credentials}

unfoldable pub extract_area_ids : List UserArea → String → List ℕ
extract_area_ids areas area_type =
    map (λ a. a.area_id) (filter (λ a. a.area_type === area_type) areas)

-- `{ parent_id: { in: ids }, area_type }`
abbrev pub in_parents : List ℕ → Option ℕ → Bool
in_parents ids none = false
in_parents ids (some p) = has_id ids p

abbrev pub is_child : String → List ℕ → Area → Bool
is_child area_type parents a = in_parents parents a.parent_id && (a.area_type === area_type)

abbrev pub children_ids : AreaRows → String → List ℕ → List ℕ
children_ids rows area_type parents = map (λ a. a.id) (rows.find_many (is_child area_type parents))

-- No area has a parent among none, so the early returns on empty lists change nothing but the
-- calls.
abbrev pub rma_ids_of : AreaRows → List ℕ → List ℕ
rma_ids_of rows [] = []
rma_ids_of rows (p ∷ ps) = children_ids rows rma (p ∷ ps)

unfoldable pub get_descendant_rma_area_ids : AreaRows → List ℕ → String → List ℕ
unfolding is_pso_area is_area_type
get_descendant_rma_area_ids rows [] parent_type = []
get_descendant_rma_area_ids rows (p ∷ ps) parent_type =
    if is_pso_area parent_type
    then children_ids rows rma (p ∷ ps)
    else if is_area_type parent_type ea
    then rma_ids_of rows (children_ids rows pso (p ∷ ps))
    else []

-- `none` is no restriction.
unfoldable pub resolve_user_area_ids : AreaRows → Credentials → Option (List ℕ)
unfolding extract_area_ids get_descendant_rma_area_ids
resolve_user_area_ids rows c =
    if c.is_admin
    then none
    else if c.flags.is_rma
    then some (extract_area_ids c.areas rma)
    else if c.flags.is_pso || c.flags.is_ea
    then (let area_type = if c.flags.is_pso then pso else ea in
        some (get_descendant_rma_area_ids rows (extract_area_ids c.areas area_type) area_type))
    else some []
