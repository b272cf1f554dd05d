-- ===== src/Projects/Permissions.antt =====
-- src/plugins/projects/helpers/project-permissions.js and `canSubmitProject` of
-- helpers/project-validations/validate-submission.js. An id is compared by its text, so as a
-- number.
pub mod Rules
use pafs_backend_api.Prelude.{
  ℕ, Bool, true, false, not, ◌&&◌, ◌||◌, List, [], ◌∷◌, Option, none, some, if◌then◌else◌, any,
  ◌==◌,
}
use pafs_backend_api.Auth.Areas.{UserArea}
use pafs_backend_api.JwtAuth.Cache.{Credentials}

pub data Permission : Type 0 where
  allowed : Permission
  -- with what the reason says is missing
  only_rma_or_admin only_rma_pso_or_admin no_area_access : Permission
  area_not_found no_update_permission : Permission

pub record AreaDetails : Type 0 where
  pub id : ℕ
  pub pso_id : Option ℕ
  pub ea_id : Option ℕ

unfoldable pub has_access_to_area : List UserArea → ℕ → Bool
has_access_to_area areas target = any (λ a. a.area_id == target) areas

-- an id that is 0 is falsy
abbrev pub has_access_to_parent : List UserArea → Option ℕ → Bool
has_access_to_parent areas none = false
has_access_to_parent areas (some id) = not (id == 0) && has_access_to_area areas id

unfoldable pub has_access_to_parent_pso : List UserArea → AreaDetails → Bool
unfolding has_access_to_area
has_access_to_parent_pso areas details = has_access_to_parent areas details.pso_id

unfoldable pub has_access_to_parent_ea : List UserArea → AreaDetails → Bool
unfolding has_access_to_area
has_access_to_parent_ea areas details = has_access_to_parent areas details.ea_id

unfoldable pub can_create_project : Credentials → ℕ → Permission
unfolding has_access_to_area
can_create_project c area_id =
    if not c.flags.is_rma && not c.is_admin
    then only_rma_or_admin
    else if c.is_admin
    then allowed
    else if has_access_to_area c.areas area_id
    then allowed
    else no_area_access

abbrev update_of_area : Credentials → AreaDetails → Permission
update_of_area c details =
    if has_access_to_area c.areas details.id
    then allowed
    else if has_access_to_parent_pso c.areas details
    then allowed
    else no_update_permission

unfoldable pub can_update_project : Credentials → Option AreaDetails → Permission
unfolding has_access_to_area has_access_to_parent_pso
can_update_project c none = if c.is_admin then allowed else area_not_found
can_update_project c (some details) = if c.is_admin then allowed else update_of_area c details

unfoldable pub can_submit_project : Credentials → AreaDetails → Permission
unfolding can_update_project
can_submit_project c details =
    if not c.is_admin && not c.flags.is_rma && not c.flags.is_pso
    then only_rma_pso_or_admin
    else if c.is_admin
    then allowed
    else can_update_project c (some details)
