-- ===== src/Projects/Permissions/Rules.antt =====
-- Who may submit a proposal.
use pafs_backend_api.Prelude.{true, ◌≡◌, ◌⊎◌, ◌↔◌, arith, ◌||◌}
use pafs_backend_api.JwtAuth.Cache.{Credentials}
use pafs_backend_api.Projects.Permissions.{
  allowed, AreaDetails, has_access_to_area, has_access_to_parent_pso, can_update_project,
  can_submit_project,
}

-- A user may submit a proposal exactly when they are an administrator, or their primary area is a
-- risk management authority or an area of the programme and coordination team and they have the
-- area of the proposal or the parent of that area.
pub can_submit_project_iff :
    (c : Credentials) (details : AreaDetails)
    → (can_submit_project c details ≡ allowed) ↔ (
        (c.is_admin ≡ true)
        ⊎ ((c.flags.is_rma || c.flags.is_pso ≡ true)
            × (has_access_to_area c.areas details.id || has_access_to_parent_pso c.areas details
                ≡ true)))
unfolding can_submit_project can_update_project
can_submit_project_iff c details = (λ h. ground (arith, h), λ h. ground (arith, h))
