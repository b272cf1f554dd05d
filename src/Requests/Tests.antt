-- ===== src/Requests/Tests.antt =====
-- The calls of the routes at concrete rows.
use pafs_backend_api.Prelude.{
  none, none, String, ◌≡◌, refl, ◌⊎◌, ◌↔◌, true, false, List, [], ◌∷◌, some, pos, ◌==◌,
  if◌then◌else◌, ◌||◌, dashes_to_slashes,
}
use pafs_backend_api.JwtAuth.Cache.{Credentials}
use pafs_backend_api.Projects.Permissions.{
  allowed, has_access_to_area, has_access_to_parent_pso, can_update_project, can_submit_project,
}
use pafs_backend_api.Projects.Permissions.Rules.{can_submit_project_iff}
use pafs_backend_api.Projects.Submission.Fixtures.Passes.{digest, no_errors}
use pafs_backend_api.Projects.States.{
  draft, submitted, approved, archived, resolve_status, upsert_project_state,
}
use pafs_backend_api.Projects.States.Lifecycle.{Reaches}
use pafs_backend_api.Projects.States.Fixtures.{row, loaded, tables, all_in_state}
use pafs_backend_api.Projects.Submit.{area_details, submit_succeeded, submit_project}
use pafs_backend_api.Projects.Submit.Outcome.{submit_project-succeeds}
use pafs_backend_api.Projects.StatusChange.{updated, update_status, update_status-sets}
use pafs_backend_api.External.Proposals.{
  to_approved, ProposalItem, update_proposal, update_proposals, external_update_proposal_status,
}
use pafs_backend_api.External.Proposals.Changes.{all_failed-rows}
use pafs_backend_api.Requests.{
  Request, submit, decide, fix, serve_all, serve_all-Reaches, serve_all-settled,
}

-- A user of the programme and coordination team, whose area is above that of the project.
abbrev coordinator : Credentials
coordinator = record {
  user_id = 1;
  email = "c@example.org";
  first_name = "C";
  last_name = "D";
  is_admin = false;
  session_id = "s";
  areas = record { area_id = 4; primary = true; name = "North"; area_type = "PSO Area" } ∷ [];
  flags = record {
    primary_area_type = some "PSO Area";
    is_rma = false;
    is_pso = true;
    is_ea = false;
  };
}

abbrev reference : String
reference = "ANC501E-000A-005A"

abbrev slashed : String
slashed = "ANC501E/000A/005A"

may_submit : can_submit_project coordinator (area_details (loaded (some draft))) ≡ allowed
unfolding can_submit_project can_update_project has_access_to_parent_pso has_access_to_area
may_submit = refl

coordinator_may_submit :
    (can_submit_project coordinator (area_details (loaded (some draft))) ≡ allowed) ↔ (
      (false ≡ true)
      ⊎ ((false || true ≡ true)
          × (has_access_to_area coordinator.areas 3
                || has_access_to_parent_pso coordinator.areas (area_details (loaded (some draft)))
              ≡ true)))
coordinator_may_submit = can_submit_project_iff coordinator (area_details (loaded (some draft)))

is_loaded :
    tables.load_project (dashes_to_slashes reference) (all_in_state draft)
    ≡ some (some (loaded (some draft)))
unfolding dashes_to_slashes
is_loaded = refl

-- The queue throws.
submit_project-succeeds_example :
    let result =
      submit_project tables digest digest 5
        (pos 2025)
        coordinator
        false
        reference
        (all_in_state draft) in
    (result.response ≡ submit_succeeded "ANC501E/000A/005A")
    × (result.rows 5 ≡ some submitted)
    × (result.message ≡ none)
unfolding resolve_status
submit_project-succeeds_example =
    submit_project-succeeds tables false digest digest 5 (pos 2025) coordinator 5 reference
      (all_in_state draft) (loaded (some draft)) (λ k s u. refl) (λ r b u. refl) is_loaded refl
      may_submit no_errors

-- One item twice: the second finds the project approved.
abbrev approval_item : ProposalItem
approval_item = record { reference_number = reference; status = to_approved }

approved_once :
    (external_update_proposal_status tables
      (approval_item ∷ approval_item ∷ [])
      (all_in_state submitted)).0
    ≡ 207
unfolding external_update_proposal_status update_proposals update_proposal upsert_project_state
    dashes_to_slashes
approved_once = refl

failed_batch_keeps_rows :
    (external_update_proposal_status tables (approval_item ∷ []) (all_in_state archived)).1.1
    ≡ all_in_state archived
unfolding external_update_proposal_status update_proposals update_proposal upsert_project_state
    dashes_to_slashes
failed_batch_keeps_rows = all_failed-rows tables (approval_item ∷ []) (all_in_state archived) refl

abbrev calls : List Request
calls =
    submit digest digest 5 (pos 2025) coordinator true reference
    ∷ decide (approval_item ∷ [])
    ∷ fix true (reference ∷ [])
    ∷ []

serve_all-Reaches_example :
    Reaches (some draft) (tables.state_of 5 (serve_all tables calls (all_in_state draft)))
serve_all-Reaches_example = serve_all-Reaches tables 5 calls (all_in_state draft)

serve_all-settled_example :
    tables.state_of 5 (serve_all tables calls (all_in_state archived)) ≡ some archived
serve_all-settled_example = serve_all-settled tables 5 calls (all_in_state archived) refl

-- An approved project is archived or made a draft again by any signed-in user.
approved_made_draft :
    (update_status tables reference draft (all_in_state approved)
      ≡ (updated slashed draft, λ j. if j == 5 then some draft else some approved))
    × (tables.state_of 5 (λ j. if j == 5 then some draft else some approved) ≡ some draft)
unfolding dashes_to_slashes
approved_made_draft =
    update_status-sets tables reference draft (all_in_state approved)
      (λ j. if j == 5 then some draft else some approved) row refl refl
