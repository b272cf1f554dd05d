-- ===== src/External/Proposals.antt =====
-- src/plugins/external/update-proposal-status/update-proposal-status.js. The payload has passed the
-- schema: from 1 to 100 items, each with one of the allowed statuses.
pub mod Changes
use pafs_backend_api.Prelude.{
  ℕ, String, Bool, true, false, not, ◌&&◌, List, [], ◌∷◌, Option, none, some, any, if◌then◌else◌,
  dashes_to_slashes,
}
use pafs_backend_api.Projects.States.{
  ProjectStatus, draft, approved, rejected, is_submitted, ProjectTables, ProjectRow,
  upsert_project_state,
}

-- ALLOWED_EXTERNAL_STATUSES
pub data ExternalStatus : Type 0 where
  to_draft to_approved to_rejected : ExternalStatus

abbrev pub project_status : ExternalStatus → ProjectStatus
project_status to_draft = draft
project_status to_approved = approved
project_status to_rejected = rejected

pub record ProposalItem : Type 0 where
  pub reference_number : String
  pub status : ExternalStatus

-- A result, with the reference number of its item.
pub data ItemResult : Type 0 where
  proposal_not_found invalid_state update_failed : String → ItemResult
  item_updated : String → ExternalStatus → ItemResult

abbrev pub succeeded : ItemResult → Bool
succeeded (item_updated r status) = true
succeeded _ = false

-- `stateRecord?.state ?? null` is not submitted where there is no record.
abbrev pub is_state_submitted : Option ProjectStatus → Bool
is_state_submitted none = false
is_state_submitted (some s) = is_submitted s

module _ (db : ProjectTables) where
  abbrev pub update_written : ProposalItem → db.Rows → Option db.Rows → ItemResult × db.Rows
  update_written item t none = (update_failed item.reference_number, t)
  update_written item t (some u) = (item_updated item.reference_number item.status, u)

  abbrev pub update_in_state :
      ProposalItem → ProjectRow → db.Rows → Option (Option ProjectStatus) → ItemResult × db.Rows
  update_in_state item project t none = (update_failed item.reference_number, t)
  update_in_state item project t (some state) =
      if is_state_submitted state
      then update_written item t (upsert_project_state db project.id (project_status item.status) t)
      else (invalid_state item.reference_number, t)

  abbrev pub update_found :
      ProposalItem → db.Rows → Option (Option ProjectRow) → ItemResult × db.Rows
  update_found item t none = (update_failed item.reference_number, t)
  update_found item t (some none) = (proposal_not_found item.reference_number, t)
  update_found item t (some (some project)) =
      update_in_state item project t (db.find_state project.id t)

  -- One round of the loop.
  unfoldable pub update_proposal : ProposalItem → db.Rows → ItemResult × db.Rows
  unfolding upsert_project_state dashes_to_slashes
  update_proposal item t =
      update_found item t (db.find_project (dashes_to_slashes item.reference_number) t)

  unfoldable pub update_proposals : List ProposalItem → db.Rows → List ItemResult × db.Rows
  unfolding update_proposal
  update_proposals [] t = ([], t)
  update_proposals (item ∷ items) t =
      let done = update_proposal item t in
      let rest = update_proposals items done.1 in (done.0 ∷ rest.0, rest.1)

-- hasSuccess and hasFailure, and the status code that they choose
abbrev pub response_code : List ItemResult → ℕ
response_code results =
    let has_success = any succeeded results in
    let has_failure = any (λ r. not (succeeded r)) results in
    if not has_success && has_failure then 422 else if has_success && has_failure then 207 else 200

unfoldable pub external_update_proposal_status :
    (db : ProjectTables) → List ProposalItem → db.Rows → ℕ × (List ItemResult × db.Rows)
unfolding update_proposals
external_update_proposal_status db proposals t =
    let done = update_proposals db proposals t in (response_code done.0, done)
