-- ===== src/Projects/Submit.antt =====
-- src/plugins/projects/submit-project/submit-project.js. What loads the project, and the writes,
-- are those of the tables. Whether the queue takes the message is an argument: where it throws, the
-- handler logs the error and answers as before.
pub mod Outcome
use pafs_backend_api.Prelude.{
  ℕ, String, Bool, true, false, not, List, [], ◌∷◌, Option, none, some, ℤ, if◌then◌else◌,
  dashes_to_slashes,
}
use pafs_backend_api.JwtAuth.Cache.{Credentials}
use pafs_backend_api.Projects.Value.{Row, Project}
use pafs_backend_api.Projects.Permissions.{Permission, allowed, AreaDetails, can_submit_project}
use pafs_backend_api.Projects.Submission.{validate_submission}
use pafs_backend_api.Projects.Submission.Types.{SubmissionError}
use pafs_backend_api.Projects.States.{
  ProjectTables, LoadedProject, resolve_status, is_editable, transition_to_submitted,
}

pub data SubmitResponse : Type 0 where
  load_failed project_not_found project_not_draft submit_failed : SubmitResponse
  not_allowed_to_submit : Permission → SubmitResponse
  validation_failed : List SubmissionError → SubmitResponse
  -- with the reference number
  submit_succeeded : String → SubmitResponse

abbrev pub status_code : Bool → SubmitResponse → ℕ
status_code external_enabled load_failed = 500
status_code external_enabled project_not_found = 404
status_code external_enabled project_not_draft = 422
status_code external_enabled submit_failed = 500
status_code external_enabled (not_allowed_to_submit why) = 403
status_code external_enabled (validation_failed errors) = 422
status_code external_enabled (submit_succeeded r) = if external_enabled then 200 else 202

abbrev pub area_details : LoadedProject → AreaDetails
area_details p = record { id = p.area_id; pso_id = p.pso_area_id; ea_id = none }

-- What the send puts on the queue: nothing where the queue throws.
abbrev pub send_external_submission_message : Bool → String → ℕ → Option (String × ℕ)
send_external_submission_message true reference_number id = some (reference_number, id)
send_external_submission_message false reference_number id = none

module _ (db : ProjectTables) where
  pub record SubmitResult : Type 0 where
    pub response : SubmitResponse
    pub rows : db.Rows
    -- the reference number and the id of the message that is put on the queue
    pub message : Option (String × ℕ)

  abbrev pub refused : db.Rows → SubmitResponse → SubmitResult
  refused t response = record { response = response; rows = t; message = none }

  abbrev pub submitted_with :
      Bool → LoadedProject → String → db.Rows → Option db.Rows → SubmitResult
  submitted_with queue_takes p reference_number t none = refused t submit_failed
  submitted_with queue_takes p reference_number t (some u) = record {
    response = submit_succeeded p.reference_number;
    rows = u;
    message = send_external_submission_message queue_takes reference_number p.id;
  }

  -- The checks on the errors that the validation finds.
  abbrev pub submit_validated :
      Bool → LoadedProject → String → db.Rows → List SubmissionError → SubmitResult
  submit_validated queue_takes p reference_number t [] =
      submitted_with queue_takes p reference_number t
        (transition_to_submitted db p.id reference_number p.is_legacy t)
  submit_validated queue_takes p reference_number t (e ∷ errors) =
      refused t (validation_failed (e ∷ errors))

  abbrev pub submit_permitted :
      Bool → LoadedProject → String → db.Rows → List SubmissionError → Permission → SubmitResult
  submit_permitted queue_takes p reference_number t errors allowed =
      submit_validated queue_takes p reference_number t errors
  submit_permitted queue_takes p reference_number t errors why =
      refused t (not_allowed_to_submit why)

  module _ (hexdigest legacy_hexdigest : Project → List Row → String) (month : ℕ) (year : ℤ)
      (credentials : Credentials) (queue_takes : Bool) where
    abbrev pub submit_loaded : String → db.Rows → Option (Option LoadedProject) → SubmitResult
    submit_loaded reference_number t none = refused t load_failed
    submit_loaded reference_number t (some none) = refused t project_not_found
    submit_loaded reference_number t (some (some p)) =
        if not (is_editable (resolve_status p.state p.is_legacy p.is_revised))
        then refused t project_not_draft
        else submit_permitted queue_takes p reference_number t
            (validate_submission hexdigest legacy_hexdigest month year p.project)
            (can_submit_project credentials (area_details p))

    unfoldable pub submit_project : String → db.Rows → SubmitResult
    unfolding dashes_to_slashes resolve_status can_submit_project transition_to_submitted
        validate_submission
    submit_project raw t =
        let reference_number = dashes_to_slashes raw in
        submit_loaded reference_number t (db.load_project reference_number t)
