-- ===== src/Projects/Submit/Outcome.antt =====
-- What a call of the submission handler does: it changes nothing, or it submits a ready proposal.
use pafs_backend_api.Prelude.{
  ℕ, String, Bool, true, false, ◌≡◌, refl, ◌⊎◌, inl, inr, List, [], ◌∷◌, Option, none, some, ℤ,
  ◌==◌, if◌then◌else◌, dashes_to_slashes, Bool-cases, Option-cases, ap, ◌∙◌, is_some,
}
use pafs_backend_api.JwtAuth.Cache.{Credentials}
use pafs_backend_api.Projects.Value.{Row, Project}
use pafs_backend_api.Projects.Permissions.{
  Permission, allowed, only_rma_or_admin, only_rma_pso_or_admin, no_area_access, area_not_found,
  no_update_permission, can_submit_project,
}
use pafs_backend_api.Projects.Submission.{validate_submission}
use pafs_backend_api.Projects.Submission.Complete.{validate_submission-IsReady}
use pafs_backend_api.Projects.Submission.Ready.{IsReady}
use pafs_backend_api.Projects.Submission.Types.{SubmissionError}
use pafs_backend_api.Projects.States.{
  ProjectStatus, submitted, ProjectTables, LoadedProject, stamp_after, resolve_status, is_editable,
  transition_to_submitted, state_of-transition,
}
use pafs_backend_api.Projects.Submit.{
  SubmitResponse, load_failed, project_not_found, project_not_draft, submit_failed,
  not_allowed_to_submit, validation_failed, refused, submit_validated, submit_succeeded,
  area_details, SubmitResult, submitted_with, submit_permitted, submit_loaded, submit_project,
  send_external_submission_message,
}

abbrev pub is_success : SubmitResponse → Bool
is_success (submit_succeeded r) = true
is_success _ = false

-- No change, and no message.
pub record IsRefused (db : ProjectTables) (t : db.Rows) (result : SubmitResult db) : Type 0 where
  pub response : is_success result.response ≡ false
  pub rows : result.rows ≡ t
  pub message : result.message ≡ none

-- The project of the reference number was open to changes, the user was permitted to submit it and
-- it was ready; now it is submitted, every other project has the state it had, and its message is on
-- the queue just where the queue takes it. The states are those of the project `j`.
pub record IsSubmitted (db : ProjectTables) (credentials : Credentials) (queue_takes : Bool)
    (reference_number : String) (t : db.Rows) (result : SubmitResult db) (j : ℕ) : Type 0 where
  pub found : LoadedProject
  pub loaded : db.load_project reference_number t ≡ some (some found)
  pub editable : is_editable (resolve_status found.state found.is_legacy found.is_revised) ≡ true
  pub permitted : can_submit_project credentials (area_details found) ≡ allowed
  pub ready : IsReady found.project
  pub response : result.response ≡ submit_succeeded found.reference_number
  pub message : result.message ≡ (if queue_takes then some (reference_number, found.id) else none)
  pub states :
      db.state_of j result.rows ≡ (if j == found.id then some submitted else db.state_of j t)

sent-if :
    (queue_takes : Bool) (r : String) (k : ℕ)
    → send_external_submission_message queue_takes r k ≡ (if queue_takes then some (r, k) else none)
sent-if true r k = refl
sent-if false r k = refl

is_some-some : {A : Type 0} {o : Option A} → is_some o ≡ true → (a : A) × (o ≡ some a)
is_some-some {o = none} h = cc h
is_some-some {o = some a} h = (a, refl)

module _ (db : ProjectTables) (queue_takes : Bool) where
  -- Where the tables take the writes of a transition it is made.
  transition-taken :
      ((k : ℕ) (s : ProjectStatus) (u : db.Rows) → is_some (db.upsert_state k s u) ≡ true)
      → ((r : String) (b : Bool) (u : db.Rows) → is_some (db.stamp_submitted r b u) ≡ true)
      → (k : ℕ) (r : String) (b : Bool) (t : db.Rows)
      → (u : db.Rows) × (transition_to_submitted db k r b t ≡ some u)
  unfolding transition_to_submitted
  transition-taken takes stamps k r b t =
      let (v, written) = is_some-some (takes k submitted t) in
      let (u, stamped) = is_some-some (stamps r b v) in
      (u, ap (stamp_after db r b) written ∙ stamped)

  -- What is submitted where no check before the write refuses.
  record IsWritten (p : LoadedProject) (r : String) (t : db.Rows) (errors : List SubmissionError)
      (permission : Permission) (result : SubmitResult db) : Type 0 where
    permitted : permission ≡ allowed
    valid : errors ≡ []
    rows : db.Rows
    written : transition_to_submitted db p.id r p.is_legacy t ≡ some rows
    outcome : result ≡ submitted_with db queue_takes p r t (some rows)

  refused-IsRefused :
      (t : db.Rows) (response : SubmitResponse)
      → is_success response ≡ false
      → IsRefused db t (refused db t response)
  refused-IsRefused t response h = record { response = h; rows = refl; message = refl }

  validated-outcome :
      (p : LoadedProject) (r : String) (t : db.Rows) (errors : List SubmissionError)
      → IsRefused db t (submit_validated db queue_takes p r t errors)
        ⊎ IsWritten p r t errors allowed (submit_validated db queue_takes p r t errors)
  validated-outcome p r t [] =
      elim (Option-cases (transition_to_submitted db p.id r p.is_legacy t)) [
        | inl e ↦ inl (rw e (refused-IsRefused t submit_failed refl))
        | inr (u, e) ↦
            inr (record {
              permitted = refl;
              valid = refl;
              rows = u;
              written = e;
              outcome = rw e refl;
            })
      ]
  validated-outcome p r t (e ∷ errors) =
      inl (refused-IsRefused t (validation_failed (e ∷ errors)) refl)

  permitted-outcome :
      (p : LoadedProject) (r : String) (t : db.Rows) (errors : List SubmissionError)
      (permission : Permission)
      → IsRefused db t (submit_permitted db queue_takes p r t errors permission)
        ⊎ IsWritten p r t errors permission
            (submit_permitted db queue_takes p r t errors permission)
  permitted-outcome p r t errors allowed = validated-outcome p r t errors
  permitted-outcome p r t errors only_rma_or_admin =
      inl (refused-IsRefused t (not_allowed_to_submit only_rma_or_admin) refl)
  permitted-outcome p r t errors only_rma_pso_or_admin =
      inl (refused-IsRefused t (not_allowed_to_submit only_rma_pso_or_admin) refl)
  permitted-outcome p r t errors no_area_access =
      inl (refused-IsRefused t (not_allowed_to_submit no_area_access) refl)
  permitted-outcome p r t errors area_not_found =
      inl (refused-IsRefused t (not_allowed_to_submit area_not_found) refl)
  permitted-outcome p r t errors no_update_permission =
      inl (refused-IsRefused t (not_allowed_to_submit no_update_permission) refl)

  module _ (hexdigest legacy_hexdigest : Project → List Row → String) (month : ℕ) (year : ℤ)
      (credentials : Credentials) (j : ℕ) where
    written-IsSubmitted :
        (p : LoadedProject) (r : String) (t : db.Rows) (result : SubmitResult db)
        → db.load_project r t ≡ some (some p)
        → is_editable (resolve_status p.state p.is_legacy p.is_revised) ≡ true
        → IsWritten p r t
            (validate_submission hexdigest legacy_hexdigest month year p.project)
            (can_submit_project credentials (area_details p))
            result
        → IsSubmitted db credentials queue_takes r t result j
    written-IsSubmitted p r t result found can_edit w = record {
      found = p;
      loaded = found;
      editable = can_edit;
      permitted = w.permitted;
      ready = validate_submission-IsReady hexdigest legacy_hexdigest month year p.project w.valid;
      response = ap (λ s. s.response) w.outcome;
      message = ap (λ s. s.message) w.outcome ∙ sent-if queue_takes r p.id;
      states =
          ap (λ s. db.state_of j s.rows) w.outcome
          ∙ state_of-transition db j p.id r p.is_legacy t w.written;
    }

    loaded-outcome :
        (r : String) (t : db.Rows) (o : Option (Option LoadedProject))
        → db.load_project r t ≡ o
        → IsRefused db t
            (submit_loaded db hexdigest legacy_hexdigest month year credentials queue_takes r t o)
          ⊎ IsSubmitted db credentials queue_takes r t
              (submit_loaded db hexdigest legacy_hexdigest month year credentials queue_takes r t o)
              j
    loaded-outcome r t none found = inl (refused-IsRefused t load_failed refl)
    loaded-outcome r t (some none) found = inl (refused-IsRefused t project_not_found refl)
    loaded-outcome r t (some (some p)) found =
        elim (Bool-cases (is_editable (resolve_status p.state p.is_legacy p.is_revised))) [
          | inr e ↦ inl (rw e (refused-IsRefused t project_not_draft refl))
          | inl e ↦
              rw e
                (elim (permitted-outcome p r t
                  (validate_submission hexdigest legacy_hexdigest month year p.project)
                  (can_submit_project credentials (area_details p))) [
                    | inl h ↦ inl h
                    | inr w ↦ inr (written-IsSubmitted p r t _ found e w)
                  ])
        ]

    pub submit_project-outcome :
        (raw : String) (t : db.Rows)
        → IsRefused db t
            (submit_project db hexdigest legacy_hexdigest month year credentials queue_takes raw t)
          ⊎ IsSubmitted db credentials queue_takes
              (dashes_to_slashes raw)
              t
              (submit_project db hexdigest legacy_hexdigest month year credentials queue_takes raw
                t)
              j
    unfolding submit_project
    submit_project-outcome raw t =
        loaded-outcome (dashes_to_slashes raw) t (db.load_project (dashes_to_slashes raw) t) refl

    -- Where the tables take every write of a state and every stamp, a project that is open to
    -- changes, that the user is permitted to submit and in which the validation finds no error is
    -- submitted: the answer is success with its reference number, its state is submitted, every
    -- other project `j` has the state that it had, and its message is on the queue just where the
    -- queue takes it.
    pub submit_project-succeeds :
        (raw : String) (t : db.Rows) (p : LoadedProject)
        → ((k : ℕ) (s : ProjectStatus) (u : db.Rows) → is_some (db.upsert_state k s u) ≡ true)
        → ((r : String) (b : Bool) (u : db.Rows) → is_some (db.stamp_submitted r b u) ≡ true)
        → db.load_project (dashes_to_slashes raw) t ≡ some (some p)
        → is_editable (resolve_status p.state p.is_legacy p.is_revised) ≡ true
        → can_submit_project credentials (area_details p) ≡ allowed
        → validate_submission hexdigest legacy_hexdigest month year p.project ≡ []
        → let result =
            submit_project db hexdigest legacy_hexdigest month year credentials queue_takes raw t in
          (result.response ≡ submit_succeeded p.reference_number)
          × (db.state_of j result.rows ≡ (if j == p.id then some submitted else db.state_of j t))
          × (result.message ≡ (if queue_takes then some (dashes_to_slashes raw, p.id) else none))
    unfolding submit_project
    submit_project-succeeds raw t p takes stamps found editable permitted valid =
        let (u, written) =
          transition-taken takes stamps p.id (dashes_to_slashes raw) p.is_legacy t in
        rw (found, editable, permitted, valid, written)
          (refl, state_of-transition db j p.id _ p.is_legacy t written, sent-if queue_takes _ p.id)
