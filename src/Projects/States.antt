-- ===== src/Projects/States.antt =====
-- The states of projects (PROJECT_STATUS and EDITABLE_STATUSES of src/common/constants/project.js,
-- `resolveStatus` of src/plugins/projects/helpers/project-formatter.js), the tables that keep them
-- as their client sees them, and the writes of src/plugins/projects/services/project-service.js.
-- Prisma is not code of the repository: its calls are the fields of a record, `none` where a call
-- throws, with what its documentation promises of them.
pub mod Lifecycle
pub mod Fixtures
use pafs_backend_api.Prelude.{
  ℕ, String, Bool, true, false, not, ◌&&◌, Option, none, some, ◌≡◌, ◌==◌, is_empty_text,
  if◌then◌else◌, Option-cases, inl, inr, ◌∙◌,
}
use pafs_backend_api.Projects.Value.{Project}

pub data ProjectStatus : Type 0 where
  revise draft submitted approved rejected archived completed : ProjectStatus
  -- any other text in the column
  other_state : String → ProjectStatus

abbrev pub is_draft : ProjectStatus → Bool
is_draft draft = true
is_draft _ = false

abbrev pub is_submitted : ProjectStatus → Bool
is_submitted submitted = true
is_submitted _ = false

abbrev pub is_completed : ProjectStatus → Bool
is_completed completed = true
is_completed _ = false

-- EDITABLE_STATUSES.includes(status)
abbrev pub is_editable : ProjectStatus → Bool
is_editable draft = true
is_editable revise = true
is_editable _ = false

-- `state || PROJECT_STATUS.DRAFT`: null and the empty text are falsy.
abbrev pub state_or_draft : Option ProjectStatus → ProjectStatus
state_or_draft none = draft
state_or_draft (some (other_state s)) = if is_empty_text s then draft else other_state s
state_or_draft (some s) = s

unfoldable pub resolve_status : Option ProjectStatus → Bool → Bool → ProjectStatus
resolve_status state is_legacy is_revised =
    let status = state_or_draft state in
    if is_draft status && is_legacy && not is_revised then revise else status

-- The columns of a project that are read to change its state.
pub record ProjectRow : Type 0 where
  pub id : ℕ
  pub reference_number : String
  pub is_legacy : Bool

-- A project with its state, its area and the parent of that area, and what is validated of it. A
-- project is in an area.
pub record LoadedProject : Type 0 where
  pub id : ℕ
  pub reference_number : String
  pub is_legacy : Bool
  pub is_revised : Bool
  pub state : Option ProjectStatus
  pub area_id : ℕ
  pub pso_area_id : Option ℕ
  pub project : Project

pub record ProjectTables : Type 1 where
  pub Rows : Type 0
  -- findFirst({ where: { reference_number, version: 1 } }) on the projects
  pub find_project : String → Rows → Option (Option ProjectRow)
  -- the row of the view v_project_full of a reference number
  pub load_project : String → Rows → Option (Option LoadedProject)
  -- findFirst({ where: { project_id }, select: { state } }) on the states
  pub find_state : ℕ → Rows → Option (Option ProjectStatus)
  -- upsert({ where: { project_id }, ... }) on the states
  pub upsert_state : ℕ → ProjectStatus → Rows → Option Rows
  -- updateMany({ where: { reference_number }, ... }) on the projects: submitted_at, with is_revised
  -- where the test holds
  pub stamp_submitted : String → Bool → Rows → Option Rows
  -- the state that is stored for a project
  pub state_of : ℕ → Rows → Option ProjectStatus
  pub find_state-state_of :
      (k : ℕ) (t : Rows) {o : Option ProjectStatus} → find_state k t ≡ some o → o ≡ state_of k t
  pub load_project-state_of :
      (r : String) (t : Rows) {p : LoadedProject}
      → load_project r t ≡ some (some p)
      → p.state ≡ state_of p.id t
  -- a write of a state changes that of its project, and no other
  pub state_of-upsert_state :
      (j k : ℕ) (s : ProjectStatus) (t : Rows) {t' : Rows}
      → upsert_state k s t ≡ some t'
      → state_of j t' ≡ (if j == k then some s else state_of j t)
  pub state_of-stamp_submitted :
      (j : ℕ) (r : String) (b : Bool) (t : Rows) {t' : Rows}
      → stamp_submitted r b t ≡ some t'
      → state_of j t' ≡ state_of j t

module _ (db : ProjectTables) where
  unfoldable pub upsert_project_state : ℕ → ProjectStatus → db.Rows → Option db.Rows
  upsert_project_state project_id new_state t = db.upsert_state project_id new_state t

  abbrev pub stamp_after : String → Bool → Option db.Rows → Option db.Rows
  stamp_after reference_number is_legacy none = none
  stamp_after reference_number is_legacy (some t) = db.stamp_submitted reference_number is_legacy t

  -- One transaction: a throw leaves the rows as they were.
  unfoldable pub transition_to_submitted : ℕ → String → Bool → db.Rows → Option db.Rows
  transition_to_submitted project_id reference_number is_legacy t =
      stamp_after reference_number is_legacy (db.upsert_state project_id submitted t)

  -- After the transaction the project is submitted, and no other project has another state.
  pub state_of-transition :
      (j k : ℕ) (r : String) (b : Bool) (t : db.Rows) {t' : db.Rows}
      → transition_to_submitted k r b t ≡ some t'
      → db.state_of j t' ≡ (if j == k then some submitted else db.state_of j t)
  unfolding transition_to_submitted
  state_of-transition j k r b t {t'} h = elim (Option-cases (db.upsert_state k submitted t)) [
    | inl e ↦ cc (e, h)
    | inr (u, e) ↦
        let stamped : db.stamp_submitted r b u ≡ some t' = cc (e, h) in
        db.state_of-stamp_submitted j r b u stamped ∙ db.state_of-upsert_state j k submitted t e
  ]
