-- ===== src/Projects/StatusChange.antt =====
-- src/plugins/projects/update-status/update-status.js. The route takes any signed-in user and, of
-- the payload, one of the values of PROJECT_STATUS.
use pafs_backend_api.Prelude.{String, Option, none, some, ◌≡◌, arith, refl, dashes_to_slashes}
use pafs_backend_api.Projects.States.{
  ProjectStatus, ProjectTables, ProjectRow, upsert_project_state,
}

pub data UpdateResponse : Type 0 where
  update_failed project_not_found : UpdateResponse
  -- with the reference number and the state
  updated : String → ProjectStatus → UpdateResponse

module _ (db : ProjectTables) where
  abbrev status_written :
      ProjectRow → ProjectStatus → db.Rows → Option db.Rows → UpdateResponse × db.Rows
  status_written project status t none = (update_failed, t)
  status_written project status t (some u) = (updated project.reference_number status, u)

  abbrev update_project_found :
      ProjectStatus → db.Rows → Option (Option ProjectRow) → UpdateResponse × db.Rows
  update_project_found status t none = (update_failed, t)
  update_project_found status t (some none) = (project_not_found, t)
  update_project_found status t (some (some project)) =
      status_written project status t (upsert_project_state db project.id status t)

  unfoldable pub update_status : String → ProjectStatus → db.Rows → UpdateResponse × db.Rows
  unfolding upsert_project_state dashes_to_slashes
  update_status raw status t =
      update_project_found status t (db.find_project (dashes_to_slashes raw) t)

  -- The route puts a project that is found into the state that the payload names, whatever its
  -- state was, where the table takes the write: neither the state before, nor the validation of a
  -- submission, nor a permission is asked for.
  pub update_status-sets :
      (raw : String) (status : ProjectStatus) (t u : db.Rows) (project : ProjectRow)
      → db.find_project (dashes_to_slashes raw) t ≡ some (some project)
      → db.upsert_state project.id status t ≡ some u
      → (update_status raw status t ≡ (updated project.reference_number status, u))
        × (db.state_of project.id u ≡ some status)
  unfolding update_status upsert_project_state
  update_status-sets raw status t u project found written = (
    rw (found, written) refl,
    ground (arith, db.state_of-upsert_state project.id project.id status t written),
  )
