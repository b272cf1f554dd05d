-- ===== src/External/LegacyFix.antt =====
-- src/plugins/external/fix-legacy-completed/fix-legacy-completed.js. The log and the record of the
-- audit are left out; the second is not waited for.
pub mod Counts
use pafs_backend_api.Prelude.{
  ℕ, ◌+◌, String, Bool, true, false, not, ◌&&◌, List, [], ◌∷◌, Option, none, some, filter, length,
  if◌then◌else◌, dashes_to_slashes,
}
use pafs_backend_api.Projects.States.{
  ProjectStatus, completed, submitted, is_completed, ProjectTables, ProjectRow,
}

-- The outcome of an item, with its reference number.
pub data FixResult : Type 0 where
  fix_updated fix_not_found fix_error : String → FixResult
  fix_skipped : String → Bool → Option ProjectStatus → FixResult

abbrev pub was_updated : FixResult → Bool
was_updated (fix_updated r) = true
was_updated _ = false

abbrev pub was_skipped : FixResult → Bool
was_skipped (fix_skipped r is_legacy state) = true
was_skipped _ = false

abbrev pub was_not_found : FixResult → Bool
was_not_found (fix_not_found r) = true
was_not_found _ = false

abbrev pub was_error : FixResult → Bool
was_error (fix_error r) = true
was_error _ = false

pub record Summary : Type 0 where
  pub requested : ℕ
  pub updated : ℕ
  pub skipped : ℕ
  pub not_found : ℕ
  pub errored : ℕ

unfoldable pub build_summary : List FixResult → Summary
build_summary results = record {
  requested = length results;
  updated = length (filter was_updated results);
  skipped = length (filter was_skipped results);
  not_found = length (filter was_not_found results);
  errored = length (filter was_error results);
}

-- `found.isLegacy && found.state === ELIGIBLE_STATE`
abbrev pub is_eligible : Bool → Option ProjectStatus → Bool
is_eligible is_legacy none = false
is_eligible is_legacy (some s) = is_legacy && is_completed s

module _ (db : ProjectTables) where
  abbrev pub fix_written : String → db.Rows → Option db.Rows → FixResult × db.Rows
  fix_written r t none = (fix_error r, t)
  fix_written r t (some u) = (fix_updated r, u)

  abbrev pub fix_in_state :
      String → ProjectRow → db.Rows → Option (Option ProjectStatus) → FixResult × db.Rows
  fix_in_state r project t none = (fix_error r, t)
  fix_in_state r project t (some state) =
      if is_eligible project.is_legacy state
      then fix_written r t (db.upsert_state project.id submitted t)
      else (fix_skipped r project.is_legacy state, t)

  abbrev pub fix_found : String → db.Rows → Option (Option ProjectRow) → FixResult × db.Rows
  fix_found r t none = (fix_error r, t)
  fix_found r t (some none) = (fix_not_found r, t)
  fix_found r t (some (some project)) = fix_in_state r project t (db.find_state project.id t)

  unfoldable pub process_item : String → db.Rows → FixResult × db.Rows
  process_item reference_number t =
      fix_found reference_number t (db.find_project reference_number t)

  unfoldable pub process_items : List String → db.Rows → List FixResult × db.Rows
  unfolding process_item dashes_to_slashes
  process_items [] t = ([], t)
  process_items (raw ∷ raws) t =
      let done = process_item (dashes_to_slashes raw) t in
      let rest = process_items raws done.1 in (done.0 ∷ rest.0, rest.1)

-- The handler: `none` where the route is disabled, which is a 404.
unfoldable pub fix_legacy_completed :
    (db : ProjectTables)
    → Bool
    → List String
    → db.Rows
    → Option (Summary × List FixResult) × db.Rows
unfolding process_items build_summary
fix_legacy_completed db enabled reference_numbers t =
    let done = process_items db reference_numbers t in
    if enabled then (some (build_summary done.0, done.0), done.1) else (none, t)
