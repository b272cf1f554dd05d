-- ===== src/External/LegacyFix/Counts.antt =====
-- What the correction of legacy proposals changes, and its summary.
use pafs_backend_api.Prelude.{
  ℕ, ◌+◌, String, Bool, true, false, ◌≡◌, refl, sym, ap, ◌∙◌, ◌⊎◌, inl, inr, List, [], ◌∷◌, Option,
  none, some, dashes_to_slashes, Bool-cases, Option-cases, arith,
}
use pafs_backend_api.Projects.States.{
  ProjectStatus, submitted, draft, approved, rejected, revise, archived, completed, other_state,
  ProjectTables, ProjectRow,
}
use pafs_backend_api.Projects.States.Lifecycle.{
  correction, Reaches, Reaches-same, Reaches-trans, Reaches-write,
}
use pafs_backend_api.External.LegacyFix.{
  FixResult, fix_updated, fix_not_found, fix_error, fix_skipped, build_summary, is_eligible,
  fix_in_state, fix_found, process_item, process_items, fix_legacy_completed,
}

eligible-state :
    (is_legacy : Bool) (o : Option ProjectStatus)
    → is_eligible is_legacy o ≡ true
    → (is_legacy ≡ true) × (o ≡ some completed)
eligible-state true (some completed) h = (refl, refl)
eligible-state false (some completed) h = cc h
eligible-state l none h = cc h
eligible-state l (some submitted) h = ground (arith, h)
eligible-state l (some draft) h = ground (arith, h)
eligible-state l (some revise) h = ground (arith, h)
eligible-state l (some approved) h = ground (arith, h)
eligible-state l (some rejected) h = ground (arith, h)
eligible-state l (some archived) h = ground (arith, h)
eligible-state l (some (other_state s)) h = ground (arith, h)

module _ (db : ProjectTables) where
  -- What one item does: it leaves the rows, or it submits a completed legacy project.
  record IsFix (r : String) (t : db.Rows) (done : FixResult × db.Rows) : Type 0 where
    project : ProjectRow
    found : db.find_project r t ≡ some (some project)
    is_legacy : project.is_legacy ≡ true
    was_completed : db.state_of project.id t ≡ some completed
    written : db.upsert_state project.id submitted t ≡ some done.1

  abbrev IsItem : String → db.Rows → FixResult × db.Rows → Type 0
  IsItem r t done = (done.1 ≡ t) ⊎ IsFix r t done

  in_state-IsItem :
      (r : String) (project : ProjectRow) (t : db.Rows) (o : Option (Option ProjectStatus))
      → db.find_project r t ≡ some (some project)
      → db.find_state project.id t ≡ o
      → IsItem r t (fix_in_state db r project t o)
  in_state-IsItem r project t none found read = inl refl
  in_state-IsItem r project t (some state) found read =
      elim (Bool-cases (is_eligible project.is_legacy state)) [
        | inr e ↦ rw e (inl refl)
        | inl e ↦ elim (Option-cases (db.upsert_state project.id submitted t)) [
          | inl none_written ↦ rw (e, none_written) (inl refl)
          | inr (u, written) ↦
              rw (e, written)
                (inr (record {
                  project = project;
                  found = found;
                  is_legacy = (eligible-state project.is_legacy state e).0;
                  was_completed =
                      sym (db.find_state-state_of project.id t read)
                      ∙ (eligible-state project.is_legacy state e).1;
                  written = written;
                }))
        ]
      ]

  found-IsItem :
      (r : String) (t : db.Rows) (o : Option (Option ProjectRow))
      → db.find_project r t ≡ o
      → IsItem r t (fix_found db r t o)
  found-IsItem r t none found = inl refl
  found-IsItem r t (some none) found = inl refl
  found-IsItem r t (some (some project)) found =
      in_state-IsItem r project t (db.find_state project.id t) found refl

  process_item-IsItem : (r : String) (t : db.Rows) → IsItem r t (process_item db r t)
  unfolding process_item
  process_item-IsItem r t = found-IsItem r t (db.find_project r t) refl

  item-Reaches :
      (k : ℕ) (r : String) (t : db.Rows) (done : FixResult × db.Rows)
      → IsItem r t done
      → Reaches (db.state_of k t) (db.state_of k done.1)
  item-Reaches k r t done (inl h) = Reaches-same (ap (db.state_of k) h)
  item-Reaches k r t done (inr u) =
      Reaches-write k u.project.id (λ j. db.state_of j t) (correction u.was_completed refl)
        (db.state_of-upsert_state k u.project.id submitted t u.written)

  items-Reaches :
      (k : ℕ) (rs : List String) (t : db.Rows)
      → Reaches (db.state_of k t) (db.state_of k (process_items db rs t).1)
  unfolding process_items
  items-Reaches k [] t = Reaches-same refl
  items-Reaches k (r ∷ rs) t =
      let done = process_item db (dashes_to_slashes r) t in
      Reaches-trans
        (item-Reaches k (dashes_to_slashes r) t done (process_item-IsItem (dashes_to_slashes r) t))
        (items-Reaches k rs done.1)

  pub fix-Reaches :
      (k : ℕ) (enabled : Bool) (rs : List String) (t : db.Rows)
      → Reaches (db.state_of k t) (db.state_of k (fix_legacy_completed db enabled rs t).1)
  unfolding fix_legacy_completed
  fix-Reaches k true rs t = items-Reaches k rs t
  fix-Reaches k false rs t = Reaches-same refl

-- Every result is counted once in the summary.
pub summary-sum :
    (results : List FixResult)
    → (build_summary results).updated
        + (build_summary results).skipped
        + (build_summary results).not_found
        + (build_summary results).errored
      ≡ (build_summary results).requested
unfolding build_summary
summary-sum [] = refl
summary-sum (fix_updated r ∷ results) = omega (arith, summary-sum results)
summary-sum (fix_not_found r ∷ results) = omega (arith, summary-sum results)
summary-sum (fix_error r ∷ results) = omega (arith, summary-sum results)
summary-sum (fix_skipped r is_legacy state ∷ results) = omega (arith, summary-sum results)
