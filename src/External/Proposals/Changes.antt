-- ===== src/External/Proposals/Changes.antt =====
-- What a call of the external status route changes.
use pafs_backend_api.Prelude.{
  ℕ, suc, true, false, not, ◌≡◌, refl, ap, ◌⊎◌, sym, ◌∙◌, List, [], ◌∷◌, Option, none, some, any,
  dashes_to_slashes, Bool-cases, Option-cases, inl, inr, arith, ◌↔◌, length,
}
use pafs_backend_api.Projects.States.{
  ProjectStatus, submitted, draft, approved, rejected, revise, archived, completed, other_state,
  ProjectTables, ProjectRow, upsert_project_state,
}
use pafs_backend_api.Projects.States.Lifecycle.{
  Step, sent_back, approval, rejection, Reaches, Reaches-same, Reaches-trans, Reaches-write,
}
use pafs_backend_api.External.Proposals.{
  ExternalStatus, to_draft, to_approved, to_rejected, project_status, ProposalItem, ItemResult,
  item_updated, succeeded, is_state_submitted, update_in_state, update_found, update_proposal,
  update_proposals, response_code, external_update_proposal_status,
}

pub decision :
    (to : ExternalStatus) {s : Option ProjectStatus}
    → s ≡ some submitted
    → Step s (some (project_status to))
decision to_draft h = sent_back h refl
decision to_approved h = approval h refl
decision to_rejected h = rejection h refl

submitted-state : (o : Option ProjectStatus) → is_state_submitted o ≡ true → o ≡ some submitted
submitted-state none h = cc h
submitted-state (some submitted) h = refl
submitted-state (some draft) h = cc h
submitted-state (some revise) h = cc h
submitted-state (some approved) h = cc h
submitted-state (some rejected) h = cc h
submitted-state (some archived) h = cc h
submitted-state (some completed) h = cc h
submitted-state (some (other_state s)) h = cc h

code-none :
    (results : List ItemResult) → response_code results ≡ 422 → any succeeded results ≡ false
code-none results h = ground (arith, h)

code-all :
    (results : List ItemResult)
    → (response_code results ≡ 200) ↔ (any (λ r. not (succeeded r)) results ≡ false)
code-all results = (λ h. ground (arith, h), λ h. ground (arith, h))

module _ (db : ProjectTables) where
  -- What one item does: with no success it leaves the rows, and with success it has written its
  -- status on a project that is submitted.
  record IsUpdate (item : ProposalItem) (t : db.Rows) (done : ItemResult × db.Rows) : Type 0 where
    project : ProjectRow
    found : db.find_project (dashes_to_slashes item.reference_number) t ≡ some (some project)
    was_submitted : db.state_of project.id t ≡ some submitted
    written : upsert_project_state db project.id (project_status item.status) t ≡ some done.1
    outcome : done.0 ≡ item_updated item.reference_number item.status

  abbrev IsItem : ProposalItem → db.Rows → ItemResult × db.Rows → Type 0
  IsItem item t done = ((succeeded done.0 ≡ false) × (done.1 ≡ t)) ⊎ IsUpdate item t done

  in_state-IsItem :
      (item : ProposalItem) (project : ProjectRow) (t : db.Rows) (o : Option (Option ProjectStatus))
      → db.find_project (dashes_to_slashes item.reference_number) t ≡ some (some project)
      → db.find_state project.id t ≡ o
      → IsItem item t (update_in_state db item project t o)
  in_state-IsItem item project t none found read = inl (refl, refl)
  in_state-IsItem item project t (some state) found read =
      elim (Bool-cases (is_state_submitted state)) [
        | inr e ↦ rw e (inl (refl, refl))
        | inl e ↦
            elim (Option-cases
              (upsert_project_state db project.id (project_status item.status) t)) [
                | inl none_written ↦ rw (e, none_written) (inl (refl, refl))
                | inr (u, written) ↦
                    rw (e, written)
                      (inr (record {
                        project = project;
                        found = found;
                        was_submitted =
                            sym (db.find_state-state_of project.id t read)
                            ∙ submitted-state state e;
                        written = written;
                        outcome = refl;
                      }))
              ]
      ]

  found-IsItem :
      (item : ProposalItem) (t : db.Rows) (o : Option (Option ProjectRow))
      → db.find_project (dashes_to_slashes item.reference_number) t ≡ o
      → IsItem item t (update_found db item t o)
  found-IsItem item t none found = inl (refl, refl)
  found-IsItem item t (some none) found = inl (refl, refl)
  found-IsItem item t (some (some project)) found =
      in_state-IsItem item project t (db.find_state project.id t) found refl

  update_proposal-IsItem :
      (item : ProposalItem) (t : db.Rows) → IsItem item t (update_proposal db item t)
  unfolding update_proposal
  update_proposal-IsItem item t =
      found-IsItem item t (db.find_project (dashes_to_slashes item.reference_number) t) refl

  item-Reaches :
      (k : ℕ) (item : ProposalItem) (t : db.Rows) (done : ItemResult × db.Rows)
      → IsItem item t done
      → Reaches (db.state_of k t) (db.state_of k done.1)
  unfolding upsert_project_state
  item-Reaches k item t done (inl h) = Reaches-same (ap (db.state_of k) h.1)
  item-Reaches k item t done (inr u) =
      Reaches-write k u.project.id (λ j. db.state_of j t) (decision item.status u.was_submitted)
        (db.state_of-upsert_state k u.project.id (project_status item.status) t u.written)

  pub proposals-Reaches :
      (k : ℕ) (items : List ProposalItem) (t : db.Rows)
      → Reaches (db.state_of k t) (db.state_of k (update_proposals db items t).1)
  unfolding update_proposals
  proposals-Reaches k [] t = Reaches-same refl
  proposals-Reaches k (item ∷ items) t =
      Reaches-trans
        (item-Reaches k item t (update_proposal db item t) (update_proposal-IsItem item t))
        (proposals-Reaches k items (update_proposal db item t).1)

  none_succeeded-rows :
      (items : List ProposalItem) (t : db.Rows)
      → any succeeded (update_proposals db items t).0 ≡ false
      → (update_proposals db items t).1 ≡ t
  unfolding update_proposals
  none_succeeded-rows [] t h = refl
  none_succeeded-rows (item ∷ items) t h = elim (update_proposal-IsItem item t) [
    | inl failed ↦
        none_succeeded-rows items (update_proposal db item t).1 (cc (failed.0, h)) ∙ failed.1
    | inr u ↦ cc (u.outcome, h)
  ]

  -- A call of the external status route that answers that every item failed has changed nothing.
  pub all_failed-rows :
      (items : List ProposalItem) (t : db.Rows)
      → (external_update_proposal_status db items t).0 ≡ 422
      → (external_update_proposal_status db items t).1.1 ≡ t
  unfolding external_update_proposal_status
  all_failed-rows items t h =
      none_succeeded-rows items t (code-none (update_proposals db items t).0 h)

  results-length :
      (items : List ProposalItem) (t : db.Rows)
      → length (update_proposals db items t).0 ≡ length items
  unfolding update_proposals
  results-length [] t = refl
  results-length (item ∷ items) t = ap suc (results-length items (update_proposal db item t).1)

  -- The route answers with one result for each item, and with the code for full success exactly
  -- when no item failed.
  pub all_updated_iff :
      (items : List ProposalItem) (t : db.Rows)
      → (length (external_update_proposal_status db items t).1.0 ≡ length items)
        × (((external_update_proposal_status db items t).0 ≡ 200) ↔ (
            any (λ r. not (succeeded r)) (external_update_proposal_status db items t).1.0 ≡ false))
  unfolding external_update_proposal_status
  all_updated_iff items t = (results-length items t, code-all (update_proposals db items t).0)
