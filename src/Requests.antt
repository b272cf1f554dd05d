-- ===== src/Requests.antt =====
-- Sequences of calls of the routes that move a proposal through its life cycle:
-- src/plugins/projects/submit-project/submit-project.js and the routes of src/plugins/external. A
-- call has what it finds of the time, of the user, of the queue, of the carbon digests and of the
-- configuration.
mod Tests
use pafs_backend_api.Prelude.{
  ℕ, String, Bool, true, ◌≡◌, sym, subst, ap, ◌∙◌, refl, inl, inr, List, [], ◌∷◌, Option, some, ℤ,
  dashes_to_slashes,
}
use pafs_backend_api.JwtAuth.Cache.{Credentials}
use pafs_backend_api.Projects.Value.{Row, Project}
use pafs_backend_api.Projects.States.{ProjectStatus, submitted, ProjectTables}
use pafs_backend_api.Projects.States.Lifecycle.{
  submission, Reaches, Reaches-same, Reaches-trans, Reaches-write, is_settled, Reaches-settled,
}
use pafs_backend_api.Projects.Submit.{SubmitResult, submit_project}
use pafs_backend_api.Projects.Submit.Outcome.{IsRefused, IsSubmitted, submit_project-outcome}
use pafs_backend_api.External.Proposals.{ProposalItem, external_update_proposal_status}
use pafs_backend_api.External.Proposals.Changes.{proposals-Reaches}
use pafs_backend_api.External.LegacyFix.{fix_legacy_completed}
use pafs_backend_api.External.LegacyFix.Counts.{fix-Reaches}

pub data Request : Type 0 where
  submit :
      (hexdigest legacy_hexdigest : Project → List Row → String) (month : ℕ) (year : ℤ)
      → Credentials
      → Bool
      → String
      → Request
  decide : List ProposalItem → Request
  fix : Bool → List String → Request

module _ (db : ProjectTables) where
  -- The rows after a call, whatever it answers.
  unfoldable pub serve : Request → db.Rows → db.Rows
  unfolding submit_project external_update_proposal_status fix_legacy_completed
  serve (submit hexdigest legacy_hexdigest month year credentials queue_takes raw) t =
      (submit_project db hexdigest legacy_hexdigest month year credentials queue_takes raw t).rows
  serve (decide items) t = (external_update_proposal_status db items t).1.1
  serve (fix enabled rs) t = (fix_legacy_completed db enabled rs t).1

  abbrev pub serve_all : List Request → db.Rows → db.Rows
  serve_all [] t = t
  serve_all (r ∷ rs) t = serve_all rs (serve r t)

  refused-Reaches :
      (k : ℕ) (t : db.Rows) (result : SubmitResult db)
      → IsRefused db t result
      → Reaches (db.state_of k t) (db.state_of k result.rows)
  refused-Reaches k t result h = Reaches-same (ap (db.state_of k) h.rows)

  submitted-Reaches :
      (k : ℕ) (c : Credentials) (queue_takes : Bool) (r : String) (t : db.Rows)
      (result : SubmitResult db)
      → IsSubmitted db c queue_takes r t result k
      → Reaches (db.state_of k t) (db.state_of k result.rows)
  submitted-Reaches k c queue_takes r t result h =
      let state = db.load_project-state_of r t h.loaded in
      Reaches-write k h.found.id (λ j. db.state_of j t)
        (submission h.found.is_legacy h.found.is_revised (rw (sym state) h.editable) refl) h.states

  serve-Reaches :
      (k : ℕ) (r : Request) (t : db.Rows) → Reaches (db.state_of k t) (db.state_of k (serve r t))
  unfolding serve
  serve-Reaches k (submit d l month year c queue_takes raw) t =
      elim (submit_project-outcome db queue_takes d l month year c k raw t) [
        | inl h ↦ refused-Reaches k t (submit_project db d l month year c queue_takes raw t) h
        | inr h ↦
            submitted-Reaches k c queue_takes (dashes_to_slashes raw) t
              (submit_project db d l month year c queue_takes raw t) h
      ]
  serve-Reaches k (decide items) t = proposals-Reaches db k items t
  serve-Reaches k (fix enabled rs) t = fix-Reaches db k enabled rs t

  -- Whatever calls of the submission, of the external status route and of the correction are made,
  -- in any order and with any failure, the state of a proposal changes only by steps of the life
  -- cycle: the routes implement it.
  pub serve_all-Reaches :
      (k : ℕ) (rs : List Request) (t : db.Rows)
      → Reaches (db.state_of k t) (db.state_of k (serve_all rs t))
  serve_all-Reaches k [] t = Reaches-same refl
  serve_all-Reaches k (r ∷ rs) t =
      Reaches-trans (serve-Reaches k r t) (serve_all-Reaches k rs (serve r t))

  -- A proposal that is approved, rejected or archived stays so through any such calls.
  pub serve_all-settled :
      (k : ℕ) (rs : List Request) (t : db.Rows)
      → is_settled (db.state_of k t) ≡ true
      → db.state_of k (serve_all rs t) ≡ db.state_of k t
  serve_all-settled k rs t h = Reaches-settled h (serve_all-Reaches k rs t)
