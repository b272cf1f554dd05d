-- ===== src/Auth/Store/Laws.antt =====
-- What follows from the laws of the users table about a look-up by email.
use pafs_backend_api.Prelude.{
  ℕ, String, ◌≡◌, refl, sym, ◌∙◌, subst, inl, inr, Bool, some, ◌===◌, Option-cases, eq_iff,
}
use pafs_backend_api.Auth.User.{User}
use pafs_backend_api.Auth.Store.{Users, KeepsKeys}

module _ (db : Users) where
  abbrev pub has_email : String → User → Bool
  has_email e u = u.email === e

  -- The row of an address is found by that address.
  pub find_first-email :
      (k : ℕ) (t : db.Rows) {u : User}
      → db.find k t ≡ some u
      → db.find_first (has_email u.email) t ≡ some u
  find_first-email k t {u} found = elim (Option-cases (db.find_first (has_email u.email) t)) [
    | inl missing ↦
        cc (
          db.find_first-none (has_email u.email) k t missing found,
          (eq_iff u.email u.email).1 refl,
        )
    | inr (v, e) ↦
        let same : v.email ≡ u.email = (eq_iff _ _).0 (db.find_first-holds _ t e) in
        let id : v.id ≡ k = db.email_unique v.id k t (db.find_first-find _ t e) found same in
        let again : db.find k t ≡ some v =
          subst (λ i. db.find i t ≡ some v) id (db.find_first-find (has_email u.email) t e) in
        e ∙ sym again ∙ found
  ]

  -- A write that keeps the unique columns leaves the row findable by its address.
  pub find_first-update :
      (k : ℕ) (patch : User → User) (t : db.Rows) {t' : db.Rows} {u : User}
      → KeepsKeys patch
      → db.update k patch t ≡ some t'
      → db.find k t ≡ some u
      → db.find_first (has_email u.email) t' ≡ some (patch u)
  find_first-update k patch t {t'} {u} keeps written found =
      subst (λ e. db.find_first (has_email e) t' ≡ some (patch u)) (keeps.email u)
        (find_first-email k t' (db.find-update_self k patch t written found))
