-- ===== src/Auth/Reset/Steps.antt =====
-- What a password reset finds and what it writes.
use pafs_backend_api.Prelude.{
  ℕ, ◌≡◌, ◌≢◌, refl, sym, ◌∙◌, subst, String, true, false, List, Option, none, some, any,
  holds_text, returned, Option-cases, inl, inr, arith, eq_iff,
}
use pafs_backend_api.Auth.User.{User}
use pafs_backend_api.Auth.Store.{Users, KeepsKeys}
use pafs_backend_api.Auth.Password.{hash_password, verify_password}
use pafs_backend_api.Auth.Service.{Env}
use pafs_backend_api.Auth.Session.Rotation.{holds_text_iff}
use pafs_backend_api.Auth.Token.{is_token_expired, check_reset_row, validate_token}
use pafs_backend_api.Auth.Reset.{
  resetting, changed, ok, check_password_history, check_password_reuse, get_current_password,
  is_same_as_current, store_password, reset_password, reset_password_handler,
}

pub resetting-KeepsKeys : (hashed : String) (now : ℕ) → KeepsKeys (resetting hashed now)
unfolding resetting
resetting-KeepsKeys hashed now = record {
  id = λ u. refl;
  email = λ u. refl;
  reset_token = λ u. inr refl;
  invitation_token = λ u. inl refl;
}

-- A password that the reset takes: it is not the current one, nor one of the recent ones.
pub record IsFresh (env : Env) (olds : List String) (password : String) (u : User) : Type 0 where
  pub current : verify_password env.bcrypt password u.encrypted_password ≡ false
  pub recent : any (λ old. verify_password env.bcrypt password old) olds ≡ false

module _ (db : Users) (env : Env) (hash_token : String → String)
    (old_passwords : ℕ → ℕ → Option (List String)) (now k : ℕ) (token : String) (t : db.Rows)
    {u : User} (found : db.find k t ≡ some u) (given : token ≢ "")
    (held : u.reset_password_token ≡ some (hash_token token)) where
  find_first-token :
      db.find_first (λ v. holds_text v.reset_password_token (hash_token token)) t ≡ some u
  find_first-token =
      let p = λ (v : User). holds_text v.reset_password_token (hash_token token) in
      elim (Option-cases (db.find_first p t)) [
        | inl missing ↦ cc (
          db.find_first-none p k t missing found,
          (holds_text_iff u.reset_password_token (hash_token token)).1 held,
        )
        | inr (v, e) ↦
            let same : v.reset_password_token ≡ some (hash_token token) =
              (holds_text_iff _ _).0 (db.find_first-holds p t e) in
            let here = db.find_first-find p t e in
            let id : v.id ≡ k = db.reset_token_unique v.id k t here found same held in
            e ∙ sym (subst (λ i. db.find i t ≡ some v) id here) ∙ found
      ]

  -- The write of the password takes the token from the row.
  pub store_password-changed :
      (password salt : String)
      → (t' : db.Rows) × (store_password db env hash_token old_passwords now k password salt
            (some token)
            t
          ≡ returned changed t')
        × (db.find k t' ≡ some (resetting (hash_password env.bcrypt salt password) now u))
        × ((j : ℕ) → j ≢ k → db.find j t' ≡ db.find j t)
  unfolding store_password
  store_password-changed password salt =
      let patch = resetting (hash_password env.bcrypt salt password) now in
      let (t', e, stored, others) =
        db.update_where-found k (λ v. holds_text v.reset_password_token (hash_token token)) patch t
          (resetting-KeepsKeys _ now) found
          ((holds_text_iff u.reset_password_token (hash_token token)).1 held) in
      (t', ground (arith, e, given, eq_iff token ""), stored, others)

  pub handler-reset :
      (password salt : String) (olds : List String)
      → u.disabled ≡ false
      → is_token_expired now u.reset_password_sent_at env.config.reset_expiry_hours ≡ false
      → old_passwords k env.config.history_limit ≡ some olds
      → IsFresh env olds password u
      → (t' : db.Rows) × (reset_password_handler db env hash_token old_passwords now token password
            salt t
          ≡ returned ok t')
        × (db.find k t' ≡ some (resetting (hash_password env.bcrypt salt password) now u))
        × ((j : ℕ) → j ≢ k → db.find j t' ≡ db.find j t)
  unfolding reset_password_handler validate_token check_reset_row reset_password
      check_password_reuse check_password_history get_current_password is_same_as_current
  handler-reset password salt olds enabled timely history fresh =
      let (t', e, stored, others) = store_password-changed password salt in
      let id : u.id ≡ k = db.find-id k t found in
      let first = find_first-token in
      (
        t',
        ground (arith, first, id, found, enabled, timely, history, fresh.current, fresh.recent, e),
        stored,
        others,
      )

pub verify_password-hash_password :
    (env : Env) (salt password : String)
    → verify_password env.bcrypt password (hash_password env.bcrypt salt password) ≡ true
unfolding verify_password hash_password
verify_password-hash_password env salt password =
    ground (arith, env.bcrypt.hash-prefix salt password, env.bcrypt.compare-hash salt password)

-- After a reset no row has the token.
module _ (db : Users) (k : ℕ) (hashed : String) (t t' : db.Rows) {u v : User}
    (found : db.find k t ≡ some u) (held : u.reset_password_token ≡ some hashed)
    (stored : db.find k t' ≡ some v) (cleared : v.reset_password_token ≡ none)
    (others : (j : ℕ) → j ≢ k → db.find j t' ≡ db.find j t) where
  pub find_first-cleared : db.find_first (λ w. holds_text w.reset_password_token hashed) t' ≡ none
  find_first-cleared =
      let p = λ (w : User). holds_text w.reset_password_token hashed in
      elim (Option-cases (db.find_first p t')) [
        | inl e ↦ e
        | inr (w, e) ↦
            let same : w.reset_password_token ≡ some hashed =
              (holds_text_iff _ _).0 (db.find_first-holds p t' e) in
            let here = db.find_first-find p t' e in
            let other : w.id ≢ k = λ id.
              let again : some w ≡ some v =
                sym (subst (λ i. db.find i t' ≡ some w) id here) ∙ stored in
              ground (arith, again, same, cleared) in
            absurd (
              other
                (db.reset_token_unique w.id k t (sym (others w.id other) ∙ here) found same held))
      ]
