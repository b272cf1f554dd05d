-- ===== src/Auth/Service/Success.antt =====
-- When `login` signs a user in, and what it then writes.
use pafs_backend_api.Prelude.{
  ℕ, String, ◌≡◌, refl, ◌∙◌, ◌↔◌, inl, inr, true, Option, none, some, Bool-cases, Outcome, returned,
  threw, arith,
}
use pafs_backend_api.Auth.User.{User}
use pafs_backend_api.Auth.Store.{Users}
use pafs_backend_api.Auth.Store.Laws.{find_first-email}
use pafs_backend_api.Auth.Password.{verify_password}
use pafs_backend_api.Auth.Lockout.{should_reset_lockout}
use pafs_backend_api.Auth.Service.{
  Env, SignedIn, signed_in, login, login_as, find_user_by_email, checked, handle_invalid_password,
  handle_failed_attempt, perform_security_checks, Failure, check_account, check_password,
  handle_lockout_reset, signed_in_response, create_successful_login_response,
}
use pafs_backend_api.Auth.Service.Writes.{signing_in, signing_in-KeepsKeys}
use pafs_backend_api.Auth.Service.Checks.{
  CanTry, IsSetUp, perform_security_checks-CanTry, status_failure-none,
  perform_security_checks-passes,
}

module _ (db : Users) (env : Env) (now : ℕ) (password ip_address session_id : String) (k : ℕ)
    (t : db.Rows) {u : User} (found : db.find k t ≡ some u) where
  open env use {bcrypt, config}

  -- An account that can be tried comes to the password test, with its expired lock reset.
  pub login-check_password :
      CanTry config now u
      → login db env now u.email password ip_address session_id t
        ≡ check_password db env now
            (handle_lockout_reset config now u)
            password
            ip_address
            session_id
            t
  unfolding login find_user_by_email login_as check_account checked
  login-check_password h = ground (
    arith,
    find_first-email db k t found,
    status_failure-none u.status h.set_up,
    perform_security_checks-passes db config now u t h,
  )

  -- The write of a sign-in, on the row of the account.
  abbrev signing : User → User
  signing = signing_in session_id ip_address u.current_sign_in_at u.current_sign_in_ip now

  check_password-signed_in :
      {t' : db.Rows}
      → verify_password bcrypt password u.encrypted_password ≡ true
      → db.update k signing t ≡ some t'
      → check_password db env now
          (handle_lockout_reset config now u)
          password
          ip_address
          session_id
          t
        ≡ returned (signed_in (signed_in_response env u session_id)) t'
  unfolding check_password handle_lockout_reset create_successful_login_response signed_in_response
  check_password-signed_in m written =
      let id = db.find-id k t found in
      elim (Bool-cases (should_reset_lockout config now u)) [
        | inl e ↦ rw (e, m, id, written)
        | inr e ↦ rw (e, m, id, written)
      ]

  -- With the right password it is signed in, and its row is the one that a sign-in writes.
  pub login-signed_in :
      CanTry config now u
      → verify_password bcrypt password u.encrypted_password ≡ true
      → (t' : db.Rows) × (login db env now u.email password ip_address session_id t
          ≡ returned (signed_in (signed_in_response env u session_id)) t')
        × (db.update k signing t ≡ some t')
  login-signed_in h m =
      let (t', written) =
        db.update-found k signing t
          (signing_in-KeepsKeys session_id ip_address u.current_sign_in_at u.current_sign_in_ip now)
          found in
      (t', login-check_password h ∙ check_password-signed_in m written, written)

  -- A password that does not match signs nobody in.
  check_password-matches :
      (v : User) {s : SignedIn} {t' : db.Rows} (t₁ : db.Rows)
      → check_password db env now v password ip_address session_id t₁ ≡ returned (signed_in s) t'
      → verify_password bcrypt password v.encrypted_password ≡ true
  unfolding check_password handle_invalid_password handle_failed_attempt
  check_password-matches v t₁ e = ground arith

  after_checks :
      {s : SignedIn} {t' : db.Rows} (o : Outcome db.Rows (User × Option Failure))
      → IsSetUp u.status
      → perform_security_checks db config now u t ≡ o
      → checked db env now password ip_address session_id o ≡ returned (signed_in s) t'
      → CanTry config now u × (verify_password bcrypt password u.encrypted_password ≡ true)
  unfolding checked handle_lockout_reset
  after_checks (returned (v, none) t₁) h e r =
      let (can, reset, _) = perform_security_checks-CanTry db config now u t h e in
      (can, ground (arith, check_password-matches v t₁ r))
  after_checks (returned (v, some f) t₁) h e r = cc
  after_checks (threw t₁) h e r = cc

  login-CanTry :
      {s : SignedIn} {t' : db.Rows}
      → login db env now u.email password ip_address session_id t ≡ returned (signed_in s) t'
      → CanTry config now u × (verify_password bcrypt password u.encrypted_password ≡ true)
  unfolding login login_as check_account find_user_by_email
  login-CanTry {s} {t'} r =
      let h : IsSetUp u.status = ground (arith, find_first-email db k t found) in
      after_checks {s = s} {t' = t'} (perform_security_checks db config now u t) h refl
        (ground (arith, find_first-email db k t found, status_failure-none u.status h))

  -- With the address of a stored row, `login` signs in exactly when the account is set up, enabled,
  -- not locked and not inactive, and the password verifies against the row's hash.
  pub login-signed_in_iff :
      ((s : SignedIn) × (t' : db.Rows) × (login db env now u.email password ip_address session_id t
          ≡ returned (signed_in s) t'))
      ↔ (CanTry config now u × (verify_password bcrypt password u.encrypted_password ≡ true))
  login-signed_in_iff = (
    λ r. login-CanTry r.2,
    λ h. let (t', e, _) = login-signed_in h.0 h.1 in (signed_in_response env u session_id, t', e),
  )
