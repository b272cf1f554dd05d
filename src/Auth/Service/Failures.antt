-- ===== src/Auth/Service/Failures.antt =====
-- What `login` returns and writes where it refuses.
use pafs_backend_api.Prelude.{
  ℕ, ◌+◌, ◌≤◌, ◌<◌, String, ◌≡◌, refl, sym, ◌∙◌, subst, ◌⊎◌, Bool, true, false, some, returned,
  arith,
}
use pafs_backend_api.Auth.User.{User}
use pafs_backend_api.Auth.Store.{Users}
use pafs_backend_api.Auth.Store.Laws.{find_first-email}
use pafs_backend_api.Auth.Config.{AuthConfig}
use pafs_backend_api.Auth.Password.{verify_password}
use pafs_backend_api.Auth.Lockout.{
  should_reset_lockout, is_account_locked, should_disable_account, is_last_attempt,
}
use pafs_backend_api.Auth.Service.{
  Env, refused, login, login_as, find_user_by_email, check_account, checked, check_password,
  handle_invalid_password, handle_failed_attempt, handle_lockout_reset, perform_security_checks,
  should_lock, failure_after, locked_failure, disabled_failure,
}
use pafs_backend_api.Auth.Service.Writes.{
  counting, counting-KeepsKeys, disabling, disabling-KeepsKeys,
}
use pafs_backend_api.Auth.Service.Checks.{
  CanTry, IsSetUp, LockIsOver, lock_ms, inactivity_ms, status_failure-none,
}
use pafs_backend_api.Auth.Service.Success.{login-check_password}

-- The count that the next failure is added to.
unfoldable pub counted : AuthConfig → ℕ → User → ℕ
counted c now u = (handle_lockout_reset c now u).failed_attempts

-- The reset of a lock leaves the rest of the user alone.
pub reset_keeps :
    (c : AuthConfig) (now : ℕ) (u : User)
    → ((handle_lockout_reset c now u).id ≡ u.id)
      × ((handle_lockout_reset c now u).encrypted_password ≡ u.encrypted_password)
unfolding handle_lockout_reset
reset_keeps c now u = ground arith

failure_after-user :
    (c : AuthConfig) (u v : User) (n : ℕ) (lock : Bool)
    → failure_after c u n lock ≡ failure_after c v n lock
unfolding failure_after is_last_attempt
failure_after-user c u v n true = refl
failure_after-user c u v n false = refl

module _ (db : Users) (env : Env) (now : ℕ) (password ip_address session_id : String) (k : ℕ)
    (t : db.Rows) {u : User} (found : db.find k t ≡ some u) where
  open env use {bcrypt, config}

  abbrev attempts : ℕ
  attempts = counted config now u + 1

  abbrev failing : User → User
  failing = counting attempts ip_address (should_lock config attempts) now

  check_password-refused :
      {t' : db.Rows}
      → verify_password bcrypt password u.encrypted_password ≡ false
      → db.update k failing t ≡ some t'
      → check_password db env now
          (handle_lockout_reset config now u)
          password
          ip_address
          session_id
          t
        ≡ returned (refused (failure_after config u attempts (should_lock config attempts))) t'
  unfolding check_password handle_invalid_password handle_failed_attempt counted
  check_password-refused {t'} m written =
      let here =
        subst (λ i. db.update i failing t ≡ some t') (sym (db.find-id k t found)) written in
      ground (
        arith,
        here,
        reset_keeps config now u,
        failure_after-user config (handle_lockout_reset config now u) u attempts
            (should_lock config attempts),
      )

  -- A wrong password is counted in the row, and refused.
  pub login-refused :
      CanTry config now u
      → verify_password bcrypt password u.encrypted_password ≡ false
      → (t' : db.Rows) × (login db env now u.email password ip_address session_id t
          ≡ returned (refused (failure_after config u attempts (should_lock config attempts))) t')
        × (db.update k failing t ≡ some t')
  login-refused h m =
      let (t', written) =
        db.update-found k failing t
          (counting-KeepsKeys attempts ip_address (should_lock config attempts) now) found in
      (
        t',
        login-check_password db env now password ip_address session_id k t found h
            ∙ check_password-refused m written,
        written,
      )

  -- Where locking is on, an account that is set up and enabled, and whose lock has not run out, is
  -- answered as locked whatever the password, and nothing is written.
  pub login-locked :
      {l : ℕ}
      → IsSetUp u.status
      → u.disabled ≡ false
      → config.locking_enabled ≡ true
      → u.locked_at ≡ some l
      → now < l + lock_ms config
      → login db env now u.email password ip_address session_id t
        ≡ returned (refused locked_failure) t
  unfolding login login_as find_user_by_email check_account checked perform_security_checks
      should_reset_lockout is_account_locked
  login-locked {l} h e on at w =
      ground (arith, find_first-email db k t found, status_failure-none u.status h)

  -- An account whose earlier sign-in is too long ago is disabled, whatever the password.
  pub login-inactive :
      {s : ℕ}
      → IsSetUp u.status
      → u.disabled ≡ false
      → (config.locking_enabled ≡ false) ⊎ LockIsOver config now u.locked_at
      → config.disabling_enabled ≡ true
      → u.last_sign_in_at ≡ some s
      → s + inactivity_ms config ≤ now
      → (t' : db.Rows) × (login db env now u.email password ip_address session_id t
          ≡ returned (refused disabled_failure) t')
        × (db.update k disabling t ≡ some t')
  unfolding login login_as find_user_by_email check_account checked perform_security_checks
      should_reset_lockout is_account_locked should_disable_account
  login-inactive h e lock on at w =
      let (t', written) = db.update-found k disabling t disabling-KeepsKeys found in
      let here =
        subst (λ i. db.update i disabling t ≡ some t') (sym (db.find-id k t found)) written in
      (
        t',
        ground (arith, find_first-email db k t found, status_failure-none u.status h, here),
        written,
      )
