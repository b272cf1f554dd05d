-- ===== src/Auth/Reset/Laws.antt =====
-- A reset token is good for one reset, also where two requests race, and the account can then be
-- signed in to with the new password.
use pafs_backend_api.Prelude.{
  ℕ, ◌≡◌, ◌≢◌, refl, sym, ap, ◌∙◌, subst, String, false, List, Option, some, holds_text, returned,
  after, value, inr, arith, eq_iff, ◌⊎◌,
}
use pafs_backend_api.Auth.User.{User}
use pafs_backend_api.Auth.Store.{Users}
use pafs_backend_api.Auth.Password.{hash_password}
use pafs_backend_api.Auth.Service.{
  Env, SignedIn, token_expired_or_invalid, reset_token_expired_or_invalid, login, signed_in,
  signed_in_response,
}
use pafs_backend_api.Auth.Service.Checks.{IsRecent, IsSetUp}
use pafs_backend_api.Auth.Service.Success.{login-signed_in}
use pafs_backend_api.Auth.Token.{is_token_expired, validate_token}
use pafs_backend_api.Auth.Reset.{
  resetting, changed, rejected, ok, bad_request, store_password, reset_password_handler,
}
use pafs_backend_api.Auth.Reset.Steps.{
  IsFresh, store_password-changed, handler-reset, find_first-cleared, verify_password-hash_password,
}

-- A reset token works once. A reset with an unexpired token of an enabled account, to a password
-- that is neither the current nor a recent one, succeeds; then the same token is refused at any
-- time and with any password, and the second request writes nothing.
pub reset_once :
    (db : Users) (env : Env) (hash_token : String → String)
    (old_passwords old_passwords' : ℕ → ℕ → Option (List String)) (now later k : ℕ)
    (token password salt password' salt' : String) (olds : List String) (t : db.Rows) (u : User)
    → db.find k t ≡ some u
    → token ≢ ""
    → u.reset_password_token ≡ some (hash_token token)
    → u.disabled ≡ false
    → is_token_expired now u.reset_password_sent_at env.config.reset_expiry_hours ≡ false
    → old_passwords k env.config.history_limit ≡ some olds
    → IsFresh env olds password u
    → let first =
        reset_password_handler db env hash_token old_passwords now token password salt t in
      let second =
        reset_password_handler db env hash_token old_passwords' later token password' salt'
          (after first) in
      (value first ≡ some ok)
      × (second ≡ returned (bad_request reset_token_expired_or_invalid) (after first))
unfolding reset_password_handler validate_token resetting
reset_once db env hash_token old_passwords old_passwords' now later k token password salt password'
      salt' olds t u found given held enabled timely history fresh =
    let (t', e, stored, others) =
      handler-reset db env hash_token old_passwords now k token t found given held password salt
        olds enabled timely history fresh in
    let gone = find_first-cleared db k (hash_token token) t t' found held stored refl others in
    let second : reset_password_handler db env hash_token old_passwords' later token password' salt'
          t'
        ≡ returned (bad_request reset_token_expired_or_invalid) t' =
      ground (arith, gone) in
    (
      ap value e,
      subst
          (λ o.
            reset_password_handler db env hash_token old_passwords' later token password' salt'
              (after o)
            ≡ returned (bad_request reset_token_expired_or_invalid) (after o))
          (sym e) second,
    )

-- Two requests that race with one token: where both have passed the validation of the token and the
-- checks of the password, the one that writes second changes nothing and is told that the token is
-- gone.
pub racing_reset_refused :
    (db : Users) (env : Env) (hash_token : String → String)
    (old_passwords old_passwords' : ℕ → ℕ → Option (List String)) (now later k : ℕ)
    (token password salt password' salt' : String) (t : db.Rows) (u : User)
    → db.find k t ≡ some u
    → token ≢ ""
    → u.reset_password_token ≡ some (hash_token token)
    → let first =
        store_password db env hash_token old_passwords now k password salt (some token) t in
      let second =
        store_password db env hash_token old_passwords' later k password' salt'
          (some token)
          (after first) in
      (value first ≡ some changed)
      × (second ≡ returned (rejected token_expired_or_invalid) (after first))
unfolding store_password resetting
racing_reset_refused db env hash_token old_passwords old_passwords' now later k token password salt
      password' salt' t u found given held =
    let (t', e, stored, others) =
      store_password-changed db env hash_token old_passwords now k token t found given held password
        salt in
    let missed =
      db.update_where-missed k (λ v. holds_text v.reset_password_token (hash_token token))
        (resetting (hash_password env.bcrypt salt' password') later) t' stored refl in
    let second : store_password db env hash_token old_passwords' later k password' salt'
          (some token) t'
        ≡ returned (rejected token_expired_or_invalid) t' =
      ground (arith, missed, given, eq_iff token "") in
    (
      ap value e,
      subst
          (λ o.
            store_password db env hash_token old_passwords' later k password' salt' (some token)
              (after o)
            ≡ returned (rejected token_expired_or_invalid) (after o))
          (sym e) second,
    )

-- A reset restores the access: whatever failed attempts and lock the row had, after it the account
-- signs in with the new password, if it is set up and was not left inactive too long.
pub reset_then_login :
    (db : Users) (env : Env) (hash_token : String → String)
    (old_passwords : ℕ → ℕ → Option (List String)) (now later k : ℕ)
    (token password salt ip_address session_id : String) (olds : List String) (t : db.Rows)
    (u : User)
    → db.find k t ≡ some u
    → token ≢ ""
    → u.reset_password_token ≡ some (hash_token token)
    → u.disabled ≡ false
    → is_token_expired now u.reset_password_sent_at env.config.reset_expiry_hours ≡ false
    → old_passwords k env.config.history_limit ≡ some olds
    → IsFresh env olds password u
    → IsSetUp u.status
    → (env.config.disabling_enabled ≡ false) ⊎ IsRecent env.config later u.last_sign_in_at
    → let first =
        reset_password_handler db env hash_token old_passwords now token password salt t in
      (s : SignedIn) × (value
          (login db env later u.email password ip_address session_id (after first))
        ≡ some (signed_in s))
unfolding resetting
reset_then_login db env hash_token old_passwords now later k token password salt ip_address
      session_id olds t u found given held enabled timely history fresh set_up recent =
    let (t', e, stored, others) =
      handler-reset db env hash_token old_passwords now k token t found given held password salt
        olds enabled timely history fresh in
    let v = resetting (hash_password env.bcrypt salt password) now u in
    let (t'', e', written) =
      login-signed_in db env later password ip_address session_id k t' {u = v} stored
        (record { set_up = set_up; enabled = enabled; unlocked = inr tt; recent = recent })
        (verify_password-hash_password env salt password) in
    (
      signed_in_response env v session_id,
      ap (λ o. value (login db env later u.email password ip_address session_id (after o))) e
          ∙ ap value e',
    )
