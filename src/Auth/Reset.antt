-- ===== src/Auth/Reset.antt =====
-- src/plugins/auth/services/password-service.js, `resetPassword` and `setInitialPassword`,
-- src/plugins/auth/helpers/password-history.js, and the handlers of
-- src/plugins/auth/password/{reset,set}-password.js. The query of the old passwords is a parameter,
-- `none` where it throws. Archiving the old password is left out: its errors are caught, and it
-- writes no row of the users table.
pub mod Steps
pub mod Laws
mod Tests
use pafs_backend_api.Prelude.{
  ℕ, String, Bool, true, false, not, List, [], ◌∷◌, Option, none, some, ltb, ◌===◌, any, holds_text,
  if◌then◌else◌, Outcome, returned, threw, attempt, then_run,
}
use pafs_backend_api.Auth.User.{User, active}
use pafs_backend_api.Auth.Store.{Users}
use pafs_backend_api.Auth.Password.{hash_password, verify_password}
use pafs_backend_api.Auth.Service.{
  Env, ErrorCode, account_not_found, account_disabled, token_expired_or_invalid,
  password_was_used_previously,
}
use pafs_backend_api.Auth.Token.{
  LinkType, reset, invitation, TokenCheck, valid_token, invalid_token, validate_token,
  accept_invitation,
}

pub data PasswordResult : Type 0 where
  changed : PasswordResult
  rejected : ErrorCode → PasswordResult

-- The answers of the two handlers: 200, 400, 403 and 503.
pub data Reply : Type 0 where
  ok : Reply
  bad_request forbidden : ErrorCode → Reply
  service_unavailable : ErrorCode → Reply

unfoldable pub resetting : String → ℕ → User → User
resetting hashed now u = record u {
  encrypted_password = hashed;
  reset_password_token = none;
  reset_password_sent_at = none;
  failed_attempts = 0;
  locked_at = none;
  unique_session_id = none;
  updated_at = now;
}

unfoldable pub initialising : String → ℕ → User → User
initialising hashed now u = record u {
  encrypted_password = hashed;
  failed_attempts = 0;
  locked_at = none;
  unique_session_id = none;
  status = active;
  updated_at = now;
}

abbrev is_disabled_code : ErrorCode → Bool
is_disabled_code account_disabled = true
is_disabled_code _ = false

abbrev pub reply_of : PasswordResult → Reply
reply_of changed = ok
reply_of (rejected e) = if is_disabled_code e then forbidden e else bad_request e

-- A handler's `catch`.
abbrev caught : {S : Type 0} → Outcome S Reply → Outcome S Reply
caught (returned r s) = returned r s
caught (threw s) = returned (service_unavailable token_expired_or_invalid) s

module _ (db : Users) (env : Env) (hash_token : String → String)
    (old_passwords : ℕ → ℕ → Option (List String)) (now : ℕ) where
  open env use {bcrypt, config}

  unfoldable pub check_password_history : String → List String → Bool
  check_password_history new_password olds =
      if not config.history_enabled
      then false
      else any (λ old. verify_password bcrypt new_password old) olds

  -- `none` for a throw, else whether the password is allowed
  unfoldable pub check_password_reuse : ℕ → String → Option Bool
  unfolding check_password_history
  check_password_reuse user_id new_password =
      if not config.history_enabled
      then some true
      else elim (old_passwords user_id config.history_limit) [
        | none ↦ none
        | some olds ↦ some (not (check_password_history new_password olds))
      ]

  unfoldable pub get_current_password : ℕ → db.Rows → Option String
  get_current_password user_id t = elim (db.find user_id t) [
    | none ↦ none
    | some user ↦ some user.encrypted_password
  ]

  -- `currentPassword` is there, is not empty, and is the new one
  unfoldable pub is_same_as_current : String → Option String → Bool
  is_same_as_current new_password none = false
  is_same_as_current new_password (some current) =
      if current === "" then false else verify_password bcrypt new_password current

  unfoldable pub update_user_password :
      ℕ → String → String → Option String → db.Rows → Outcome db.Rows Bool
  unfolding hash_password
  update_user_password user_id new_password salt none t =
      attempt t (db.update user_id (resetting (hash_password bcrypt salt new_password) now) t)
        (λ t'. returned true t')
  update_user_password user_id new_password salt (some hashed_token) t =
      elim (db.update_where user_id (λ u. holds_text u.reset_password_token hashed_token)
        (resetting (hash_password bcrypt salt new_password) now) t) [
          | none ↦ threw t
          | some r ↦ returned (ltb 0 r.0) r.1
        ]

  abbrev hashed_of : Option String → Option String
  hashed_of none = none
  hashed_of (some raw) = if raw === "" then none else some (hash_token raw)

  unfoldable pub store_password :
      ℕ → String → String → Option String → db.Rows → Outcome db.Rows PasswordResult
  unfolding update_user_password
  store_password user_id new_password salt raw_token t =
      then_run (update_user_password user_id new_password salt (hashed_of raw_token) t)
        (λ updated t'. returned (if updated then changed else rejected token_expired_or_invalid) t')

  unfoldable pub reset_password :
      ℕ → String → String → Option String → db.Rows → Outcome db.Rows PasswordResult
  unfolding check_password_reuse get_current_password is_same_as_current store_password
  reset_password user_id new_password salt raw_token t =
      if is_same_as_current new_password (get_current_password user_id t)
      then returned (rejected password_was_used_previously) t
      else elim (check_password_reuse user_id new_password) [
        | none ↦ threw t
        | some allowed ↦
            if allowed
            then store_password user_id new_password salt raw_token t
            else returned (rejected password_was_used_previously) t
      ]

  unfoldable pub set_initial_password :
      ℕ → String → String → db.Rows → Outcome db.Rows PasswordResult
  set_initial_password user_id new_password salt t = elim (db.find user_id t) [
    | none ↦ returned (rejected account_not_found) t
    | some user ↦
        if user.disabled
        then returned (rejected account_disabled) t
        else attempt t
            (db.update user_id (initialising (hash_password bcrypt salt new_password) now) t)
            (λ t'. returned changed t')
  ]

  abbrev reset_checked : String → String → String → TokenCheck → db.Rows → Outcome db.Rows Reply
  reset_checked token password salt (invalid_token e) t = returned (bad_request e) t
  reset_checked token password salt (valid_token user_id email) t =
      then_run (reset_password user_id password salt (some token) t)
        (λ r t'. returned (reply_of r) t')

  unfoldable pub reset_password_handler : String → String → String → db.Rows → Outcome db.Rows Reply
  unfolding validate_token reset_password
  reset_password_handler token password salt t = caught (
      then_run (validate_token db config hash_token now token reset t)
        (λ check t'. reset_checked token password salt check t'))

  abbrev accepted : ℕ → PasswordResult → db.Rows → Outcome db.Rows Reply
  accepted user_id (rejected e) t = returned (reply_of (rejected e)) t
  accepted user_id changed t =
      attempt t (accept_invitation db config hash_token now user_id t) (λ t'. returned ok t')

  abbrev set_checked : String → String → TokenCheck → db.Rows → Outcome db.Rows Reply
  set_checked password salt (invalid_token e) t = returned (bad_request e) t
  set_checked password salt (valid_token user_id email) t =
      then_run (set_initial_password user_id password salt t) (accepted user_id)

  unfoldable pub set_password_handler : String → String → String → db.Rows → Outcome db.Rows Reply
  unfolding validate_token set_initial_password accept_invitation
  set_password_handler token password salt t = caught (
      then_run (validate_token db config hash_token now token invitation t)
        (λ check t'. set_checked password salt check t'))
