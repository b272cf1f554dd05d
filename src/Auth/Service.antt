-- ===== src/Auth/Service.antt =====
-- src/plugins/auth/services/auth-service.js: sign-in, sign-out and refresh. A method takes the rows
-- of the users table and returns an `Outcome` over them. The calls of the logger are left out, and
-- `now` is the time of the request.
pub mod Writes
pub mod Checks
pub mod Success
pub mod Failures
pub mod Attempts
pub mod Locking
pub mod Inactivity
use pafs_backend_api.Prelude.{
  ℕ, ◌+◌, String, Bool, true, false, not, ◌&&◌, List, [], ◌∷◌, Option, none, some, leb, ◌===◌,
  holds_text, if◌then◌else◌, Outcome, returned, threw, attempt, then_run,
}
use pafs_backend_api.Auth.User.{AccountStatus, pending, approved, active, other_status, User}
use pafs_backend_api.Auth.Store.{Users}
use pafs_backend_api.Auth.Config.{AuthConfig}
use pafs_backend_api.Auth.Areas.{UserArea, AreaTypeFlags, get_area_type_flags}
use pafs_backend_api.Auth.Password.{Bcrypt, verify_password}
use pafs_backend_api.Auth.Jwt.{Jwt, generate_access_token, generate_refresh_token}
use pafs_backend_api.Auth.Lockout.{
  should_reset_lockout, is_account_locked, should_disable_account, is_last_attempt,
}
use Writes.{disabling, counting, signing_in}

-- AUTH_ERROR_CODES
pub data ErrorCode : Type 0 where
  account_pending account_setup_incomplete invalid_credentials account_disabled : ErrorCode
  account_support account_locked account_support_unlock last_attempt_warning : ErrorCode
  account_not_found session_mismatch token_expired_or_invalid : ErrorCode
  reset_token_expired_or_invalid invitation_token_expired_or_invalid : ErrorCode
  password_was_used_previously session_already_invalidated : ErrorCode

pub record Failure : Type 0 where
  pub error_code : ErrorCode
  pub support_code : Option ErrorCode
  pub warning_code : Option ErrorCode

pub record UserResponse : Type 0 where
  pub id : ℕ
  pub email : String
  pub first_name : String
  pub last_name : String
  pub admin : Bool
  pub areas : List UserArea
  pub flags : AreaTypeFlags

-- What the service is built with: the libraries, the settings, fetchUserAreas.
pub record Env : Type 0 where
  pub bcrypt : Bcrypt
  pub jwt : Jwt
  pub config : AuthConfig
  pub fetch_areas : ℕ → List UserArea

pub record SignedIn : Type 0 where
  pub user : UserResponse
  pub access_token : String
  pub refresh_token : String
  pub expires_in : String

pub data SignIn : Type 0 where
  signed_in : SignedIn → SignIn
  refused : Failure → SignIn

abbrev pub failure : ErrorCode → Failure
failure e = record { error_code = e; support_code = none; warning_code = none }

abbrev pub disabled_failure : Failure
disabled_failure = record (failure account_disabled) { support_code = some account_support }

abbrev pub locked_failure : Failure
locked_failure = record (failure account_locked) { support_code = some account_support_unlock }

abbrev pub last_attempt_failure : Failure
last_attempt_failure = record (failure invalid_credentials) {
  warning_code = some last_attempt_warning;
}

unfoldable pub build_user_response : User → List UserArea → UserResponse
build_user_response user areas = record {
  id = user.id;
  email = user.email;
  first_name = user.first_name;
  last_name = user.last_name;
  admin = user.admin;
  areas = areas;
  flags = get_area_type_flags areas;
}

-- The status test of `login`.
abbrev status_failure : AccountStatus → Option Failure
status_failure pending = some (failure account_pending)
status_failure approved = some (failure account_setup_incomplete)
status_failure active = none
status_failure (other_status s) = none

unfoldable pub check_account_disabled : User → Option Failure
check_account_disabled user = if user.disabled then some disabled_failure else none

module _ (c : AuthConfig) (now : ℕ) where
  -- the assignment to the user object in memory
  unfoldable pub handle_lockout_reset : User → User
  handle_lockout_reset user =
      if should_reset_lockout c now user
      then record user { failed_attempts = 0; locked_at = none }
      else user

  unfoldable pub check_account_locked : User → Option Failure
  check_account_locked user = if is_account_locked c now user then some locked_failure else none

unfoldable pub should_lock : AuthConfig → ℕ → Bool
should_lock c new_failed_attempts = c.locking_enabled && leb c.max_attempts new_failed_attempts

unfoldable pub failure_after : AuthConfig → User → ℕ → Bool → Failure
failure_after c user attempts true = locked_failure
failure_after c user attempts false =
    if is_last_attempt c (record user { failed_attempts = attempts })
    then last_attempt_failure
    else failure invalid_credentials

module _ (db : Users) where
  unfoldable pub disable_account : ℕ → db.Rows → Option db.Rows
  disable_account user_id t = db.update user_id disabling t

  unfoldable pub find_user_by_email : String → db.Rows → Option User
  find_user_by_email email t = db.find_first (λ u. u.email === email) t

  module _ (c : AuthConfig) (now : ℕ) where
    unfoldable pub check_account_inactivity : User → db.Rows → Outcome db.Rows (Option Failure)
    unfolding disable_account
    check_account_inactivity user t =
        if should_disable_account c now user
        then attempt t (disable_account user.id t) (λ t'. returned (some disabled_failure) t')
        else returned none t

    -- The checks that follow the reset of an expired lock, on the changed user.
    unfoldable pub check_reset_user : User → db.Rows → Outcome db.Rows (User × Option Failure)
    unfolding check_account_inactivity check_account_locked
    check_reset_user user t = elim (check_account_locked c now user) [
      | some error ↦ returned (user, some error) t
      | none ↦ then_run (check_account_inactivity user t) (λ e t'. returned (user, e) t')
    ]

    unfoldable pub perform_security_checks :
        User → db.Rows → Outcome db.Rows (User × Option Failure)
    unfolding check_account_disabled handle_lockout_reset check_reset_user
    perform_security_checks user t = elim (check_account_disabled user) [
      | some error ↦ returned (user, some error) t
      | none ↦ check_reset_user (handle_lockout_reset c now user) t
    ]

    unfoldable pub handle_failed_attempt : User → String → db.Rows → Outcome db.Rows (ℕ × Bool)
    unfolding should_lock
    handle_failed_attempt user ip_address t =
        let attempts = user.failed_attempts + 1 in
        let lock = should_lock c attempts in
        attempt t (db.update user.id (counting attempts ip_address lock now) t)
          (λ t'. returned (attempts, lock) t')

    unfoldable pub handle_invalid_password : User → String → db.Rows → Outcome db.Rows SignIn
    handle_invalid_password user ip_address t =
        then_run (handle_failed_attempt user ip_address t)
          (λ r t'. returned (refused (failure_after c user r.0 r.1)) t')

unfoldable pub signed_in_response : Env → User → String → SignedIn
unfolding build_user_response generate_access_token generate_refresh_token
signed_in_response env user session_id =
    let areas = env.fetch_areas user.id in
    record {
      user = build_user_response user areas;
      access_token = generate_access_token env.jwt user session_id areas;
      refresh_token = generate_refresh_token env.jwt user session_id;
      expires_in = env.config.access_expires_in;
    }

-- `now` is the time of the request, and `session_id` what generateSessionId draws.
module _ (db : Users) (env : Env) (now : ℕ) where
  open env use {bcrypt, config}

  -- The areas are fetched before the write, the tokens signed after it.
  unfoldable pub create_successful_login_response :
      User → String → String → db.Rows → Outcome db.Rows SignIn
  create_successful_login_response user ip_address session_id t =
      attempt t
        (db.update user.id
          (signing_in session_id ip_address user.current_sign_in_at user.current_sign_in_ip now) t)
        (λ t'. returned (signed_in (signed_in_response env user session_id)) t')

  -- The password test of `login`, once the checks have passed.
  unfoldable pub check_password : User → String → String → String → db.Rows → Outcome db.Rows SignIn
  check_password user password ip_address session_id t =
      if verify_password bcrypt password user.encrypted_password
      then create_successful_login_response user ip_address session_id t
      else handle_invalid_password db config now user ip_address t

  -- What `login` does with the result of the checks.
  unfoldable pub checked :
      String → String → String → Outcome db.Rows (User × Option Failure) → Outcome db.Rows SignIn
  checked password ip_address session_id o = then_run o (λ r t'. elim r.1 [
    | some error ↦ returned (refused error) t'
    | none ↦ check_password r.0 password ip_address session_id t'
  ])

  unfoldable pub check_account : User → String → String → String → db.Rows → Outcome db.Rows SignIn
  check_account user password ip_address session_id t =
      checked password ip_address session_id (perform_security_checks db config now user t)

  unfoldable pub login_as : User → String → String → String → db.Rows → Outcome db.Rows SignIn
  login_as user password ip_address session_id t = elim (status_failure user.status) [
    | some error ↦ returned (refused error) t
    | none ↦ check_account user password ip_address session_id t
  ]

  -- bcrypt.compare with the dummy hash has no effect on the result, and is left out.
  unfoldable pub login : String → String → String → String → db.Rows → Outcome db.Rows SignIn
  login email password ip_address session_id t = elim (find_user_by_email db email t) [
    | none ↦ returned (refused (failure invalid_credentials)) t
    | some user ↦ login_as user password ip_address session_id t
  ]
