-- ===== src/JwtAuth/Validate.antt =====
-- src/plugins/jwt/jwt-auth.js, `validate` and what it calls. The read of the user's row is a
-- parameter, `none` for a query that throws. Each code of an invalid result is also what
-- `request.app.jwtErrorCode` is set to. `now` is the time of the request.
pub mod Keeps
pub mod Laws
pub mod Window
use pafs_backend_api.Prelude.{
  ℕ, String, Bool, true, false, ◌||◌, Option, none, some, ◌==◌, ◌===◌, is_some, holds_text,
  if◌then◌else◌, List,
}
use pafs_backend_api.Auth.User.{User}
use pafs_backend_api.Auth.Areas.{UserArea, get_area_type_flags}
use pafs_backend_api.Auth.Jwt.{Payload}
use pafs_backend_api.Auth.Service.{
  ErrorCode, account_not_found, account_disabled, account_locked, session_mismatch,
  token_expired_or_invalid,
}
use pafs_backend_api.JwtAuth.Cache.{
  AuthCache, Credentials, get, set, get_session_version, set_session_version, invalidate,
}

pub data Validation : Type 0 where
  valid : Credentials → Validation
  invalid : ErrorCode → Validation

-- `isValid`
abbrev pub is_valid : Validation → Bool
is_valid (valid r) = true
is_valid (invalid e) = false

-- A claim that the token lacks is 0 or the empty text here; both are falsy too.
unfoldable pub check_decoded : Payload → Option ErrorCode
check_decoded decoded =
    if decoded.user_id == 0 || decoded.session_id === ""
    then some token_expired_or_invalid
    else none

unfoldable pub check_user_status : User → Payload → Option ErrorCode
check_user_status user decoded =
    if user.disabled
    then some account_disabled
    else if is_some user.locked_at
    then some account_locked
    else if holds_text user.unique_session_id decoded.session_id
    then none
    else some session_mismatch

unfoldable pub build_credentials : User → Payload → List UserArea → Credentials
build_credentials user decoded areas = record {
  user_id = user.id;
  email = user.email;
  first_name = user.first_name;
  last_name = user.last_name;
  is_admin = user.admin;
  session_id = decoded.session_id;
  areas = areas;
  flags = get_area_type_flags areas;
}

-- `checkUserStatus` has passed: both caches are filled
unfoldable pub accept : ℕ → User → Payload → AuthCache → Validation × AuthCache
accept now user decoded cache =
    let result = build_credentials user decoded decoded.areas in
    (
      valid result,
      set_session_version now decoded.user_id (some decoded.session_id)
          (set now decoded.user_id decoded.session_id result cache),
    )

abbrev pub mismatch_unless : Bool → Option ErrorCode
mismatch_unless true = none
mismatch_unless false = some session_mismatch

module _ (fetch_user : ℕ → Option (Option User)) (now : ℕ) where
  unfoldable pub fetch_version : Payload → AuthCache → Option ErrorCode × AuthCache
  fetch_version decoded cache = elim (fetch_user decoded.user_id) [
    | none ↦ (none, cache)
    | some none ↦ (some account_not_found, cache)
    | some (some row) ↦ (
      mismatch_unless (holds_text row.unique_session_id decoded.session_id),
      set_session_version now decoded.user_id row.unique_session_id cache,
    )
  ]

  unfoldable pub verify_session_version : Payload → AuthCache → Option ErrorCode × AuthCache
  unfolding fetch_version
  verify_session_version decoded cache =
      let (cached, cache₁) = get_session_version now decoded.user_id cache in
      elim cached [
        | some version ↦ (mismatch_unless (version === decoded.session_id), cache₁)
        | none ↦ fetch_version decoded cache₁
      ]

  unfoldable pub validate_cached : Payload → Credentials → AuthCache → Validation × AuthCache
  unfolding verify_session_version
  validate_cached decoded cached cache =
      let (error, cache₁) = verify_session_version decoded cache in
      elim error [
        | some e ↦ (invalid e, invalidate decoded.user_id decoded.session_id cache₁)
        | none ↦ (valid cached, cache₁)
      ]

  unfoldable pub validate_fetched : Payload → AuthCache → Validation × AuthCache
  unfolding accept
  validate_fetched decoded cache = elim (fetch_user decoded.user_id) [
    | none ↦ (invalid token_expired_or_invalid, cache)
    | some none ↦ (invalid account_not_found, cache)
    | some (some user) ↦ elim (check_user_status user decoded) [
      | some e ↦ (invalid e, cache)
      | none ↦ accept now user decoded cache
    ]
  ]

  unfoldable pub validate : Payload → AuthCache → Validation × AuthCache
  unfolding validate_cached validate_fetched
  validate decoded cache = elim (check_decoded decoded) [
    | some e ↦ (invalid e, cache)
    | none ↦
        let (cached, cache₁) = get now decoded.user_id decoded.session_id cache in
        elim cached [
          | some result ↦ validate_cached decoded result cache₁
          | none ↦ validate_fetched decoded cache₁
        ]
  ]
