-- ===== src/Auth/Session.antt =====
-- src/plugins/auth/services/auth-service.js, `logout` and `refreshSession`, with the eviction that
-- `logout` asks of the cache (src/plugins/jwt/jwt-auth.js) as a value of its result.
pub mod Rotation
use pafs_backend_api.Prelude.{
  ℕ, String, none, some, holds_text, if◌then◌else◌, Outcome, returned, attempt,
}
use pafs_backend_api.Auth.User.{User}
use pafs_backend_api.Auth.Store.{Users}
use pafs_backend_api.Auth.Jwt.{Payload, verify_refresh_token}
use pafs_backend_api.Auth.Service.{
  SignIn, signed_in, refused, ErrorCode, account_not_found, session_mismatch,
  token_expired_or_invalid, failure, disabled_failure, Env, signed_in_response,
}
use pafs_backend_api.Auth.Service.Writes.{signing_out, refreshing}

pub data SignOut : Type 0 where
  -- with the entry that invalidateAuthCache is called on
  signed_out : ℕ → String → SignOut
  not_signed_out : ErrorCode → SignOut

module _ (db : Users) (now : ℕ) where
  unfoldable pub logout : ℕ → String → db.Rows → Outcome db.Rows SignOut
  logout user_id session_id t = elim (db.find user_id t) [
    | none ↦ returned (not_signed_out account_not_found) t
    | some user ↦
        if holds_text user.unique_session_id session_id
        then attempt t (db.update user_id (signing_out now) t)
            (λ t'. returned (signed_out user_id session_id) t')
        else returned (not_signed_out session_mismatch) t
  ]

module _ (db : Users) (env : Env) (now : ℕ) where
  open env use {jwt, config}

  unfoldable pub rotate : User → String → db.Rows → Outcome db.Rows SignIn
  rotate user new_session_id t =
      attempt t (db.update user.id (refreshing new_session_id now) t)
        (λ t'. returned (signed_in (signed_in_response env user new_session_id)) t')

  unfoldable pub refresh_user : Payload → User → String → db.Rows → Outcome db.Rows SignIn
  unfolding rotate
  refresh_user decoded user new_session_id t =
      if user.disabled
      then returned (refused disabled_failure) t
      else if holds_text user.unique_session_id decoded.session_id
      then rotate user new_session_id t
      else returned (refused (failure session_mismatch)) t

  unfoldable pub refresh_decoded : Payload → String → db.Rows → Outcome db.Rows SignIn
  unfolding refresh_user
  refresh_decoded decoded new_session_id t = elim (db.find decoded.user_id t) [
    | none ↦ returned (refused (failure token_expired_or_invalid)) t
    | some user ↦ refresh_user decoded user new_session_id t
  ]

  unfoldable pub refresh_session : String → String → db.Rows → Outcome db.Rows SignIn
  unfolding refresh_decoded
  refresh_session refresh_token new_session_id t =
      elim (verify_refresh_token jwt now refresh_token) [
        | none ↦ returned (refused (failure token_expired_or_invalid)) t
        | some decoded ↦ refresh_decoded decoded new_session_id t
      ]
