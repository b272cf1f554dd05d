-- ===== src/Auth/Token.antt =====
-- src/plugins/auth/services/token-service.js and src/plugins/auth/helpers/secure-token.js: the
-- tokens of password resets and invitations. SHA-256 is a parameter, `hash_token`.
use pafs_backend_api.Prelude.{
  ℕ, ◌+◌, ◌*◌, String, Bool, true, Option, none, some, ◌==◌, ltb, is_some, holds_text,
  if◌then◌else◌, Outcome, returned, attempt,
}
use pafs_backend_api.Auth.User.{User}
use pafs_backend_api.Auth.Store.{Users}
use pafs_backend_api.Auth.Config.{AuthConfig}
use pafs_backend_api.Auth.Service.{
  ErrorCode, account_disabled, token_expired_or_invalid, reset_token_expired_or_invalid,
  invitation_token_expired_or_invalid,
}

-- TOKEN_TYPES, and any other text
pub data LinkType : Type 0 where
  reset invitation other_type : LinkType

pub data TokenCheck : Type 0 where
  valid_token : ℕ → String → TokenCheck
  invalid_token : ErrorCode → TokenCheck

unfoldable pub is_token_expired : ℕ → Option ℕ → ℕ → Bool
is_token_expired now none expiry_hours = true
is_token_expired now (some sent_at) expiry_hours =
    if expiry_hours == 0 then true else ltb (sent_at + expiry_hours * 60 * 60 * 1000) now

unfoldable pub clearing_reset_token : ℕ → User → User
clearing_reset_token now u = record u {
  reset_password_token = none;
  reset_password_sent_at = none;
  updated_at = now;
}

unfoldable pub clearing_invitation_token : ℕ → User → User
clearing_invitation_token now u = record u { invitation_token = none; updated_at = now }

unfoldable pub accepting_invitation : ℕ → User → User
accepting_invitation now u = record u {
  invitation_token = none;
  invitation_accepted_at = some now;
  updated_at = now;
}

module _ (db : Users) (c : AuthConfig) (hash_token : String → String) (now : ℕ) where
  unfoldable pub clear_reset_token : ℕ → db.Rows → Option db.Rows
  clear_reset_token user_id t = db.update user_id (clearing_reset_token now) t

  unfoldable pub clear_invitation_token : ℕ → db.Rows → Option db.Rows
  clear_invitation_token user_id t = db.update user_id (clearing_invitation_token now) t

  unfoldable pub accept_invitation : ℕ → db.Rows → Option db.Rows
  accept_invitation user_id t = db.update user_id (accepting_invitation now) t

  -- the guards after the row is found
  unfoldable pub check_reset_row : User → db.Rows → Outcome db.Rows TokenCheck
  unfolding is_token_expired clear_reset_token
  check_reset_row user t =
      if user.disabled
      then returned (invalid_token account_disabled) t
      else if is_token_expired now user.reset_password_sent_at c.reset_expiry_hours
      then attempt t (clear_reset_token user.id t)
          (λ t'. returned (invalid_token reset_token_expired_or_invalid) t')
      else returned (valid_token user.id user.email) t

  unfoldable pub validate_reset_token : String → db.Rows → Outcome db.Rows TokenCheck
  unfolding check_reset_row
  validate_reset_token token t =
      elim (db.find_first (λ u. holds_text u.reset_password_token (hash_token token)) t) [
        | none ↦ returned (invalid_token reset_token_expired_or_invalid) t
        | some user ↦ check_reset_row user t
      ]

  unfoldable pub check_invitation_row : User → db.Rows → Outcome db.Rows TokenCheck
  unfolding is_token_expired clear_invitation_token
  check_invitation_row user t =
      if user.disabled
      then returned (invalid_token account_disabled) t
      else if is_some user.invitation_accepted_at
      then returned (invalid_token invitation_token_expired_or_invalid) t
      else if is_token_expired now user.invitation_sent_at c.invitation_expiry_hours
      then attempt t (clear_invitation_token user.id t)
          (λ t'. returned (invalid_token invitation_token_expired_or_invalid) t')
      else returned (valid_token user.id user.email) t

  unfoldable pub validate_invitation_token : String → db.Rows → Outcome db.Rows TokenCheck
  unfolding check_invitation_row
  validate_invitation_token token t =
      elim (db.find_first (λ u. holds_text u.invitation_token (hash_token token)) t) [
        | none ↦ returned (invalid_token invitation_token_expired_or_invalid) t
        | some user ↦ check_invitation_row user t
      ]

  unfoldable pub validate_token : String → LinkType → db.Rows → Outcome db.Rows TokenCheck
  unfolding validate_reset_token validate_invitation_token
  validate_token token reset t = validate_reset_token token t
  validate_token token invitation t = validate_invitation_token token t
  validate_token token other_type t = returned (invalid_token token_expired_or_invalid) t
