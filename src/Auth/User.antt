-- ===== src/Auth/User.antt =====
-- A row of pafs_core_users (prisma/schema.prisma), with the columns that authentication reads and
-- writes. Dates are milliseconds since the epoch; a nullable column is an `Option`.
use pafs_backend_api.Prelude.{ℕ, String, Bool, Option}

-- ACCOUNT_STATUS; the column is free text, so any other value is kept as it is.
pub data AccountStatus : Type 0 where
  pending approved active : AccountStatus
  other_status : String → AccountStatus

pub record User : Type 0 where
  pub id : ℕ
  pub email : String
  pub first_name : String
  pub last_name : String
  pub admin : Bool
  pub status : AccountStatus
  pub disabled : Bool
  pub encrypted_password : String
  pub failed_attempts : ℕ
  pub locked_at : Option ℕ
  pub sign_in_count : ℕ
  pub current_sign_in_at : Option ℕ
  pub last_sign_in_at : Option ℕ
  pub current_sign_in_ip : Option String
  pub last_sign_in_ip : Option String
  pub unique_session_id : Option String
  pub reset_password_token : Option String
  pub reset_password_sent_at : Option ℕ
  pub invitation_token : Option String
  pub invitation_sent_at : Option ℕ
  pub invitation_accepted_at : Option ℕ
  pub updated_at : ℕ
