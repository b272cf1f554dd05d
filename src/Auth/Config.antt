-- ===== src/Auth/Config.antt =====
-- The settings of src/config/auth.js that authentication reads.
use pafs_backend_api.Prelude.{ℕ, String, Bool}

-- `lock_duration` is in minutes, `inactivity_days` in days, the token expiries in hours.
pub record AuthConfig : Type 0 where
  pub access_expires_in : String
  pub locking_enabled : Bool
  pub max_attempts : ℕ
  pub lock_duration : ℕ
  pub disabling_enabled : Bool
  pub inactivity_days : ℕ
  pub reset_expiry_hours : ℕ
  pub invitation_expiry_hours : ℕ
  pub history_enabled : Bool
  pub history_limit : ℕ
