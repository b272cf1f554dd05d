-- ===== src/Auth/Fixtures.antt =====
-- Instances of the interfaces for tests: a users table, a bcrypt that keeps the text, a
-- jsonwebtoken that knows two tokens, and the default settings of src/config/auth.js.
mod OneRow
use text.Mathlib.TextPositions.{eq_refl}
use pafs_backend_api.Prelude.{
  ℕ, String, ◌≡◌, refl, ap, ◌≢◌, Bool, true, false, [], Option, none, some, ◌==◌, ◌===◌, ◌&&◌,
  if◌then◌else◌, arith,
}
use pafs_backend_api.Auth.User.{User, active}
use pafs_backend_api.Auth.Store.{Users, KeepsKeys}
use pafs_backend_api.Auth.Config.{AuthConfig}
use pafs_backend_api.Auth.Password.{Bcrypt, has_valid_prefix}
use pafs_backend_api.Auth.Jwt.{Jwt, Payload, refresh, access}
use pafs_backend_api.Auth.Service.{Env}
pub use OneRow.{one_row}

-- The hash of a text is the text behind a version prefix.
abbrev plain_hash : String → String → String
plain_hash salt plain = String.◌∷◌ "$" (String.◌∷◌ "2" (String.◌∷◌ "b" (String.◌∷◌ "$" plain)))

abbrev plain_compare : String → String → Option Bool
plain_compare plain (String.◌∷◌ a (String.◌∷◌ b (String.◌∷◌ c (String.◌∷◌ d rest)))) =
    some (plain === rest)
plain_compare plain _ = none

pub plain_prefix : (salt plain : String) → has_valid_prefix (plain_hash salt plain) ≡ true
unfolding has_valid_prefix
plain_prefix salt plain = refl

pub plain_compare-hash :
    (salt plain : String) → plain_compare plain (plain_hash salt plain) ≡ some true
plain_compare-hash salt plain = ap some (eq_refl plain)

abbrev pub plain_bcrypt : Bcrypt
plain_bcrypt = record {
  hash = plain_hash;
  compare = plain_compare;
  hash-prefix = plain_prefix;
  compare-hash = plain_compare-hash;
}

abbrev pub default_config : AuthConfig
default_config = record {
  access_expires_in = "25m";
  locking_enabled = true;
  max_attempts = 15;
  lock_duration = 300;
  disabling_enabled = true;
  inactivity_days = 165;
  reset_expiry_hours = 1;
  invitation_expiry_hours = 120;
  history_enabled = true;
  history_limit = 15;
}

-- A refresh token "r:s" stands for user 1 and the session "s"; any other text is no token.
abbrev known_tokens : ℕ → String → String → Option Payload
known_tokens now secret token =
    if token === "r"
    then some (record { user_id = 1; email = none; session_id = "s"; areas = []; type = refresh })
    else if token === "a"
    then some (record { user_id = 1; email = none; session_id = "s"; areas = []; type = access })
    else none

abbrev pub known_jwt : Jwt
known_jwt = record {
  access_secret = "x";
  refresh_secret = "y";
  sign = λ secret payload. payload.session_id;
  verify = known_tokens;
}

abbrev pub env : Env
env = record {
  bcrypt = plain_bcrypt;
  jwt = known_jwt;
  config = default_config;
  fetch_areas = λ k. [];
}

abbrev pub alice : User
alice = record {
  id = 1;
  email = "alice@example.org";
  first_name = "Alice";
  last_name = "Archer";
  admin = false;
  status = active;
  disabled = false;
  encrypted_password = plain_hash "" "right";
  failed_attempts = 0;
  locked_at = none;
  sign_in_count = 3;
  current_sign_in_at = some 1000;
  last_sign_in_at = none;
  current_sign_in_ip = none;
  last_sign_in_ip = none;
  unique_session_id = some "s";
  reset_password_token = none;
  reset_password_sent_at = none;
  invitation_token = none;
  invitation_sent_at = none;
  invitation_accepted_at = none;
  updated_at = 0;
}
