-- ===== src/Auth/Jwt.antt =====
-- src/plugins/auth/helpers/jwt.js. jsonwebtoken is a parameter: `sign` takes the secret and the
-- payload, and `verify`, at a time, is `none` where the library throws (a bad signature, an expired
-- token, another issuer or audience).
use pafs_backend_api.Prelude.{
  ℕ, String, Bool, true, false, List, [], Option, none, some, if◌then◌else◌,
}
use pafs_backend_api.Auth.User.{User}
use pafs_backend_api.Auth.Areas.{UserArea}

pub data TokenType : Type 0 where
  access refresh : TokenType

-- A refresh token has no `email` and no `areas`.
pub record Payload : Type 0 where
  pub user_id : ℕ
  pub email : Option String
  pub session_id : String
  pub areas : List UserArea
  pub type : TokenType

pub record Jwt : Type 0 where
  pub access_secret : String
  pub refresh_secret : String
  pub sign : String → Payload → String
  pub verify : ℕ → String → String → Option Payload

abbrev is_access : TokenType → Bool
is_access access = true
is_access refresh = false

abbrev is_refresh : TokenType → Bool
is_refresh refresh = true
is_refresh access = false

abbrev keep : (TokenType → Bool) → Option Payload → Option Payload
keep wanted none = none
keep wanted (some decoded) = if wanted decoded.type then some decoded else none

unfoldable pub access_payload : User → String → List UserArea → Payload
access_payload user session_id areas = record {
  user_id = user.id;
  email = some user.email;
  session_id = session_id;
  areas = areas;
  type = access;
}

unfoldable pub refresh_payload : User → String → Payload
refresh_payload user session_id = record {
  user_id = user.id;
  email = none;
  session_id = session_id;
  areas = [];
  type = refresh;
}

module _ (jwt : Jwt) where
  unfoldable pub generate_access_token : User → String → List UserArea → String
  unfolding access_payload
  generate_access_token user session_id areas =
      jwt.sign jwt.access_secret (access_payload user session_id areas)

  unfoldable pub generate_refresh_token : User → String → String
  unfolding refresh_payload
  generate_refresh_token user session_id =
      jwt.sign jwt.refresh_secret (refresh_payload user session_id)

  unfoldable pub verify_access_token : ℕ → String → Option Payload
  verify_access_token now token = keep is_access (jwt.verify now jwt.access_secret token)

  unfoldable pub verify_refresh_token : ℕ → String → Option Payload
  verify_refresh_token now token = keep is_refresh (jwt.verify now jwt.refresh_secret token)
