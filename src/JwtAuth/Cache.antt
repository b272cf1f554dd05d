-- ===== src/JwtAuth/Cache.antt =====
-- src/plugins/jwt/jwt-auth.js, `buildAuthCache`. A Map keeps its entries in the order in which
-- their keys were first set, so it is a list here. The key of a result, `${userId}:${sessionId}`,
-- is the pair of its parts: a number has no colon.
pub mod Bounds
use pafs_backend_api.Prelude.{
  ℕ, ◌+◌, ◌*◌, String, Bool, not, ◌&&◌, List, [], ◌∷◌, Option, none, some, ltb, leb, ◌==◌, ◌===◌,
  if◌then◌else◌, length, drop, filter,
}
use pafs_backend_api.Auth.Areas.{UserArea, AreaTypeFlags}

-- What buildCredentials makes.
pub record Credentials : Type 0 where
  pub user_id : ℕ
  pub email : String
  pub first_name : String
  pub last_name : String
  pub is_admin : Bool
  pub session_id : String
  pub areas : List UserArea
  pub flags : AreaTypeFlags

pub record ResultEntry : Type 0 where
  pub user_id : ℕ
  pub session_id : String
  pub result : Credentials
  pub expires_at : ℕ

pub record VersionEntry : Type 0 where
  pub user_id : ℕ
  pub session_id : Option String
  pub expires_at : ℕ

pub record AuthCache : Type 0 where
  pub store : List ResultEntry
  pub version_store : List VersionEntry

abbrev pub auth_cache_ttl_ms : ℕ
auth_cache_ttl_ms = 15 * 60 * 1000

abbrev pub session_version_cache_ttl_ms : ℕ
session_version_cache_ttl_ms = 10 * 1000

abbrev pub auth_cache_max_size : ℕ
auth_cache_max_size = 500

-- Map.get and Map.set, with the test of the key.
module _ {A : Type 0} where
  abbrev pub lookup : (A → Bool) → List A → Option A
  lookup p [] = none
  lookup p (x ∷ xs) = if p x then some x else lookup p xs

  abbrev pub put : (A → Bool) → A → List A → List A
  put p new [] = new ∷ []
  put p new (x ∷ xs) = if p x then new ∷ xs else x ∷ put p new xs

  -- store.delete(store.keys().next().value) on a full store
  abbrev pub make_room : List A → List A
  make_room xs = if leb auth_cache_max_size (length xs) then drop 1 xs else xs

abbrev pub is_result_of : ℕ → String → ResultEntry → Bool
is_result_of user_id session_id e = e.user_id == user_id && e.session_id === session_id

abbrev pub is_version_of : ℕ → VersionEntry → Bool
is_version_of user_id e = e.user_id == user_id

unfoldable pub get : ℕ → ℕ → String → AuthCache → Option Credentials × AuthCache
get now user_id session_id c = elim (lookup (is_result_of user_id session_id) c.store) [
  | none ↦ (none, c)
  | some e ↦
      if ltb e.expires_at now
      then (
        none,
        record c { store = filter (λ x. not (is_result_of user_id session_id x)) c.store },
      )
      else (some e.result, c)
]

unfoldable pub set : ℕ → ℕ → String → Credentials → AuthCache → AuthCache
set now user_id session_id result c =
    let new : ResultEntry = record {
      user_id = user_id;
      session_id = session_id;
      result = result;
      expires_at = now + auth_cache_ttl_ms;
    } in
    record c { store = put (is_result_of user_id session_id) new (make_room c.store) }

unfoldable pub get_session_version : ℕ → ℕ → AuthCache → Option String × AuthCache
get_session_version now user_id c = elim (lookup (is_version_of user_id) c.version_store) [
  | none ↦ (none, c)
  | some e ↦
      if ltb e.expires_at now
      then (
        none,
        record c { version_store = filter (λ x. not (is_version_of user_id x)) c.version_store },
      )
      else (e.session_id, c)
]

abbrev pub version_entry : ℕ → ℕ → Option String → VersionEntry
version_entry now user_id session_id = record {
  user_id = user_id;
  session_id = session_id;
  expires_at = now + session_version_cache_ttl_ms;
}

unfoldable pub set_session_version : ℕ → ℕ → Option String → AuthCache → AuthCache
set_session_version now user_id session_id c = record c {
  version_store =
      put (is_version_of user_id) (version_entry now user_id session_id)
        (make_room c.version_store);
}

unfoldable pub invalidate : ℕ → String → AuthCache → AuthCache
invalidate user_id session_id c = record {
  store = filter (λ x. not (is_result_of user_id session_id x)) c.store;
  version_store = filter (λ x. not (is_version_of user_id x)) c.version_store;
}

unfoldable pub invalidate_user : ℕ → AuthCache → AuthCache
invalidate_user user_id c = record {
  store = filter (λ x. not (x.user_id == user_id)) c.store;
  version_store = filter (λ x. not (is_version_of user_id x)) c.version_store;
}
