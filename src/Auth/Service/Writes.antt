-- ===== src/Auth/Service/Writes.antt =====
-- The `data` of each write of auth-service.js, as a change of the row.
use pafs_backend_api.Prelude.{
  ℕ, ◌+◌, String, Bool, true, Option, none, some, refl, inl, if◌then◌else◌,
}
use pafs_backend_api.Auth.User.{User}
use pafs_backend_api.Auth.Store.{KeepsKeys}

-- disableAccount
unfoldable pub disabling : User → User
disabling u = record u { disabled = true }

-- handleFailedAttempt; `locked_at` is written only where the account is locked
unfoldable pub counting : ℕ → String → Bool → ℕ → User → User
counting attempts ip_address lock now u = record u {
  failed_attempts = attempts;
  last_sign_in_ip = some ip_address;
  locked_at = if lock then some now else u.locked_at;
}

-- updateSuccessfulLogin
unfoldable pub signing_in : String → String → Option ℕ → Option String → ℕ → User → User
signing_in session_id ip_address sign_in_at sign_in_ip now u = record u {
  sign_in_count = u.sign_in_count + 1;
  current_sign_in_at = some now;
  last_sign_in_at = sign_in_at;
  current_sign_in_ip = some ip_address;
  last_sign_in_ip = sign_in_ip;
  failed_attempts = 0;
  locked_at = none;
  unique_session_id = some session_id;
  updated_at = now;
}

-- logout
unfoldable pub signing_out : ℕ → User → User
signing_out now u = record u { unique_session_id = none; updated_at = now }

-- refreshSession
unfoldable pub refreshing : String → ℕ → User → User
refreshing session_id now u = record u { unique_session_id = some session_id; updated_at = now }

pub disabling-KeepsKeys : KeepsKeys disabling
unfolding disabling
disabling-KeepsKeys = record {
  id = λ u. refl;
  email = λ u. refl;
  reset_token = λ u. inl refl;
  invitation_token = λ u. inl refl;
}

pub counting-KeepsKeys :
    (attempts : ℕ) (ip_address : String) (lock : Bool) (now : ℕ)
    → KeepsKeys (counting attempts ip_address lock now)
unfolding counting
counting-KeepsKeys attempts ip_address lock now = record {
  id = λ u. refl;
  email = λ u. refl;
  reset_token = λ u. inl refl;
  invitation_token = λ u. inl refl;
}

pub signing_in-KeepsKeys :
    (session_id ip_address : String) (sign_in_at : Option ℕ) (sign_in_ip : Option String) (now : ℕ)
    → KeepsKeys (signing_in session_id ip_address sign_in_at sign_in_ip now)
unfolding signing_in
signing_in-KeepsKeys session_id ip_address sign_in_at sign_in_ip now = record {
  id = λ u. refl;
  email = λ u. refl;
  reset_token = λ u. inl refl;
  invitation_token = λ u. inl refl;
}

pub signing_out-KeepsKeys : (now : ℕ) → KeepsKeys (signing_out now)
unfolding signing_out
signing_out-KeepsKeys now = record {
  id = λ u. refl;
  email = λ u. refl;
  reset_token = λ u. inl refl;
  invitation_token = λ u. inl refl;
}

pub refreshing-KeepsKeys : (session_id : String) (now : ℕ) → KeepsKeys (refreshing session_id now)
unfolding refreshing
refreshing-KeepsKeys session_id now = record {
  id = λ u. refl;
  email = λ u. refl;
  reset_token = λ u. inl refl;
  invitation_token = λ u. inl refl;
}
