-- ===== src/Auth/Service/Checks.antt =====
-- The checks that come before the password: when an account may be tried.
use pafs_backend_api.Prelude.{
  ℕ, ◌+◌, ◌*◌, ◌≤◌, ◌<◌, ◌≡◌, refl, ◌≢◌, ◌⊎◌, false, Option, none, some, returned, arith,
}
use pafs_backend_api.Auth.User.{User, AccountStatus, pending, approved, active, other_status}
use pafs_backend_api.Auth.Store.{Users}
use pafs_backend_api.Auth.Config.{AuthConfig}
use pafs_backend_api.Auth.Lockout.{should_reset_lockout, is_account_locked, should_disable_account}
use pafs_backend_api.Auth.Service.{status_failure, handle_lockout_reset, perform_security_checks}

-- The milliseconds for which a lock holds, and after which an account is inactive.
abbrev pub lock_ms : AuthConfig → ℕ
lock_ms c = c.lock_duration * 60 * 1000

abbrev pub inactivity_ms : AuthConfig → ℕ
inactivity_ms c = c.inactivity_days * 24 * 60 * 60 * 1000

abbrev pub LockIsOver : AuthConfig → ℕ → Option ℕ → Type 0
LockIsOver c now none = Unit
LockIsOver c now (some l) = l + lock_ms c ≤ now

abbrev pub IsRecent : AuthConfig → ℕ → Option ℕ → Type 0
IsRecent c now none = Unit
IsRecent c now (some s) = now < s + inactivity_ms c

abbrev pub IsSetUp : AccountStatus → Type 0
IsSetUp s = (s ≢ pending) × (s ≢ approved)

-- An account whose password is looked at.
pub record CanTry (c : AuthConfig) (now : ℕ) (u : User) : Type 0 where
  pub set_up : IsSetUp u.status
  pub enabled : u.disabled ≡ false
  pub unlocked : (c.locking_enabled ≡ false) ⊎ LockIsOver c now u.locked_at
  pub recent : (c.disabling_enabled ≡ false) ⊎ IsRecent c now u.last_sign_in_at

pub status_failure-none : (s : AccountStatus) → IsSetUp s → status_failure s ≡ none
status_failure-none pending h = absurd (h.0 refl)
status_failure-none approved h = absurd (h.1 refl)
status_failure-none active h = refl
status_failure-none (other_status s) h = refl

module _ (db : Users) (c : AuthConfig) (now : ℕ) (u : User) (t : db.Rows) where
  pub perform_security_checks-passes :
      CanTry c now u
      → perform_security_checks db c now u t ≡ returned (handle_lockout_reset c now u, none) t
  unfolding perform_security_checks should_reset_lockout is_account_locked should_disable_account
  perform_security_checks-passes h = ground arith

  -- The checks let nothing else through, and an account that they refuse keeps its row, unless it
  -- is disabled for inactivity.
  pub perform_security_checks-CanTry :
      {v : User} {t' : db.Rows}
      → IsSetUp u.status
      → perform_security_checks db c now u t ≡ returned (v, none) t'
      → CanTry c now u × (v ≡ handle_lockout_reset c now u) × (t' ≡ t)
  unfolding perform_security_checks should_reset_lockout is_account_locked should_disable_account
  perform_security_checks-CanTry h e = ground arith
