-- ===== src/Auth/Lockout.antt =====
-- src/plugins/auth/helpers/session.js: the tests on locks, inactivity and remaining attempts.
-- `now` is Date.now().
use pafs_backend_api.Prelude.{
  ℕ, ◌+◌, ◌-◌, ◌*◌, Bool, false, not, Option, none, some, leb, ◌==◌, if◌then◌else◌,
}
use pafs_backend_api.Auth.User.{User}
use pafs_backend_api.Auth.Config.{AuthConfig}

unfoldable pub lock_expired_from : AuthConfig → ℕ → Option ℕ → Bool
lock_expired_from c now none = false
lock_expired_from c now (some locked_at) = leb (locked_at + c.lock_duration * 60 * 1000) now

unfoldable pub should_reset_lockout : AuthConfig → ℕ → User → Bool
unfolding lock_expired_from
should_reset_lockout c now user = lock_expired_from c now user.locked_at

unfoldable pub locked_from : AuthConfig → ℕ → Option ℕ → Bool
unfolding lock_expired_from
locked_from c now none = false
locked_from c now (some locked_at) = not (lock_expired_from c now (some locked_at))

unfoldable pub is_account_locked : AuthConfig → ℕ → User → Bool
unfolding locked_from
is_account_locked c now user =
    if not c.locking_enabled then false else locked_from c now user.locked_at

unfoldable pub inactive_since : AuthConfig → ℕ → Option ℕ → Bool
inactive_since c now none = false
inactive_since c now (some last_sign_in_at) =
    leb (last_sign_in_at + c.inactivity_days * 24 * 60 * 60 * 1000) now

unfoldable pub should_disable_account : AuthConfig → ℕ → User → Bool
unfolding inactive_since
should_disable_account c now user =
    if not c.disabling_enabled then false else inactive_since c now user.last_sign_in_at

-- `Math.max(0, maxAttempts - failed)` is the subtraction that stops at 0.
unfoldable pub remaining_attempts : AuthConfig → User → ℕ
remaining_attempts c user = c.max_attempts - user.failed_attempts

unfoldable pub is_last_attempt : AuthConfig → User → Bool
unfolding remaining_attempts
is_last_attempt c user = remaining_attempts c user == 1
