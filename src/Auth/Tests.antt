-- ===== src/Auth/Tests.antt =====
-- Tests of sign-in, and the theorems of authentication at concrete inputs.
use pafs_backend_api.Prelude.{
  ℕ, none, eq_iff, String, ◌≢◌, false, ◌↔◌, returned, ◌≡◌, refl, inr, true, [], ◌∷◌, All, some,
  after, value, arith,
}
use pafs_backend_api.Auth.User.{User, active}
use pafs_backend_api.Auth.Password.{verify_password}
use pafs_backend_api.Auth.Lockout.{
  should_reset_lockout, is_account_locked, should_disable_account, is_last_attempt,
}
use pafs_backend_api.Auth.Service.{
  SignedIn, failure, invalid_credentials, find_user_by_email, login_as, check_account, checked,
  perform_security_checks, check_password, create_successful_login_response,
  handle_invalid_password, handle_failed_attempt, failure_after, signed_in, session_mismatch,
  refused, login, locked_failure, disabled_failure, signed_in_response,
}
use pafs_backend_api.Auth.Service.Writes.{signing_in, counting}
use pafs_backend_api.Auth.Service.Checks.{CanTry, IsSetUp}
use pafs_backend_api.Auth.Service.Success.{login-signed_in_iff}
use pafs_backend_api.Auth.Service.Failures.{login-locked}
use pafs_backend_api.Auth.Service.Attempts.{
  Attempt, login_all, results, IsInvalid, expired_lock_never_relocks,
}
use pafs_backend_api.Auth.Service.Locking.{wrong_passwords_lock}
use pafs_backend_api.Auth.Service.Inactivity.{recent_user_disabled}
use pafs_backend_api.Auth.Jwt.{Payload, refresh, verify_refresh_token}
use pafs_backend_api.Auth.Session.{logout, signed_out, refresh_session}
use pafs_backend_api.Auth.Session.Rotation.{
  refresh-signed_in_iff, refresh_once, login_supersedes, logout_ends_sessions,
}
use pafs_backend_api.Auth.Fixtures.{one_row, env, alice}

abbrev guess : ℕ → Attempt
guess time = record { time = time; password = "wrong"; ip_address = "10.0.0.1"; session_id = "n" }

abbrev locked_alice : User
locked_alice = record alice { failed_attempts = 15; locked_at = some 5000 }

active-IsSetUp : IsSetUp active
active-IsSetUp = (λ e. cc, λ e. cc)

-- A sign-in, a wrong password and a locked account.
sign_in_tests :
    (value (login one_row env 2000 "alice@example.org" "right" "10.0.0.1" "n" (some alice))
      ≡ some (signed_in (signed_in_response env alice "n")))
    × (value (login one_row env 2000 "alice@example.org" "wrong" "10.0.0.1" "n" (some alice))
        ≡ some (refused (failure invalid_credentials)))
    × (value (login one_row env 6000 "alice@example.org" "right" "10.0.0.1" "n" (some locked_alice))
        ≡ some (refused locked_failure))
    × (value (login one_row env 6000 "bob@example.org" "right" "10.0.0.1" "n" (some alice))
        ≡ some (refused (failure invalid_credentials)))
unfolding login find_user_by_email login_as check_account checked perform_security_checks
    should_reset_lockout is_account_locked should_disable_account check_password verify_password
    create_successful_login_response handle_invalid_password handle_failed_attempt failure_after
    is_last_attempt signing_in counting
sign_in_tests = (refl, refl, refl, refl)

expired_lock_never_relocks_example :
    All IsInvalid (
      results one_row env "alice@example.org"
        (guess 18005000 ∷ guess 18005001 ∷ [])
        (some locked_alice))
    × ((v : User) × (one_row.find 1 (
            login_all one_row env "alice@example.org"
              (guess 18005000 ∷ guess 18005001 ∷ [])
              (some locked_alice))
          ≡ some v)
        × (v.locked_at ≡ some 5000))
unfolding verify_password
expired_lock_never_relocks_example =
    expired_lock_never_relocks one_row env 1 5000 locked_alice (some locked_alice)
      (guess 18005000 ∷ guess 18005001 ∷ []) refl active-IsSetUp refl refl (omega arith)
      ((refl, omega arith, inr tt), ((refl, omega arith, inr tt), tt))

can_try : CanTry env.config 2000 alice
can_try = record { set_up = active-IsSetUp; enabled = refl; unlocked = inr tt; recent = inr tt }

login-signed_in_iff_example :
    ((s : SignedIn) × (t' : one_row.Rows) × (login one_row env 2000 "alice@example.org" "right"
          "10.0.0.1" "n"
          (some alice)
        ≡ returned (signed_in s) t'))
    ↔ (CanTry env.config 2000 alice
        × (verify_password env.bcrypt "right" alice.encrypted_password ≡ true))
login-signed_in_iff_example =
    login-signed_in_iff one_row env 2000 "right" "10.0.0.1" "n" 1 (some alice) refl

login-locked_example :
    login one_row env 6000 "alice@example.org" "right" "10.0.0.1" "n" (some locked_alice)
    ≡ returned (refused locked_failure) (some locked_alice)
login-locked_example =
    login-locked one_row env 6000 "right" "10.0.0.1" "n" 1 (some locked_alice) refl active-IsSetUp
      refl refl refl (omega arith)

abbrev fourteen_wrong : User
fourteen_wrong = record alice { failed_attempts = 13 }

wrong_passwords_lock_example :
    let t₁ = login_all one_row env "alice@example.org" (guess 2000 ∷ []) (some fourteen_wrong) in
    let o = login one_row env 2001 "alice@example.org" "wrong" "10.0.0.1" "n" t₁ in
    All IsInvalid (results one_row env "alice@example.org" (guess 2000 ∷ []) (some fourteen_wrong))
    × (value o ≡ some (refused locked_failure))
    × ((v : User) × (one_row.find 1 (after o) ≡ some v)
        × (v.locked_at ≡ some 2001)
        × (v.failed_attempts ≡ 15))
unfolding verify_password
wrong_passwords_lock_example =
    wrong_passwords_lock one_row env 1 fourteen_wrong (some fourteen_wrong) (guess 2000 ∷ [])
      (guess 2001) refl active-IsSetUp refl refl refl refl ((refl, inr tt), tt) (refl, inr tt)

-- 165 days after the sign-in before the latest one, one millisecond after the latest.
recent_user_disabled_example :
    let first =
      login one_row env 14256000999 "alice@example.org" "right" "10.0.0.1" "n" (some alice) in
    let second =
      login one_row env 14256001000 "alice@example.org" "right" "10.0.0.1" "m" (after first) in
    (value first ≡ some (signed_in (signed_in_response env alice "n")))
    × (value second ≡ some (refused disabled_failure))
    × ((v : User) × (one_row.find 1 (after second) ≡ some v) × (v.disabled ≡ true))
unfolding verify_password
recent_user_disabled_example =
    recent_user_disabled one_row env 1 1000 14256000999 14256001000 alice (some alice) "right"
      "10.0.0.1" "n" "right" "10.0.0.1" "m" refl
      (record { set_up = active-IsSetUp; enabled = refl; unlocked = inr tt; recent = inr tt }) refl
      refl refl (omega arith)

abbrev session_s : Payload
session_s = record { user_id = 1; email = none; session_id = "s"; areas = []; type = refresh }

n_not_s : ◌≢◌ {A = String} "n" "s"
n_not_s = ground (arith, eq_iff "n" "s")

refresh-signed_in_iff_example :
    ((s : SignedIn) × (t' : one_row.Rows) × (refresh_session one_row env 2000 "r" "n" (some alice)
        ≡ returned (signed_in s) t'))
    ↔ ((alice.disabled ≡ false) × (alice.unique_session_id ≡ some "s"))
unfolding verify_refresh_token
refresh-signed_in_iff_example =
    refresh-signed_in_iff one_row env 2000 "r" session_s refl "n" (some alice) refl

refresh_once_example :
    let first = refresh_session one_row env 2000 "r" "n" (some alice) in
    let second = refresh_session one_row env 3000 "r" "m" (after first) in
    (value first ≡ some (signed_in (signed_in_response env alice "n")))
    × (second ≡ returned (refused (failure session_mismatch)) (after first))
unfolding verify_refresh_token
refresh_once_example =
    refresh_once one_row env 2000 3000 "r" session_s "n" "m" (some alice) alice refl refl refl refl
      refl n_not_s

login_supersedes_example :
    let first = login one_row env 2000 "alice@example.org" "right" "10.0.0.1" "n" (some alice) in
    (value first ≡ some (signed_in (signed_in_response env alice "n")))
    × (refresh_session one_row env 3000 "r" "m" (after first)
        ≡ returned (refused (failure session_mismatch)) (after first))
unfolding verify_password verify_refresh_token
login_supersedes_example =
    login_supersedes one_row env 1 2000 3000 "right" "10.0.0.1" "n" "r" "m" session_s (some alice)
      alice refl can_try refl refl refl n_not_s

logout_ends_sessions_example :
    let first = logout one_row 2000 1 "s" (some alice) in
    (value first ≡ some (signed_out 1 "s"))
    × (refresh_session one_row env 3000 "r" "m" (after first)
        ≡ returned (refused (failure session_mismatch)) (after first))
unfolding verify_refresh_token
logout_ends_sessions_example =
    logout_ends_sessions one_row env 1 2000 3000 "s" "r" "m" session_s (some alice) alice refl refl
      refl refl refl
