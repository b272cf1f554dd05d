-- ===== src/JwtAuth/Tests.antt =====
-- The theorems of the request authentication at concrete inputs, and runs of it.
use pafs_backend_api.Prelude.{
  ℕ, String, ◌≡◌, refl, ◌≢◌, ◌↔◌, true, false, [], ◌∷◌, Option, none, some, ◌==◌, if◌then◌else◌,
  arith, eq_iff,
}
use pafs_backend_api.Auth.User.{User}
use pafs_backend_api.Auth.Jwt.{Payload, access}
use pafs_backend_api.Auth.Service.{session_mismatch, account_disabled}
use pafs_backend_api.Auth.Fixtures.{alice}
use pafs_backend_api.JwtAuth.Cache.{
  get, set, get_session_version, set_session_version, invalidate_user,
}
use pafs_backend_api.JwtAuth.Cache.Bounds.{IsBounded}
use pafs_backend_api.JwtAuth.Validate.{
  valid, invalid, is_valid, build_credentials, check_decoded, check_user_status, validate,
}
use pafs_backend_api.JwtAuth.Validate.Laws.{
  validate-valid_iff, invalidate_user-refused, disabled_user_still_accepted,
}
use pafs_backend_api.JwtAuth.Validate.Window.{
  Event, request, run, run_all, no_entries, caches-IsBounded, superseded_session_refused,
}

-- The database with one row, that of user 1.
abbrev reads : User → ℕ → Option (Option User)
reads u k = if k == 1 then some (some u) else some none

abbrev token : Payload
token = record { user_id = 1; email = none; session_id = "s"; areas = []; type = access }

-- Alice after she has signed in elsewhere, and after an administrator has disabled her.
abbrev moved_alice : User
moved_alice = record alice { unique_session_id = some "n" }

abbrev disabled_alice : User
disabled_alice = record alice { disabled = true }

abbrev accepted : Event
accepted = request 1000 (reads alice) token

-- A request is accepted; a second later, Alice has signed in elsewhere, and the same token is still
-- accepted; eleven seconds later it is not.
served_from_cache :
    is_valid (validate (reads moved_alice) 2000 token (run accepted no_entries)).0 ≡ true
unfolding run validate check_decoded get check_user_status set_session_version set
    get_session_version
served_from_cache = refl

refused_when_stale :
    (validate (reads moved_alice) 12000 token (run accepted no_entries)).0
    ≡ invalid session_mismatch
unfolding run validate check_decoded get check_user_status set_session_version set
    get_session_version
refused_when_stale = refl

disabled_at_first :
    (validate (reads disabled_alice) 2000 token no_entries).0 ≡ invalid account_disabled
unfolding validate check_decoded get check_user_status
disabled_at_first = refl

caches-IsBounded_example : IsBounded (run_all (accepted ∷ accepted ∷ []) no_entries)
caches-IsBounded_example = caches-IsBounded (accepted ∷ accepted ∷ [])

s_not_empty : ◌≢◌ {A = String} "s" ""
s_not_empty = ground (arith, eq_iff "s" "")

n_not_s : ◌≢◌ {A = Option String} (some "n") (some "s")
n_not_s = ground (arith, eq_iff "n" "s")

one_not_zero : ◌≢◌ {A = ℕ} 1 0
one_not_zero = omega arith

superseded_session_refused_example :
    is_valid
      (validate (reads moved_alice) 12000 token (
        run_all
          (request 1500 (reads moved_alice) token ∷ [])
          (run_all (accepted ∷ []) no_entries))).0
    ≡ false
superseded_session_refused_example =
    superseded_session_refused 1000 (accepted ∷ []) (request 1500 (reads moved_alice) token ∷ [])
      12000 (reads moved_alice) token moved_alice (omega arith, tt) (refl, tt) refl n_not_s
      (omega arith)

validate-valid_iff_example : (is_valid (validate (reads alice) 2000 token no_entries).0 ≡ true) ↔ (
    (u : User) × (reads alice 1 ≡ some (some u))
    × (u.disabled ≡ false)
    × (u.locked_at ≡ none)
    × (u.unique_session_id ≡ some "s"))
unfolding get
validate-valid_iff_example =
    validate-valid_iff (reads alice) 2000 token no_entries one_not_zero s_not_empty refl

moved_session_refused :
    is_valid
      (validate (reads moved_alice) 1001 token (invalidate_user 1 (run accepted no_entries))).0
    ≡ false
moved_session_refused =
    invalidate_user-refused (reads moved_alice) 1001 token moved_alice (run accepted no_entries)
      refl n_not_s

disabled_user_still_accepted_example :
    let first = validate (reads alice) 1000 token no_entries in
    (first.0 ≡ valid (build_credentials alice token []))
    × ((validate (reads disabled_alice) 900000 token first.1).0
        ≡ valid (build_credentials alice token []))
unfolding get
disabled_user_still_accepted_example =
    disabled_user_still_accepted (reads alice) (reads disabled_alice) 1000 900000 token alice
      disabled_alice no_entries one_not_zero s_not_empty refl refl refl refl refl refl refl
      (omega arith)
