-- ===== src/Auth/Reset/Tests.antt =====
-- The theorems of the password reset at a concrete user, with a hash that keeps the text.
use pafs_backend_api.Prelude.{
  ℕ, ◌≡◌, ◌≢◌, refl, String, true, false, List, [], ◌∷◌, Option, some, returned, after, value, inr,
  arith, eq_iff,
}
use pafs_backend_api.Auth.User.{User}
use pafs_backend_api.Auth.Password.{verify_password}
use pafs_backend_api.Auth.Service.{
  SignedIn, signed_in, login, token_expired_or_invalid, reset_token_expired_or_invalid,
  password_was_used_previously,
}
use pafs_backend_api.Auth.Service.Checks.{IsSetUp}
use pafs_backend_api.Auth.Fixtures.{one_row, env, alice}
use pafs_backend_api.Auth.Token.{is_token_expired}
use pafs_backend_api.Auth.Reset.{
  changed, rejected, ok, bad_request, store_password, reset_password, reset_password_handler,
}
use pafs_backend_api.Auth.Reset.Steps.{IsFresh}
use pafs_backend_api.Auth.Reset.Laws.{reset_once, racing_reset_refused, reset_then_login}

-- Alice, locked out, with a reset token that was sent at 5000.
abbrev locked_out : User
locked_out = record alice {
  failed_attempts = 15;
  locked_at = some 4000;
  reset_password_token = some "k";
  reset_password_sent_at = some 5000;
}

abbrev plain : String → String
plain s = s

-- Her one recent password has no bcrypt prefix, so it matches none.
abbrev olds : ℕ → ℕ → Option (List String)
olds k n = some ("old" ∷ [])

k_not_empty : ◌≢◌ {A = String} "k" ""
k_not_empty = ground (arith, eq_iff "k" "")

alice-IsSetUp : IsSetUp alice.status
alice-IsSetUp = (ground arith, ground arith)

new-IsFresh : IsFresh env ("old" ∷ []) "new" locked_out
unfolding verify_password
new-IsFresh = record { current = refl; recent = refl }

-- The current password is refused, and an hour after it was sent the token has not expired yet.
same_password :
    value (reset_password one_row env plain olds 6000 1 "right" "" (some "k") (some locked_out))
    ≡ some (rejected password_was_used_previously)
unfolding reset_password verify_password
same_password = refl

expiry : is_token_expired 3605000 (some 5000) 1 ≡ false
unfolding is_token_expired
expiry = refl

expiry_after : is_token_expired 3605001 (some 5000) 1 ≡ true
unfolding is_token_expired
expiry_after = refl

reset_once_example :
    let first = reset_password_handler one_row env plain olds 6000 "k" "new" "" (some locked_out) in
    let second = reset_password_handler one_row env plain olds 7000 "k" "newer" "" (after first) in
    (value first ≡ some ok)
    × (second ≡ returned (bad_request reset_token_expired_or_invalid) (after first))
unfolding is_token_expired
reset_once_example =
    reset_once one_row env plain olds olds 6000 7000 1 "k" "new" "" "newer" "" ("old" ∷ [])
      (some locked_out) locked_out refl k_not_empty refl refl refl refl new-IsFresh

racing_reset_refused_example :
    let first =
      store_password one_row env plain olds 6000 1 "new" "" (some "k") (some locked_out) in
    let second = store_password one_row env plain olds 6001 1 "newer" "" (some "k") (after first) in
    (value first ≡ some changed)
    × (second ≡ returned (rejected token_expired_or_invalid) (after first))
racing_reset_refused_example =
    racing_reset_refused one_row env plain olds olds 6000 6001 1 "k" "new" "" "newer" ""
      (some locked_out) locked_out refl k_not_empty refl

reset_then_login_example :
    let first = reset_password_handler one_row env plain olds 6000 "k" "new" "" (some locked_out) in
    (s : SignedIn) × (value
        (login one_row env 7000 "alice@example.org" "new" "10.0.0.1" "n" (after first))
      ≡ some (signed_in s))
unfolding is_token_expired
reset_then_login_example =
    reset_then_login one_row env plain olds 6000 7000 1 "k" "new" "" "10.0.0.1" "n" ("old" ∷ [])
      (some locked_out) locked_out refl k_not_empty refl refl refl refl new-IsFresh alice-IsSetUp
      (inr tt)
