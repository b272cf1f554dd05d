-- ===== src/Auth/Service/Inactivity.antt =====
-- The inactivity test reads `last_sign_in_at`, which a sign-in sets to the time of the sign-in
-- before it. So the test is about the sign-in before the latest one.
use pafs_backend_api.Prelude.{
  ℕ, ◌+◌, ◌≤◌, String, ◌≡◌, refl, ap, ◌∙◌, inr, true, some, after, value,
}
use pafs_backend_api.Auth.User.{User}
use pafs_backend_api.Auth.Store.{Users}
use pafs_backend_api.Auth.Password.{verify_password}
use pafs_backend_api.Auth.Service.{
  Env, signed_in, refused, login, signed_in_response, disabled_failure,
}
use pafs_backend_api.Auth.Service.Writes.{signing_in, disabling}
use pafs_backend_api.Auth.Service.Checks.{CanTry, inactivity_ms}
use pafs_backend_api.Auth.Service.Success.{login-signed_in}
use pafs_backend_api.Auth.Service.Failures.{login-inactive}

-- With disabling on, a user who signs in at `now`, and whose sign-in before that was at `s`, is
-- disabled by the next attempt once the inactivity period has passed since `s`, however short a
-- time after `now` that attempt is made, and whatever its password.
pub recent_user_disabled :
    (db : Users) (env : Env) (k s now later : ℕ) (u : User) (t : db.Rows)
    (password ip_address session_id password' ip_address' session_id' : String)
    → db.find k t ≡ some u
    → CanTry env.config now u
    → verify_password env.bcrypt password u.encrypted_password ≡ true
    → u.current_sign_in_at ≡ some s
    → env.config.disabling_enabled ≡ true
    → s + inactivity_ms env.config ≤ later
    → let first = login db env now u.email password ip_address session_id t in
      let second = login db env later u.email password' ip_address' session_id' (after first) in
      (value first ≡ some (signed_in (signed_in_response env u session_id)))
      × (value second ≡ some (refused disabled_failure))
      × ((v : User) × (db.find k (after second) ≡ some v) × (v.disabled ≡ true))
unfolding signing_in disabling
recent_user_disabled db env k s now later u t password ip_address session_id password' ip_address'
      session_id' found can m at on w =
    let (t₁, e, written) =
      login-signed_in db env now password ip_address session_id k t found can m in
    let patch = signing_in session_id ip_address u.current_sign_in_at u.current_sign_in_ip now in
    let stored = db.find-update_self k patch t written found in
    let (t₂, e', written') =
      login-inactive db env later password' ip_address' session_id' k t₁ {u = patch u} stored
        can.set_up can.enabled (inr tt) on at w in
    let both =
      ap (λ o. login db env later u.email password' ip_address' session_id' (after o)) e ∙ e' in
    (
      ap value e,
      ap value both,
      (
        disabling (patch u),
        ap (λ o. db.find k (after o)) both ∙ db.find-update_self k disabling t₁ written' stored,
        refl,
      ),
    )
