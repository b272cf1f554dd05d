-- ===== src/Auth/Session/Rotation.antt =====
-- A user has one session: what ends it, and what its refresh token is good for.
use pafs_backend_api.Prelude.{
  ℕ, String, ◌≡◌, sym, ap, subst, ◌≢◌, ◌↔◌, true, false, Option, none, some, holds_text, Bool-cases,
  inl, inr, returned, after, value, eq_iff, arith,
}
use pafs_backend_api.Auth.User.{User}
use pafs_backend_api.Auth.Store.{Users}
use pafs_backend_api.Auth.Jwt.{Payload, verify_refresh_token}
use pafs_backend_api.Auth.Password.{verify_password}
use pafs_backend_api.Auth.Service.{
  Env, SignedIn, signed_in, refused, failure, session_mismatch, signed_in_response, login,
}
use pafs_backend_api.Auth.Service.Checks.{CanTry}
use pafs_backend_api.Auth.Service.Success.{login-signed_in}
use pafs_backend_api.Auth.Service.Writes.{
  signing_in, refreshing, refreshing-KeepsKeys, signing_out, signing_out-KeepsKeys,
}
use pafs_backend_api.Auth.Session.{logout, signed_out, refresh_session}

-- A nullable column equals a text exactly when it holds it.
pub holds_text_iff : (o : Option String) (s : String) → (holds_text o s ≡ true) ↔ (o ≡ some s)
holds_text_iff none s = (λ e. cc, λ e. cc)
holds_text_iff (some r) s = (λ e. ap some ((eq_iff r s).0 e), λ e. ground (arith, eq_iff r s))

pub holds_text-ne : (o : Option String) (s : String) → o ≢ some s → holds_text o s ≡ false
holds_text-ne o s h = elim (Bool-cases (holds_text o s)) [
  | inl e ↦ absurd (h ((holds_text_iff o s).0 e))
  | inr e ↦ e
]

module _ (db : Users) (env : Env) (now : ℕ) (token : String) (d : Payload)
    (decoded : verify_refresh_token env.jwt now token ≡ some d) (session_id : String) (t : db.Rows)
    {u : User} (found : db.find d.user_id t ≡ some u) where
  -- The session of the token is the user's: both tokens are replaced, and the session with them.
  refresh-signed_in :
      u.disabled ≡ false
      → u.unique_session_id ≡ some d.session_id
      → (t' : db.Rows) × (refresh_session db env now token session_id t
          ≡ returned (signed_in (signed_in_response env u session_id)) t')
        × (db.update d.user_id (refreshing session_id now) t ≡ some t')
  unfolding refresh_session
  refresh-signed_in enabled current =
      let (t', written) =
        db.update-found d.user_id (refreshing session_id now) t
          (refreshing-KeepsKeys session_id now) found in
      let here =
        subst (λ i. db.update i (refreshing session_id now) t ≡ some t')
          (sym (db.find-id d.user_id t found)) written in
      (
        t',
        ground (
          arith,
          decoded,
          found,
          (holds_text_iff u.unique_session_id d.session_id).1 current,
          here,
        ),
        written,
      )

  -- Another session holds the account: the token is refused, and nothing is written.
  pub refresh-mismatch :
      u.disabled ≡ false
      → u.unique_session_id ≢ some d.session_id
      → refresh_session db env now token session_id t
        ≡ returned (refused (failure session_mismatch)) t
  unfolding refresh_session
  refresh-mismatch enabled other =
      ground (arith, decoded, found, holds_text-ne u.unique_session_id d.session_id other)

  refresh-current :
      {s : SignedIn} {t' : db.Rows}
      → refresh_session db env now token session_id t ≡ returned (signed_in s) t'
      → (u.disabled ≡ false) × (u.unique_session_id ≡ some d.session_id)
  unfolding refresh_session
  refresh-current r = (
    ground (arith, decoded, found),
    (holds_text_iff u.unique_session_id d.session_id).0 (ground (arith, decoded, found)),
  )

  -- A verified refresh token whose user has a row is accepted exactly when the user is enabled and
  -- the session that it names is the user's session.
  pub refresh-signed_in_iff :
      ((s : SignedIn) × (t' : db.Rows) × (refresh_session db env now token session_id t
          ≡ returned (signed_in s) t'))
      ↔ ((u.disabled ≡ false) × (u.unique_session_id ≡ some d.session_id))
  refresh-signed_in_iff = (
    λ r. refresh-current r.2,
    λ h. let (t', e, _) = refresh-signed_in h.0 h.1 in (signed_in_response env u session_id, t', e),
  )

-- A verified refresh token of an enabled user's session works once: after it has been exchanged,
-- the same token is refused at any later time, and the second call writes nothing, as long as the
-- session drawn for the exchange is new.
pub refresh_once :
    (db : Users) (env : Env) (now later : ℕ) (token : String) (d : Payload)
    (session_id session_id' : String) (t : db.Rows) (u : User)
    → verify_refresh_token env.jwt now token ≡ some d
    → verify_refresh_token env.jwt later token ≡ some d
    → db.find d.user_id t ≡ some u
    → u.disabled ≡ false
    → u.unique_session_id ≡ some d.session_id
    → session_id ≢ d.session_id
    → let first = refresh_session db env now token session_id t in
      let second = refresh_session db env later token session_id' (after first) in
      (value first ≡ some (signed_in (signed_in_response env u session_id)))
      × (second ≡ returned (refused (failure session_mismatch)) (after first))
unfolding refreshing
refresh_once db env now later token d session_id session_id' t u dec dec' found enabled current
      fresh =
    let (t₁, e, written) =
      refresh-signed_in db env now token d dec session_id t found enabled current in
    let patch = refreshing session_id now in
    let stored = db.find-update_self d.user_id patch t written found in
    let second =
      refresh-mismatch db env later token d dec' session_id' t₁ {u = patch u} stored enabled
        (λ same. fresh (ground arith)) in
    (
      ap value e,
      subst
          (λ o.
            refresh_session db env later token session_id' (after o)
            ≡ returned (refused (failure session_mismatch)) (after o))
          (sym e) second,
    )

-- A sign-in with the right password, where the account can sign in, ends the session before it: a
-- verified refresh token of any other session is refused from then on, and nothing is written.
pub login_supersedes :
    (db : Users) (env : Env) (k now later : ℕ)
    (password ip_address session_id token session_id' : String) (d : Payload) (t : db.Rows)
    (u : User)
    → db.find k t ≡ some u
    → CanTry env.config now u
    → verify_password env.bcrypt password u.encrypted_password ≡ true
    → verify_refresh_token env.jwt later token ≡ some d
    → d.user_id ≡ k
    → session_id ≢ d.session_id
    → let first = login db env now u.email password ip_address session_id t in
      (value first ≡ some (signed_in (signed_in_response env u session_id)))
      × (refresh_session db env later token session_id' (after first)
          ≡ returned (refused (failure session_mismatch)) (after first))
unfolding signing_in
login_supersedes db env k now later password ip_address session_id token session_id' d t u found can
      m dec same_user fresh =
    let (t₁, e, written) =
      login-signed_in db env now password ip_address session_id k t found can m in
    let patch = signing_in session_id ip_address u.current_sign_in_at u.current_sign_in_ip now in
    let stored =
      subst (λ j. db.find j t₁ ≡ some (patch u)) (sym same_user)
        (db.find-update_self k patch t written found) in
    let second =
      refresh-mismatch db env later token d dec session_id' t₁ {u = patch u} stored can.enabled
        (λ same. fresh (ground arith)) in
    (
      ap value e,
      subst
          (λ o.
            refresh_session db env later token session_id' (after o)
            ≡ returned (refused (failure session_mismatch)) (after o))
          (sym e) second,
    )

module _ (db : Users) (now k : ℕ) (session_id : String) (t : db.Rows) {u : User}
    (found : db.find k t ≡ some u) where
  logout-signed_out :
      u.unique_session_id ≡ some session_id
      → (t' : db.Rows) × (logout db now k session_id t ≡ returned (signed_out k session_id) t')
        × (db.update k (signing_out now) t ≡ some t')
  unfolding logout
  logout-signed_out current =
      let (t', written) = db.update-found k (signing_out now) t (signing_out-KeepsKeys now) found in
      (
        t',
        ground (arith, found, (holds_text_iff u.unique_session_id session_id).1 current, written),
        written,
      )

-- After an enabled user signs out of the current session, every verified refresh token of the user
-- is refused, whichever session it names, and nothing is written.
pub logout_ends_sessions :
    (db : Users) (env : Env) (k now later : ℕ) (session_id token session_id' : String) (d : Payload)
    (t : db.Rows) (u : User)
    → db.find k t ≡ some u
    → u.disabled ≡ false
    → u.unique_session_id ≡ some session_id
    → verify_refresh_token env.jwt later token ≡ some d
    → d.user_id ≡ k
    → let first = logout db now k session_id t in
      (value first ≡ some (signed_out k session_id))
      × (refresh_session db env later token session_id' (after first)
          ≡ returned (refused (failure session_mismatch)) (after first))
unfolding signing_out
logout_ends_sessions db env k now later session_id token session_id' d t u found enabled current dec
      same_user =
    let (t₁, e, written) = logout-signed_out db now k session_id t found current in
    let stored =
      subst (λ j. db.find j t₁ ≡ some (signing_out now u)) (sym same_user)
        (db.find-update_self k (signing_out now) t written found) in
    let second =
      refresh-mismatch db env later token d dec session_id' t₁ {u = signing_out now u} stored
        enabled (λ same. cc) in
    (
      ap value e,
      subst
          (λ o.
            refresh_session db env later token session_id' (after o)
            ≡ returned (refused (failure session_mismatch)) (after o))
          (sym e) second,
    )
