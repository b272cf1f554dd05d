-- ===== src/JwtAuth/Validate/Laws.antt =====
-- What a request is accepted for, with and without an entry in the caches.
use pafs_backend_api.Prelude.{
  ℕ, ◌+◌, ◌≤◌, ◌≡◌, ◌≢◌, ◌↔◌, String, true, false, Option, none, some, ◌==◌, arith, eq_iff, Bool,
  not, List, [], ◌∷◌, ◌⊎◌, inl, inr, refl, ap, ◌∙◌, filter, Option-cases,
}
use pafs_backend_api.Auth.User.{User}
use pafs_backend_api.Auth.Jwt.{Payload}
use pafs_backend_api.Auth.Session.Rotation.{holds_text_iff, holds_text-ne}
use pafs_backend_api.JwtAuth.Cache.{
  AuthCache, ResultEntry, auth_cache_ttl_ms, version_entry, Credentials, lookup, put, make_room,
  is_version_of, is_result_of, get, set, get_session_version, set_session_version, invalidate_user,
}
use pafs_backend_api.JwtAuth.Validate.{
  is_valid, valid, check_decoded, check_user_status, build_credentials, validate_fetched, accept,
  validate,
}

check_decoded-none : (d : Payload) → d.user_id ≢ 0 → d.session_id ≢ "" → check_decoded d ≡ none
unfolding check_decoded
check_decoded-none d user session = ground (arith, user, session, eq_iff d.session_id "")

check_user_status-none :
    (u : User) (d : Payload)
    → u.disabled ≡ false
    → u.locked_at ≡ none
    → u.unique_session_id ≡ some d.session_id
    → check_user_status u d ≡ none
unfolding check_user_status
check_user_status-none u d enabled unlocked current =
    ground (arith, enabled, unlocked, (holds_text_iff u.unique_session_id d.session_id).1 current)

fetched_row :
    (fetch_user : ℕ → Option (Option User)) (now : ℕ) (d : Payload) (c : AuthCache)
    → is_valid (validate_fetched fetch_user now d c).0 ≡ true
    → (u : User) × (fetch_user d.user_id ≡ some (some u))
      × (u.disabled ≡ false)
      × (u.locked_at ≡ none)
      × (u.unique_session_id ≡ some d.session_id)
unfolding validate_fetched check_user_status
fetched_row fetch_user now d c e = elim (Option-cases (fetch_user d.user_id)) [
  | inl m ↦ ground (arith, m, e)
  | inr (none, m) ↦ ground (arith, m, e)
  | inr (some u, m) ↦ (
    u,
    m,
    ground (arith, m, e),
    ground (arith, m, e),
    (holds_text_iff u.unique_session_id d.session_id).0 (ground (arith, m, e)),
  )
]

lookup-evicted :
    (user_id : ℕ) (session_id : String) (xs : List ResultEntry)
    → lookup (is_result_of user_id session_id) (filter (λ x. not (x.user_id == user_id)) xs) ≡ none
lookup-evicted user_id session_id [] = refl
lookup-evicted user_id session_id (x ∷ xs) = ground (arith, lookup-evicted user_id session_id xs)

lookup-put :
    {A : Type 0} (p : A → Bool) (x : A) (xs : List A) → p x ≡ true → lookup p (put p x xs) ≡ some x
lookup-put p x [] h = ground (arith, h)
lookup-put p x (y ∷ xs) h = ground (arith, h, lookup-put p x xs h)

validate-accept :
    (fetch_user : ℕ → Option (Option User)) (now : ℕ) (d : Payload) (u : User) (c : AuthCache)
    → check_decoded d ≡ none
    → (get now d.user_id d.session_id c).0 ≡ none
    → fetch_user d.user_id ≡ some (some u)
    → check_user_status u d ≡ none
    → validate fetch_user now d c ≡ accept now u d (get now d.user_id d.session_id c).1
unfolding validate validate_fetched
validate-accept fetch_user now d u c claims miss row status =
    ground (arith, claims, miss, row, status)

accept-get :
    (now later : ℕ) (u : User) (d : Payload) (c : AuthCache)
    → later ≤ now + auth_cache_ttl_ms
    → get later d.user_id d.session_id (accept now u d c).1
      ≡ (some (build_credentials u d d.areas), (accept now u d c).1)
unfolding accept get set set_session_version
accept-get now later u d c soon =
    let new : ResultEntry = record {
      user_id = d.user_id;
      session_id = d.session_id;
      result = build_credentials u d d.areas;
      expires_at = now + auth_cache_ttl_ms;
    } in
    let found =
      lookup-put (is_result_of d.user_id d.session_id) new (make_room c.store)
        (ground (arith, eq_iff d.session_id d.session_id)) in
    ground (arith, found, soon)

accept-version :
    (now later : ℕ) (u : User) (d : Payload) (c : AuthCache)
    → let o = (get_session_version later d.user_id (accept now u d c).1).0 in
      (o ≡ none) ⊎ (o ≡ some d.session_id)
unfolding accept get_session_version set set_session_version
accept-version now later u d c =
    let new = version_entry now d.user_id (some d.session_id) in
    let found =
      lookup-put (is_version_of d.user_id) new (make_room c.version_store) (ground arith) in
    ground (arith, found)

validate-cached :
    (fetch_user : ℕ → Option (Option User)) (now : ℕ) (d : Payload) (u : User) (c : AuthCache)
    {r : Credentials}
    → check_decoded d ≡ none
    → fetch_user d.user_id ≡ some (some u)
    → u.unique_session_id ≡ some d.session_id
    → get now d.user_id d.session_id c ≡ (some r, c)
    → ((get_session_version now d.user_id c).0 ≡ none)
      ⊎ ((get_session_version now d.user_id c).0 ≡ some d.session_id)
    → (validate fetch_user now d c).0 ≡ valid r
unfolding validate
validate-cached fetch_user now d u c claims row current hit (inl v) =
    ground (arith, claims, row, hit, v, (holds_text_iff u.unique_session_id d.session_id).1 current)
validate-cached fetch_user now d u c claims row current hit (inr v) =
    ground (arith, claims, row, hit, v, eq_iff d.session_id d.session_id)

-- Without a cached result, a token with a user and a session is accepted exactly when the row that
-- is read is that of a user who is enabled, not locked, and has the token's session.
pub validate-valid_iff :
    (fetch_user : ℕ → Option (Option User)) (now : ℕ) (d : Payload) (c : AuthCache)
    → d.user_id ≢ 0
    → d.session_id ≢ ""
    → (get now d.user_id d.session_id c).0 ≡ none
    → (is_valid (validate fetch_user now d c).0 ≡ true) ↔ (
        (u : User) × (fetch_user d.user_id ≡ some (some u))
        × (u.disabled ≡ false)
        × (u.locked_at ≡ none)
        × (u.unique_session_id ≡ some d.session_id))
unfolding validate
validate-valid_iff fetch_user now d c user session miss =
    let claims : check_decoded d ≡ none = check_decoded-none d user session in
    (
      λ e.
          fetched_row fetch_user now d (get now d.user_id d.session_id c).1
            (ground (arith, claims, miss, e)),
      λ h.
          let status : check_user_status h.0 d ≡ none = check_user_status-none h.0 d h.2 h.3 h.4 in
          ground (arith, claims, miss, h.1, status),
    )

-- After a login or a logout has evicted the user, a token of another session than the row's is
-- refused at once, whatever the caches held.
pub invalidate_user-refused :
    (fetch_user : ℕ → Option (Option User)) (now : ℕ) (d : Payload) (u : User) (c : AuthCache)
    → fetch_user d.user_id ≡ some (some u)
    → u.unique_session_id ≢ some d.session_id
    → is_valid (validate fetch_user now d (invalidate_user d.user_id c)).0 ≡ false
unfolding validate check_decoded check_user_status get invalidate_user
invalidate_user-refused fetch_user now d u c row other =
    let gone = lookup-evicted d.user_id d.session_id c.store in
    ground (arith, gone, row, holds_text-ne u.unique_session_id d.session_id other)

-- A user who has been accepted stays accepted, with the same credentials, for 15 minutes after
-- that, as long as the row keeps the session, even where the row says that the account is disabled
-- or locked meanwhile.
pub disabled_user_still_accepted :
    (fetch_user fetch_user' : ℕ → Option (Option User)) (now later : ℕ) (d : Payload) (u v : User)
    (c : AuthCache)
    → d.user_id ≢ 0
    → d.session_id ≢ ""
    → (get now d.user_id d.session_id c).0 ≡ none
    → fetch_user d.user_id ≡ some (some u)
    → u.disabled ≡ false
    → u.locked_at ≡ none
    → u.unique_session_id ≡ some d.session_id
    → fetch_user' d.user_id ≡ some (some v)
    → v.unique_session_id ≡ some d.session_id
    → later ≤ now + auth_cache_ttl_ms
    → let first = validate fetch_user now d c in
      (first.0 ≡ valid (build_credentials u d d.areas))
      × ((validate fetch_user' later d first.1).0 ≡ valid (build_credentials u d d.areas))
unfolding accept
disabled_user_still_accepted fetch_user fetch_user' now later d u v c user session miss row enabled
      unlocked current row' current' soon =
    let claims = check_decoded-none d user session in
    let status = check_user_status-none u d enabled unlocked current in
    let c₁ = (get now d.user_id d.session_id c).1 in
    let first = validate-accept fetch_user now d u c claims miss row status in
    (
      ap (λ r. r.0) first,
      ap (λ r. (validate fetch_user' later d r.1).0) first
          ∙ validate-cached fetch_user' later d v _ claims row' current'
              (accept-get now later u d c₁ soon) (accept-version now later u d c₁),
    )
