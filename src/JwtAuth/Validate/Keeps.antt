-- ===== src/JwtAuth/Validate/Keeps.antt =====
-- What the operations of the cache keep, a request keeps.
use pafs_backend_api.Prelude.{
  ℕ, ◌≡◌, inl, inr, sym, subst, true, Option, none, some, holds_text, Option-cases, arith,
}
use pafs_backend_api.Auth.User.{User}
use pafs_backend_api.Auth.Jwt.{Payload}
use pafs_backend_api.JwtAuth.Cache.{
  AuthCache, Credentials, get, set, get_session_version, set_session_version, invalidate,
}
use pafs_backend_api.Auth.Session.Rotation.{holds_text_iff}
use pafs_backend_api.JwtAuth.Validate.{
  check_decoded, check_user_status, build_credentials, fetch_version, verify_session_version,
  validate_cached, accept, validate_fetched, validate,
}

-- A request keeps what the operations of the cache keep.
module _ (fetch_user : ℕ → Option (Option User)) (now : ℕ) (d : Payload) (Q : AuthCache → Type 0)
    (got : (c : AuthCache) → Q c → Q (get now d.user_id d.session_id c).1)
    (got_version : (c : AuthCache) → Q c → Q (get_session_version now d.user_id c).1)
    (was_set : (r : Credentials) (c : AuthCache) → Q c → Q (set now d.user_id d.session_id r c))
    (version_set : (u : User) (c : AuthCache)
      → fetch_user d.user_id ≡ some (some u)
      → Q c
      → Q (set_session_version now d.user_id u.unique_session_id c))
    (evicted : (c : AuthCache) → Q c → Q (invalidate d.user_id d.session_id c)) where
  fetch_version-keeps : (c : AuthCache) → Q c → Q (fetch_version fetch_user now d c).1
  unfolding fetch_version
  fetch_version-keeps c h = elim (Option-cases (fetch_user d.user_id)) [
    | inl e ↦
        let same : (fetch_version fetch_user now d c).1 ≡ c = ground (arith, e) in
        subst Q (sym same) h
    | inr (o, e) ↦ elim (Option-cases o) [
      | inl m ↦
          let same : (fetch_version fetch_user now d c).1 ≡ c = ground (arith, e, m) in
          subst Q (sym same) h
      | inr (u, m) ↦
          let row : fetch_user d.user_id ≡ some (some u) = ground (arith, e, m) in
          let same : (fetch_version fetch_user now d c).1
              ≡ set_session_version now d.user_id u.unique_session_id c =
            ground (arith, row) in
          subst Q (sym same) (version_set u c row h)
    ]
  ]

  verify_session_version-keeps :
      (c : AuthCache) → Q c → Q (verify_session_version fetch_user now d c).1
  unfolding verify_session_version
  verify_session_version-keeps c h =
      let (v, c₁) = get_session_version now d.user_id c in
      elim (Option-cases (get_session_version now d.user_id c).0) [
        | inl e ↦
            let same : verify_session_version fetch_user now d c
                ≡ fetch_version fetch_user now d (get_session_version now d.user_id c).1 =
              ground (arith, e) in
            subst (λ r. Q r.1) (sym same) (fetch_version-keeps _ (got_version c h))
        | inr (v, e) ↦
            let same : (verify_session_version fetch_user now d c).1
                ≡ (get_session_version now d.user_id c).1 =
              ground (arith, e) in
            subst Q (sym same) (got_version c h)
      ]

  validate_cached-keeps :
      (r : Credentials) (c : AuthCache) → Q c → Q (validate_cached fetch_user now d r c).1
  unfolding validate_cached
  validate_cached-keeps r c h = elim (Option-cases (verify_session_version fetch_user now d c).0) [
    | inl e ↦
        let same : (validate_cached fetch_user now d r c).1
            ≡ (verify_session_version fetch_user now d c).1 =
          ground (arith, e) in
        subst Q (sym same) (verify_session_version-keeps c h)
    | inr (x, e) ↦
        let same : (validate_cached fetch_user now d r c).1
            ≡ invalidate d.user_id d.session_id (verify_session_version fetch_user now d c).1 =
          ground (arith, e) in
        subst Q (sym same) (evicted _ (verify_session_version-keeps c h))
  ]

  accept-keeps :
      (u : User) (c : AuthCache)
      → fetch_user d.user_id ≡ some (some u)
      → holds_text u.unique_session_id d.session_id ≡ true
      → Q c
      → Q (accept now u d c).1
  unfolding accept
  accept-keeps u c row same h =
      let here : u.unique_session_id ≡ some d.session_id =
        (holds_text_iff u.unique_session_id d.session_id).0 same in
      let set_now = was_set (build_credentials u d d.areas) c h in
      subst
        (λ v. Q (
          set_session_version now d.user_id v
            (set now d.user_id d.session_id (build_credentials u d d.areas) c)))
        here (version_set u _ row set_now)

  validate_fetched-keeps : (c : AuthCache) → Q c → Q (validate_fetched fetch_user now d c).1
  unfolding validate_fetched check_user_status
  validate_fetched-keeps c h = elim (Option-cases (fetch_user d.user_id)) [
    | inl e ↦
        let same : (validate_fetched fetch_user now d c).1 ≡ c = ground (arith, e) in
        subst Q (sym same) h
    | inr (none, e) ↦
        let same : (validate_fetched fetch_user now d c).1 ≡ c = ground (arith, e) in
        subst Q (sym same) h
    | inr (some u, e) ↦ elim (Option-cases (check_user_status u d)) [
      | inr (x, s) ↦
          let same : (validate_fetched fetch_user now d c).1 ≡ c = ground (arith, e, s) in
          subst Q (sym same) h
      | inl s ↦
          let same : validate_fetched fetch_user now d c ≡ accept now u d c =
            ground (arith, e, s) in
          let m : holds_text u.unique_session_id d.session_id ≡ true = ground (arith, s) in
          subst (λ r. Q r.1) (sym same) (accept-keeps u c e m h)
    ]
  ]

  pub validate-keeps : (c : AuthCache) → Q c → Q (validate fetch_user now d c).1
  unfolding validate
  validate-keeps c h = elim (Option-cases (check_decoded d)) [
    | inr (x, s) ↦
        let same : (validate fetch_user now d c).1 ≡ c = ground (arith, s) in subst Q (sym same) h
    | inl s ↦ elim (Option-cases (get now d.user_id d.session_id c).0) [
      | inl e ↦
          let same : validate fetch_user now d c
              ≡ validate_fetched fetch_user now d (get now d.user_id d.session_id c).1 =
            ground (arith, s, e) in
          subst (λ r. Q r.1) (sym same) (validate_fetched-keeps _ (got c h))
      | inr (r, e) ↦
          let same : validate fetch_user now d c
              ≡ validate_cached fetch_user now d r (get now d.user_id d.session_id c).1 =
            ground (arith, s, e) in
          subst (λ r. Q r.1) (sym same) (validate_cached-keeps r _ (got c h))
    ]
  ]
