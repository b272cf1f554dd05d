-- ===== src/JwtAuth/Validate/Window.antt =====
-- How long a session that has been superseded can still be served from the caches, and how large
-- these grow, over a sequence of requests and evictions.
use pafs_backend_api.Prelude.{
  ℕ, ◌+◌, ◌≤◌, ◌<◌, ◌≡◌, ◌≢◌, ◌⊎◌, inl, inr, refl, String, Bool, false, List, [], ◌∷◌, Option, none,
  some, holds_text, All, Option-cases, Bool-cases, arith,
}
use pafs_backend_api.Auth.User.{User}
use pafs_backend_api.Auth.Jwt.{Payload}
use pafs_backend_api.Auth.Service.{session_mismatch}
use pafs_backend_api.Auth.Session.Rotation.{holds_text-ne}
use pafs_backend_api.JwtAuth.Cache.{
  AuthCache, VersionEntry, lookup, is_version_of, get, get_session_version, invalidate,
  invalidate_user, version_entry, session_version_cache_ttl_ms,
}
use pafs_backend_api.JwtAuth.Cache.Bounds.{
  IsBounded, get-IsBounded, get_session_version-IsBounded, set-IsBounded,
  set_session_version-IsBounded, invalidate-IsBounded, invalidate_user-IsBounded, Versions,
  get-Versions, get_session_version-Versions, set-Versions, set_session_version-Versions,
  invalidate-Versions, invalidate_user-Versions, lookup-All,
}
use pafs_backend_api.JwtAuth.Validate.{
  is_valid, check_decoded, check_user_status, verify_session_version, validate,
}
use pafs_backend_api.JwtAuth.Validate.Keeps.{validate-keeps}

-- What reaches the caches of one instance: a request, with its time and the rows that it reads, and
-- the two decorations of the server.
pub data Event : Type 0 where
  request : ℕ → (ℕ → Option (Option User)) → Payload → Event
  invalidate_auth_cache : ℕ → String → Event
  invalidate_auth_cache_for_user : ℕ → Event

unfoldable pub run : Event → AuthCache → AuthCache
run (request now fetch_user d) c = (validate fetch_user now d c).1
run (invalidate_auth_cache user_id session_id) c = invalidate user_id session_id c
run (invalidate_auth_cache_for_user user_id) c = invalidate_user user_id c

abbrev pub run_all : List Event → AuthCache → AuthCache
run_all [] c = c
run_all (e ∷ es) c = run_all es (run e c)

abbrev pub no_entries : AuthCache
no_entries = record { store = []; version_store = [] }

run-IsBounded : (e : Event) (c : AuthCache) → IsBounded c → IsBounded (run e c)
unfolding run
run-IsBounded (request now fetch_user d) c h =
    validate-keeps fetch_user now d IsBounded (get-IsBounded now d.user_id d.session_id)
      (get_session_version-IsBounded now d.user_id) (set-IsBounded now d.user_id d.session_id)
      (λ u c' e. set_session_version-IsBounded now d.user_id u.unique_session_id c')
      (invalidate-IsBounded d.user_id d.session_id) c h
run-IsBounded (invalidate_auth_cache user_id session_id) c h =
    invalidate-IsBounded user_id session_id c h
run-IsBounded (invalidate_auth_cache_for_user user_id) c h = invalidate_user-IsBounded user_id c h

run_all-IsBounded : (es : List Event) (c : AuthCache) → IsBounded c → IsBounded (run_all es c)
run_all-IsBounded [] c h = h
run_all-IsBounded (e ∷ es) c h = run_all-IsBounded es (run e c) (run-IsBounded e c h)

-- However many requests and evictions an instance serves, neither of its caches, which start empty,
-- ever has more than 500 entries.
pub caches-IsBounded : (es : List Event) → IsBounded (run_all es no_entries)
caches-IsBounded es =
    run_all-IsBounded es no_entries (record { store = omega arith; version_store = omega arith })

-- An event that is over by `τ`.
abbrev pub IsBefore : ℕ → Event → Type 0
IsBefore τ (request now fetch_user d) = now ≤ τ
IsBefore τ (invalidate_auth_cache user_id session_id) = Unit
IsBefore τ (invalidate_auth_cache_for_user user_id) = Unit

-- A read of the user's row that does not show the session: it throws, finds no row, or finds
-- another session, or none, in it.
abbrev pub shows : String → Option (Option User) → Bool
shows s none = false
shows s (some none) = false
shows s (some (some u)) = holds_text u.unique_session_id s

abbrev pub IsSuperseded : ℕ → String → Event → Type 0
IsSuperseded k s (request now fetch_user d) = shows s (fetch_user k) ≡ false
IsSuperseded k s (invalidate_auth_cache user_id session_id) = Unit
IsSuperseded k s (invalidate_auth_cache_for_user user_id) = Unit

-- A version entry that does not vouch for session `s` of user `k` after `limit`.
abbrev IsOver : ℕ → String → ℕ → VersionEntry → Type 0
IsOver k s limit e =
    (is_version_of k e ≡ false) ⊎ (holds_text e.session_id s ≡ false) ⊎ (e.expires_at ≤ limit)

module _ (k : ℕ) (s : String) (limit : ℕ) where
  abbrev Over : AuthCache → Type 0
  Over = Versions (IsOver k s limit)

  request-Over :
      (now : ℕ) (fetch_user : ℕ → Option (Option User)) (d : Payload)
      → ((u : User)
          → fetch_user d.user_id ≡ some (some u)
          → IsOver k s limit (version_entry now d.user_id u.unique_session_id))
      → (c : AuthCache) → Over c
      → Over (run (request now fetch_user d) c)
  unfolding run
  request-Over now fetch_user d new c h =
      validate-keeps fetch_user now d Over (get-Versions _ now d.user_id d.session_id)
        (get_session_version-Versions _ now d.user_id) (set-Versions _ now d.user_id d.session_id)
        (λ u c' e. set_session_version-Versions _ now d.user_id u.unique_session_id c' (new u e))
        (invalidate-Versions _ d.user_id d.session_id) c h

  run-Over_superseded : (e : Event) (c : AuthCache) → IsSuperseded k s e → Over c → Over (run e c)
  unfolding run
  run-Over_superseded (request now fetch_user d) c other h =
      request-Over now fetch_user d
        (λ u e.
          elim (Bool-cases (is_version_of k (version_entry now d.user_id u.unique_session_id))) [
            | inr m ↦ inl m
            | inl m ↦ inr (inl (ground (arith, other, e, m)))
          ])
        c h
  run-Over_superseded (invalidate_auth_cache user_id session_id) c other h =
      invalidate-Versions _ user_id session_id c h
  run-Over_superseded (invalidate_auth_cache_for_user user_id) c other h =
      invalidate_user-Versions _ user_id c h

  run_all-Over_superseded :
      (es : List Event) (c : AuthCache) → All (IsSuperseded k s) es → Over c → Over (run_all es c)
  run_all-Over_superseded [] c other h = h
  run_all-Over_superseded (e ∷ es) c other h =
      run_all-Over_superseded es (run e c) other.1 (run-Over_superseded e c other.0 h)

  -- The version that is looked up never is the session, once the entries are over.
  verify-refused :
      (now : ℕ) (fetch_user : ℕ → Option (Option User)) (d : Payload) (u : User) (c : AuthCache)
      → d.user_id ≡ k
      → d.session_id ≡ s
      → fetch_user k ≡ some (some u)
      → holds_text u.unique_session_id s ≡ false
      → limit < now
      → Over c
      → (verify_session_version fetch_user now d c).0 ≡ some session_mismatch
  unfolding verify_session_version get_session_version
  verify-refused now fetch_user d u c id session row other late h =
      elim (Option-cases (lookup (is_version_of d.user_id) c.version_store)) [
        | inl e ↦ ground (arith, e, id, session, row, other)
        | inr (x, e) ↦
            let (over, same) =
              lookup-All (IsOver k s limit) (is_version_of d.user_id) c.version_store e h in
            ground (arith, e, id, session, row, other, over, same)
      ]

  validate-refused :
      (now : ℕ) (fetch_user : ℕ → Option (Option User)) (d : Payload) (u : User) (c : AuthCache)
      → d.user_id ≡ k
      → d.session_id ≡ s
      → fetch_user k ≡ some (some u)
      → holds_text u.unique_session_id s ≡ false
      → limit < now
      → Over c
      → is_valid (validate fetch_user now d c).0 ≡ false
  unfolding validate check_decoded check_user_status
  validate-refused now fetch_user d u c id session row other late h =
      let c₁ = (get now d.user_id d.session_id c).1 in
      let v =
        verify-refused now fetch_user d u c₁ id session row other late
          (get-Versions _ now d.user_id d.session_id c h) in
      elim (Option-cases (get now d.user_id d.session_id c).0) [
        | inl e ↦ ground (arith, e, id, session, row, other)
        | inr (r, e) ↦ ground (arith, e, v)
      ]

module _ (k : ℕ) (s : String) (τ : ℕ) where
  run-Over_before :
      (e : Event) (c : AuthCache)
      → IsBefore τ e
      → Versions (IsOver k s (τ + 10000)) c
      → Versions (IsOver k s (τ + 10000)) (run e c)
  unfolding run
  run-Over_before (request now fetch_user d) c before h =
      request-Over k s (τ + 10000) now fetch_user d (λ u e. inr (inr (omega (arith, before)))) c h
  run-Over_before (invalidate_auth_cache user_id session_id) c before h =
      invalidate-Versions _ user_id session_id c h
  run-Over_before (invalidate_auth_cache_for_user user_id) c before h =
      invalidate_user-Versions _ user_id c h

  run_all-Over_before :
      (es : List Event) (c : AuthCache)
      → All (IsBefore τ) es
      → Versions (IsOver k s (τ + 10000)) c
      → Versions (IsOver k s (τ + 10000)) (run_all es c)
  run_all-Over_before [] c before h = h
  run_all-Over_before (e ∷ es) c before h =
      run_all-Over_before es (run e c) before.1 (run-Over_before e c before.0 h)

-- A superseded session is served for 10 seconds at most. Let an instance, its caches empty at
-- first, serve any events up to a time `τ`, and then any events in which no read of the user's row
-- shows the token's session, at any times. A request with that token later than 10 seconds after
-- `τ`, whose own read finds the user's row with another session or none in it, is refused.
pub superseded_session_refused :
    (τ : ℕ) (before later : List Event) (now : ℕ) (fetch_user : ℕ → Option (Option User))
    (d : Payload) (u : User)
    → All (IsBefore τ) before
    → All (IsSuperseded d.user_id d.session_id) later
    → fetch_user d.user_id ≡ some (some u)
    → u.unique_session_id ≢ some d.session_id
    → τ + session_version_cache_ttl_ms < now
    → is_valid (validate fetch_user now d (run_all later (run_all before no_entries))).0 ≡ false
superseded_session_refused τ before later now fetch_user d u old superseded row other late =
    validate-refused d.user_id d.session_id (τ + 10000) now fetch_user d u _ refl refl row
      (holds_text-ne u.unique_session_id d.session_id other) late
      (run_all-Over_superseded d.user_id d.session_id (τ + 10000) later _ superseded
        (run_all-Over_before d.user_id d.session_id τ before no_entries old tt))
