-- ===== src/JwtAuth/Cache/Bounds.antt =====
-- What the operations of the cache keep: a bound on the sizes, and any predicate of the entries.
use pafs_backend_api.Prelude.{
  ℕ, ◌+◌, ◌≤◌, ◌<◌, Bool, true, String, Option, some, ◌≡◌, not, List, [], ◌∷◌, length, filter, All,
  arith, Bool-cases, sym, ◌⊎◌, subst, ◌==◌, inl, inr,
}
use pafs_backend_api.JwtAuth.Cache.{
  AuthCache, Credentials, put, make_room, lookup, VersionEntry, version_entry, is_version_of,
  is_result_of, get, set, get_session_version, set_session_version, invalidate, invalidate_user,
}

module _ {A : Type 0} where
  length-filter_le : (p : A → Bool) (xs : List A) → length (filter p xs) ≤ length xs
  length-filter_le p [] = omega arith
  length-filter_le p (x ∷ xs) = ground (arith, length-filter_le p xs)

  length-put_le : (p : A → Bool) (x : A) (xs : List A) → length (put p x xs) ≤ length xs + 1
  length-put_le p x [] = omega arith
  length-put_le p x (y ∷ xs) = ground (arith, length-put_le p x xs)

  length-make_room : (xs : List A) → length xs ≤ 500 → length (make_room xs) < 500
  length-make_room [] h = omega arith
  length-make_room (x ∷ xs) h = ground arith

  length-put-make_room :
      (p : A → Bool) (x : A) (xs : List A) → length xs ≤ 500 → length (put p x (make_room xs)) ≤ 500
  length-put-make_room p x xs h =
      omega (arith, length-put_le p x (make_room xs), length-make_room xs h)

  module _ (P : A → Type 0) where
    filter-All : (p : A → Bool) (xs : List A) → All P xs → All P (filter p xs)
    filter-All p [] h = tt
    filter-All p (x ∷ xs) h = elim (Bool-cases (p x)) [
      | inl e ↦ simp e (h.0, filter-All p xs h.1)
      | inr e ↦ simp e (filter-All p xs h.1)
    ]

    put-All : (p : A → Bool) (x : A) (xs : List A) → P x → All P xs → All P (put p x xs)
    put-All p x [] new h = (new, tt)
    put-All p x (y ∷ xs) new h = elim (Bool-cases (p y)) [
      | inl e ↦ simp e (new, h.1)
      | inr e ↦ simp e (h.0, put-All p x xs new h.1)
    ]

    make_room-All : (xs : List A) → All P xs → All P (make_room xs)
    make_room-All [] h = tt
    make_room-All (x ∷ xs) h = ground (arith, h.1, h)

    pub lookup-All :
        (p : A → Bool) (xs : List A) {x : A} → lookup p xs ≡ some x → All P xs → P x × (p x ≡ true)
    lookup-All p [] e h = cc
    lookup-All p (y ∷ xs) {x} e h = elim (Bool-cases (p y)) [
      | inl m ↦
          let same : y ≡ x = ground (arith, m, e) in subst (λ z. P z × (p z ≡ true)) same (h.0, m)
      | inr m ↦ lookup-All p xs (ground (arith, m, e)) h.1
    ]

pub record IsBounded (c : AuthCache) : Type 0 where
  pub store : length c.store ≤ 500
  pub version_store : length c.version_store ≤ 500

pub get-IsBounded :
    (now user_id : ℕ) (session_id : String) (c : AuthCache)
    → IsBounded c
    → IsBounded (get now user_id session_id c).1
unfolding get
get-IsBounded now user_id session_id c h = record {
  store =
      ground
        (arith, h.store, length-filter_le (λ x. not (is_result_of user_id session_id x)) c.store);
  version_store = ground (arith, h.version_store);
}

pub get_session_version-IsBounded :
    (now user_id : ℕ) (c : AuthCache)
    → IsBounded c
    → IsBounded (get_session_version now user_id c).1
unfolding get_session_version
get_session_version-IsBounded now user_id c h = record {
  store = ground (arith, h.store);
  version_store = ground (
    arith,
    h.version_store,
    length-filter_le (λ x. not (is_version_of user_id x)) c.version_store,
  );
}

pub set-IsBounded :
    (now user_id : ℕ) (session_id : String) (result : Credentials) (c : AuthCache)
    → IsBounded c
    → IsBounded (set now user_id session_id result c)
unfolding set
set-IsBounded now user_id session_id result c h = record {
  store = length-put-make_room _ _ c.store h.store;
  version_store = h.version_store;
}

pub set_session_version-IsBounded :
    (now user_id : ℕ) (session_id : Option String) (c : AuthCache)
    → IsBounded c
    → IsBounded (set_session_version now user_id session_id c)
unfolding set_session_version
set_session_version-IsBounded now user_id session_id c h = record {
  store = h.store;
  version_store = length-put-make_room _ _ c.version_store h.version_store;
}

pub invalidate-IsBounded :
    (user_id : ℕ) (session_id : String) (c : AuthCache)
    → IsBounded c
    → IsBounded (invalidate user_id session_id c)
unfolding invalidate
invalidate-IsBounded user_id session_id c h = record {
  store =
      omega
        (arith, h.store, length-filter_le (λ x. not (is_result_of user_id session_id x)) c.store);
  version_store = omega (
    arith,
    h.version_store,
    length-filter_le (λ x. not (is_version_of user_id x)) c.version_store,
  );
}

pub invalidate_user-IsBounded :
    (user_id : ℕ) (c : AuthCache) → IsBounded c → IsBounded (invalidate_user user_id c)
unfolding invalidate_user
invalidate_user-IsBounded user_id c h = record {
  store = omega (arith, h.store, length-filter_le (λ x. not (x.user_id == user_id)) c.store);
  version_store = omega (
    arith,
    h.version_store,
    length-filter_le (λ x. not (is_version_of user_id x)) c.version_store,
  );
}

get-version_store :
    (now user_id : ℕ) (session_id : String) (c : AuthCache)
    → (get now user_id session_id c).1.version_store ≡ c.version_store
unfolding get
get-version_store now user_id session_id c = ground arith

get_session_version-version_store :
    (now user_id : ℕ) (c : AuthCache)
    → ((get_session_version now user_id c).1.version_store ≡ c.version_store)
      ⊎ ((get_session_version now user_id c).1.version_store
          ≡ filter (λ x. not (is_version_of user_id x)) c.version_store)
unfolding get_session_version
get_session_version-version_store now user_id c = ground arith

module _ (P : VersionEntry → Type 0) where
  abbrev pub Versions : AuthCache → Type 0
  Versions c = All P c.version_store

  pub get-Versions :
      (now user_id : ℕ) (session_id : String) (c : AuthCache)
      → Versions c
      → Versions (get now user_id session_id c).1
  get-Versions now user_id session_id c h =
      subst (All P) (sym (get-version_store now user_id session_id c)) h

  pub get_session_version-Versions :
      (now user_id : ℕ) (c : AuthCache)
      → Versions c
      → Versions (get_session_version now user_id c).1
  get_session_version-Versions now user_id c h =
      elim (get_session_version-version_store now user_id c) [
        | inl e ↦ subst (All P) (sym e) h
        | inr e ↦ subst (All P) (sym e) (filter-All P _ c.version_store h)
      ]

  pub set-Versions :
      (now user_id : ℕ) (session_id : String) (result : Credentials) (c : AuthCache)
      → Versions c
      → Versions (set now user_id session_id result c)
  unfolding set
  set-Versions now user_id session_id result c h = h

  pub set_session_version-Versions :
      (now user_id : ℕ) (session_id : Option String) (c : AuthCache)
      → P (version_entry now user_id session_id)
      → Versions c
      → Versions (set_session_version now user_id session_id c)
  unfolding set_session_version
  set_session_version-Versions now user_id session_id c new h =
      put-All P _ _ _ new (make_room-All P c.version_store h)

  pub invalidate-Versions :
      (user_id : ℕ) (session_id : String) (c : AuthCache)
      → Versions c
      → Versions (invalidate user_id session_id c)
  unfolding invalidate
  invalidate-Versions user_id session_id c h = filter-All P _ c.version_store h

  pub invalidate_user-Versions :
      (user_id : ℕ) (c : AuthCache) → Versions c → Versions (invalidate_user user_id c)
  unfolding invalidate_user
  invalidate_user-Versions user_id c h = filter-All P _ c.version_store h
