-- ===== src/Auth/Service/Attempts.antt =====
-- Sequences of sign-in attempts on one account.
use pafs_backend_api.Prelude.{
  ℕ, ◌+◌, ◌≤◌, String, ◌≡◌, refl, sym, ap, ◌∙◌, subst, ◌⊎◌, Bool, false, List, [], ◌∷◌, All, Option,
  some, Outcome, returned, after, value, arith,
}
use pafs_backend_api.Auth.User.{User}
use pafs_backend_api.Auth.Store.{Users}
use pafs_backend_api.Auth.Config.{AuthConfig}
use pafs_backend_api.Auth.Password.{verify_password}
use pafs_backend_api.Auth.Lockout.{should_reset_lockout}
use pafs_backend_api.Auth.Service.{
  Env, SignIn, Failure, invalid_credentials, refused, login, handle_lockout_reset, should_lock,
  failure_after,
}
use pafs_backend_api.Auth.Service.Writes.{counting}
use pafs_backend_api.Auth.Service.Checks.{CanTry, IsSetUp, IsRecent, lock_ms}
use pafs_backend_api.Auth.Service.Failures.{counted, login-refused}

pub record Attempt : Type 0 where
  pub time : ℕ
  pub password : String
  pub ip_address : String
  pub session_id : String

module _ (db : Users) (env : Env) (email : String) where
  open env use {bcrypt, config}

  -- The attempts one after the other: the rows that they leave, and what each returned.
  abbrev pub login_all : List Attempt → db.Rows → db.Rows
  login_all [] t = t
  login_all (a ∷ rest) t =
      login_all rest (after (login db env a.time email a.password a.ip_address a.session_id t))

  abbrev pub results : List Attempt → db.Rows → List (Option SignIn)
  results [] t = []
  results (a ∷ rest) t =
      let o = login db env a.time email a.password a.ip_address a.session_id t in
      value o ∷ results rest (after o)

-- An attempt that only the password can stop: the wrong one, on an account in use, once the lock
-- that was set at `l` is over.
abbrev pub IsWrongAfter : Env → User → ℕ → Attempt → Type 0
IsWrongAfter env u l a =
    (verify_password env.bcrypt a.password u.encrypted_password ≡ false)
    × (l + lock_ms env.config ≤ a.time)
    × ((env.config.disabling_enabled ≡ false) ⊎ IsRecent env.config a.time u.last_sign_in_at)

abbrev pub IsInvalid : Option SignIn → Type 0
IsInvalid r = (f : Failure) × (r ≡ some (refused f)) × (f.error_code ≡ invalid_credentials)

-- The columns that a failed attempt leaves alone.
pub record SameAccount (u v : User) : Type 0 where
  pub email : v.email ≡ u.email
  pub status : v.status ≡ u.status
  pub disabled : v.disabled ≡ u.disabled
  pub password : v.encrypted_password ≡ u.encrypted_password
  pub last_sign_in : v.last_sign_in_at ≡ u.last_sign_in_at
  pub lock : v.locked_at ≡ u.locked_at

pub SameAccount-self : {u : User} → SameAccount u u
SameAccount-self = record {
  email = refl;
  status = refl;
  disabled = refl;
  password = refl;
  last_sign_in = refl;
  lock = refl;
}

counted_after_lock :
    (c : AuthConfig) (now l : ℕ) (v : User)
    → v.locked_at ≡ some l
    → l + lock_ms c ≤ now
    → counted c now v ≡ 0
unfolding counted handle_lockout_reset should_reset_lockout
counted_after_lock c now l v e w = ground arith

should_lock_first : (c : AuthConfig) → 2 ≤ c.max_attempts → should_lock c 1 ≡ false
unfolding should_lock
should_lock_first c h = ground arith

pub failure_after-invalid :
    (c : AuthConfig) (u : User) (n : ℕ)
    → (failure_after c u n false).error_code ≡ invalid_credentials
unfolding failure_after
failure_after-invalid c u n = ground arith

module _ (db : Users) (env : Env) (k l : ℕ) (u : User) (set_up : IsSetUp u.status)
    (enabled : u.disabled ≡ false) (locked : u.locked_at ≡ some l)
    (more : 2 ≤ env.config.max_attempts) where
  CanTry-again :
      {v : User} (a : Attempt)
      → SameAccount u v
      → IsWrongAfter env u l a
      → CanTry env.config a.time v
  CanTry-again {v} a s w = ground arith

  abbrev try_at : Attempt → db.Rows → Outcome db.Rows SignIn
  try_at a t = login db env a.time u.email a.password a.ip_address a.session_id t

  -- What one more wrong password does: it is refused, and the old lock stays in the row, with a
  -- count of one.
  record Retried (o : Outcome db.Rows SignIn) : Type 0 where
    row : User
    refusal : IsInvalid (value o)
    stored : db.find k (after o) ≡ some row
    same : SameAccount u row
    once : row.failed_attempts ≡ 1

  Retried-of :
      {v : User} {n : ℕ} {lock : Bool} (t t' : db.Rows) (a : Attempt)
      → db.find k t ≡ some v
      → SameAccount u v
      → n ≡ 1
      → lock ≡ false
      → try_at a t ≡ returned (refused (failure_after env.config v n lock)) t'
      → db.update k (counting n a.ip_address lock a.time) t ≡ some t'
      → Retried (try_at a t)
  unfolding counting
  Retried-of {v} {n} {lock} t t' a found s one open_lock e written =
      let patch = counting n a.ip_address lock a.time in
      record {
        row = patch v;
        refusal = (
          failure_after env.config v n lock,
          ap value e,
          rw open_lock (failure_after-invalid env.config v n),
        );
        stored = rw e (db.find-update_self k patch t written found);
        same = ground arith;
        once = one;
      }

  retry :
      {v : User} (t : db.Rows) (a : Attempt)
      → db.find k t ≡ some v
      → SameAccount u v
      → IsWrongAfter env u l a
      → Retried (try_at a t)
  retry {v} t a found s w =
      let (t', e, written) =
        login-refused db env a.time a.password a.ip_address a.session_id k t found
          (CanTry-again a s w) (rw s.password w.0) in
      let one : counted env.config a.time v + 1 ≡ 1 =
        omega (arith, counted_after_lock env.config a.time l v (s.lock ∙ locked) w.1) in
      Retried-of t t' a found s one
        (subst (λ n. should_lock env.config n ≡ false) (sym one)
          (should_lock_first env.config more))
        (sym (ap (λ m. login db env a.time m a.password a.ip_address a.session_id t) s.email) ∙ e)
        written

  retries :
      (later : List Attempt) (t : db.Rows) {v : User}
      → db.find k t ≡ some v
      → SameAccount u v
      → All (IsWrongAfter env u l) later
      → All IsInvalid (results db env u.email later t)
        × ((v' : User) × (db.find k (login_all db env u.email later t) ≡ some v')
            × SameAccount u v')
  retries [] t {v} found s w = (tt, (v, found, s))
  retries (a ∷ later) t found s (w, ws) =
      let r = retry t a found s w in
      let (rest, last) = retries later (after (try_at a t)) {v = r.row} r.stored r.same ws in
      ((r.refusal, rest), last)

-- Where `maxAttempts` is at least 2 and an account is set up, enabled and not inactive at any of
-- the attempts, a lock that has run out is never set again: every later wrong password is answered
-- as a plain wrong password, and the row keeps the old lock, however many there are.
pub expired_lock_never_relocks :
    (db : Users) (env : Env) (k l : ℕ) (u : User) (t : db.Rows) (attempts : List Attempt)
    → db.find k t ≡ some u
    → IsSetUp u.status
    → u.disabled ≡ false
    → u.locked_at ≡ some l
    → 2 ≤ env.config.max_attempts
    → All (IsWrongAfter env u l) attempts
    → All IsInvalid (results db env u.email attempts t)
      × ((v : User) × (db.find k (login_all db env u.email attempts t) ≡ some v)
          × (v.locked_at ≡ some l))
expired_lock_never_relocks db env k l u t attempts found set_up enabled locked more wrong =
    let (invalid, (v, stored, same)) =
      retries db env k l u set_up enabled locked more attempts t found SameAccount-self wrong in
    (invalid, (v, stored, same.lock ∙ locked))
