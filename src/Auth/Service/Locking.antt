-- ===== src/Auth/Service/Locking.antt =====
-- Wrong passwords in a row on an account that is not locked.
use pafs_backend_api.Prelude.{
  ℕ, ◌+◌, ◌≤◌, ◌≡◌, refl, sym, ap, ◌∙◌, subst, ◌⊎◌, true, false, List, [], ◌∷◌, All, length, none,
  some, Outcome, returned, after, value, arith,
}
use pafs_backend_api.Auth.User.{User}
use pafs_backend_api.Auth.Store.{Users}
use pafs_backend_api.Auth.Config.{AuthConfig}
use pafs_backend_api.Auth.Password.{verify_password}
use pafs_backend_api.Auth.Lockout.{should_reset_lockout}
use pafs_backend_api.Auth.Service.{
  Env, SignIn, refused, login, handle_lockout_reset, should_lock, failure_after, locked_failure,
}
use pafs_backend_api.Auth.Service.Writes.{counting}
use pafs_backend_api.Auth.Service.Checks.{CanTry, IsSetUp, IsRecent}
use pafs_backend_api.Auth.Service.Failures.{counted, login-refused}
use pafs_backend_api.Auth.Service.Attempts.{
  Attempt, login_all, results, SameAccount, SameAccount-self, IsInvalid, failure_after-invalid,
}

-- An attempt that only the password can stop, on an account that is in use and not locked.
abbrev pub IsWrong : Env → User → Attempt → Type 0
IsWrong env u a =
    (verify_password env.bcrypt a.password u.encrypted_password ≡ false)
    × ((env.config.disabling_enabled ≡ false) ⊎ IsRecent env.config a.time u.last_sign_in_at)

counted_unlocked :
    (c : AuthConfig) (now : ℕ) (v : User) → v.locked_at ≡ none → counted c now v ≡ v.failed_attempts
unfolding counted handle_lockout_reset should_reset_lockout
counted_unlocked c now v e = ground arith

should_lock_below : (c : AuthConfig) (n : ℕ) → n + 1 ≤ c.max_attempts → should_lock c n ≡ false
unfolding should_lock
should_lock_below c n h = ground arith

should_lock_at :
    (c : AuthConfig) (n : ℕ)
    → c.locking_enabled ≡ true
    → n ≡ c.max_attempts
    → should_lock c n ≡ true
unfolding should_lock
should_lock_at c n on h = ground arith

failure_after-locked :
    (c : AuthConfig) (u : User) (n : ℕ) → failure_after c u n true ≡ locked_failure
unfolding failure_after
failure_after-locked c u n = refl

module _ (db : Users) (env : Env) (k : ℕ) (u : User) (set_up : IsSetUp u.status)
    (enabled : u.disabled ≡ false) (unlocked : u.locked_at ≡ none) where
  CanTry-unlocked :
      {v : User} (a : Attempt) → SameAccount u v → IsWrong env u a → CanTry env.config a.time v
  CanTry-unlocked a s w = ground arith

  abbrev try_at : Attempt → db.Rows → Outcome db.Rows SignIn
  try_at a t = login db env a.time u.email a.password a.ip_address a.session_id t

  -- One wrong password adds one to the count.
  record Counted (v : User) (a : Attempt) (t : db.Rows) : Type 0 where
    rows : db.Rows
    result :
        try_at a t
        ≡ returned
            (refused (
              failure_after env.config v
                (v.failed_attempts + 1)
                (should_lock env.config (v.failed_attempts + 1))))
            rows
    stored :
        db.find k rows
        ≡ some (
            counting
              (v.failed_attempts + 1)
              a.ip_address
              (should_lock env.config (v.failed_attempts + 1))
              a.time
              v)

  count_one :
      {v : User} (a : Attempt) (t : db.Rows)
      → db.find k t ≡ some v
      → SameAccount u v
      → IsWrong env u a
      → Counted v a t
  count_one {v} a t found s w =
      let (t', e, written) =
        login-refused db env a.time a.password a.ip_address a.session_id k t found
          (CanTry-unlocked a s w) (rw s.password w.0) in
      let same = counted_unlocked env.config a.time v (s.lock ∙ unlocked) in
      let patch =
        λ (n : ℕ). counting (n + 1) a.ip_address (should_lock env.config (n + 1)) a.time in
      record {
        rows = t';
        result =
            sym (ap (λ m. login db env a.time m a.password a.ip_address a.session_id t) s.email)
            ∙ e
            ∙ ap
                (λ (n : ℕ).
                  returned
                    (refused (failure_after env.config v (n + 1) (should_lock env.config (n + 1))))
                    t')
                same;
        stored =
            subst (λ (n : ℕ). db.find k t' ≡ some (patch n v)) same
              (db.find-update_self k (patch (counted env.config a.time v)) t written found);
      }

  -- Below the limit the answer is a plain refusal, and the account stays unlocked.
  record Below (v : User) (a : Attempt) (t : db.Rows) : Type 0 where
    row : User
    refusal : IsInvalid (value (try_at a t))
    stored : db.find k (after (try_at a t)) ≡ some row
    same : SameAccount u row
    count : row.failed_attempts ≡ v.failed_attempts + 1

  count-Below :
      {v : User} (a : Attempt) (t : db.Rows)
      → SameAccount u v
      → v.failed_attempts + 1 + 1 ≤ env.config.max_attempts
      → Counted v a t
      → Below v a t
  unfolding counting
  count-Below {v} a t s h r =
      let open_lock = should_lock_below env.config (v.failed_attempts + 1) h in
      let n = v.failed_attempts + 1 in
      record {
        row = counting n a.ip_address false a.time v;
        refusal = (
          failure_after env.config v n false,
          ap value r.result ∙ ap (λ b. some (refused (failure_after env.config v n b))) open_lock,
          failure_after-invalid env.config v n,
        );
        stored =
            ap (λ o. db.find k (after o)) r.result
            ∙ subst (λ b. db.find k r.rows ≡ some (counting n a.ip_address b a.time v)) open_lock
                r.stored;
        same = ground arith;
        count = refl;
      }

  -- At the limit the account is locked.
  record Locked (a : Attempt) (t : db.Rows) : Type 0 where
    row : User
    refusal : value (try_at a t) ≡ some (refused locked_failure)
    stored : db.find k (after (try_at a t)) ≡ some row
    since : row.locked_at ≡ some a.time
    count : row.failed_attempts ≡ env.config.max_attempts

  count_at :
      {v : User} (a : Attempt) (t : db.Rows)
      → env.config.locking_enabled ≡ true
      → v.failed_attempts + 1 ≡ env.config.max_attempts
      → Counted v a t
      → Locked a t
  unfolding counting
  count_at {v} a t on h r =
      let lock = should_lock_at env.config (v.failed_attempts + 1) on h in
      let n = v.failed_attempts + 1 in
      record {
        row = counting n a.ip_address true a.time v;
        refusal =
            ap value r.result
            ∙ ap (λ b. some (refused (failure_after env.config v n b))) lock
            ∙ ap (λ f. some (refused f)) (failure_after-locked env.config v n);
        stored =
            ap (λ o. db.find k (after o)) r.result
            ∙ subst (λ b. db.find k r.rows ≡ some (counting n a.ip_address b a.time v)) lock
                r.stored;
        since = refl;
        count = h;
      }

  count_up :
      (before : List Attempt) (last : Attempt) (t : db.Rows) {v : User}
      → db.find k t ≡ some v
      → SameAccount u v
      → env.config.locking_enabled ≡ true
      → v.failed_attempts + length before + 1 ≡ env.config.max_attempts
      → All (IsWrong env u) before
      → IsWrong env u last
      → All IsInvalid (results db env u.email before t)
        × Locked last (login_all db env u.email before t)
  count_up [] last t found s on h ws w =
      (tt, count_at last t on (omega arith) (count_one last t found s w))
  count_up (a ∷ before) last t {v} found s on h (wa, ws) w =
      let b = count-Below a t s (omega arith) (count_one a t found s wa) in
      let (rest, locked) =
        count_up before last (after (try_at a t)) {v = b.row} b.stored b.same on
          (omega (arith, b.count)) ws w in
      ((b.refusal, rest), locked)

-- Where locking is on and an account is set up, enabled, not locked and not inactive at any of the
-- attempts, wrong passwords are answered as such until their number comes to `maxAttempts`: the one
-- that reaches it is answered as a lock, and stamps the row with its time.
pub wrong_passwords_lock :
    (db : Users) (env : Env) (k : ℕ) (u : User) (t : db.Rows) (before : List Attempt)
    (last : Attempt)
    → db.find k t ≡ some u
    → IsSetUp u.status
    → u.disabled ≡ false
    → u.locked_at ≡ none
    → env.config.locking_enabled ≡ true
    → u.failed_attempts + length before + 1 ≡ env.config.max_attempts
    → All (IsWrong env u) before
    → IsWrong env u last
    → let t₁ = login_all db env u.email before t in
      let o = login db env last.time u.email last.password last.ip_address last.session_id t₁ in
      All IsInvalid (results db env u.email before t)
      × (value o ≡ some (refused locked_failure))
      × ((v : User) × (db.find k (after o) ≡ some v)
          × (v.locked_at ≡ some last.time)
          × (v.failed_attempts ≡ env.config.max_attempts))
wrong_passwords_lock db env k u t before last found set_up enabled unlocked on h ws w =
    let (invalid, l) =
      count_up db env k u set_up enabled unlocked before last t found SameAccount-self on h ws w in
    (invalid, l.refusal, (l.row, l.stored, l.since, l.count))
