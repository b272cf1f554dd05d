-- ===== src/Scheduler/LockService/Exclusion.antt =====
-- What acquiring a lock says about the other instances.
use pafs_backend_api.Prelude.{
  ℕ, ◌+◌, ◌<◌, String, ◌≡◌, refl, sym, ap, ◌∙◌, subst, ◌≢◌, true, false, Option, none, some, ◌===◌,
  eq_iff, any, arith,
}
use pafs_backend_api.Scheduler.LockTable.{Lock, Locks, upserted}
use pafs_backend_api.Scheduler.LockService.{
  Instance, db_acquire_lock, verify_lock, claim, confirm, acquire_lock, start_lock_refresh,
}

===_refl : (s : String) → (s === s) ≡ true
===_refl s = (eq_iff s s).1 refl

===_ne : (s t : String) → s ≢ t → (s === t) ≡ false
===_ne s t h = ground (arith, eq_iff s t)

module _ (db : Locks) (now : ℕ) (task : String) (i : Instance) (t : db.Rows) where
  -- The row of the task after a claim, whatever it was before.
  abbrev claimed : Option Lock → Option Lock
  claimed =
      upserted
        (record {
          task_name = task;
          locked_by = i.instance_id;
          locked_at = now;
          expires_at = now + i.lock_timeout;
          last_run_at = none;
        })
        (λ l. record l {
          locked_by = i.instance_id;
          locked_at = now;
          expires_at = now + i.lock_timeout;
        })

  pub find-claim :
      {t' : db.Rows} → claim db now task i t ≡ some t' → db.find task t' ≡ claimed (db.find task t)
  unfolding claim db_acquire_lock
  find-claim {t'} e = rw (===_refl task) at (db.find-upsert task task _ _ t refl (λ l. refl) e)

  claimed_row :
      (o : Option Lock)
      → (l : Lock) × (claimed o ≡ some l)
        × (l.locked_by ≡ i.instance_id)
        × (l.expires_at ≡ now + i.lock_timeout)
  claimed_row none = (_, refl, refl, refl)
  claimed_row (some l) = (_, refl, refl, refl)

  pub claim-held :
      {t' : db.Rows}
      → claim db now task i t ≡ some t'
      → (l : Lock) × (db.find task t' ≡ some l)
        × (l.locked_by ≡ i.instance_id)
        × (l.expires_at ≡ now + i.lock_timeout)
  claim-held e =
      let (l, c, by, until) = claimed_row (db.find task t) in (l, find-claim e ∙ c, by, until)

module _ (db : Locks) (task : String) (i : Instance) (t : db.Rows) where
  -- The confirmation reads who holds the row.
  pub confirm-held :
      {l : Lock}
      → db.IsUp t
      → db.find task t ≡ some l
      → l.locked_by ≡ i.instance_id
      → confirm db task i t ≡ (true, start_lock_refresh task i)
  unfolding confirm verify_lock
  confirm-held {l} up found mine =
      let (o, e) = db.find_held-up task i.instance_id t up in
      let q = db.find_held-find task i.instance_id t e in
      ground (arith, e, q, found, mine, eq_iff l.locked_by i.instance_id)

  pub confirm-other :
      {l : Lock}
      → db.IsUp t
      → db.find task t ≡ some l
      → l.locked_by ≢ i.instance_id
      → confirm db task i t ≡ (false, i)
  unfolding confirm verify_lock
  confirm-other {l} up found other =
      let (o, e) = db.find_held-up task i.instance_id t up in
      let q = db.find_held-find task i.instance_id t e in
      ground (arith, e, q, found, other, eq_iff l.locked_by i.instance_id)

-- An acquired lock: the result, the refresh that is started, and the row.
pub record Acquired (db : Locks) (now : ℕ) (task : String) (i : Instance) (t : db.Rows)
    : Type 0 where
  pub rows : db.Rows
  pub result : acquire_lock db now task i t ≡ (true, start_lock_refresh task i, rows)
  pub up : db.IsUp rows
  pub row : Lock
  pub stored : db.find task rows ≡ some row
  pub owner : row.locked_by ≡ i.instance_id
  pub until : row.expires_at ≡ now + i.lock_timeout

module _ (db : Locks) (now : ℕ) (task : String) (i : Instance) (t : db.Rows) where
  claim-up : db.IsUp t → (t' : db.Rows) × (claim db now task i t ≡ some t') × db.IsUp t'
  unfolding claim db_acquire_lock
  claim-up up = db.upsert-up task _ _ t up

  acquire_lock-eq :
      {t' : db.Rows}
      → claim db now task i t ≡ some t'
      → confirm db task i t' ≡ (true, start_lock_refresh task i)
      → acquire_lock db now task i t ≡ (true, start_lock_refresh task i, t')
  unfolding acquire_lock
  acquire_lock-eq e c = ground (arith, e, c)

  -- While the rows are reachable, `acquireLock` succeeds whoever holds the lock and however long it
  -- has still to run, and the row then names the caller.
  pub acquire_lock_always : db.IsUp t → Acquired db now task i t
  acquire_lock_always up =
      let (t', e, up') = claim-up up in
      let (l, stored, owner, until) = claim-held db now task i t e in
      record {
        rows = t';
        result = acquire_lock-eq e (confirm-held db task i t' up' stored owner);
        up = up';
        row = l;
        stored = stored;
        owner = owner;
        until = until;
      }

abbrev pub IsRefreshing : String → Instance → Type 0
IsRefreshing task i = any (λ n. n === task) i.active_locks ≡ true

start_lock_refresh-IsRefreshing :
    (task : String) (i : Instance) → IsRefreshing task (start_lock_refresh task i)
unfolding start_lock_refresh
start_lock_refresh-IsRefreshing task i = ground (arith, eq_iff task task)

-- The lock does not exclude: with the rows reachable, while one instance holds it and goes on
-- refreshing it, and before it expires, another instance that asks is given it too.
pub acquire_lock_not_exclusive :
    (db : Locks) (now later : ℕ) (task : String) (a b : Instance) (t : db.Rows)
    → db.IsUp t
    → later < now + a.lock_timeout
    → let first = acquire_lock db now task a t in
      let second = acquire_lock db later task b first.2 in
      (first.0 ≡ true)
      × IsRefreshing task first.1
      × ((l : Lock) × (db.find task first.2 ≡ some l)
          × (l.locked_by ≡ a.instance_id)
          × (later < l.expires_at))
      × (second.0 ≡ true)
      × ((l : Lock) × (db.find task second.2 ≡ some l) × (l.locked_by ≡ b.instance_id))
acquire_lock_not_exclusive db now later task a b t up before =
    let f = acquire_lock_always db now task a t up in
    let s = acquire_lock_always db later task b f.rows f.up in
    let second = ap (λ r. acquire_lock db later task b r.2) f.result ∙ s.result in
    (
      ap (λ r. r.0) f.result,
      subst (λ j. IsRefreshing task j) (sym (ap (λ r. r.1) f.result))
          (start_lock_refresh-IsRefreshing task a),
      (f.row, ap (λ r. db.find task r.2) f.result ∙ f.stored, f.owner, omega (arith, f.until)),
      ap (λ r. r.0) second,
      (s.row, ap (λ r. db.find task r.2) second ∙ s.stored, s.owner),
    )

-- Where two instances with different ids claim the lock before either confirms, with the rows
-- reachable, the one that wrote last has it, and the other is told so.
pub claim_race_last_wins :
    (db : Locks) (now later : ℕ) (task : String) (a b : Instance) (t t₁ t₂ : db.Rows)
    → a.instance_id ≢ b.instance_id
    → claim db now task a t ≡ some t₁
    → claim db later task b t₁ ≡ some t₂
    → db.IsUp t₂
    → (confirm db task a t₂ ≡ (false, a))
      × (confirm db task b t₂ ≡ (true, start_lock_refresh task b))
claim_race_last_wins db now later task a b t t₁ t₂ ne e e' up =
    let (l, stored, owner, _) = claim-held db later task b t₁ e' in
    (
      confirm-other db task a t₂ up stored (λ same. ne (sym same ∙ owner)),
      confirm-held db task b t₂ up stored owner,
    )
