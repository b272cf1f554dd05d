-- ===== src/Scheduler/LockService/Ownership.antt =====
-- What an instance may do to the lock rows: but for a claim and for the clean-up of expired rows, it
-- changes and deletes its own alone.
use pafs_backend_api.Prelude.{
  ℕ, ◌+◌, String, ◌≡◌, refl, ap, ◌∙◌, ◌≢◌, Bool, false, not, ◌&&◌, List, [], ◌∷◌, Option, none,
  some, ◌===◌, eq_iff, any, filter, ltb, Option-cases, inl, inr, arith, ◌<◌, ◌⊎◌, Bool-cases,
}
use pafs_backend_api.Scheduler.LockTable.{Lock, Locks, kept}
use pafs_backend_api.Scheduler.LockService.{
  Instance, db_refresh_lock, written, release_lock, refresh_round, update_last_run,
  release_all_locks, cleanup_expired_locks,
}

-- A row that the test misses survives an updateMany and a deleteMany as it is.
written_updated :
    (db : Locks) (j : String) (p : Lock → Bool) (f : Lock → Lock) (t : db.Rows) {l : Lock}
    → ((l : Lock) → (f l).task_name ≡ l.task_name)
    → db.find j t ≡ some l
    → p l ≡ false
    → db.find j (written t (db.update_many p f t)) ≡ some l
written_updated db j p f t {l} keeps found miss = elim (Option-cases (db.update_many p f t)) [
  | inl e ↦ rw e found
  | inr (t', e) ↦ ground (arith, e, db.find-update_many j p f t keeps e, found, miss)
]

written_kept :
    (db : Locks) (j : String) (p : Lock → Bool) (t : db.Rows) {l : Lock}
    → db.find j t ≡ some l
    → p l ≡ false
    → db.find j (written t (db.delete_many p t)) ≡ some l
written_kept db j p t {l} found miss = elim (Option-cases (db.delete_many p t)) [
  | inl e ↦ rw e found
  | inr (t', e) ↦ ground (arith, e, db.find-delete_many j p t e, found, miss)
]

refresh_round-rows :
    (db : Locks) (now : ℕ) (task : String) (i : Instance) (t : db.Rows)
    → (refresh_round db now task i t).1
      ≡ written t (db_refresh_lock db task i.instance_id (now + i.lock_timeout) t)
unfolding refresh_round
refresh_round-rows db now task i t = ground arith

-- A row that the clean-up may take has expired.
cleanup_expired_locks-kept :
    (db : Locks) (now : ℕ) (j : String) (t : db.Rows) (l : Lock)
    → db.find j t ≡ some l
    → (l.expires_at < now) ⊎ (db.find j (cleanup_expired_locks db now t) ≡ some l)
unfolding cleanup_expired_locks
cleanup_expired_locks-kept db now j t l found = elim (Bool-cases (ltb l.expires_at now)) [
  | inl over ↦ inl (ground (arith, over))
  | inr held ↦ inr (written_kept db j _ t found held)
]

-- A row that another instance holds is kept as it is by the release of a task, by a round of the
-- refresh, by the stamp of a run and by the release of all locks, whatever the time and also where a
-- write throws; the clean-up keeps it unless it has expired.
pub foreign_locks_kept :
    (db : Locks) (now : ℕ) (task j : String) (i : Instance) (t : db.Rows) (l : Lock)
    → db.find j t ≡ some l
    → l.locked_by ≢ i.instance_id
    → (db.find j (release_lock db task i t).1 ≡ some l)
      × (db.find j (refresh_round db now task i t).1 ≡ some l)
      × (db.find j (update_last_run db now task i t) ≡ some l)
      × (db.find j (release_all_locks db i t).1 ≡ some l)
      × ((l.expires_at < now) ⊎ (db.find j (cleanup_expired_locks db now t) ≡ some l))
unfolding release_lock db_refresh_lock update_last_run release_all_locks
foreign_locks_kept db now task j i t l found other =
    let miss : (l.locked_by === i.instance_id) ≡ false =
      ground (arith, eq_iff l.locked_by i.instance_id) in
    let both : (l.task_name === task && l.locked_by === i.instance_id) ≡ false =
      ground (arith, miss) in
    (
      written_kept db j _ t found both,
      ap (db.find j) (refresh_round-rows db now task i t)
          ∙ written_updated db j _ _ t (λ l. refl) found both,
      written_updated db j _ _ t (λ l. refl) found both,
      written_kept db j _ t found miss,
      cleanup_expired_locks-kept db now j t l found,
    )

-- While the rows are reachable, `cleanupExpiredLocks` deletes the rows that have expired, and no
-- other.
pub cleanup_expired_locks_lem :
    (db : Locks) (now : ℕ) (j : String) (t : db.Rows)
    → db.IsUp t
    → db.find j (cleanup_expired_locks db now t) ≡ kept (λ l. ltb l.expires_at now) (db.find j t)
unfolding cleanup_expired_locks
cleanup_expired_locks_lem db now j t up =
    let test = λ (l : Lock). ltb l.expires_at now in
    let (t', e, _) = db.delete_many-up test t up in
    ap (λ o. db.find j (written t o)) e ∙ db.find-delete_many j test t e

any-filter :
    (name : String) (names : List String)
    → any (λ n. n === name) (filter (λ n. not (n === name)) names) ≡ false
any-filter name [] = refl
any-filter name (n ∷ names) = ground (arith, any-filter name names)

kept_own :
    (task who : String) (o : Option Lock)
    → ((l : Lock) → o ≡ some l → l.task_name ≡ task)
    → kept (λ l. l.task_name === task && l.locked_by === who) o ≡ kept (λ l. l.locked_by === who) o
kept_own task who none h = refl
kept_own task who (some l) h = ground (arith, eq_iff l.task_name task, h l refl)

kept_other :
    (task j who : String) (o : Option Lock)
    → ((l : Lock) → o ≡ some l → l.task_name ≡ j)
    → j ≢ task
    → kept (λ l. l.task_name === task && l.locked_by === who) o ≡ o
kept_other task j who none h ne = refl
kept_other task j who (some l) h ne = ground (arith, eq_iff l.task_name task, h l refl)

pub release_own :
    (db : Locks) (task : String) (i : Instance) (t : db.Rows)
    → db.IsUp t
    → let (i', t') = release_lock db task i t in
      (db.find task t' ≡ kept (λ l. l.locked_by === i.instance_id) (db.find task t))
      × (any (λ n. n === task) i'.active_locks ≡ false)
unfolding release_lock
release_own db task i t up =
    let test = λ (l : Lock). l.task_name === task && l.locked_by === i.instance_id in
    let (t', e, _) = db.delete_many-up test t up in
    (
      ap (λ o. db.find task (written t o)) e
          ∙ db.find-delete_many task test t e
          ∙ kept_own task i.instance_id (db.find task t) (λ l f. db.find-task_name task t f),
      any-filter task i.active_locks,
    )

-- While the rows are reachable, a release deletes the task's row if the instance holds it, and
-- leaves it if another does; the instance refreshes the task no more, and the rows of the other
-- tasks are as they were.
pub release_lock_lem :
    (db : Locks) (task j : String) (i : Instance) (t : db.Rows)
    → db.IsUp t
    → j ≢ task
    → let (i', t') = release_lock db task i t in
      (db.find task t' ≡ kept (λ l. l.locked_by === i.instance_id) (db.find task t))
      × (any (λ n. n === task) i'.active_locks ≡ false)
      × (db.find j t' ≡ db.find j t)
unfolding release_lock
release_lock_lem db task j i t up ne =
    let test = λ (l : Lock). l.task_name === task && l.locked_by === i.instance_id in
    let (t', e, _) = db.delete_many-up test t up in
    let (own, stopped) = release_own db task i t up in
    (
      own,
      stopped,
      ap (λ o. db.find j (written t o)) e
          ∙ db.find-delete_many j test t e
          ∙ kept_other task j i.instance_id (db.find j t) (λ l f. db.find-task_name j t f) ne,
    )
