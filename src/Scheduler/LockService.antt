-- ===== src/Scheduler/LockService.antt =====
-- src/plugins/scheduler/services/scheduler-db-service.js (the calls on scheduler_locks) and
-- src/plugins/scheduler/services/distributed-lock-service.js. A method of the service takes the
-- rows and the instance's own state; the catch blocks are the `none` branches. The logger is left
-- out.
pub mod Exclusion
pub mod Ownership
use pafs_backend_api.Prelude.{
  ℕ, ◌+◌, String, Bool, true, false, ◌&&◌, List, [], ◌∷◌, Option, none, some, ltb, ◌===◌, is_some,
  if◌then◌else◌, any, filter, not,
}
use pafs_backend_api.Scheduler.LockTable.{Lock, Locks}

-- What one process keeps: its id, and the tasks that a refresh interval runs for (activeLocks).
pub record Instance : Type 0 where
  pub instance_id : String
  pub lock_timeout : ℕ
  pub active_locks : List String

-- SchedulerDbService
module _ (db : Locks) (now : ℕ) where
  unfoldable pub db_acquire_lock : String → String → ℕ → db.Rows → Option db.Rows
  db_acquire_lock task_name instance_id expires_at t =
      db.upsert task_name
        (record {
          task_name = task_name;
          locked_by = instance_id;
          locked_at = now;
          expires_at = expires_at;
          last_run_at = none;
        })
        (λ l. record l { locked_by = instance_id; locked_at = now; expires_at = expires_at }) t

  unfoldable pub db_update_last_run : String → String → db.Rows → Option db.Rows
  db_update_last_run task_name instance_id t =
      db.update_many (λ l. l.task_name === task_name && l.locked_by === instance_id)
        (λ l. record l { last_run_at = some now }) t

  unfoldable pub db_cleanup_expired_locks : db.Rows → Option db.Rows
  db_cleanup_expired_locks t = db.delete_many (λ l. ltb l.expires_at now) t

module _ (db : Locks) where
  -- `none` where the query throws
  unfoldable pub verify_lock : String → String → db.Rows → Option Bool
  verify_lock task_name instance_id t = elim (db.find_held task_name instance_id t) [
    | none ↦ none
    | some lock ↦ some (is_some lock)
  ]

  unfoldable pub db_release_lock : String → String → db.Rows → Option db.Rows
  db_release_lock task_name instance_id t =
      db.delete_many (λ l. l.task_name === task_name && l.locked_by === instance_id) t

  unfoldable pub db_refresh_lock : String → String → ℕ → db.Rows → Option db.Rows
  db_refresh_lock task_name instance_id expires_at t =
      db.update_many (λ l. l.task_name === task_name && l.locked_by === instance_id)
        (λ l. record l { expires_at = expires_at }) t

  unfoldable pub db_release_all_locks_by_instance : String → db.Rows → Option db.Rows
  db_release_all_locks_by_instance instance_id t =
      db.delete_many (λ l. l.locked_by === instance_id) t

-- DistributedLockService
unfoldable pub start_lock_refresh : String → Instance → Instance
start_lock_refresh task_name i =
    if any (λ n. n === task_name) i.active_locks
    then i
    else record i { active_locks = task_name ∷ i.active_locks }

unfoldable pub stop_lock_refresh : String → Instance → Instance
stop_lock_refresh task_name i = record i {
  active_locks = filter (λ n. not (n === task_name)) i.active_locks;
}

abbrev pub written : {S : Type 0} → S → Option S → S
written s none = s
written s (some t) = t

module _ (db : Locks) where
  -- The two halves of `acquireLock`: other instances may act between them.
  unfoldable pub claim : ℕ → String → Instance → db.Rows → Option db.Rows
  claim now task_name i t = db_acquire_lock db now task_name i.instance_id (now + i.lock_timeout) t

  -- the result, and the instance with its refresh started
  unfoldable pub confirm : String → Instance → db.Rows → Bool × Instance
  confirm task_name i t = elim (verify_lock db task_name i.instance_id t) [
    | none ↦ (false, i)
    | some false ↦ (false, i)
    | some true ↦ (true, start_lock_refresh task_name i)
  ]

  unfoldable pub acquire_lock : ℕ → String → Instance → db.Rows → Bool × Instance × db.Rows
  acquire_lock now task_name i t = elim (claim now task_name i t) [
    | none ↦ (false, i, t)
    | some t' ↦ let r = confirm task_name i t' in (r.0, r.1, t')
  ]

  unfoldable pub release_lock : String → Instance → db.Rows → Instance × db.Rows
  unfolding db_release_lock stop_lock_refresh
  release_lock task_name i t =
      (stop_lock_refresh task_name i, written t (db_release_lock db task_name i.instance_id t))

  unfoldable pub update_last_run : ℕ → String → Instance → db.Rows → db.Rows
  unfolding db_update_last_run
  update_last_run now task_name i t =
      written t (db_update_last_run db now task_name i.instance_id t)

  -- One round of the refresh interval, which stops itself where the write fails.
  unfoldable pub refresh_round : ℕ → String → Instance → db.Rows → Instance × db.Rows
  unfolding db_refresh_lock
  refresh_round now task_name i t =
      elim (db_refresh_lock db task_name i.instance_id (now + i.lock_timeout) t) [
        | none ↦ (stop_lock_refresh task_name i, t)
        | some t' ↦ (i, t')
      ]

  unfoldable pub cleanup_expired_locks : ℕ → db.Rows → db.Rows
  unfolding db_cleanup_expired_locks
  cleanup_expired_locks now t = written t (db_cleanup_expired_locks db now t)

  unfoldable pub release_all_locks : Instance → db.Rows → Instance × db.Rows
  unfolding db_release_all_locks_by_instance
  release_all_locks i t = (
    record i { active_locks = [] },
    written t (db_release_all_locks_by_instance db i.instance_id t),
  )
