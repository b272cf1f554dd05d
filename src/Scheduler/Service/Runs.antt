-- ===== src/Scheduler/Service/Runs.antt =====
-- A run of a task: what it returns, what it logs, and what it leaves of its lock.
use pafs_backend_api.Prelude.{
  ℕ, ◌-◌, String, ◌≡◌, sym, ap, ◌∙◌, subst, ◌≢◌, inl, inr, Bool, true, false, Option, none, some,
  ◌===◌, eq_iff, any, Bool-cases, arith,
}
use pafs_backend_api.Scheduler.LockTable.{Lock, Locks, kept}
use pafs_backend_api.Scheduler.LockService.{
  Instance, acquire_lock, release_lock, start_lock_refresh, update_last_run, written,
}
use pafs_backend_api.Scheduler.LockService.Exclusion.{acquire_lock_always}
use pafs_backend_api.Scheduler.LockService.Ownership.{release_own}
use pafs_backend_api.Scheduler.Service.{
  Run, Execution, succeeded, task_failed, rejects, LogStatus, running, success, failed, run_task,
  execute_task, handle_task_error,
}

abbrev pub NotHeldBy : String → Option Lock → Type 0
NotHeldBy who none = Unit
NotHeldBy who (some l) = l.locked_by ≢ who

kept-NotHeldBy :
    (who : String) (o : Option Lock) → NotHeldBy who (kept (λ l. l.locked_by === who) o)
kept-NotHeldBy who none = tt
kept-NotHeldBy who (some l) = ground (arith, eq_iff l.locked_by who)

start_lock_refresh-id :
    (name : String) (i : Instance) → (start_lock_refresh name i).instance_id ≡ i.instance_id
unfolding start_lock_refresh
start_lock_refresh-id name i = ground arith

module _ (db : Locks) (now : ℕ) (name : String) (r : Run db) (i : Instance) (t : db.Rows) where
  execute_task-eq :
      {i₁ : Instance} {t₁ : db.Rows}
      → acquire_lock db now name i t ≡ (true, i₁, t₁)
      → execute_task db now name r i t ≡ (
        (run_task db now name r i₁ t₁).0,
        (run_task db now name r i₁ t₁).1,
        (release_lock db name i₁ (run_task db now name r i₁ t₁).2).0,
        (release_lock db name i₁ (run_task db now name r i₁ t₁).2).1,
      )
  unfolding execute_task
  execute_task-eq e = ground (arith, e)

module _ (db : Locks) (now : ℕ) (name : String) (r : Run db) (i : Instance) (t : db.Rows)
    (stays_up : (x : db.Rows) → db.IsUp x → db.IsUp (r.meanwhile x)) where
  update_last_run-up :
      (j : Instance) (x : db.Rows) → db.IsUp x → db.IsUp (update_last_run db r.ends_at name j x)
  unfolding update_last_run
  update_last_run-up j x up =
      let (x', e, up') = db.update_many-up _ _ x up in
      subst (λ o. db.IsUp (written x o)) (sym e) up'

  run_task-up : (j : Instance) (x : db.Rows) → db.IsUp x → db.IsUp (run_task db now name r j x).2
  unfolding run_task
  run_task-up j x up =
      let up' = stays_up x up in
      let up'' = update_last_run-up j (r.meanwhile x) up' in
      elim (Bool-cases r.log_created) [
        | inr c ↦ simp c up
        | inl c ↦ elim (Bool-cases r.handler_returns) [
          | inr h ↦ simp (c, h) up'
          | inl h ↦ elim (Bool-cases r.success_logged) [
            | inr s ↦ simp (c, h, s) up''
            | inl s ↦ simp (c, h, s) up''
          ]
        ]
      ]

  -- Whatever the run does, its lock is given up in the end: while the rows are reachable, and
  -- whether the log row is created, the handler returns or throws, and the log is updated or not,
  -- the instance no longer holds the task's row and no longer refreshes it.
  pub execute_task-releases :
      db.IsUp t
      → let (e, log, i', t') = execute_task db now name r i t in
        NotHeldBy i.instance_id (db.find name t') × (any (λ n. n === name) i'.active_locks ≡ false)
  execute_task-releases up =
      let a = acquire_lock_always db now name i t up in
      let i₁ = start_lock_refresh name i in
      let t₂ = (run_task db now name r i₁ a.rows).2 in
      let (own, stopped) = release_own db name i₁ t₂ (run_task-up i₁ a.rows a.up) in
      let same = execute_task-eq db now name r i t a.result in
      (
        subst (λ x. NotHeldBy i.instance_id (db.find name x.3)) (sym same)
            (subst (NotHeldBy i.instance_id) (sym own) (
              subst
                (λ who. NotHeldBy i.instance_id (kept (λ l. l.locked_by === who) (db.find name t₂)))
                (sym (start_lock_refresh-id name i))
                (kept-NotHeldBy i.instance_id (db.find name t₂)))),
        subst (λ x. any (λ n. n === name) x.2.active_locks ≡ false) (sym same) stopped,
      )

-- The result of a run, and the status of its log row.
abbrev pub expected : ℕ → Bool → Bool → Bool → Bool → Execution × Option LogStatus
expected d true true true logged = (succeeded d, some success)
expected d true true false true = (task_failed d, some failed)
expected d true true false false = (rejects, some running)
expected d true false ok true = (task_failed d, some failed)
expected d true false ok false = (rejects, some running)
expected d false returns ok logged = (task_failed d, none)

run_task-result :
    (db : Locks) (now : ℕ) (name : String) (r : Run db) (j : Instance) (x : db.Rows)
    → ◌≡◌ {A = Execution × Option LogStatus}
        ((run_task db now name r j x).0, (run_task db now name r j x).1)
        (expected
          (r.ends_at - now)
          r.log_created
          r.handler_returns
          r.success_logged
          r.failure_logged)
unfolding run_task handle_task_error
run_task-result db now name r j x = ground arith

-- While the rows are reachable, a run succeeds exactly when the log row is created, the handler
-- returns and the success is logged; a run whose failure cannot be logged rejects and leaves its
-- log row on "running".
pub execute_task-result :
    (db : Locks) (now : ℕ) (name : String) (r : Run db) (i : Instance) (t : db.Rows)
    → db.IsUp t
    → let (e, log, i', t') = execute_task db now name r i t in
      ◌≡◌ {A = Execution × Option LogStatus}
        (e, log)
        (expected
          (r.ends_at - now)
          r.log_created
          r.handler_returns
          r.success_logged
          r.failure_logged)
execute_task-result db now name r i t up =
    let a = acquire_lock_always db now name i t up in
    ap (λ x. (x.0, x.1)) (execute_task-eq db now name r i t a.result)
    ∙ run_task-result db now name r (start_lock_refresh name i) a.rows
