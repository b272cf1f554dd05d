-- ===== src/Scheduler/Service.antt =====
-- src/plugins/scheduler/scheduler-service.js: the registry of tasks, and a run of one task under
-- its lock. node-cron is a parameter: `cron_validate` says which schedules it accepts.
pub mod Runs
pub mod Registry
use pafs_backend_api.Prelude.{
  ℕ, ◌-◌, String, Bool, true, false, not, ◌||◌, List, [], ◌∷◌, ◌++◌, map, Option, none, some, any,
  ◌===◌, if◌then◌else◌,
}
use pafs_backend_api.Scheduler.LockTable.{Locks}
use pafs_backend_api.Scheduler.LockService.{
  Instance, acquire_lock, release_lock, release_all_locks, update_last_run,
}

-- `cronJob`: null, a scheduled job, or one that has been stopped.
pub data CronJob : Type 0 where
  no_job scheduled stopped : CronJob

-- A handler is known by its name.
pub record Task : Type 0 where
  pub name : String
  pub schedule : String
  pub handler : String
  pub run_in_worker : Bool
  pub cron_job : CronJob

pub record Scheduler : Type 0 where
  pub tasks : List Task
  pub enabled : Bool
  pub cleanup_interval : Bool

pub data RegisterError : Type 0 where
  fields_required already_registered invalid_cron : RegisterError

pub data Registration : Type 0 where
  registered : Scheduler → Registration
  rejected : RegisterError → Registration

abbrev pub has_task : String → List Task → Bool
has_task name tasks = any (λ task. task.name === name) tasks

-- `tasks.set(name, …)` on a name that is not there appends.
unfoldable pub register_task :
    (String → Bool) → String → String → String → Bool → Scheduler → Registration
register_task cron_validate name schedule handler run_in_worker s =
    if name === "" || schedule === "" || handler === ""
    then rejected fields_required
    else if has_task name s.tasks
    then rejected already_registered
    else if not (cron_validate schedule)
    then rejected invalid_cron
    else registered (record s {
      tasks =
          s.tasks
          ++ record {
            name = name;
            schedule = schedule;
            handler = handler;
            run_in_worker = run_in_worker;
            cron_job = no_job;
          }
            ∷ [];
    })

unfoldable pub start_task : Task → Task
start_task task = record task { cron_job = scheduled }

unfoldable pub start : Scheduler → Scheduler
unfolding start_task
start s =
    if not s.enabled
    then s
    else record s { cleanup_interval = true; tasks = map start_task s.tasks }

abbrev stop_job : CronJob → CronJob
stop_job no_job = no_job
stop_job scheduled = stopped
stop_job stopped = stopped

-- The job is stopped, and stays in `task.cronJob`.
unfoldable pub stop_task : Task → Task
stop_task task = record task { cron_job = stop_job task.cron_job }

pub record TaskStatus : Type 0 where
  pub name : String
  pub schedule : String
  pub run_in_worker : Bool
  pub is_running : Bool

abbrev truthy : CronJob → Bool
truthy no_job = false
truthy scheduled = true
truthy stopped = true

unfoldable pub task_status : Task → TaskStatus
task_status task = record {
  name = task.name;
  schedule = task.schedule;
  run_in_worker = task.run_in_worker;
  is_running = truthy task.cron_job;
}

unfoldable pub get_tasks_status : Scheduler → List TaskStatus
unfolding task_status
get_tasks_status s = map task_status s.tasks

unfoldable pub find_task : String → List Task → Option Task
find_task name [] = none
find_task name (task ∷ tasks) = if task.name === name then some task else find_task name tasks

-- The status that the run's row of scheduler_logs is left with.
pub data LogStatus : Type 0 where
  running success failed : LogStatus

pub data Execution : Type 0 where
  -- the lock was not acquired
  skipped : Execution
  -- with the duration
  succeeded : ℕ → Execution
  task_failed : ℕ → Execution
  -- the promise is rejected
  rejects : Execution

-- What the world answers during a run: whether the log row is created, whether the handler returns,
-- whether each update of the log row is made, when it ends, and what others do to the locks.
pub record Run (db : Locks) : Type 0 where
  pub ends_at : ℕ
  pub log_created : Bool
  pub handler_returns : Bool
  pub success_logged : Bool
  pub failure_logged : Bool
  pub meanwhile : db.Rows → db.Rows

-- handleTaskError, with the log row if there is one
unfoldable pub handle_task_error : Bool → Bool → ℕ → Execution × Option LogStatus
handle_task_error false failure_logged duration = (task_failed duration, none)
handle_task_error true failure_logged duration =
    if failure_logged then (task_failed duration, some failed) else (rejects, some running)

module _ (db : Locks) where
  -- The try block and its catch, on the rows as the handler leaves them.
  unfoldable pub run_task :
      ℕ → String → Run db → Instance → db.Rows → Execution × Option LogStatus × db.Rows
  run_task started_at name r i t =
      let duration = r.ends_at - started_at in
      let error = handle_task_error r.log_created r.failure_logged duration in
      if not r.log_created
      then (error.0, error.1, t)
      else if not r.handler_returns
      then (error.0, error.1, r.meanwhile t)
      else let t' = update_last_run db r.ends_at name i (r.meanwhile t) in
        if r.success_logged then (succeeded duration, some success, t') else (error.0, error.1, t')

  unfoldable pub execute_task :
      ℕ → String → Run db → Instance → db.Rows → Execution × Option LogStatus × Instance × db.Rows
  execute_task now name r i t =
      let (acquired, i₁, t₁) = acquire_lock db now name i t in
      if not acquired
      then (skipped, none, i₁, t₁)
      else let (e, log, t₂) = run_task now name r i₁ t₁ in
        let (i₃, t₃) = release_lock db name i₁ t₂ in (e, log, i₃, t₃)

  -- `none` is the error for a name that is not registered.
  unfoldable pub trigger_task :
      ℕ
      → String
      → Run db
      → Scheduler
      → Instance
      → db.Rows
      → Option (Execution × Option LogStatus × Instance × db.Rows)
  unfolding find_task
  trigger_task now name r s i t = elim (find_task name s.tasks) [
    | none ↦ none
    | some task ↦ some (execute_task now name r i t)
  ]

  unfoldable pub stop : Scheduler → Instance → db.Rows → Scheduler × Instance × db.Rows
  unfolding stop_task
  stop s i t =
      let (i', t') = release_all_locks db i t in
      (record s { cleanup_interval = false; tasks = map stop_task s.tasks }, i', t')
