-- ===== src/Scheduler/Service/Registry.antt =====
-- The registry of tasks: what registering, starting and stopping do to it.
use pafs_backend_api.Prelude.{
  String, ◌≡◌, refl, sym, ap, ◌∙◌, subst, ◌≢◌, ◌↔◌, Bool, true, false, List, [], ◌∷◌, ◌++◌, map,
  All, none, some, ◌===◌, ◌||◌, eq_iff, if◌then◌else◌, arith,
}
use pafs_backend_api.Scheduler.LockTable.{Locks}
use pafs_backend_api.Scheduler.LockService.{Instance}
use pafs_backend_api.Scheduler.Service.{
  Task, no_job, stopped, Scheduler, registered, rejected, already_registered, invalid_cron,
  has_task, register_task, start, start_task, stop, stop_task, get_tasks_status, task_status,
  find_task,
}

-- No name is registered twice.
abbrev pub IsDistinct : List Task → Type 0
IsDistinct [] = Unit
IsDistinct (task ∷ tasks) = (has_task task.name tasks ≡ false) × IsDistinct tasks

has_task-append :
    (name : String) (tasks : List Task) (new : Task)
    → has_task name (tasks ++ new ∷ []) ≡ (has_task name tasks || new.name === name)
has_task-append name [] new = ground arith
has_task-append name (task ∷ tasks) new = ground (arith, has_task-append name tasks new)

IsDistinct-append :
    (tasks : List Task) (new : Task)
    → IsDistinct tasks
    → has_task new.name tasks ≡ false
    → IsDistinct (tasks ++ new ∷ [])
IsDistinct-append [] new d h = (refl, tt)
IsDistinct-append (task ∷ tasks) new (fresh, d) h = (
  ground (
    arith,
    has_task-append task.name tasks new,
    eq_iff task.name new.name,
    eq_iff new.name task.name,
  ),
  IsDistinct-append tasks new d (ground arith),
)

find_task-append :
    (name : String) (tasks : List Task) (new : Task)
    → find_task name (tasks ++ new ∷ []) ≡ (
        if has_task name tasks
        then find_task name tasks
        else if new.name === name
        then some new
        else none)
unfolding find_task
find_task-append name [] new = refl
find_task-append name (task ∷ tasks) new = ground (arith, find_task-append name tasks new)

find_task_missing :
    (name : String) (tasks : List Task) → has_task name tasks ≡ false → find_task name tasks ≡ none
unfolding find_task
find_task_missing name [] h = refl
find_task_missing name (task ∷ tasks) h = ground (arith, find_task_missing name tasks)

-- The task that a registration adds.
abbrev pub new_task : String → String → String → Bool → Task
new_task name schedule handler run_in_worker = record {
  name = name;
  schedule = schedule;
  handler = handler;
  run_in_worker = run_in_worker;
  cron_job = no_job;
}

module _ (cron_validate : String → Bool) (name schedule handler : String) (run_in_worker : Bool)
    (s : Scheduler) where
  registered_tasks :
      {s' : Scheduler}
      → register_task cron_validate name schedule handler run_in_worker s ≡ registered s'
      → (has_task name s.tasks ≡ false)
        × (s'.tasks ≡ s.tasks ++ new_task name schedule handler run_in_worker ∷ [])
  unfolding register_task
  registered_tasks {s'} e = ground arith

-- A registration that is accepted, where the names are distinct, keeps them distinct, makes the
-- task findable by its name, and leaves the tasks of the other names as they were.
pub register_task-registered :
    (cron_validate : String → Bool) (name schedule handler : String) (run_in_worker : Bool)
    (s s' : Scheduler) (j : String)
    → IsDistinct s.tasks
    → register_task cron_validate name schedule handler run_in_worker s ≡ registered s'
    → IsDistinct s'.tasks
      × (find_task name s'.tasks ≡ some (new_task name schedule handler run_in_worker))
      × (find_task j s'.tasks ≡ (
          if name === j
          then some (new_task name schedule handler run_in_worker)
          else find_task j s.tasks))
register_task-registered cron_validate name schedule handler run_in_worker s s' j distinct e =
    let (fresh, same) = registered_tasks cron_validate name schedule handler run_in_worker s e in
    let new = new_task name schedule handler run_in_worker in
    (
      subst IsDistinct (sym same) (IsDistinct-append s.tasks new distinct fresh),
      ap (find_task name) same
          ∙ ground (arith, find_task-append name s.tasks new, fresh, eq_iff name name),
      ap (find_task j) same
          ∙ ground (
            arith,
            find_task-append j s.tasks new,
            fresh,
            eq_iff name j,
            find_task_missing j s.tasks,
          ),
    )

-- `registerTask` answers that a name is taken exactly when name, schedule and handler are given and
-- a task has the name, and that a schedule is not valid exactly when they are given, no task has
-- the name, and the cron parser rejects the schedule.
pub register_task-rejected_iff :
    (cron_validate : String → Bool) (name schedule handler : String) (run_in_worker : Bool)
    (s : Scheduler)
    → ((register_task cron_validate name schedule handler run_in_worker s
          ≡ rejected already_registered)
        ↔ ((name ≢ "") × (schedule ≢ "") × (handler ≢ "") × (has_task name s.tasks ≡ true)))
      × ((register_task cron_validate name schedule handler run_in_worker s ≡ rejected invalid_cron)
          ↔ ((name ≢ "")
              × (schedule ≢ "")
              × (handler ≢ "")
              × (has_task name s.tasks ≡ false)
              × (cron_validate schedule ≡ false)))
unfolding register_task
register_task-rejected_iff cron_validate name schedule handler run_in_worker s = (
  (
    λ e. ground (arith, eq_iff name "", eq_iff schedule "", eq_iff handler ""),
    λ e. ground (arith, eq_iff name "", eq_iff schedule "", eq_iff handler ""),
  ),
  (
    λ e. ground (arith, eq_iff name "", eq_iff schedule "", eq_iff handler ""),
    λ e. ground (arith, eq_iff name "", eq_iff schedule "", eq_iff handler ""),
  ),
)

stopped-All :
    (tasks : List Task)
    → All (λ task. task.cron_job ≡ stopped) (map stop_task (map start_task tasks))
      × All
          (λ status. status.is_running ≡ true)
          (map task_status (map stop_task (map start_task tasks)))
unfolding stop_task start_task task_status
stopped-All [] = (tt, tt)
stopped-All (task ∷ tasks) = let (a, b) = stopped-All tasks in ((refl, a), (refl, b))

-- With the scheduler enabled, after `start` and `stop` every job is stopped, and `getTasksStatus`
-- still reports every task as running.
pub stopped_tasks_report_running :
    (db : Locks) (s : Scheduler) (i : Instance) (t : db.Rows)
    → s.enabled ≡ true
    → let (s', i', t') = stop db (start s) i t in
      All (λ task. task.cron_job ≡ stopped) s'.tasks
      × All (λ status. status.is_running ≡ true) (get_tasks_status s')
unfolding stop start get_tasks_status
stopped_tasks_report_running db s i t on =
    let started : (start s).tasks ≡ map start_task s.tasks = ground arith in
    subst
      (λ tasks.
        All (λ task. task.cron_job ≡ stopped) (map stop_task tasks)
        × All (λ status. status.is_running ≡ true) (map task_status (map stop_task tasks)))
      (sym started) (stopped-All s.tasks)
