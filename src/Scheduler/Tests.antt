-- ===== src/Scheduler/Tests.antt =====
-- Tests of the scheduler, and its theorems at concrete inputs.
use pafs_backend_api.Prelude.{
  ℕ, ◌<◌, ◌⊎◌, String, ◌≡◌, refl, ◌≢◌, ◌↔◌, Bool, true, false, [], ◌∷◌, ◌++◌, All, Option, none,
  some, any, ◌===◌, if◌then◌else◌, eq_iff, ltb, arith,
}
use pafs_backend_api.Scheduler.LockTable.{Lock, kept}
use pafs_backend_api.Scheduler.LockService.{
  acquire_lock, claim, db_acquire_lock, confirm, start_lock_refresh, release_lock, refresh_round,
  update_last_run, release_all_locks, cleanup_expired_locks, verify_lock,
}
use pafs_backend_api.Scheduler.LockService.Exclusion.{
  IsRefreshing, acquire_lock_not_exclusive, claim_race_last_wins,
}
use pafs_backend_api.Scheduler.LockService.Ownership.{
  foreign_locks_kept, cleanup_expired_locks_lem, release_lock_lem,
}
use pafs_backend_api.Scheduler.Service.{
  Execution, LogStatus, failed, task_failed, execute_task, register_task, rejected,
  already_registered, invalid_cron, find_task, stop, start, get_tasks_status, stopped, has_task,
}
use pafs_backend_api.Scheduler.Service.Runs.{NotHeldBy, execute_task-releases, execute_task-result}
use pafs_backend_api.Scheduler.Service.Registry.{
  IsDistinct, new_task, register_task-registered, register_task-rejected_iff,
  stopped_tasks_report_running,
}
use pafs_backend_api.Scheduler.Fixtures.{lock_map, no_locks, node_a, node_b, failing_run, one_task}

-- One node takes the lock, a second takes it over a second later, and the first gives it up.
lock_tests :
    ((acquire_lock lock_map 1000 "archive" node_a no_locks).0 ≡ true)
    × ((acquire_lock lock_map 2000 "archive" node_b
          (acquire_lock lock_map 1000 "archive" node_a no_locks).2).0
        ≡ true)
    × ((confirm lock_map "archive" node_b
          (acquire_lock lock_map 1000 "archive" node_a no_locks).2).0
        ≡ false)
unfolding acquire_lock claim db_acquire_lock confirm verify_lock
lock_tests = (refl, refl, refl)

a_not_b : node_a.instance_id ≢ node_b.instance_id
a_not_b = ground (arith, eq_iff "a-1" "b-7")

acquire_lock_not_exclusive_example :
    let first = acquire_lock lock_map 1000 "archive" node_a no_locks in
    let second = acquire_lock lock_map 2000 "archive" node_b first.2 in
    (first.0 ≡ true)
    × IsRefreshing "archive" first.1
    × ((l : Lock) × (lock_map.find "archive" first.2 ≡ some l)
        × (l.locked_by ≡ "a-1")
        × (2000 < l.expires_at))
    × (second.0 ≡ true)
    × ((l : Lock) × (lock_map.find "archive" second.2 ≡ some l) × (l.locked_by ≡ "b-7"))
acquire_lock_not_exclusive_example =
    acquire_lock_not_exclusive lock_map 1000 2000 "archive" node_a node_b no_locks tt (omega arith)

abbrev row_of : String → ℕ → Lock
row_of who until = record {
  task_name = "archive";
  locked_by = who;
  locked_at = 1000;
  expires_at = until;
  last_run_at = none;
}

-- The rows after node_a's claim, and after both.
abbrev one_claim : String → Option Lock
one_claim j = if j === "archive" then some (row_of "a-1" 301000) else none

abbrev two_claims : String → Option Lock
two_claims j =
    if j === "archive"
    then some (record (row_of "b-7" 302000) { locked_at = 2000 })
    else one_claim j

claim_race_last_wins_example :
    (confirm lock_map "archive" node_a two_claims ≡ (false, node_a))
    × (confirm lock_map "archive" node_b two_claims ≡ (true, start_lock_refresh "archive" node_b))
unfolding claim db_acquire_lock
claim_race_last_wins_example =
    claim_race_last_wins lock_map 1000 2000 "archive" node_a node_b no_locks one_claim two_claims
      a_not_b refl refl tt

foreign_locks_kept_example :
    (lock_map.find "archive" (release_lock lock_map "archive" node_b one_claim).1
      ≡ some (row_of "a-1" 301000))
    × (lock_map.find "archive" (refresh_round lock_map 5000 "archive" node_b one_claim).1
        ≡ some (row_of "a-1" 301000))
    × (lock_map.find "archive" (update_last_run lock_map 5000 "archive" node_b one_claim)
        ≡ some (row_of "a-1" 301000))
    × (lock_map.find "archive" (release_all_locks lock_map node_b one_claim).1
        ≡ some (row_of "a-1" 301000))
    × ((301000 < 5000)
        ⊎ (lock_map.find "archive" (cleanup_expired_locks lock_map 5000 one_claim)
            ≡ some (row_of "a-1" 301000)))
foreign_locks_kept_example =
    foreign_locks_kept lock_map 5000 "archive" "archive" node_b one_claim (row_of "a-1" 301000) refl
      (ground (arith, eq_iff "a-1" "b-7"))

expired_lock_removed :
    lock_map.find "archive" (cleanup_expired_locks lock_map 301001 one_claim)
    ≡ kept (λ l. ltb l.expires_at 301001) (lock_map.find "archive" one_claim)
expired_lock_removed = cleanup_expired_locks_lem lock_map 301001 "archive" one_claim tt

own_lock_released :
    let (i', t') = release_lock lock_map "archive" node_a one_claim in
    (lock_map.find "archive" t'
      ≡ kept (λ l. l.locked_by === "a-1") (lock_map.find "archive" one_claim))
    × (any (λ n. n === "archive") i'.active_locks ≡ false)
    × (lock_map.find "cleanup" t' ≡ lock_map.find "cleanup" one_claim)
own_lock_released =
    release_lock_lem lock_map "archive" "cleanup" node_a one_claim tt
      (ground (arith, eq_iff "cleanup" "archive"))

execute_task-releases_example :
    let (e, log, i', t') = execute_task lock_map 1000 "archive" failing_run node_a no_locks in
    NotHeldBy "a-1" (lock_map.find "archive" t')
    × (any (λ n. n === "archive") i'.active_locks ≡ false)
execute_task-releases_example =
    execute_task-releases lock_map 1000 "archive" failing_run node_a no_locks (λ x up. up) tt

execute_task-result_example :
    let (e, log, i', t') = execute_task lock_map 1000 "archive" failing_run node_a no_locks in
    ◌≡◌ {A = Execution × Option LogStatus} (e, log) (task_failed 500, some failed)
execute_task-result_example =
    execute_task-result lock_map 1000 "archive" failing_run node_a no_locks tt

second_task_registered :
    IsDistinct (one_task.tasks ++ new_task "cleanup" "* * * * *" "cleanup" true ∷ [])
    × (find_task "cleanup" (one_task.tasks ++ new_task "cleanup" "* * * * *" "cleanup" true ∷ [])
        ≡ some (new_task "cleanup" "* * * * *" "cleanup" true))
    × (find_task "archive" (one_task.tasks ++ new_task "cleanup" "* * * * *" "cleanup" true ∷ [])
        ≡ (if "cleanup" === "archive"
            then some (new_task "cleanup" "* * * * *" "cleanup" true)
            else find_task "archive" one_task.tasks))
unfolding register_task
second_task_registered =
    register_task-registered (λ s. true) "cleanup" "* * * * *" "cleanup" true one_task
      (record one_task {
        tasks = one_task.tasks ++ new_task "cleanup" "* * * * *" "cleanup" true ∷ [];
      })
      "archive" (refl, tt) refl

second_name_refused :
    ((register_task (λ s. true) "archive" "x" "h" true one_task ≡ rejected already_registered) ↔ (
      (◌≢◌ {A = String} "archive" "")
      × (◌≢◌ {A = String} "x" "")
      × (◌≢◌ {A = String} "h" "")
      × (has_task "archive" one_task.tasks ≡ true)))
    × ((register_task (λ s. true) "archive" "x" "h" true one_task ≡ rejected invalid_cron) ↔ (
        (◌≢◌ {A = String} "archive" "")
        × (◌≢◌ {A = String} "x" "")
        × (◌≢◌ {A = String} "h" "")
        × (has_task "archive" one_task.tasks ≡ false)
        × (◌≡◌ {A = Bool} true false)))
second_name_refused = register_task-rejected_iff (λ s. true) "archive" "x" "h" true one_task

stopped_task_runs :
    let (s', i', t') = stop lock_map (start one_task) node_a no_locks in
    All (λ task. task.cron_job ≡ stopped) s'.tasks
    × All (λ status. status.is_running ≡ true) (get_tasks_status s')
stopped_task_runs = stopped_tasks_report_running lock_map one_task node_a no_locks refl
