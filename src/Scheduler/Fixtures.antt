-- ===== src/Scheduler/Fixtures.antt =====
-- An instance of the lock table for tests: the rows as a function of the task.
use pafs_backend_api.Prelude.{
  String, ◌≡◌, refl, sym, ap, subst, inl, inr, Bool, Bool-cases, true, false, [], ◌∷◌, Option, none,
  some, ◌===◌, if◌then◌else◌, eq_iff, arith,
}
use pafs_backend_api.Scheduler.LockTable.{Lock, Locks, upserted, updated, kept, held_by}
use pafs_backend_api.Scheduler.LockService.{written, Instance}
use pafs_backend_api.Scheduler.Service.{Scheduler, Run, no_job}

abbrev keyed : String → Option Lock → Option Lock
keyed k none = none
keyed k (some l) = if l.task_name === k then some l else none

abbrev LockMap : Type 0
LockMap = String → Option Lock

abbrev find_lock : String → LockMap → Option Lock
find_lock k t = keyed k (t k)

abbrev upsert_lock : String → Lock → (Lock → Lock) → LockMap → Option LockMap
upsert_lock k c f t = some (λ j. if j === k then upserted c f (find_lock k t) else t j)

abbrev update_locks : (Lock → Bool) → (Lock → Lock) → LockMap → Option LockMap
update_locks p f t = some (λ j. updated p f (find_lock j t))

abbrev delete_locks : (Lock → Bool) → LockMap → Option LockMap
delete_locks p t = some (λ j. kept p (find_lock j t))

keyed_name : (k : String) (o : Option Lock) {l : Lock} → keyed k o ≡ some l → l.task_name ≡ k
keyed_name k none e = cc
keyed_name k (some m) e = ground (arith, eq_iff m.task_name k)

keyed-upserted :
    (k : String) (c : Lock) (f : Lock → Lock) (o : Option Lock)
    → c.task_name ≡ k
    → ((l : Lock) → (f l).task_name ≡ l.task_name)
    → keyed k (upserted c f (keyed k o)) ≡ upserted c f (keyed k o)
keyed-upserted k c f none ck keeps = ground (arith, eq_iff c.task_name k)
keyed-upserted k c f (some l) ck keeps =
    ground (arith, eq_iff c.task_name k, eq_iff l.task_name k, eq_iff (f l).task_name k, keeps l)

keyed-updated :
    (k : String) (p : Lock → Bool) (f : Lock → Lock) (o : Option Lock)
    → ((l : Lock) → (f l).task_name ≡ l.task_name)
    → keyed k (updated p f (keyed k o)) ≡ updated p f (keyed k o)
keyed-updated k p f none keeps = refl
keyed-updated k p f (some l) keeps =
    ground (arith, eq_iff l.task_name k, eq_iff (f l).task_name k, keeps l)

keyed-kept :
    (k : String) (p : Lock → Bool) (o : Option Lock)
    → keyed k (kept p (keyed k o)) ≡ kept p (keyed k o)
keyed-kept k p none = refl
keyed-kept k p (some l) = ground (arith, eq_iff l.task_name k)

find_lock-set :
    (j k : String) (o : Option Lock) (t : LockMap)
    → keyed k o ≡ o
    → keyed j (if j === k then o else t j) ≡ (if j === k then o else find_lock j t)
find_lock-set j k o t h = elim (Bool-cases (j === k)) [
  | inl e ↦ rw e (subst (λ i. keyed i o ≡ o) (sym ((eq_iff j k).0 e)) h)
  | inr e ↦ rw e
]

pub find_lock-upsert :
    (j k : String) (c : Lock) (f : Lock → Lock) (t : LockMap) {t' : LockMap}
    → c.task_name ≡ k
    → ((l : Lock) → (f l).task_name ≡ l.task_name)
    → upsert_lock k c f t ≡ some t'
    → find_lock j t' ≡ (if j === k then upserted c f (find_lock k t) else find_lock j t)
find_lock-upsert j k c f t {t'} ck keeps e =
    subst (λ m. find_lock j m ≡ (if j === k then upserted c f (find_lock k t) else find_lock j t))
      (ap (written t) e)
      (find_lock-set j k (upserted c f (find_lock k t)) t (keyed-upserted k c f (t k) ck keeps))

pub find_lock-update :
    (j : String) (p : Lock → Bool) (f : Lock → Lock) (t : LockMap) {t' : LockMap}
    → ((l : Lock) → (f l).task_name ≡ l.task_name)
    → update_locks p f t ≡ some t'
    → find_lock j t' ≡ updated p f (find_lock j t)
find_lock-update j p f t keeps e =
    subst (λ m. find_lock j m ≡ updated p f (find_lock j t)) (ap (written t) e)
      (keyed-updated j p f (t j) keeps)

pub find_lock-delete :
    (j : String) (p : Lock → Bool) (t : LockMap) {t' : LockMap}
    → delete_locks p t ≡ some t'
    → find_lock j t' ≡ kept p (find_lock j t)
find_lock-delete j p t e =
    subst (λ m. find_lock j m ≡ kept p (find_lock j t)) (ap (written t) e) (keyed-kept j p (t j))

pub found_held :
    (k who : String) (t : LockMap) {o : Option Lock}
    → some (held_by who (find_lock k t)) ≡ some o
    → o ≡ held_by who (find_lock k t)
found_held k who t {o} e = ground arith

pub found_name : (k : String) (t : LockMap) {l : Lock} → find_lock k t ≡ some l → l.task_name ≡ k
found_name k t e = keyed_name k (t k) e

abbrev pub lock_map : Locks
lock_map = record {
  Rows = LockMap;
  IsUp = λ t. Unit;
  find = find_lock;
  upsert = upsert_lock;
  update_many = update_locks;
  delete_many = delete_locks;
  find_held = λ k who t. some (held_by who (find_lock k t));
  upsert-up = λ k c f t up. (_, refl, tt);
  update_many-up = λ p f t up. (_, refl, tt);
  delete_many-up = λ p t up. (_, refl, tt);
  find_held-up = λ k who t up. (_, refl);
  find-task_name = found_name;
  find-upsert = find_lock-upsert;
  find-update_many = find_lock-update;
  find-delete_many = find_lock-delete;
  find_held-find = found_held;
}

abbrev pub no_locks : LockMap
no_locks j = none

abbrev pub node_a : Instance
node_a = record { instance_id = "a-1"; lock_timeout = 300000; active_locks = [] }

abbrev pub node_b : Instance
node_b = record { instance_id = "b-7"; lock_timeout = 300000; active_locks = [] }

-- A run whose handler throws, and whose failure is logged.
abbrev pub failing_run : Run lock_map
failing_run = record {
  ends_at = 1500;
  log_created = true;
  handler_returns = false;
  success_logged = true;
  failure_logged = true;
  meanwhile = λ t. t;
}

abbrev pub one_task : Scheduler
one_task = record {
  tasks =
      record {
        name = "archive";
        schedule = "0 2 * * *";
        handler = "archive";
        run_in_worker = false;
        cron_job = no_job;
      }
      ∷ [];
  enabled = true;
  cleanup_interval = false;
}
