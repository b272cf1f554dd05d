-- ===== src/Scheduler/LockTable.antt =====
-- The table scheduler_locks (prisma/schema.prisma) as its client sees it. Prisma is not code of the
-- repository: its calls are the fields of a record, with what its documentation promises of them.
-- A call is `none` where it throws.
use pafs_backend_api.Prelude.{ℕ, String, ◌≡◌, Bool, Option, none, some, ◌===◌, if◌then◌else◌}

pub record Lock : Type 0 where
  pub task_name : String
  pub locked_by : String
  pub locked_at : ℕ
  pub expires_at : ℕ
  pub last_run_at : Option ℕ

-- The row after an upsert, an updateMany and a deleteMany.
abbrev pub upserted : Lock → (Lock → Lock) → Option Lock → Option Lock
upserted create update none = some create
upserted create update (some l) = some (update l)

abbrev pub updated : (Lock → Bool) → (Lock → Lock) → Option Lock → Option Lock
updated test update none = none
updated test update (some l) = some (if test l then update l else l)

abbrev pub kept : (Lock → Bool) → Option Lock → Option Lock
kept test none = none
kept test (some l) = if test l then none else some l

abbrev pub held_by : String → Option Lock → Option Lock
held_by who none = none
held_by who (some l) = if l.locked_by === who then some l else none

pub record Locks : Type 1 where
  pub Rows : Type 0
  -- the rows are reachable: no call throws
  pub IsUp : Rows → Type 0
  -- findUnique({ where: { task_name } })
  pub find : String → Rows → Option Lock
  -- upsert({ where: { task_name }, create, update })
  pub upsert : String → Lock → (Lock → Lock) → Rows → Option Rows
  -- updateMany({ where, data }) and deleteMany({ where })
  pub update_many : (Lock → Bool) → (Lock → Lock) → Rows → Option Rows
  pub delete_many : (Lock → Bool) → Rows → Option Rows
  -- findUnique({ where: { task_name, locked_by } }); `none` outside where it throws
  pub find_held : String → String → Rows → Option (Option Lock)
  pub upsert-up :
      (k : String) (c : Lock) (f : Lock → Lock) (t : Rows)
      → IsUp t
      → (t' : Rows) × (upsert k c f t ≡ some t') × IsUp t'
  pub update_many-up :
      (p : Lock → Bool) (f : Lock → Lock) (t : Rows)
      → IsUp t
      → (t' : Rows) × (update_many p f t ≡ some t') × IsUp t'
  pub delete_many-up :
      (p : Lock → Bool) (t : Rows) → IsUp t → (t' : Rows) × (delete_many p t ≡ some t') × IsUp t'
  pub find_held-up :
      (k who : String) (t : Rows) → IsUp t → (o : Option Lock) × (find_held k who t ≡ some o)
  -- the row is stored under its task
  pub find-task_name : (k : String) (t : Rows) {l : Lock} → find k t ≡ some l → l.task_name ≡ k
  -- a write that keeps the key changes the rows that it names, and no other
  pub find-upsert :
      (j k : String) (c : Lock) (f : Lock → Lock) (t : Rows) {t' : Rows}
      → c.task_name ≡ k
      → ((l : Lock) → (f l).task_name ≡ l.task_name)
      → upsert k c f t ≡ some t'
      → find j t' ≡ (if j === k then upserted c f (find k t) else find j t)
  pub find-update_many :
      (j : String) (p : Lock → Bool) (f : Lock → Lock) (t : Rows) {t' : Rows}
      → ((l : Lock) → (f l).task_name ≡ l.task_name)
      → update_many p f t ≡ some t'
      → find j t' ≡ updated p f (find j t)
  pub find-delete_many :
      (j : String) (p : Lock → Bool) (t : Rows) {t' : Rows}
      → delete_many p t ≡ some t'
      → find j t' ≡ kept p (find j t)
  -- both columns are compared
  pub find_held-find :
      (k who : String) (t : Rows) {o : Option Lock}
      → find_held k who t ≡ some o
      → o ≡ held_by who (find k t)
