-- ===== src/TaskQueue/Entries.antt =====
-- `TaskEntry` and the tasks table of app/task_queue.py. Metadata, the times of creation, and the last
-- call and memory in a checkpoint are left out. A time is a number of ticks.
use manus_claw.Prelude.{
  ℕ, Bool, ◌&&◌, ◌||◌, String, Option, none, some, List, [], ◌∷◌, ltb, leb, ◌==◌, if◌then◌else◌,
  Dict, lookup, insert, string_eq,
}

pub data TaskStatus : Type 0 where
  queued running paused completed failed cancelled : TaskStatus

pub data TaskPriority : Type 0 where
  low normal high critical : TaskPriority

abbrev pub priority_value : TaskPriority → ℕ
priority_value low = 0
priority_value normal = 1
priority_value high = 2
priority_value critical = 3

pub record TaskCheckpoint : Type 0 where
  pub task_id : String
  pub step_count : ℕ

pub record TaskEntry : Type 0 where
  pub id : String
  pub prompt : String
  pub status : TaskStatus
  pub priority : TaskPriority
  pub result : Option String
  pub error : Option String
  pub checkpoint : Option TaskCheckpoint
  pub started_at : Option ℕ
  pub completed_at : Option ℕ
  pub retry_count : ℕ
  pub max_retries : ℕ

-- A row of the table, of which the primary key is the task's id.
pub record Row : Type 0 where
  pub task : TaskEntry
  pub updated_at : ℕ

abbrev pub Table : Type 0
Table = Dict String Row

abbrev status_number : TaskStatus → ℕ
status_number queued = 0
status_number running = 1
status_number paused = 2
status_number completed = 3
status_number failed = 4
status_number cancelled = 5

abbrev pub same_status : TaskStatus → TaskStatus → Bool
same_status s t = status_number s == status_number t

unfoldable pub has_status : TaskStatus → Row → Bool
has_status s r = same_status s r.task.status

-- `_save`: INSERT OR REPLACE.
unfoldable pub save : ℕ → TaskEntry → Table → Table
unfolding insert
save now t table = insert t.id (record { task = t; updated_at = now }) table

unfoldable pub task_of : Option Row → Option TaskEntry
task_of none = none
task_of (some r) = some r.task

-- `_load`, and `get_task`.
unfoldable pub load : String → Table → Option TaskEntry
unfolding task_of lookup
load id table = task_of (lookup id table)

unfoldable pub rows : Table → List Row
rows [] = []
rows ((id, r) ∷ table) = r ∷ rows table

-- `ORDER BY updated_at DESC`
unfoldable pub insert_row : Row → List Row → List Row
insert_row r [] = r ∷ []
insert_row r (s ∷ rs) =
    let rest = insert_row r rs in if leb s.updated_at r.updated_at then r ∷ s ∷ rs else s ∷ rest

unfoldable pub newest_first : List Row → List Row
unfolding insert_row
newest_first [] = []
newest_first (r ∷ rs) = insert_row r (newest_first rs)

-- `WHERE json_extract(data, '$.status') = ?`, for a status that is given.
unfoldable pub with_status : Option TaskStatus → List Row → List Row
with_status none rs = rs
with_status (some s) [] = []
with_status (some s) (r ∷ rs) =
    let rest = with_status (some s) rs in if has_status s r then r ∷ rest else rest

unfoldable pub tasks_of : List Row → List TaskEntry
tasks_of [] = []
tasks_of (r ∷ rs) = r.task ∷ tasks_of rs

unfoldable pub list_tasks : Option TaskStatus → Table → List TaskEntry
unfolding rows newest_first with_status tasks_of
list_tasks status table = tasks_of (newest_first (with_status status (rows table)))

-- Whether a row comes before another under `ORDER BY priority DESC, updated_at ASC`.
unfoldable pub comes_first : Row → Row → Bool
comes_first r s =
    let p = priority_value r.task.priority in
    let q = priority_value s.task.priority in ltb q p || (p == q && leb r.updated_at s.updated_at)

unfoldable pub first_of : Row → Option Row → Option Row
unfolding comes_first
first_of r none = some r
first_of r (some s) = if comes_first r s then some r else some s

-- The first row that is queued, in the order of the query (`LIMIT 1`).
unfoldable pub next_row : List Row → Option Row
unfolding first_of
next_row [] = none
next_row (r ∷ rs) = let rest = next_row rs in if has_status queued r then first_of r rest else rest

unfoldable pub next_queued_task : Table → Option TaskEntry
unfolding next_row rows task_of
next_queued_task table = task_of (next_row (rows table))

unfoldable pub is_final : Row → Bool
is_final r = has_status completed r || has_status failed r || has_status cancelled r

unfoldable pub without_old : ℕ → Table → Table
unfolding is_final
without_old cutoff [] = []
without_old cutoff ((id, r) ∷ table) =
    let rest = without_old cutoff table in
    if is_final r && ltb r.updated_at cutoff then rest else (id, r) ∷ rest
