-- ===== src/TaskQueue/Workers.antt =====
-- The workers of `TaskQueue` (app/task_queue.py), and what becomes of tasks at a restart.
use manus_claw.Prelude.{
  ℕ, ◌+◌, Bool, false, String, Option, none, some, List, [], ◌∷◌, leb, length, if◌then◌else◌, Dict,
  insert, remove, string_eq, suc,
}
use manus_claw.TaskQueue.Entries.{
  TaskStatus, queued, running, paused, completed, failed, cancelled, TaskEntry, Table, same_status,
  save, load, list_tasks,
}
use manus_claw.TaskQueue.Queue.{TaskQueue}

-- A worker starts the task that it has read.
unfoldable pub start_task : ℕ → TaskEntry → TaskQueue → TaskEntry × TaskQueue
unfolding save insert
start_task now t q =
    let started = record t { status = running; started_at = some now } in
    (
      started,
      record q {
        tasks = save now started q.tasks;
        active_tasks = insert t.id false q.active_tasks;
      },
    )

-- How the executor ends: with a result, cancelled, or with an exception.
pub data Outcome : Type 0 where
  returns : String → Outcome
  is_cancelled : Outcome
  raises : String → Outcome

unfoldable pub ended : ℕ → Outcome → TaskEntry → TaskEntry
ended now (returns text) t = record t {
  status = completed;
  result = some text;
  completed_at = some now;
}
ended now is_cancelled t = record t { status = paused }
ended now (raises e) t = record t { status = failed; error = some e; completed_at = some now }

unfoldable pub finish_task : ℕ → Outcome → TaskEntry → TaskQueue → TaskQueue
unfolding ended save remove
finish_task now outcome t q = record q {
  tasks = save now (ended now outcome t) q.tasks;
  active_tasks = remove t.id q.active_tasks;
}

unfoldable pub resume_status : TaskStatus → ℕ → TaskEntry → Table → Table
unfolding save
resume_status queued now t tasks = tasks
resume_status running now t tasks =
    let again = t.retry_count + 1 in
    let given_up = record t {
      status = failed;
      retry_count = again;
      error = some "Max retries exceeded after multiple interruptions";
    } in
    if leb again t.max_retries
    then save now (record t { status = queued; retry_count = again }) tasks
    else save now given_up tasks
resume_status paused now t tasks = save now (record t { status = queued }) tasks
resume_status completed now t tasks = tasks
resume_status failed now t tasks = tasks
resume_status cancelled now t tasks = tasks

unfoldable pub resume_task : ℕ → TaskEntry → Table → Table
unfolding resume_status
resume_task now t tasks = resume_status t.status now t tasks

unfoldable pub is_resumed : TaskEntry → ℕ
is_resumed t = elim t.status [
  | queued ↦ 0
  | running ↦ if leb (t.retry_count + 1) t.max_retries then 1 else 0
  | paused ↦ 1
  | completed ↦ 0
  | failed ↦ 0
  | cancelled ↦ 0
]

unfoldable pub resume_each : ℕ → List TaskEntry → Table → Table
unfolding resume_task
resume_each now [] tasks = tasks
resume_each now (t ∷ ts) tasks = resume_each now ts (resume_task now t tasks)

unfoldable pub count_resumed : List TaskEntry → ℕ
unfolding is_resumed
count_resumed [] = 0
count_resumed (t ∷ ts) = is_resumed t + count_resumed ts

unfoldable pub resume_interrupted : ℕ → TaskQueue → ℕ × TaskQueue
unfolding resume_each count_resumed list_tasks
resume_interrupted now q =
    let ts = list_tasks none q.tasks in
    (count_resumed ts, record q { tasks = resume_each now ts q.tasks })

-- Each worker's task is cancelled, and its handler saves it.
unfoldable pub pause_each : ℕ → List TaskEntry → TaskQueue → TaskQueue
unfolding finish_task
pause_each now [] q = q
pause_each now (t ∷ ts) q = pause_each now ts (finish_task now is_cancelled t q)

unfoldable pub pause_loaded : ℕ → Option TaskEntry → TaskQueue → TaskQueue
unfolding save
pause_loaded now none q = q
pause_loaded now (some t) q =
    if same_status t.status running
    then record q { tasks = save now (record t { status = paused }) q.tasks }
    else q

-- The tasks that are still active then.
unfoldable pub pause_active : ℕ → Dict String Bool → TaskQueue → TaskQueue
unfolding pause_loaded load
pause_active now [] q = q
pause_active now ((id, requested) ∷ active) q =
    pause_active now active (pause_loaded now (load id q.tasks) q)

-- `stop_workers`, with the tasks that the workers run.
unfoldable pub stop_workers : ℕ → List TaskEntry → TaskQueue → TaskQueue
unfolding pause_each pause_active
stop_workers now executing q =
    let r = pause_each now executing q in
    record (pause_active now r.active_tasks r) { active_tasks = [] }

unfoldable pub count_status : TaskStatus → List TaskEntry → ℕ
count_status s [] = 0
count_status s (t ∷ ts) =
    let rest = count_status s ts in if same_status t.status s then suc rest else rest

abbrev statuses : List (String × TaskStatus)
statuses =
    ("queued", queued)
    ∷ ("running", running)
    ∷ ("paused", paused)
    ∷ ("completed", completed)
    ∷ ("failed", failed)
    ∷ ("cancelled", cancelled)
    ∷ []

unfoldable pub counts : List (String × TaskStatus) → List TaskEntry → Dict String ℕ
unfolding count_status
counts [] ts = []
counts ((name, s) ∷ names) ts = (name, count_status s ts) ∷ counts names ts

unfoldable pub status_summary : TaskQueue → Dict String ℕ
unfolding counts list_tasks
status_summary q = let ts = list_tasks none q.tasks in ("total", length ts) ∷ counts statuses ts
