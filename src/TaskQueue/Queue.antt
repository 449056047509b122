-- ===== src/TaskQueue/Queue.antt =====
-- `TaskQueue` of app/task_queue.py. Each method takes the time of its call. The ids of new tasks are
-- arguments, and `hash` is the SHA-256 digest of a text.
use manus_claw.Prelude.{
  ℕ, ◌+◌, ◌-◌, ◌*◌, Bool, true, false, ◌||◌, String, Option, none, some, [], ◌∷◌, str_eq, length,
  if◌then◌else◌, Dict, lookup, insert, string_eq,
}
use manus_claw.TaskQueue.Entries.{
  TaskStatus, queued, running, paused, failed, cancelled, TaskPriority, TaskCheckpoint, TaskEntry,
  Table, same_status, save, load, without_old,
}

-- An active task is marked once its asyncio task has been cancelled.
pub record TaskQueue : Type 0 where
  pub tasks : Table
  pub active_tasks : Dict String Bool
  pub recent_prompts : Dict String String

unfoldable pub new_queue : Table → TaskQueue
new_queue tasks = record { tasks = tasks; active_tasks = []; recent_prompts = [] }

unfoldable pub new_task : String → String → TaskPriority → TaskEntry
new_task id prompt priority = record {
  id = id;
  prompt = prompt;
  status = queued;
  priority = priority;
  result = none;
  error = none;
  checkpoint = none;
  started_at = none;
  completed_at = none;
  retry_count = 0;
  max_retries = 3;
}

unfoldable pub queued_only : Option TaskEntry → Option TaskEntry
queued_only none = none
queued_only (some t) = if same_status t.status queued then some t else none

-- `if existing_id: ...`
unfoldable pub duplicate_of : Option String → Table → Option TaskEntry
unfolding queued_only load
duplicate_of none tasks = none
duplicate_of (some id) tasks = if str_eq id "" then none else queued_only (load id tasks)

-- The comprehension that drops old prompts. The values are ids of tasks, and `now - v` for a text `v`
-- is a TypeError.
unfoldable pub pruned : Dict String String → Option (Dict String String)
pruned [] = some []
pruned ((h, id) ∷ recent) = none

pub data Submitted : Type 0 where
  submitted : TaskEntry → Submitted
  type_error : Submitted

-- How far a call of `submit` has come: it awaits `_load`, whose read is to come or done, it awaits
-- `_save`, whose write is to come or done, or it has ended.
pub data Stage : Type 0 where
  loading : TaskEntry → String → Stage
  loaded : TaskEntry → Option TaskEntry → Stage
  saving saved : TaskEntry → Stage
  returned : Submitted → Stage

unfoldable pub prune : TaskEntry → TaskQueue → Option (Dict String String) → Stage × TaskQueue
prune t q none = (returned type_error, q)
prune t q (some recent) = (saving t, record q { recent_prompts = recent })

unfoldable pub start_found : TaskEntry → TaskQueue → Option String → Stage × TaskQueue
unfolding prune pruned
start_found t q none = prune t q (pruned q.recent_prompts)
start_found t q (some id) =
    if str_eq id "" then prune t q (pruned q.recent_prompts) else (loading t id, q)

unfoldable pub go_on : TaskEntry → TaskQueue → Option TaskEntry → Stage × TaskQueue
unfolding prune pruned
go_on t q none = prune t q (pruned q.recent_prompts)
go_on t q (some existing) = (returned (submitted existing), q)

-- What follows the `await` of `_load`, which has found the task or not.
unfoldable pub after_load : TaskEntry → Option TaskEntry → TaskQueue → Stage × TaskQueue
unfolding go_on queued_only
after_load t found q = go_on t q (queued_only found)

-- `await self._save(task)`
unfoldable pub store : ℕ → TaskEntry → TaskQueue → TaskQueue
unfolding save
store now t q = record q { tasks = save now t q.tasks }

module _ (hash : String → String) where
  -- `submit` to its first `await`, for a prompt that makes the task.
  unfoldable pub start_submit : TaskEntry → TaskQueue → Stage × TaskQueue
  unfolding start_found lookup
  start_submit t q = start_found t q (lookup (hash t.prompt) q.recent_prompts)

  -- `self._recent_prompts[prompt_hash] = task.id`
  unfoldable pub remember : TaskEntry → TaskQueue → TaskQueue
  unfolding insert
  remember t q = record q { recent_prompts = insert (hash t.prompt) t.id q.recent_prompts }

  unfoldable pub submit_new :
      ℕ → TaskEntry → TaskQueue → Option (Dict String String) → Submitted × TaskQueue
  unfolding store remember
  submit_new now t q none = (type_error, q)
  submit_new now t q (some recent) =
      (submitted t, remember t (store now t (record q { recent_prompts = recent })))

  unfoldable pub submit_unless :
      ℕ → TaskEntry → TaskQueue → Option TaskEntry → Submitted × TaskQueue
  unfolding submit_new pruned
  submit_unless now t q (some existing) = (submitted existing, q)
  submit_unless now t q none = submit_new now t q (pruned q.recent_prompts)

  -- `submit`, run with no other call between its parts.
  unfoldable pub submit : ℕ → String → String → TaskPriority → TaskQueue → Submitted × TaskQueue
  unfolding submit_unless duplicate_of new_task lookup
  submit now id prompt priority q =
      submit_unless now (new_task id prompt priority) q
        (duplicate_of (lookup (hash prompt) q.recent_prompts) q.tasks)

unfoldable pub is_unfinished : TaskStatus → Bool
is_unfinished s = same_status s queued || same_status s running || same_status s paused

-- `self._active_tasks[task_id].cancel()`
unfoldable pub cancel_active : String → Option Bool → Dict String Bool → Dict String Bool
unfolding insert
cancel_active id none active = active
cancel_active id (some requested) active = insert id true active

unfoldable pub cancel_loaded : ℕ → Option TaskEntry → TaskQueue → Bool × TaskQueue
unfolding cancel_active lookup save
cancel_loaded now none q = (false, q)
cancel_loaded now (some t) q =
    if is_unfinished t.status
    then (
      true,
      record q {
        tasks = save now (record t { status = cancelled; completed_at = some now }) q.tasks;
        active_tasks = cancel_active t.id (lookup t.id q.active_tasks) q.active_tasks;
      },
    )
    else (false, q)

unfoldable pub cancel_task : ℕ → String → TaskQueue → Bool × TaskQueue
unfolding cancel_loaded load
cancel_task now id q = cancel_loaded now (load id q.tasks) q

unfoldable pub retry_loaded : ℕ → Option TaskEntry → TaskQueue → Bool × TaskQueue
unfolding save
retry_loaded now none q = (false, q)
retry_loaded now (some t) q =
    let retried = record t {
      status = queued;
      retry_count = t.retry_count + 1;
      error = none;
      result = none;
    } in
    if same_status t.status failed || same_status t.status cancelled
    then (true, record q { tasks = save now retried q.tasks })
    else (false, q)

unfoldable pub retry_task : ℕ → String → TaskQueue → Bool × TaskQueue
unfolding retry_loaded load
retry_task now id q = retry_loaded now (load id q.tasks) q

unfoldable pub checkpoint_loaded : ℕ → ℕ → Option TaskEntry → TaskQueue → TaskQueue
unfolding save
checkpoint_loaded now step_count none q = q
checkpoint_loaded now step_count (some t) q =
    let c : TaskCheckpoint = record { task_id = t.id; step_count = step_count } in
    record q { tasks = save now (record t { checkpoint = some c }) q.tasks }

unfoldable pub save_checkpoint : ℕ → String → ℕ → TaskQueue → TaskQueue
unfolding checkpoint_loaded load
save_checkpoint now id step_count q = checkpoint_loaded now step_count (load id q.tasks) q

-- The number of rows that go, and what is left; the cutoff is `time.time() - older_than_hours * 3600`
-- in ticks.
unfoldable pub cleanup_completed : ℕ → ℕ → ℕ → TaskQueue → ℕ × TaskQueue
unfolding without_old
cleanup_completed hour now older_than_hours q =
    let kept = without_old (now - older_than_hours * hour) q.tasks in
    (length q.tasks - length kept, record q { tasks = kept })
