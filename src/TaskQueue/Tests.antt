-- ===== src/TaskQueue/Tests.antt =====
-- Runs of the task queue of app/task_queue.py.
use manus_claw.Prelude.{
  true, String, some, none, List, [], ◌∷◌, ◌≡◌, ◌⊎◌, refl, false, length, lookup, string_eq,
}
use manus_claw.TaskQueue.Entries.{
  TaskEntry, TaskStatus, queued, running, normal, high, Row, Table, load, next_queued_task, rows,
  has_status,
}
use manus_claw.TaskQueue.Queue.{TaskQueue, new_queue, cancel_task, submit}
use manus_claw.TaskQueue.Workers.{finish_task, is_cancelled, returns, resume_interrupted}
use manus_claw.TaskQueue.Selection.{AllRows, IsFirst, next_queued_task-IsFirst}
use manus_claw.TaskQueue.Submission.{work}
use manus_claw.TaskQueue.Submission.Bound.{Call, submits, cancels, works_next, after_all}
use manus_claw.Prelude.{insert}
use manus_claw.TaskQueue.Queue.{returned, submitted}
use manus_claw.TaskQueue.Submission.Overlap.{
  Calls, Reach, here, next, starts, loads, resumes, stores, remembers, start_step, load_step,
  store_step, resume_step, remember_step, IsTurnedAway,
}
use manus_claw.TaskQueue.Submission.Late.{late_call-IsTurnedAway}
use manus_claw.TaskQueue.Resumption.{after_restart, resume_interrupted-load}
use manus_claw.TaskQueue.Resumption.Cancelled.{cancelled_task_resumes}

abbrev hash : String → String
hash s = s

abbrev task : String → TaskStatus → TaskEntry
task id status = record {
  id = id;
  prompt = "run";
  status = status;
  priority = normal;
  result = none;
  error = none;
  checkpoint = none;
  started_at = none;
  completed_at = none;
  retry_count = 0;
  max_retries = 3;
}

abbrev table : Table
table =
    ("a", record { task = task "a" running; updated_at = 1 })
    ∷ ("b", record { task = task "b" queued; updated_at = 2 })
    ∷ []

abbrev queue : TaskQueue
queue = record { tasks = table; active_tasks = ("a", false) ∷ []; recent_prompts = [] }

abbrev some_calls : List Call
some_calls =
    submits 1 "a" "build" normal
    ∷ works_next 2 3 (returns "done")
    ∷ submits 4 "b" "test" high
    ∷ cancels 5 "b"
    ∷ []

takes_b : next_queued_task table ≡ some (task "b" queued)
unfolding next_queued_task has_status
takes_b = refl

-- The second prompt is not stored.
only_a : length (after_all hash some_calls (new_queue [])).tasks ≡ 1
unfolding cancel_task submit work next_queued_task new_queue has_status
only_a = refl

-- Two calls overlap: both begin before one of them has saved its task.
abbrev no_calls : Calls
no_calls = record { queue = new_queue []; stage = λ _. none }

abbrev both_begun : Calls
both_begun = starts hash 2 (task "b" queued) (starts hash 1 (task "a" queued) no_calls)

abbrev both_stored : Calls
both_stored =
    stores hash 2 5 (task "b" queued)
      (remembers hash 1 (task "a" queued) (stores hash 1 4 (task "a" queued) both_begun))

two_rows : length both_stored.queue.tasks ≡ 2
unfolding starts stores new_queue remembers
two_rows = refl

both_stored_reached : Reach hash no_calls both_stored
unfolding starts stores remembers new_queue
both_stored_reached =
    next
      (next
        (next
          (next (next here (start_step 1 (task "a" queued) refl))
            (start_step 2 (task "b" queued) refl))
          (store_step 1 4 (task "a" queued) refl))
        (remember_step 1 (task "a" queued) refl))
      (store_step 2 5 (task "b" queued) refl)

-- A third call begins once the first has ended, and finds the first prompt's task queued.
abbrev third_begun : Calls
third_begun =
    resumes hash 3 (task "c" queued) (some (task "a" queued))
      (loads hash 3 (task "c" queued) "a" (starts hash 3 (task "c" queued) both_stored))

third_begun_reached : Reach hash both_stored third_begun
unfolding starts stores remembers loads load new_queue lookup insert
third_begun_reached =
    next
      (next (next here (start_step 3 (task "c" queued) refl))
        (load_step 3 (task "c" queued) "a" refl))
      (resume_step 3 (task "c" queued) (some (task "a" queued)) refl)

finds_a : third_begun.stage 3 ≡ some (returned (submitted (task "a" queued)))
unfolding starts stores remembers loads resumes new_queue lookup insert
finds_a = refl

late_call-IsTurnedAway_example : IsTurnedAway (third_begun.stage 3)
late_call-IsTurnedAway_example =
    late_call-IsTurnedAway hash 3 both_stored third_begun
      (unfold starts stores remembers new_queue insert in tt)
      (unfold starts stores remembers new_queue in refl) third_begun_reached

next_queued_task-IsFirst_example :
    (AllRows (λ s. has_status queued s ≡ false) (rows table) × (next_queued_task table ≡ none))
    ⊎ ((r : Row) × IsFirst (rows table) r × (next_queued_task table ≡ some r.task))
next_queued_task-IsFirst_example = next_queued_task-IsFirst table

resume_interrupted-load_example :
    load "a" (resume_interrupted 9 queue).1.tasks ≡ after_restart (load "a" table)
unfolding lookup
resume_interrupted-load_example =
    resume_interrupted-load 9 queue "a" (refl, (refl, tt)) (refl, (refl, tt))

cancelled_task_resumes_example :
    let t = task "a" running in
    let (ok, r) = cancel_task 5 "a" queue in
    (ok ≡ true)
    × (load "a" r.tasks ≡ some (record t { status = TaskStatus.cancelled; completed_at = some 5 }))
    × (load "a" (resume_interrupted 9 (finish_task 6 is_cancelled t r)).1.tasks
        ≡ some (record t { status = queued }))
unfolding load lookup
cancelled_task_resumes_example =
    let t = task "a" running in
    cancelled_task_resumes 5 6 9 t t queue (refl, (refl, tt)) (refl, (refl, tt)) refl refl refl
