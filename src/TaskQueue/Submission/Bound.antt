-- ===== src/TaskQueue/Submission/Bound.antt =====
-- What calls of `submit` of app/task_queue.py that do not overlap let into the queue.

use mathlib.Core.Path.{subst}
use manus_claw.Prelude.{
  Dict, ℕ, String, Option, none, some, List, [], ◌∷◌, ◌≡◌, refl, insert, string_eq, sym, ◌∙◌,
  length, ◌≤◌, arith,
}
use manus_claw.TaskQueue.Entries.{TaskEntry, TaskPriority, Table, save, load, next_queued_task}
use manus_claw.TaskQueue.Queue.{
  TaskQueue, submit, cancel_task, retry_task, save_checkpoint, cleanup_completed, new_queue,
  submit_unless, submit_new, pruned,
}
use manus_claw.TaskQueue.Workers.{Outcome, resume_interrupted}
use manus_claw.TaskQueue.Submission.{
  work, IsSmall, IsTame, load-IsKnown, next-IsKnown, cancel_loaded-IsTame, retry_loaded-IsTame,
  checkpoint_loaded-IsTame, work-IsTame, cleanup-IsTame, resume-IsTame,
}

-- A call of a method, each with its time; `works_next` is a worker that takes a task, starts it, and
-- ends it at a later time.
pub data Call : Type 0 where
  submits : ℕ → String → String → TaskPriority → Call
  cancels retries : ℕ → String → Call
  saves_checkpoint : ℕ → String → ℕ → Call
  cleans_up : ℕ → ℕ → ℕ → Call
  resumes : ℕ → Call
  works_next : ℕ → ℕ → Outcome → Call

abbrev pub after : (String → String) → Call → TaskQueue → TaskQueue
after hash (submits now id prompt priority) q = (submit hash now id prompt priority q).1
after hash (cancels now id) q = (cancel_task now id q).1
after hash (retries now id) q = (retry_task now id q).1
after hash (saves_checkpoint now id n) q = save_checkpoint now id n q
after hash (cleans_up hour now hours) q = (cleanup_completed hour now hours q).1
after hash (resumes now) q = (resume_interrupted now q).1
after hash (works_next now later outcome) q = work now later outcome (next_queued_task q.tasks) q

abbrev pub after_all : (String → String) → List Call → TaskQueue → TaskQueue
after_all hash [] q = q
after_all hash (call ∷ calls) q = after_all hash calls (after hash call q)

-- At most one row, and none as long as no prompt is remembered.
abbrev IsKept : TaskQueue → Type 0
IsKept q = IsSmall q.tasks × (q.recent_prompts ≡ [] → q.tasks ≡ [])

tame-IsKept : (q r : TaskQueue) → IsTame q r → IsKept q → IsKept r
tame-IsKept q r tame (h, f) = (tame.small h, λ e. tame.empty (f (sym tame.same ∙ e)))

save_empty-IsSmall :
    (now : ℕ) (t : TaskEntry) (table : Table) → table ≡ [] → IsSmall (save now t table)
unfolding save insert
save_empty-IsSmall now t table e = subst (λ u. IsSmall (save now t u)) (sym e) refl

insert_new : (k v : String) → ¬ (insert k v [] ≡ [])
unfolding insert
insert_new k v e = cc

submit_new-IsKept :
    (hash : String → String) (now : ℕ) (t : TaskEntry) (q : TaskQueue) (recent : Dict String String)
    → q.recent_prompts ≡ recent
    → IsKept q
    → IsKept (submit_new hash now t q (pruned recent)).1
unfolding submit_new pruned
submit_new-IsKept hash now t q [] e (h, f) =
    (save_empty-IsSmall now t q.tasks (f e), λ g. absurd (insert_new (hash t.prompt) t.id g))
submit_new-IsKept hash now t q ((k, v) ∷ recent) e kept = kept

submit_unless-IsKept :
    (hash : String → String) (now : ℕ) (t : TaskEntry) (q : TaskQueue) (o : Option TaskEntry)
    → IsKept q
    → IsKept (submit_unless hash now t q o).1
unfolding submit_unless
submit_unless-IsKept hash now t q none kept =
    submit_new-IsKept hash now t q q.recent_prompts refl kept
submit_unless-IsKept hash now t q (some existing) kept = kept

after-IsKept :
    (hash : String → String) (call : Call) (q : TaskQueue) → IsKept q → IsKept (after hash call q)
unfolding submit cancel_task retry_task save_checkpoint
after-IsKept hash (submits now id prompt priority) q kept = submit_unless-IsKept hash now _ q _ kept
after-IsKept hash (cancels now id) q kept =
    tame-IsKept q _
      (cancel_loaded-IsTame now (load id q.tasks) q kept.0 (λ t. load-IsKnown id t q.tasks kept.0))
      kept
after-IsKept hash (retries now id) q kept =
    tame-IsKept q _
      (retry_loaded-IsTame now (load id q.tasks) q kept.0 (λ t. load-IsKnown id t q.tasks kept.0))
      kept
after-IsKept hash (saves_checkpoint now id n) q kept =
    tame-IsKept q _
      (checkpoint_loaded-IsTame now n (load id q.tasks) q kept.0
        (λ t. load-IsKnown id t q.tasks kept.0))
      kept
after-IsKept hash (cleans_up hour now hours) q kept =
    tame-IsKept q _ (cleanup-IsTame hour now hours q) kept
after-IsKept hash (resumes now) q kept = tame-IsKept q _ (resume-IsTame now q) kept
after-IsKept hash (works_next now later outcome) q kept =
    tame-IsKept q _
      (work-IsTame now later outcome (next_queued_task q.tasks) q kept.0
        (λ t. next-IsKnown t q.tasks kept.0))
      kept

after_all-IsKept :
    (hash : String → String) (calls : List Call) (q : TaskQueue)
    → IsKept q
    → IsKept (after_all hash calls q)
after_all-IsKept hash [] q kept = kept
after_all-IsKept hash (call ∷ calls) q kept =
    after_all-IsKept hash calls (after hash call q) (after-IsKept hash call q kept)

small_length : (table : Table) → IsSmall table → length table ≤ 1
small_length [] h = omega arith
small_length (a ∷ []) h = omega arith
small_length (a ∷ b ∷ table) h = absurd h

-- A queue that starts with an empty table never holds more than one task, when calls of `submit`,
-- `cancel_task`, `retry_task`, `save_checkpoint`, `cleanup_completed` and `resume_interrupted` and
-- runs of one worker follow, each of which begins when the one before has ended.
at_most_one_task :
    (hash : String → String) (calls : List Call)
    → length (after_all hash calls (new_queue [])).tasks ≤ 1
unfolding new_queue
at_most_one_task hash calls =
    let q = after_all hash calls (new_queue []) in
    small_length q.tasks (after_all-IsKept hash calls (new_queue []) (tt, λ e. refl)).0
