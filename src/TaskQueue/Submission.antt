-- ===== src/TaskQueue/Submission.antt =====
-- What the methods of app/task_queue.py other than `submit` do to a table of one task.
pub mod Bound
pub mod Overlap
pub mod Late
pub mod Alone
use mathlib.Core.Option.{some-injective}
use mathlib.Core.Path.{subst}
use manus_claw.Prelude.{
  Dict, ◌&&◌, ltb, leb, ℕ, Bool, true, false, String, Option, none, some, List, [], ◌∷◌, ◌≡◌, inl,
  inr, refl, ap, Bool-cases, str_eq, lookup, insert, string_eq, if◌then◌else◌, sym, eq_iff, ◌∙◌,
  ◌-◌, ◌+◌, ◌*◌, ◌||◌, length, ◌≤◌, arith,
}
use manus_claw.TaskQueue.Entries.{
  running, paused, completed, newest_first, with_status, tasks_of, insert_row, next_row, rows,
  first_of, has_status, queued, TaskEntry, TaskPriority, Table, Row, save, load, task_of,
  next_queued_task, TaskStatus, without_old, same_status, is_final, list_tasks, cancelled, failed,
}
use manus_claw.TaskQueue.Queue.{
  TaskQueue, submit, cancel_task, retry_task, save_checkpoint, cleanup_completed, checkpoint_loaded,
  retry_loaded, cancel_loaded, is_unfinished, new_queue, submit_unless, submit_new, pruned,
}
use manus_claw.TaskQueue.Workers.{
  resume_status, returns, is_cancelled, raises, start_task, finish_task, Outcome,
  resume_interrupted, resume_each, ended, resume_task,
}

unfoldable pub work : ℕ → ℕ → Outcome → Option TaskEntry → TaskQueue → TaskQueue
unfolding start_task finish_task
work now later outcome none q = q
work now later outcome (some t) q =
    let (started, r) = start_task now t q in finish_task later outcome started r

-- At most one row, under its task's id.
abbrev pub IsSmall : Table → Type 0
IsSmall [] = Unit
IsSmall ((id, r) ∷ []) = id ≡ r.task.id
IsSmall (a ∷ b ∷ table) = ⊥

-- The task stands in the table under its id.
abbrev pub IsKnown : String → Table → Type 0
IsKnown id [] = ⊥
IsKnown id ((j, r) ∷ table) = id ≡ j

save-IsSmall :
    (now : ℕ) (t : TaskEntry) (table : Table)
    → IsSmall table
    → IsKnown t.id table
    → IsSmall (save now t table) × IsKnown t.id (save now t table)
unfolding save insert
save-IsSmall now t [] h k = absurd k
save-IsSmall now t ((j, r) ∷ []) h k = rw ((eq_iff j t.id).1 (sym k)) (sym k, k)
save-IsSmall now t (a ∷ b ∷ table) h k = absurd h

row-IsKnown :
    (j : String) (r : Row) (t : TaskEntry) → j ≡ r.task.id → some r.task ≡ some t → t.id ≡ j
row-IsKnown j r t h e = ap (λ (u : TaskEntry). u.id) (sym (some-injective _ _ e)) ∙ sym h

pub load-IsKnown :
    (id : String) (t : TaskEntry) (table : Table)
    → IsSmall table
    → load id table ≡ some t
    → IsKnown t.id table
unfolding load lookup task_of
load-IsKnown id t [] h e = (let e' : ◌≡◌ {A = Option TaskEntry} none (some t) = e in cc)
load-IsKnown id t ((j, r) ∷ []) h e = elim (Bool-cases (str_eq j id)) [
  | inl same ↦ row-IsKnown j r t h (ap (λ b. task_of (if b then some r else none)) (sym same) ∙ e)
  | inr other ↦
      let e' : ◌≡◌ {A = Option TaskEntry} none (some t) =
        ap (λ b. task_of (if b then some r else none)) (sym other) ∙ e in
      cc
]
load-IsKnown id t (a ∷ b ∷ table) h e = absurd h

pub next-IsKnown :
    (t : TaskEntry) (table : Table)
    → IsSmall table
    → next_queued_task table ≡ some t
    → IsKnown t.id table
unfolding next_queued_task next_row rows first_of task_of
next-IsKnown t [] h e = (let e' : ◌≡◌ {A = Option TaskEntry} none (some t) = e in cc)
next-IsKnown t ((j, r) ∷ []) h e = elim (Bool-cases (has_status queued r)) [
  | inl waits ↦ row-IsKnown j r t h (ap (λ b. task_of (if b then some r else none)) (sym waits) ∙ e)
  | inr other ↦
      let e' : ◌≡◌ {A = Option TaskEntry} none (some t) =
        ap (λ b. task_of (if b then some r else none)) (sym other) ∙ e in
      cc
]
next-IsKnown t (a ∷ b ∷ table) h e = absurd h

-- A method other than `submit` adds no row and leaves the recent prompts as they are.
pub record IsTame (q r : TaskQueue) : Type 0 where
  pub small : IsSmall q.tasks → IsSmall r.tasks
  pub empty : q.tasks ≡ [] → r.tasks ≡ []
  pub same : r.recent_prompts ≡ q.recent_prompts

unchanged : (q : TaskQueue) → IsTame q q
unchanged q = record { small = λ h. h; empty = λ e. e; same = refl }

either :
    (q : TaskQueue) (b : Bool) (x y : Bool × TaskQueue)
    → IsTame q x.1
    → IsTame q y.1
    → IsTame q (if b then x else y).1
either q true x y p p' = p
either q false x y p p' = p'

saved :
    (q r : TaskQueue) (now : ℕ) (t : TaskEntry)
    → IsSmall q.tasks
    → IsKnown t.id q.tasks
    → r.tasks ≡ save now t q.tasks
    → r.recent_prompts ≡ q.recent_prompts
    → IsTame q r
saved q r now t h k e same = record {
  small = λ g. subst IsSmall (sym e) (save-IsSmall now t q.tasks h k).0;
  empty = λ none_left. absurd (subst (IsKnown t.id) none_left k);
  same = same;
}

pub cancel_loaded-IsTame :
    (now : ℕ) (o : Option TaskEntry) (q : TaskQueue)
    → IsSmall q.tasks
    → ((t : TaskEntry) → o ≡ some t → IsKnown t.id q.tasks)
    → IsTame q (cancel_loaded now o q).1
unfolding cancel_loaded
cancel_loaded-IsTame now none q h k = unchanged q
cancel_loaded-IsTame now (some t) q h k =
    either q (is_unfinished t.status) _ _
      (saved q _ now (record t { status = cancelled; completed_at = some now }) h (k t refl) refl
        refl)
      (unchanged q)

pub retry_loaded-IsTame :
    (now : ℕ) (o : Option TaskEntry) (q : TaskQueue)
    → IsSmall q.tasks
    → ((t : TaskEntry) → o ≡ some t → IsKnown t.id q.tasks)
    → IsTame q (retry_loaded now o q).1
unfolding retry_loaded
retry_loaded-IsTame now none q h k = unchanged q
retry_loaded-IsTame now (some t) q h k =
    either q (same_status t.status failed || same_status t.status cancelled) _ _
      (saved q _ now
        (record t { status = queued; retry_count = t.retry_count + 1; error = none; result = none })
        h (k t refl) refl refl)
      (unchanged q)

pub checkpoint_loaded-IsTame :
    (now n : ℕ) (o : Option TaskEntry) (q : TaskQueue)
    → IsSmall q.tasks
    → ((t : TaskEntry) → o ≡ some t → IsKnown t.id q.tasks)
    → IsTame q (checkpoint_loaded now n o q)
unfolding checkpoint_loaded
checkpoint_loaded-IsTame now n none q h k = unchanged q
checkpoint_loaded-IsTame now n (some t) q h k =
    saved q _ now (record t { checkpoint = some (record { task_id = t.id; step_count = n }) }) h
      (k t refl) refl refl

ended-IsKnown :
    (later : ℕ) (outcome : Outcome) (t : TaskEntry) (table : Table)
    → IsKnown t.id table
    → IsKnown (ended later outcome t).id table
unfolding ended
ended-IsKnown later (returns text) t table k = k
ended-IsKnown later is_cancelled t table k = k
ended-IsKnown later (raises e) t table k = k

pub work-IsTame :
    (now later : ℕ) (outcome : Outcome) (o : Option TaskEntry) (q : TaskQueue)
    → IsSmall q.tasks
    → ((t : TaskEntry) → o ≡ some t → IsKnown t.id q.tasks)
    → IsTame q (work now later outcome o q)
unfolding work start_task finish_task
work-IsTame now later outcome none q h k = unchanged q
work-IsTame now later outcome (some t) q h k =
    let started = record t { status = running; started_at = some now } in
    let first = save-IsSmall now started q.tasks h (k t refl) in
    let second =
      save-IsSmall later (ended later outcome started) (save now started q.tasks) first.0 in
    record {
      small = λ g. (second (ended-IsKnown later outcome started _ first.1)).0;
      empty = λ none_left. absurd (subst (IsKnown t.id) none_left (k t refl));
      same = refl;
    }

without_old-IsSmall :
    (cutoff : ℕ) (table : Table) → IsSmall table → IsSmall (without_old cutoff table)
unfolding without_old
without_old-IsSmall cutoff [] h = tt
without_old-IsSmall cutoff ((j, r) ∷ []) h =
    elim (Bool-cases (is_final r && ltb r.updated_at cutoff)) [
      | inl old ↦ rw old tt
      | inr recent ↦ rw recent h
    ]
without_old-IsSmall cutoff (a ∷ b ∷ table) h = absurd h

pub cleanup-IsTame :
    (hour now hours : ℕ) (q : TaskQueue) → IsTame q (cleanup_completed hour now hours q).1
unfolding cleanup_completed
cleanup-IsTame hour now hours q = record {
  small = without_old-IsSmall (now - hours * hour) q.tasks;
  empty = λ e. ap (without_old (now - hours * hour)) e ∙ unfold without_old in refl;
  same = refl;
}

resume_status-IsSmall :
    (s : TaskStatus) (now : ℕ) (t : TaskEntry) (table : Table)
    → IsSmall table
    → IsKnown t.id table
    → IsSmall (resume_status s now t table)
unfolding resume_status
resume_status-IsSmall queued now t table h k = h
resume_status-IsSmall running now t table h k =
    elim (Bool-cases (leb (t.retry_count + 1) t.max_retries)) [
      | inl again ↦ rw again (save-IsSmall now _ table h k).0
      | inr given_up ↦ rw given_up (save-IsSmall now _ table h k).0
    ]
resume_status-IsSmall paused now t table h k = (save-IsSmall now _ table h k).0
resume_status-IsSmall completed now t table h k = h
resume_status-IsSmall failed now t table h k = h
resume_status-IsSmall cancelled now t table h k = h

resume-IsSmall :
    (now : ℕ) (table : Table)
    → IsSmall table
    → IsSmall (resume_each now (list_tasks none table) table)
unfolding resume_each resume_task list_tasks rows newest_first with_status tasks_of insert_row
resume-IsSmall now [] h = tt
resume-IsSmall now ((j, r) ∷ []) h =
    resume_status-IsSmall r.task.status now r.task ((j, r) ∷ []) h (sym h)
resume-IsSmall now (a ∷ b ∷ table) h = absurd h

pub resume-IsTame : (now : ℕ) (q : TaskQueue) → IsTame q (resume_interrupted now q).1
unfolding resume_interrupted
resume-IsTame now q = record {
  small = resume-IsSmall now q.tasks;
  empty = λ e.
      ap (λ table. resume_each now (list_tasks none table) table) e
      ∙ unfold resume_each list_tasks rows newest_first with_status tasks_of in refl;
  same = refl;
}
