-- ===== src/TaskQueue/Resumption/Cancelled.antt =====
-- A task of app/task_queue.py that is cancelled while a worker runs it.
use manus_claw.Prelude.{
  [], ◌∷◌, inl, inr, Bool-cases, str_eq, eq_iff, insert, insert-HasDistinctKeys, ℕ, true, some, ◌≡◌,
  refl, ap, sym, ◌∙◌, HasDistinctKeys, string_eq, insert, insert-HasDistinctKeys,
}
use manus_claw.TaskQueue.Entries.{TaskEntry, running, paused, queued, cancelled, Table, save, load}
use manus_claw.TaskQueue.Queue.{TaskQueue, cancel_task, cancel_loaded, is_unfinished}
use manus_claw.TaskQueue.Workers.{finish_task, ended, is_cancelled, resume_interrupted}
use manus_claw.TaskQueue.Resumption.{
  again, after_restart, load-save_self, resume_interrupted-load, subst,
}
use manus_claw.TaskQueue.Rows.{IsKeyed}

save-IsKeyed :
    (now : ℕ) (t : TaskEntry) (table : Table) → IsKeyed table → IsKeyed (save now t table)
unfolding save insert
save-IsKeyed now t [] n = (refl, tt)
save-IsKeyed now t ((j, r) ∷ table) (n, ns) = elim (Bool-cases (str_eq j t.id)) [
  | inl same ↦ rw same ((eq_iff j t.id).0 same, ns)
  | inr other ↦ rw other (n, save-IsKeyed now t table ns)
]

save-HasDistinctKeys :
    (now : ℕ) (t : TaskEntry) (table : Table)
    → HasDistinctKeys table
    → HasDistinctKeys (save now t table)
unfolding save
save-HasDistinctKeys now t table k = insert-HasDistinctKeys t.id _ table k

module _ (now : ℕ) (t : TaskEntry) (q : TaskQueue) (runs : t.status ≡ running) where
  cancel_running :
      load t.id q.tasks ≡ some t
      → ((cancel_task now t.id q).0 ≡ true)
        × ((cancel_task now t.id q).1.tasks
            ≡ save now (record t { status = cancelled; completed_at = some now }) q.tasks)
  unfolding cancel_task cancel_loaded
  cancel_running h =
      let unfinished : is_unfinished t.status ≡ true = unfold is_unfinished in rw runs refl in
      (
        ap (λ o. (cancel_loaded now o q).0) h ∙ rw unfinished refl,
        ap (λ o. (cancel_loaded now o q).1.tasks) h ∙ rw unfinished refl,
      )

-- In a table in which every row stands under its task's id, and no id twice, a running task that
-- `cancel_task` has cancelled, successfully, is paused by its worker, which saves its own copy of
-- it; after a restart it is queued again.
pub cancelled_task_resumes :
    (now later restart : ℕ) (t w : TaskEntry) (q : TaskQueue)
    → IsKeyed q.tasks
    → HasDistinctKeys q.tasks
    → load t.id q.tasks ≡ some t
    → t.status ≡ running
    → w.id ≡ t.id
    → let (ok, r) = cancel_task now t.id q in
      (ok ≡ true)
      × (load t.id r.tasks ≡ some (record t { status = cancelled; completed_at = some now }))
      × (load t.id (resume_interrupted restart (finish_task later is_cancelled w r)).1.tasks
          ≡ some (record w { status = queued }))
unfolding finish_task ended again
cancelled_task_resumes now later restart t w q n k h runs p =
    let (ok, e) = cancel_running now t q runs h in
    let c = record t { status = cancelled; completed_at = some now } in
    let r = (cancel_task now t.id q).1 in
    let x = record w { status = paused } in
    let named : IsKeyed r.tasks = subst IsKeyed (sym e) (save-IsKeyed now c q.tasks n) in
    let distinct : HasDistinctKeys r.tasks =
      subst (λ (table : Table). HasDistinctKeys table) (sym e)
        (save-HasDistinctKeys now c q.tasks k) in
    (
      ok,
      ap (load t.id) e ∙ load-save_self now c q.tasks,
      ap (λ i. load i (resume_interrupted restart (finish_task later is_cancelled w r)).1.tasks)
            (sym p)
          ∙ resume_interrupted-load restart (finish_task later is_cancelled w r) w.id
              (save-IsKeyed later x r.tasks named) (save-HasDistinctKeys later x r.tasks distinct)
          ∙ ap after_restart (load-save_self later x r.tasks)
          ∙ refl,
    )
