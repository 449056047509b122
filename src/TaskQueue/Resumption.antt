-- ===== src/TaskQueue/Resumption.antt =====
-- What `resume_interrupted` of app/task_queue.py makes of the tasks.
pub mod Cancelled
use mathlib.Core.Option.{some-injective}
use mathlib.Core.Path.{subst}
use manus_claw.Prelude.{
  ℕ, ◌+◌, Bool, true, false, String, Option, none, some, List, [], ◌∷◌, ◌≡◌, ◌≢◌, ◌⊎◌, inl, inr,
  refl, ap, sym, ◌∙◌, leb, if◌then◌else◌, Dict, lookup, lookup-insert_self, lookup-insert_ne,
  string_eq, HasDistinctKeys, str_eq, eq_iff, Bool-cases, Option-cases,
}
use manus_claw.TaskQueue.Entries.{
  TaskEntry, TaskStatus, queued, running, paused, completed, failed, cancelled, Row, Table, save,
  load, task_of, rows, newest_first, insert_row, with_status, tasks_of, list_tasks,
}
use manus_claw.TaskQueue.Selection.{AnyRow, AllRows, AllRows-map}
use manus_claw.TaskQueue.Queue.{TaskQueue}
use manus_claw.TaskQueue.Workers.{resume_status, resume_task, resume_each, resume_interrupted}
use manus_claw.TaskQueue.Rows.{IsKeyed, AllRows-newest, AnyRow-newest, rows_found, rows_among}

-- What becomes of a task: a running one is queued again while its retries last, a paused one always.
pub again : TaskStatus → TaskEntry → TaskEntry
again queued t = t
again running t =
    let n = t.retry_count + 1 in
    if leb n t.max_retries then record t { status = queued; retry_count = n } else record t {
      status = failed;
      retry_count = n;
      error = some "Max retries exceeded after multiple interruptions";
    }
again paused t = record t { status = queued }
again completed t = t
again failed t = t
again cancelled t = t

abbrev pub after_restart : Option TaskEntry → Option TaskEntry
after_restart none = none
after_restart (some t) = some (again t.status t)

pub load-save_self :
    (now : ℕ) (t : TaskEntry) (table : Table) → load t.id (save now t table) ≡ some t
unfolding load save
load-save_self now t table = ap task_of (lookup-insert_self t.id _ table) ∙ unfold task_of in refl

pub load-save_ne :
    (id : String) (now : ℕ) (t : TaskEntry) (table : Table)
    → t.id ≢ id
    → load id (save now t table) ≡ load id table
unfolding load save
load-save_ne id now t table ne = ap task_of (lookup-insert_ne id t.id _ table ne)

module _ (now : ℕ) (t : TaskEntry) where
  resume_status-other :
      (s : TaskStatus) (id : String) (table : Table)
      → t.id ≢ id
      → load id (resume_status s now t table) ≡ load id table
  unfolding resume_status
  resume_status-other queued id table ne = refl
  resume_status-other running id table ne =
      elim (Bool-cases (leb (t.retry_count + 1) t.max_retries)) [
        | inl more ↦ rw more (load-save_ne id now _ table ne)
        | inr enough ↦ rw enough (load-save_ne id now _ table ne)
      ]
  resume_status-other paused id table ne = load-save_ne id now _ table ne
  resume_status-other completed id table ne = refl
  resume_status-other failed id table ne = refl
  resume_status-other cancelled id table ne = refl

  -- The table has the task, as it was or as it becomes.
  resume_status_self :
      (s : TaskStatus) (table : Table)
      → (load t.id table ≡ some t) ⊎ (load t.id table ≡ some (again s t))
      → load t.id (resume_status s now t table) ≡ some (again s t)
  unfolding resume_status again
  resume_status_self queued table h = elim h [ inl e ↦ e | inr e ↦ e ]
  resume_status_self running table h = elim (Bool-cases (leb (t.retry_count + 1) t.max_retries)) [
    | inl more ↦ rw more (load-save_self now _ table)
    | inr enough ↦ rw enough (load-save_self now _ table)
  ]
  resume_status_self paused table h = load-save_self now _ table
  resume_status_self completed table h = elim h [ inl e ↦ e | inr e ↦ e ]
  resume_status_self failed table h = elim h [ inl e ↦ e | inr e ↦ e ]
  resume_status_self cancelled table h = elim h [ inl e ↦ e | inr e ↦ e ]

module _ (now : ℕ) (before : Table) where
  -- The list has tasks of the table, as the table has them.
  abbrev AreFound : List TaskEntry → Type 0
  AreFound [] = Unit
  AreFound (t ∷ ts) = (load t.id before ≡ some t) × AreFound ts

  abbrev IsAmong : String → List TaskEntry → Type 0
  IsAmong id [] = ⊥
  IsAmong id (t ∷ ts) = (t.id ≡ id) ⊎ IsAmong id ts

  -- Each task is as it was or as it becomes.
  abbrev IsUnderway : Table → Type 0
  IsUnderway table =
      (id : String)
      → (load id table ≡ load id before) ⊎ (load id table ≡ after_restart (load id before))

  abbrev IsDone : String → Table → Type 0
  IsDone id table = load id table ≡ after_restart (load id before)

  resume_task-IsDone :
      (t : TaskEntry) (table : Table)
      → load t.id before ≡ some t
      → IsUnderway table
      → IsDone t.id (resume_task now t table)
  unfolding resume_task
  resume_task-IsDone t table found u =
      resume_status_self now t t.status table
        (elim (u t.id) [ inl e ↦ inl (e ∙ found) | inr e ↦ inr (e ∙ ap after_restart found) ])
      ∙ sym (ap after_restart found)

  resume_task-cases :
      (t : TaskEntry) (table : Table) (id : String)
      → load t.id before ≡ some t
      → IsUnderway table
      → IsDone id (resume_task now t table) ⊎ (load id (resume_task now t table) ≡ load id table)
  resume_task-cases t table id found u = elim (Bool-cases (str_eq t.id id)) [
    | inl same ↦ inl (
        subst (λ i. IsDone i (resume_task now t table)) ((eq_iff t.id id).0 same)
          (resume_task-IsDone t table found u))
    | inr other ↦ inr (
        unfold resume_task in
        resume_status-other now t t.status id table
          (λ p. let e : true ≡ false = sym ((eq_iff t.id id).1 p) ∙ other in cc))
  ]

  resume_task-IsUnderway :
      (t : TaskEntry) (table : Table)
      → load t.id before ≡ some t
      → IsUnderway table
      → IsUnderway (resume_task now t table)
  resume_task-IsUnderway t table found u id = elim (resume_task-cases t table id found u) [
    | inl done ↦ inr done
    | inr same ↦ elim (u id) [ inl e ↦ inl (same ∙ e) | inr e ↦ inr (same ∙ e) ]
  ]

  resume_each-IsDone :
      (ts : List TaskEntry) (table : Table) (id : String)
      → AreFound ts
      → IsUnderway table
      → IsAmong id ts ⊎ IsDone id table
      → IsDone id (resume_each now ts table)
  unfolding resume_each
  resume_each-IsDone [] table id found u h = elim h [ inl none_left ↦ absurd none_left | inr d ↦ d ]
  resume_each-IsDone (t ∷ ts) table id (here, found) u h =
      resume_each-IsDone ts (resume_task now t table) id found
        (resume_task-IsUnderway t table here u)
        (elim h [
          | inl (inl p) ↦ inr (
              subst (λ i. IsDone i (resume_task now t table)) p (resume_task-IsDone t table here u))
          | inl (inr among) ↦ inl among
          | inr done ↦ elim (resume_task-cases t table id here u) [
            | inl now_done ↦ inr now_done
            | inr same ↦ inr (same ∙ done)
          ]
        ])

  -- A task that is not in the table does not come into it.
  resume_each-absent :
      (ts : List TaskEntry) (table : Table) (id : String)
      → AreFound ts
      → load id before ≡ none
      → load id (resume_each now ts table) ≡ load id table
  unfolding resume_each
  resume_each-absent [] table id found h = refl
  resume_each-absent (t ∷ ts) table id (here, found) h =
      resume_each-absent ts (resume_task now t table) id found h
      ∙ unfold resume_task in
        resume_status-other now t t.status id table (λ p.
          let e : ◌≡◌ {A = Option TaskEntry} (some t) none =
            sym here ∙ ap (λ i. load i before) p ∙ h in
          cc)

  AreFound-tasks_of :
      (rs : List Row) → AllRows (λ r. lookup r.task.id before ≡ some r) rs → AreFound (tasks_of rs)
  unfolding tasks_of load
  AreFound-tasks_of [] all = tt
  AreFound-tasks_of (r ∷ rs) (p, all) =
      (ap task_of p ∙ unfold task_of in refl, AreFound-tasks_of rs all)

  IsAmong-tasks_of :
      (id : String) (rs : List Row) → AnyRow (λ r. r.task.id ≡ id) rs → IsAmong id (tasks_of rs)
  unfolding tasks_of
  IsAmong-tasks_of id [] any = any
  IsAmong-tasks_of id (r ∷ rs) any = elim any [
    | inl p ↦ inl p
    | inr rest ↦ inr (IsAmong-tasks_of id rs rest)
  ]

load-none : (id : String) (table : Table) → lookup id table ≡ none → load id table ≡ none
unfolding load
load-none id table h = ap task_of h ∙ unfold task_of in refl

-- In a table in which every row stands under its task's id, and no id twice, `resume_interrupted`
-- leaves under each id what `again` makes of the task that it found there: a running task is
-- queued for one more try, or fails when it has had its retries, a paused one is queued, and any
-- other stays as it is.
pub resume_interrupted-load :
    (now : ℕ) (q : TaskQueue) (id : String)
    → IsKeyed q.tasks
    → HasDistinctKeys q.tasks
    → load id (resume_interrupted now q).1.tasks ≡ after_restart (load id q.tasks)
unfolding resume_interrupted list_tasks with_status
resume_interrupted-load now q id n k =
    let rs = rows q.tasks in
    let found =
      AreFound-tasks_of now q.tasks (newest_first rs)
        (AllRows-newest _ rs (rows_found q.tasks n k)) in
    elim (Option-cases (lookup id q.tasks)) [
      | inl missing ↦
          let gone = load-none id q.tasks missing in
          resume_each-absent now q.tasks (tasks_of (newest_first rs)) q.tasks id found gone
          ∙ gone
          ∙ ap after_restart (sym gone)
      | inr (r, h) ↦
          resume_each-IsDone now q.tasks (tasks_of (newest_first rs)) q.tasks id found
            (λ i. inl refl)
            (inl (
              IsAmong-tasks_of now q.tasks id (newest_first rs)
                (AnyRow-newest _ rs (rows_among id r q.tasks n h))))
    ]
