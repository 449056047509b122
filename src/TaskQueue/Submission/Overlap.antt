-- ===== src/TaskQueue/Submission/Overlap.antt =====
-- Calls of `submit` of app/task_queue.py that overlap. A call gives way to others at its awaits of
-- `_load` and `_save`: the read or write of the table is a step, and what follows is another.
use manus_claw.Prelude.{
  ℕ, String, Option, none, some, [], ◌∷◌, ◌≡◌, Dict, insert, string_eq, refl, true, inl, inr,
  Bool-cases, str_eq, update,
}
use manus_claw.TaskQueue.Entries.{TaskEntry, queued, Table, load, same_status}
use manus_claw.TaskQueue.Queue.{
  TaskQueue, submitted, type_error, Stage, loading, loaded, saving, saved, returned, prune, pruned,
  start_found, go_on, after_load, store, start_submit, remember, queued_only,
}

-- The calls go by number; `none` is a call that has not begun.
pub record Calls : Type 0 where
  pub queue : TaskQueue
  pub stage : ℕ → Option Stage

abbrev pub moved : ℕ → Calls → Stage × TaskQueue → Calls
moved i s (stage, q) = record { queue = q; stage = update s.stage i (some stage) }

module _ (hash : String → String) where
  unfoldable pub starts : ℕ → TaskEntry → Calls → Calls
  unfolding start_submit
  starts i t s = moved i s (start_submit hash t s.queue)

  unfoldable pub loads : ℕ → TaskEntry → String → Calls → Calls
  unfolding load
  loads i t id s = moved i s (loaded t (load id s.queue.tasks), s.queue)

  unfoldable pub resumes : ℕ → TaskEntry → Option TaskEntry → Calls → Calls
  unfolding after_load
  resumes i t found s = moved i s (after_load t found s.queue)

  unfoldable pub stores : ℕ → ℕ → TaskEntry → Calls → Calls
  unfolding store
  stores i now t s = moved i s (saved t, store now t s.queue)

  unfoldable pub remembers : ℕ → TaskEntry → Calls → Calls
  unfolding remember
  remembers i t s = moved i s (returned (submitted t), remember hash t s.queue)

  -- What other methods do to the table.
  unfoldable pub with_tasks : Table → Calls → Calls
  with_tasks tasks s = record s { queue = record s.queue { tasks = tasks } }

  pub data Step (s : Calls) : Calls → Type 0 where
    start_step : (i : ℕ) (t : TaskEntry) → s.stage i ≡ none → Step s (starts i t s)
    load_step :
        (i : ℕ) (t : TaskEntry) (id : String)
        → s.stage i ≡ some (loading t id)
        → Step s (loads i t id s)
    resume_step :
        (i : ℕ) (t : TaskEntry) (found : Option TaskEntry)
        → s.stage i ≡ some (loaded t found)
        → Step s (resumes i t found s)
    store_step :
        (i now : ℕ) (t : TaskEntry) → s.stage i ≡ some (saving t) → Step s (stores i now t s)
    remember_step : (i : ℕ) (t : TaskEntry) → s.stage i ≡ some (saved t) → Step s (remembers i t s)
    other_step : (tasks : Table) → Step s (with_tasks tasks s)

  pub data Reach (s : Calls) : Calls → Type 0 where
    here : Reach s s
    next : {t u : Calls} → Reach s t → Step t u → Reach s u

-- The call has not begun, or it looks for a duplicate, has raised the TypeError, or has returned a
-- queued task.
abbrev pub IsTurnedAway : Option Stage → Type 0
IsTurnedAway none = Unit
IsTurnedAway (some (loading t id)) = Unit
IsTurnedAway (some (loaded t found)) = Unit
IsTurnedAway (some (saving t)) = ⊥
IsTurnedAway (some (saved t)) = ⊥
IsTurnedAway (some (returned type_error)) = Unit
IsTurnedAway (some (returned (submitted t))) = same_status t.status queued ≡ true

-- A prompt is remembered.
abbrev pub IsRemembering : Dict String String → Type 0
IsRemembering [] = ⊥
IsRemembering (p ∷ recent) = Unit

-- The stage is one of a call that is turned away, and the prompts are as they were.
abbrev pub Rejects : Dict String String → Stage × TaskQueue → Type 0
Rejects recent (stage, q) = IsTurnedAway (some stage) × (q.recent_prompts ≡ recent)

prune-Rejects :
    (t : TaskEntry) (q : TaskQueue) (recent : Dict String String)
    → q.recent_prompts ≡ recent
    → IsRemembering recent
    → Rejects recent (prune t q (pruned recent))
unfolding prune pruned
prune-Rejects t q [] e h = absurd h
prune-Rejects t q (p ∷ recent) e h = (tt, e)

pub found-Rejects :
    (t : TaskEntry) (q : TaskQueue) (found : Option String)
    → IsRemembering q.recent_prompts
    → Rejects q.recent_prompts (start_found t q found)
unfolding start_found
found-Rejects t q none h = prune-Rejects t q q.recent_prompts refl h
found-Rejects t q (some id) h = elim (Bool-cases (str_eq id "")) [
  | inl e ↦ rw e (prune-Rejects t q q.recent_prompts refl h)
  | inr e ↦ rw e (tt, refl)
]

pub load-Rejects :
    (t : TaskEntry) (q : TaskQueue) (found : Option TaskEntry)
    → IsRemembering q.recent_prompts
    → Rejects q.recent_prompts (after_load t found q)
unfolding after_load go_on queued_only
load-Rejects t q none h = prune-Rejects t q q.recent_prompts refl h
load-Rejects t q (some u) h = elim (Bool-cases (same_status u.status queued)) [
  | inl e ↦ rw e (e, refl)
  | inr e ↦ rw e (prune-Rejects t q q.recent_prompts refl h)
]

pub insert-IsRemembering :
    (k v : String) (recent : Dict String String) → IsRemembering (insert k v recent)
unfolding insert
insert-IsRemembering k v [] = tt
insert-IsRemembering k v ((j, w) ∷ recent) = elim (Bool-cases (str_eq j k)) [
  | inl e ↦ rw e tt
  | inr e ↦ rw e tt
]
