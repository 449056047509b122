-- ===== src/TaskQueue/Submission/Late.antt =====
-- The calls of `submit` of app/task_queue.py that begin after another has ended.
use mathlib.Core.Path.{subst}
use manus_claw.Prelude.{
  ℕ, String, none, some, ◌≡◌, sym, arith, inl, inr, Bool-cases, ◌==◌, update, lookup, string_eq,
  refl,
}
use manus_claw.TaskQueue.Entries.{load}
use manus_claw.TaskQueue.Queue.{
  TaskQueue, Stage, saving, saved, returned, submitted, start_submit, store, remember, after_load,
  loaded,
}
use manus_claw.TaskQueue.Submission.Overlap.{
  Calls, Step, Reach, here, next, starts, loads, resumes, stores, remembers, with_tasks, start_step,
  load_step, store_step, resume_step, remember_step, other_step, IsTurnedAway, IsRemembering,
  Rejects, found-Rejects, load-Rejects, insert-IsRemembering, moved,
}

abbrev IsLate : ℕ → Calls → Type 0
IsLate i s = IsRemembering s.queue.recent_prompts × IsTurnedAway (s.stage i)

-- A call that acts and is not turned away is another one.
other_call :
    (i j : ℕ) (s : Calls) (before after : Stage)
    → (IsTurnedAway (some before) → ⊥)
    → s.stage j ≡ some before
    → IsTurnedAway (s.stage i)
    → IsTurnedAway (update s.stage j (some after) i)
other_call i j s before after never e h = elim (Bool-cases (j == i)) [
  | inl same ↦
      (let p : j ≡ i = ground (arith, same) in
        absurd (never (subst IsTurnedAway e (subst (λ k. IsTurnedAway (s.stage k)) (sym p) h))))
  | inr apart ↦ rw apart h
]

moved-IsLate :
    (i j : ℕ) (s : Calls) (p : Stage × TaskQueue)
    → Rejects s.queue.recent_prompts p
    → IsLate i s
    → IsLate i (moved j s p)
moved-IsLate i j s (stage, q) (away, same) (h, late) = (
  subst IsRemembering (sym same) h,
  elim (Bool-cases (j == i)) [ inl e ↦ rw e away | inr e ↦ rw e late ],
)

module _ (hash : String → String) where
  Step-IsLate : (i : ℕ) (s t : Calls) → Step hash s t → IsLate i s → IsLate i t
  unfolding starts loads resumes stores remembers with_tasks start_submit store remember
  Step-IsLate i s _ (start_step j t e) late =
      moved-IsLate i j s (start_submit hash t s.queue)
        (found-Rejects t s.queue (lookup (hash t.prompt) s.queue.recent_prompts) late.0) late
  Step-IsLate i s _ (load_step j t id e) late =
      moved-IsLate i j s (loaded t (load id s.queue.tasks), s.queue) (tt, refl) late
  Step-IsLate i s _ (resume_step j t found e) late =
      moved-IsLate i j s (after_load t found s.queue) (load-Rejects t s.queue found late.0) late
  Step-IsLate i s _ (store_step j now t e) (h, late) =
      (h, other_call i j s (saving t) (saved t) (λ x. x) e late)
  Step-IsLate i s _ (remember_step j t e) (h, late) = (
    insert-IsRemembering (hash t.prompt) t.id s.queue.recent_prompts,
    other_call i j s (saved t) (returned (submitted t)) (λ x. x) e late,
  )
  Step-IsLate i s _ (other_step tasks) late = late

  -- However calls of `submit` overlap, with each other and with methods that change the table: once
  -- a prompt is remembered, a call that begins then never comes to store a task, and ends only by
  -- returning a queued task or raising the TypeError.
  pub late_call-IsTurnedAway :
      (i : ℕ) (s t : Calls)
      → IsRemembering s.queue.recent_prompts
      → s.stage i ≡ none
      → Reach hash s t
      → IsTurnedAway (t.stage i)
  late_call-IsTurnedAway i s t h e r = (all_late i s t (h, rw e tt) r).1
    where
      all_late : (i : ℕ) (s t : Calls) → IsLate i s → Reach hash s t → IsLate i t
      all_late i s _ late here = late
      all_late i s u late (next {t} r step) = Step-IsLate i t u step (all_late i s t late r)
