-- ===== src/TaskQueue/Submission/Alone.antt =====
-- The model of `submit` of app/task_queue.py as one step, against its parts.
use manus_claw.Prelude.{
  ℕ, String, Option, none, some, [], ◌∷◌, ◌≡◌, ap, arith, string_eq, Dict, Bool-cases, str_eq, inl,
  ==_refl, lookup, inr, refl,
}
use manus_claw.TaskQueue.Entries.{TaskEntry, TaskPriority, load}
use manus_claw.TaskQueue.Queue.{
  TaskQueue, Submitted, Stage, returned, store, remember, prune, pruned, go_on, submit_new,
  submit_unless, submit, start_found, after_load, duplicate_of, loading, start_submit, queued_only,
  new_task,
}
use manus_claw.TaskQueue.Submission.Overlap.{
  Calls, Reach, here, next, stores, remembers, store_step, resume_step, remember_step, loads,
  resumes, starts, start_step, load_step,
}

module _ (hash : String → String) (i now : ℕ) (t : TaskEntry) where
  -- Steps lead from the calls to a state in which the call has returned, with the queue given.
  abbrev Ends : Calls → Submitted × TaskQueue → Type 0
  Ends s (result, q) =
      (u : Calls) × Reach hash s u × (u.stage i ≡ some (returned result)) × (u.queue ≡ q)

  -- The call is at the stage, with the queue.
  abbrev IsAt : Calls → Stage × TaskQueue → Type 0
  IsAt s (stage, q) = (s.stage i ≡ some stage) × (s.queue ≡ q)

  prune-Ends :
      (s : Calls) (q : TaskQueue) (recent : Dict String String)
      → IsAt s (prune t q (pruned recent))
      → Ends s (submit_new hash now t q (pruned recent))
  unfolding prune pruned submit_new stores remembers
  prune-Ends s q [] (stage, same) =
      let saved_calls = stores hash i now t s in
      (
        remembers hash i t saved_calls,
        next (next here (store_step i now t stage)) (remember_step i t (ground arith)),
        ground arith,
        ap (λ r. remember hash t (store now t r)) same,
      )
  prune-Ends s q (p ∷ recent) (stage, same) = (s, here, stage, same)

  go_on-Ends :
      (s : Calls) (q : TaskQueue) (found : Option TaskEntry)
      → IsAt s (go_on t q found)
      → Ends s (submit_unless hash now t q found)
  unfolding go_on submit_unless
  go_on-Ends s q none at = prune-Ends s q q.recent_prompts at
  go_on-Ends s q (some existing) (stage, same) = (s, here, stage, same)

  after : {s u v : Calls} → Reach hash s u → Reach hash u v → Reach hash s v
  after r here = r
  after r (next r' step) = next (after r r') step

  load-Ends :
      (s : Calls) (q : TaskQueue) (id : String)
      → IsAt s (loading t id, q)
      → Ends s (submit_unless hash now t q (queued_only (load id q.tasks)))
  unfolding loads resumes after_load
  load-Ends s q id (stage, same) =
      let found = load id s.queue.tasks in
      let read = loads hash i t id s in
      let result = λ (r : TaskQueue). go_on t r (queued_only (load id r.tasks)) in
      let (u, r, stage', same') =
        go_on-Ends (resumes hash i t found read) q (queued_only (load id q.tasks))
          (rw (==_refl i) (ap (λ r. some (result r).0) same), ap (λ r. (result r).1) same) in
      (
        u,
        after
            (next (next here (load_step i t id stage))
              (resume_step i t found (rw (==_refl i) refl)))
            r,
        stage',
        same',
      )

  found-Ends :
      (s : Calls) (q : TaskQueue) (found : Option String)
      → IsAt s (start_found t q found)
      → Ends s (submit_unless hash now t q (duplicate_of found q.tasks))
  unfolding start_found duplicate_of submit_unless
  found-Ends s q none at = prune-Ends s q q.recent_prompts at
  found-Ends s q (some id) at = elim (Bool-cases (str_eq id "")) [
    | inl e ↦ rw e (prune-Ends s q q.recent_prompts (rw e at at))
    | inr e ↦ rw e (load-Ends s q id (rw e at at))
  ]

-- A call that begins and runs on with no other call between its parts ends as `submit` says.
submit-Ends :
    (hash : String → String) (i now : ℕ) (id prompt : String) (priority : TaskPriority) (s : Calls)
    → s.stage i ≡ none
    → Ends hash i now (new_task id prompt priority) s (submit hash now id prompt priority s.queue)
unfolding submit starts start_submit new_task
submit-Ends hash i now id prompt priority s idle =
    let t = new_task id prompt priority in
    let begun = starts hash i t s in
    let (u, r, stage, same) =
      found-Ends hash i now t begun s.queue (lookup (hash prompt) s.queue.recent_prompts)
        (rw (==_refl i) refl, refl) in
    (u, after hash i now t (next here (start_step i t idle)) r, stage, same)
