-- ===== src/FifoLock/Exclusion.antt =====
-- Mutual exclusion and hand-over of `AsyncFIFOLock` (app/conversation/fifo_lock.py), and what a late
-- cancellation does to it.
use manus_claw.FifoLock.Invariant.{Owns, Inv, idle-Inv, Reach-Inv}
use manus_claw.FifoLock.AsyncLock.{
  Loop, idle_loop, Step, Reach, abort, enter, resume, cancel, waiting, inside, resolved, pending,
  here, next, enter_step, resume_step, cancel_step, abort_cancelled, abort_resolved, leave_step,
}
use manus_claw.Prelude.{ℕ, true, ◌≡◌, ◌≢◌, inl, inr, arith, elem, Bool-cases}

-- However the tasks are scheduled and cancelled, while one task is past `acquire`, no other task is.
pub async_mutual_exclusion :
    (s : Loop) (i j : ℕ) → Reach idle_loop s → s.place i ≡ inside → i ≢ j → s.place j ≢ inside
async_mutual_exclusion s i j r p other q = other ((Reach-Inv idle-Inv r).unique i j (inl p) (inl q))

-- In every reachable state a task that waits for a pending future is in the queue, and the lock is
-- held while it waits: no release leaves a waiter behind with the lock free.
pub async_no_lost_waiter :
    (s : Loop) (i : ℕ)
    → Reach idle_loop s
    → s.place i ≡ waiting
    → s.lock.future i ≡ pending
    → (elem i s.lock.waiters ≡ true) × (s.lock.held ≡ true)
async_no_lost_waiter s i r p f =
    let inv = Reach-Inv idle-Inv r in
    (
      inv.queued i (p, f),
      elim (Bool-cases s.lock.held) [ inl h ↦ h | inr free ↦ absurd (inv.handed i free (p, f)) ],
    )

-- The lock is held, and no task holds it or has been handed it.
abbrev pub IsAbandoned : Loop → Type 0
IsAbandoned s = (s.lock.held ≡ true) × ((i : ℕ) → ¬ Owns s i)

Step-IsAbandoned : {s t : Loop} → Step s t → IsAbandoned s → IsAbandoned t
unfolding enter resume cancel abort
Step-IsAbandoned {s} (enter_step i p) (held, free) = (ground arith, λ j o. grind (arith, free j))
Step-IsAbandoned {s} (resume_step i p f) (held, free) = absurd (free i (inr (p, f)))
Step-IsAbandoned {s} (cancel_step i p f) (held, free) = (held, λ j o. grind (arith, free j))
Step-IsAbandoned {s} (abort_cancelled i p f) (held, free) = (held, λ j o. grind (arith, free j))
Step-IsAbandoned {s} (abort_resolved i p f) (held, free) = absurd (free i (inr (p, f)))
Step-IsAbandoned {s} (leave_step i p) (held, free) = absurd (free i (inl p))

Reach-IsAbandoned : {s t : Loop} → IsAbandoned s → Reach s t → IsAbandoned t
Reach-IsAbandoned h here = h
Reach-IsAbandoned h (next r st) = Step-IsAbandoned st (Reach-IsAbandoned h r)

abandon :
    (s : Loop) (i : ℕ)
    → Inv s
    → s.place i ≡ waiting
    → s.lock.future i ≡ resolved
    → IsAbandoned (abort i s)
unfolding abort
abandon s i inv p f = (inv.owned i (inr (p, f)), λ j o. grind (arith, inv.unique i j (inr (p, f))))

-- A task that is cancelled after `release` handed it the lock, and before it ran again, takes the
-- lock with it: from then on no task ever gets past `acquire`, whatever happens.
pub cancelled_owner_leaks_lock :
    (s t : Loop) (i j : ℕ)
    → Reach idle_loop s
    → s.place i ≡ waiting
    → s.lock.future i ≡ resolved
    → Reach (abort i s) t
    → (t.lock.held ≡ true) × (t.place j ≢ inside)
cancelled_owner_leaks_lock s t i j r p f later =
    let inv = Reach-Inv idle-Inv r in
    let (held, free) = Reach-IsAbandoned (abandon s i inv p f) later in (held, λ q. free j (inl q))
