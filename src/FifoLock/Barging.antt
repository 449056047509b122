-- ===== src/FifoLock/Barging.antt =====
-- What `FIFOLock` (app/conversation/fifo_lock.py) keeps, and what it does not: between `release`
-- and the last block of the next waiter's `acquire` the lock counts as free.
use manus_claw.Prelude.{ℕ, true, ◌≡◌, ◌≢◌, List, ◌∷◌, arith}
use manus_claw.FifoLock.ThreadLock.{
  Threads, outside, waiting, inside, Reach, here, next, enter_step, wake_step, finish_step,
  leave_step, enter, leave, wake, finish,
}

-- The schedule: the owner releases, a newcomer takes the fast path, the signalled waiter goes on.
abbrev pub barge : ℕ → ℕ → ℕ → Threads → Threads
barge owner newcomer waiter s = finish waiter (wake waiter (enter newcomer (leave owner s)))

-- Whenever a thread holds the lock, another waits at the head of the queue and a third is outside,
-- the lock can come to be held by the waiter and the newcomer together.
pub two_threads_inside :
    (s : Threads) (owner newcomer waiter : ℕ) (waiters : List ℕ)
    → s.lock.held ≡ true
    → s.lock.waiters ≡ waiter ∷ waiters
    → s.place owner ≡ inside
    → s.place newcomer ≡ outside
    → s.place waiter ≡ waiting
    → let t = barge owner newcomer waiter s in
      Reach s t × (t.place newcomer ≡ inside) × (t.place waiter ≡ inside) × (newcomer ≢ waiter)
unfolding leave enter wake finish
two_threads_inside s owner newcomer waiter waiters held queue o n w = (
  next
      (next (next (next here (leave_step owner o)) (enter_step newcomer (ground arith)))
        (wake_step waiter (ground (arith, differ)) (ground arith)))
      (finish_step waiter (ground (arith, differ))),
  ground (arith, differ),
  ground (arith, differ),
  differ,
)
  where
    differ : newcomer ≢ waiter
    differ e = ground arith
