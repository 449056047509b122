-- ===== src/FifoLock/ThreadLock.antt =====
-- `FIFOLock` of app/conversation/fifo_lock.py, and the threads that use it. A thread waits on one
-- event at a time, so an event goes by the number of its thread; a new one starts unset. The body
-- of each `with self._lock` is one step.
use manus_claw.Prelude.{
  ℕ, Bool, true, false, Option, none, some, List, [], ◌∷◌, ◌≡◌, if◌then◌else◌, snoc, erase, elem,
  update, length,
}

pub record Lock : Type 0 where
  pub waiters : List ℕ
  pub held : Bool
  pub owner : Option ℕ
  pub hold_count : ℕ
  pub is_set : ℕ → Bool

abbrev pub new_lock : Lock
new_lock = record { waiters = []; held = false; owner = none; hold_count = 0; is_set = λ _. false }

-- The last three assignments of `acquire`, and those of its fast path.
unfoldable pub take : ℕ → Lock → Lock
take thread lock = record lock { held = true; owner = some thread; hold_count = 1 }

-- The first `with` block of `acquire`; true is the fast path.
unfoldable pub acquire : ℕ → Lock → Bool × Lock
unfolding take
acquire thread lock =
    if lock.held
    then (
      false,
      record lock { waiters = snoc lock.waiters thread; is_set = update lock.is_set thread false },
    )
    else (true, take thread lock)

-- After a timeout: true if the event was dequeued before, so that the lock is acquired after all.
unfoldable pub withdraw : ℕ → Lock → Bool × Lock
withdraw thread lock =
    if elem thread lock.waiters
    then (false, record lock { waiters = erase thread lock.waiters })
    else (true, lock)

-- `popleft` and `set`, if there is a waiter.
unfoldable pub signal_next : List ℕ → Lock → Lock
signal_next [] lock = lock
signal_next (next ∷ waiters) lock = record lock {
  waiters = waiters;
  is_set = update lock.is_set next true;
}

-- `none` is the RuntimeError of a release of an unheld lock.
unfoldable pub release : Lock → Option Lock
unfolding signal_next
release lock =
    if lock.held
    then some
        (signal_next lock.waiters (record lock { held = false; owner = none; hold_count = 0 }))
    else none

unfoldable pub locked : Lock → Bool
locked lock = lock.held

unfoldable pub waiting_count : Lock → ℕ
waiting_count lock = length lock.waiters

-- Where a thread stands: outside, in `event.wait`, past a timed-out wait, on the way to the last
-- block of `acquire`, or past `acquire`.
pub data Place : Type 0 where
  outside waiting timed_out granted inside : Place

pub record Threads : Type 0 where
  pub lock : Lock
  pub place : ℕ → Place

abbrev pub idle_threads : Threads
idle_threads = record { lock = new_lock; place = λ _. outside }

abbrev entered : ℕ → Threads → Bool × Lock → Threads
entered i s (fast, lock) = record {
  lock = lock;
  place = update s.place i (if fast then inside else waiting);
}

abbrev withdrawn : ℕ → Threads → Bool × Lock → Threads
withdrawn i s (acquired, lock) = record {
  lock = lock;
  place = update s.place i (if acquired then granted else outside);
}

-- After `release`; the RuntimeError leaves the lock as it is.
abbrev left : ℕ → Threads → Option Lock → Threads
left i s none = record s { place = update s.place i outside }
left i s (some lock) = record { lock = lock; place = update s.place i outside }

unfoldable pub enter : ℕ → Threads → Threads
unfolding acquire
enter i s = entered i s (acquire i s.lock)

unfoldable pub wake : ℕ → Threads → Threads
wake i s = record s { place = update s.place i granted }

unfoldable pub expire : ℕ → Threads → Threads
expire i s = record s { place = update s.place i timed_out }

unfoldable pub give_up : ℕ → Threads → Threads
unfolding withdraw
give_up i s = withdrawn i s (withdraw i s.lock)

unfoldable pub finish : ℕ → Threads → Threads
unfolding take
finish i s = record { lock = take i s.lock; place = update s.place i inside }

unfoldable pub leave : ℕ → Threads → Threads
unfolding release
leave i s = left i s (release s.lock)

pub data Step (s : Threads) : Threads → Type 0 where
  enter_step : (i : ℕ) → s.place i ≡ outside → Step s (enter i s)
  wake_step : (i : ℕ) → s.place i ≡ waiting → s.lock.is_set i ≡ true → Step s (wake i s)
  expire_step : (i : ℕ) → s.place i ≡ waiting → Step s (expire i s)
  give_up_step : (i : ℕ) → s.place i ≡ timed_out → Step s (give_up i s)
  finish_step : (i : ℕ) → s.place i ≡ granted → Step s (finish i s)
  leave_step : (i : ℕ) → s.place i ≡ inside → Step s (leave i s)

pub data Reach (s : Threads) : Threads → Type 0 where
  here : Reach s s
  next : {t u : Threads} → Reach s t → Step t u → Reach s u
