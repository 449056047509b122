-- ===== src/FifoLock/AsyncLock.antt =====
-- `AsyncFIFOLock` of app/conversation/fifo_lock.py, and its tasks on one event loop. A task awaits
-- one future at a time, so a future goes by the number of its task; a new one starts pending.
use manus_claw.Prelude.{
  ℕ, Bool, true, false, Option, none, some, List, [], ◌∷◌, ◌≡◌, if◌then◌else◌, snoc, erase, update,
  length,
}

pub data FutureState : Type 0 where
  pending resolved cancelled : FutureState

pub record AsyncLock : Type 0 where
  pub waiters : List ℕ
  pub held : Bool
  pub future : ℕ → FutureState

abbrev pub new_lock : AsyncLock
new_lock = record { waiters = []; held = false; future = λ _. pending }

-- `acquire` up to its first `await`; true is the fast path.
unfoldable pub acquire : ℕ → AsyncLock → Bool × AsyncLock
acquire task lock =
    if lock.held
    then (
      false,
      record lock { waiters = snoc lock.waiters task; future = update lock.future task pending },
    )
    else (true, record lock { held = true })

-- `future.done()`
abbrev pub is_done : FutureState → Bool
is_done pending = false
is_done _ = true

-- The `while self._waiters` loop of `release`, entered with the lock marked free.
unfoldable pub grant_next : List ℕ → (ℕ → FutureState) → AsyncLock
grant_next [] future = record { waiters = []; held = false; future = future }
grant_next (next ∷ waiters) future =
    let skipped = grant_next waiters future in
    if is_done (future next)
    then skipped
    else record { waiters = waiters; held = true; future = update future next resolved }

-- `none` is the RuntimeError of a release of an unheld lock.
unfoldable pub release : AsyncLock → Option AsyncLock
unfolding grant_next
release lock = if lock.held then some (grant_next lock.waiters lock.future) else none

unfoldable pub remove_from_queue : ℕ → AsyncLock → AsyncLock
remove_from_queue task lock = record lock { waiters = erase task lock.waiters }

unfoldable pub locked : AsyncLock → Bool
locked lock = lock.held

unfoldable pub waiting_count : AsyncLock → ℕ
waiting_count lock = length lock.waiters

-- Where a task stands: outside of the lock, at the `await` of `acquire`, or past it.
pub data Place : Type 0 where
  outside waiting inside : Place

pub record Loop : Type 0 where
  pub lock : AsyncLock
  pub place : ℕ → Place

abbrev pub idle_loop : Loop
idle_loop = record { lock = new_lock; place = λ _. outside }

abbrev entered : ℕ → Loop → Bool × AsyncLock → Loop
entered i s (fast, lock) = record {
  lock = lock;
  place = update s.place i (if fast then inside else waiting);
}

-- After `release`; the RuntimeError leaves the lock as it is.
abbrev left : ℕ → Loop → Option AsyncLock → Loop
left i s none = record s { place = update s.place i outside }
left i s (some lock) = record { lock = lock; place = update s.place i outside }

unfoldable pub enter : ℕ → Loop → Loop
unfolding acquire
enter i s = entered i s (acquire i s.lock)

unfoldable pub leave : ℕ → Loop → Loop
unfolding release
leave i s = left i s (release s.lock)

unfoldable pub resume : ℕ → Loop → Loop
resume i s = record s { place = update s.place i inside }

-- `task.cancel()` on a task that awaits a pending future cancels that future.
unfoldable pub cancel : ℕ → Loop → Loop
cancel i s = record s { lock = record s.lock { future = update s.lock.future i cancelled } }

-- The `except asyncio.CancelledError` of `acquire`.
unfoldable pub abort : ℕ → Loop → Loop
unfolding remove_from_queue
abort i s = record { lock = remove_from_queue i s.lock; place = update s.place i outside }

-- One step of one task. `CancelledError` arrives at the `await` of a task whose future was
-- cancelled (`abort_cancelled`), and also of one that was cancelled after `release` had resolved its
-- future but before it ran again (`abort_resolved`).
pub data Step (s : Loop) : Loop → Type 0 where
  enter_step : (i : ℕ) → s.place i ≡ outside → Step s (enter i s)
  resume_step : (i : ℕ) → s.place i ≡ waiting → s.lock.future i ≡ resolved → Step s (resume i s)
  cancel_step : (i : ℕ) → s.place i ≡ waiting → s.lock.future i ≡ pending → Step s (cancel i s)
  abort_cancelled : (i : ℕ) → s.place i ≡ waiting → s.lock.future i ≡ cancelled → Step s (abort i s)
  abort_resolved : (i : ℕ) → s.place i ≡ waiting → s.lock.future i ≡ resolved → Step s (abort i s)
  leave_step : (i : ℕ) → s.place i ≡ inside → Step s (leave i s)

pub data Reach (s : Loop) : Loop → Type 0 where
  here : Reach s s
  next : {t u : Loop} → Reach s t → Step t u → Reach s u
