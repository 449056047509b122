-- ===== src/ResourceLock/RwLock/Threads.antt =====
-- Threads that share one `_ResourceRWLock` of app/parallel_executor/resource_lock.py. Each knows
-- how many READ locks it holds, and whether it holds the WRITE lock. A step is one pass through an
-- `acquire` that does not wait, or a release by a thread that holds the lock; a thread that waits
-- tries again in a later step.
use manus_claw.Prelude.{
  ℕ, ◌+◌, ◌-◌, ◌<◌, ◌≡◌, Bool, true, false, Option, none, some, [], if◌then◌else◌, update,
}
use manus_claw.ResourceLock.RwLock.{
  RwLock, fresh, acquire_read, acquire_write, release_read, release_write,
}

pub record Threads : Type 0 where
  pub lock : RwLock
  pub reads : ℕ → ℕ
  pub writes : ℕ → Bool

abbrev pub idle_threads : Threads
idle_threads = record { lock = fresh; reads = λ _. 0; writes = λ _. false }

abbrev read_result : ℕ → Threads → Bool × RwLock → Threads
read_result i s (got, lock) = record s {
  lock = lock;
  reads = update s.reads i (if got then s.reads i + 1 else s.reads i);
}

abbrev write_result : ℕ → Threads → Bool × RwLock → Threads
write_result i s (got, lock) = record s {
  lock = lock;
  writes = update s.writes i (if got then true else s.writes i);
}

abbrev lock_or : RwLock → Option RwLock → RwLock
lock_or lock none = lock
lock_or lock (some l) = l

unfoldable pub try_read : ℕ → Threads → Threads
unfolding acquire_read
try_read i s = read_result i s (acquire_read i [] s.lock)

unfoldable pub try_write : ℕ → Threads → Threads
unfolding acquire_write
try_write i s = write_result i s (acquire_write i [] s.lock)

unfoldable pub end_read : ℕ → Threads → Threads
unfolding release_read
end_read i s = record s {
  lock = lock_or s.lock (release_read i s.lock);
  reads = update s.reads i (s.reads i - 1);
}

unfoldable pub end_write : ℕ → Threads → Threads
unfolding release_write
end_write i s = record s {
  lock = lock_or s.lock (release_write i s.lock);
  writes = update s.writes i false;
}

pub data Step (s : Threads) : Threads → Type 0 where
  try_read_step : (i : ℕ) → Step s (try_read i s)
  try_write_step : (i : ℕ) → Step s (try_write i s)
  end_read_step : (i : ℕ) → 0 < s.reads i → Step s (end_read i s)
  end_write_step : (i : ℕ) → s.writes i ≡ true → Step s (end_write i s)

pub data Reach (s : Threads) : Threads → Type 0 where
  here : Reach s s
  next : {t u : Threads} → Reach s t → Step t u → Reach s u
