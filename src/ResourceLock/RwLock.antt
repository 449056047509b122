-- ===== src/ResourceLock/RwLock.antt =====
-- `_ResourceRWLock` of app/parallel_executor/resource_lock.py. Each body of a `with self._cond`
-- is atomic but for its waits. `wakes` lists the states in which a waiting thread finds the lock when
-- it is notified before its deadline; when it ends, the deadline has passed.
pub mod Threads
pub mod Exclusion
use manus_claw.Prelude.{
  ℕ, ◌+◌, ◌-◌, Bool, true, false, ◌||◌, Option, none, some, List, [], ◌∷◌, ltb, leb, ◌==◌,
  if◌then◌else◌, Dict, nat_eq, lookup_or, insert, remove,
}

pub record RwLock : Type 0 where
  pub readers : ℕ
  pub writer : Option ℕ
  pub reader_threads : Dict ℕ ℕ

-- `_ResourceRWLock(key)`
abbrev pub fresh : RwLock
fresh = record { readers = 0; writer = none; reader_threads = [] }

-- `self._writer is not None`
abbrev pub has_writer : RwLock → Bool
has_writer lock = elim lock.writer [ none ↦ false | some _ ↦ true ]

unfoldable pub grant_read : ℕ → RwLock → RwLock
unfolding insert lookup_or
grant_read thread lock = record lock {
  readers = lock.readers + 1;
  reader_threads = insert thread (lookup_or 0 thread lock.reader_threads + 1) lock.reader_threads;
}

unfoldable pub grant_write : ℕ → RwLock → RwLock
grant_write thread lock = record lock { writer = some thread }

-- `while self._readers > 0 or self._writer is not None`
unfoldable pub is_busy : RwLock → Bool
is_busy lock = ltb 0 lock.readers || has_writer lock

unfoldable pub acquire_read : ℕ → List RwLock → RwLock → Bool × RwLock
unfolding grant_read
acquire_read thread [] lock =
    if has_writer lock then (false, lock) else (true, grant_read thread lock)
acquire_read thread (found ∷ wakes) lock =
    let again = acquire_read thread wakes found in
    if has_writer lock then again else (true, grant_read thread lock)

unfoldable pub acquire_write : ℕ → List RwLock → RwLock → Bool × RwLock
unfolding grant_write is_busy
acquire_write thread [] lock =
    if is_busy lock then (false, lock) else (true, grant_write thread lock)
acquire_write thread (found ∷ wakes) lock =
    let again = acquire_write thread wakes found in
    if is_busy lock then again else (true, grant_write thread lock)

-- `none` is the RuntimeError of a release without a reader.
unfoldable pub release_read : ℕ → RwLock → Option RwLock
unfolding insert remove lookup_or
release_read thread lock =
    let count = lookup_or 0 thread lock.reader_threads in
    if leb lock.readers 0
    then none
    else some (record lock {
      readers = lock.readers - 1;
      reader_threads =
          if leb count 1
          then remove thread lock.reader_threads
          else insert thread (count - 1) lock.reader_threads;
    })

-- `none` is the RuntimeError of a release without a writer, or by another thread than the writer.
release_owned : ℕ → Option ℕ → RwLock → Option RwLock
release_owned thread none lock = none
release_owned thread (some owner) lock =
    if owner == thread then some (record lock { writer = none }) else none

unfoldable pub release_write : ℕ → RwLock → Option RwLock
unfolding release_owned
release_write thread lock = release_owned thread lock.writer lock

unfoldable pub is_write_locked : RwLock → Bool
is_write_locked lock = has_writer lock

unfoldable pub reader_count : RwLock → ℕ
reader_count lock = lock.readers
