-- ===== src/ResourceLock/Manager.antt =====
-- `ResourceLockManager` of app/parallel_executor/resource_lock.py, as one thread runs it. A lock
-- object goes by its key in the registry, which never drops a lock. What other threads do shows in
-- `wakes`: for each attempt and key, the states in which the waiting thread finds that lock. `digest`
-- is that of `lock_key`.
pub mod Modes
pub mod Restore
pub mod Scope
pub mod Leak
pub mod RoundTrip
pub mod Info
use manus_claw.Prelude.{
  text_leb, ℕ, zero, suc, Bool, true, false, ◌||◌, String, Option, none, some, List, [], ◌∷◌, ltb,
  snoc, reverse, if◌then◌else◌, Dict, string_eq, lookup, lookup_or, insert,
}
use manus_claw.ResourceLock.RwLock.{
  RwLock, fresh, acquire_read, acquire_write, release_read, release_write, is_write_locked,
  reader_count,
}
use manus_claw.ResourceLock.Declared.{
  AccessMode, read, write, ResourceDeclaration, lock_key, is_empty,
}

abbrev pub Locks : Type 0
Locks = Dict String RwLock

-- The locks that a call has acquired, in order, each with its mode.
abbrev pub Acquired : Type 0
Acquired = List (String × AccessMode)

unfoldable pub found_or_new : String → Locks → Option RwLock → RwLock × Locks
unfolding insert
found_or_new key locks none = (fresh, insert key fresh locks)
found_or_new key locks (some lock) = (lock, locks)

unfoldable pub get_or_create_lock : String → Locks → RwLock × Locks
unfolding lookup found_or_new
get_or_create_lock key locks = found_or_new key locks (lookup key locks)

unfoldable pub acquire_mode : AccessMode → ℕ → List RwLock → RwLock → Bool × RwLock
acquire_mode read thread wakes lock = acquire_read thread wakes lock
acquire_mode write thread wakes lock = acquire_write thread wakes lock

unfoldable pub release_mode : AccessMode → ℕ → RwLock → Option RwLock
release_mode read thread lock = release_read thread lock
release_mode write thread lock = release_write thread lock

-- The lock after a release; a RuntimeError is swallowed and leaves it as it is.
abbrev pub after_release : RwLock → Option RwLock → RwLock
after_release lock none = lock
after_release lock (some l) = l

unfoldable pub release_one : ℕ → String × AccessMode → Locks → Locks
unfolding lookup_or insert release_mode
release_one thread (key, mode) locks =
    let lock = lookup_or fresh key locks in
    insert key (after_release lock (release_mode mode thread lock)) locks

-- `while acquired: acquired.pop() …`, on the reversed list.
unfoldable pub release_from_last : ℕ → Acquired → Locks → Locks
unfolding release_one
release_from_last thread [] locks = locks
release_from_last thread (a ∷ acquired) locks =
    release_from_last thread acquired (release_one thread a locks)

unfoldable pub release_all : ℕ → Acquired → Locks → Locks
unfolding release_from_last
release_all thread acquired locks = release_from_last thread (reverse acquired) locks

-- What an attempt leaves: whether it got every lock, the registry, and what it acquired.
pub record Attempt : Type 0 where
  pub success : Bool
  pub locks : Locks
  pub acquired : Acquired

-- `ResourceLockHandle`
pub record Handle : Type 0 where
  pub acquired : Acquired
  pub released : Bool

unfoldable pub handle_of : Attempt → Option Handle × Locks
handle_of attempt =
    if attempt.success
    then (some (record { acquired = attempt.acquired; released = false }), attempt.locks)
    else (none, attempt.locks)

module _ (digest : String → String) (thread : ℕ) where
  insert_in : ResourceDeclaration → List ResourceDeclaration → List ResourceDeclaration
  insert_in d [] = d ∷ []
  insert_in d (e ∷ es) =
      let rest = insert_in d es in
      if text_leb (lock_key digest d) (lock_key digest e) then d ∷ e ∷ es else e ∷ rest

  -- `sorted(declarations, key=lambda d: d.lock_key)`, which is stable.
  unfoldable pub sorted : List ResourceDeclaration → List ResourceDeclaration
  unfolding insert_in
  sorted [] = []
  sorted (d ∷ ds) = insert_in d (sorted ds)

  -- One round of the inner `for`: whether the lock was got, and the registry after it.
  unfoldable pub acquire_one : (String → List RwLock) → ResourceDeclaration → Locks → Bool × Locks
  unfolding get_or_create_lock acquire_mode
  acquire_one wakes d locks =
      let key = lock_key digest d in
      let (lock, locks') = get_or_create_lock key locks in
      let (got, lock') = acquire_mode d.mode thread (wakes key) lock in
      (got, insert key lock' locks')

  -- The inner `for` of `_acquire_all`, which is also the loop of `_try_acquire_all`.
  unfoldable pub acquire_each :
      (String → List RwLock) → List ResourceDeclaration → Locks → Acquired → Attempt
  unfolding acquire_one
  acquire_each wakes [] locks acquired = record {
    success = true;
    locks = locks;
    acquired = acquired;
  }
  acquire_each wakes (d ∷ ds) locks acquired =
      let (got, locks') = acquire_one wakes d locks in
      let rest = acquire_each wakes ds locks' (snoc acquired (lock_key digest d, d.mode)) in
      if got then rest else record { success = false; locks = locks'; acquired = acquired }

  -- `_acquire_all` with `left` attempts to go; `success` false is the DeadlockDetectedError, with
  -- what the last attempt has acquired.
  unfoldable pub acquire_all :
      ℕ → (ℕ → String → List RwLock) → List ResourceDeclaration → Locks → Acquired → Attempt
  unfolding acquire_each release_all
  acquire_all zero wakes ds locks acquired = record {
    success = false;
    locks = locks;
    acquired = acquired;
  }
  acquire_all (suc left) wakes ds locks acquired =
      let attempt = acquire_each (wakes left) ds (release_all thread acquired locks) [] in
      let again = acquire_all left wakes ds attempt.locks attempt.acquired in
      if attempt.success then attempt else again

  -- `with manager.acquire_resources(declarations): body`. `none` is the DeadlockDetectedError; an
  -- exception of the body is among its results.
  unfoldable pub acquire_resources {ℓ} :
      {B : Type ℓ}
      → ℕ
      → (ℕ → String → List RwLock)
      → List ResourceDeclaration
      → (Locks → B × Locks)
      → Locks
      → Option B × Locks
  unfolding acquire_all sorted is_empty
  acquire_resources retry_count wakes ds body locks =
      let attempt = acquire_all retry_count wakes (sorted ds) locks [] in
      let (plain, plain_locks) = body locks in
      let (result, locks') = body attempt.locks in
      if is_empty ds
      then (some plain, plain_locks)
      else if attempt.success
      then (some result, release_all thread attempt.acquired locks')
      else (none, release_all thread attempt.acquired attempt.locks)

  unfoldable pub try_acquire_resources :
      (String → List RwLock) → List ResourceDeclaration → Locks → Bool × Locks
  unfolding acquire_each sorted is_empty release_all
  try_acquire_resources wakes ds locks =
      let attempt = acquire_each wakes (sorted ds) locks [] in
      if is_empty ds
      then (true, locks)
      else (attempt.success, release_all thread attempt.acquired attempt.locks)

  -- `acquire_resources_explicit`: without a handle it raised the DeadlockDetectedError.
  unfoldable pub acquire_resources_explicit :
      ℕ → (ℕ → String → List RwLock) → List ResourceDeclaration → Locks → Option Handle × Locks
  unfolding handle_of is_empty
  acquire_resources_explicit retry_count wakes ds locks =
      let attempt = acquire_all retry_count wakes (sorted ds) locks [] in
      if is_empty ds
      then (some (record { acquired = []; released = false }), locks)
      else handle_of attempt

  unfoldable pub release_resources : Handle → Locks → Handle × Locks
  unfolding release_all
  release_resources handle locks =
      if handle.released
      then (handle, locks)
      else (record { acquired = []; released = true }, release_all thread handle.acquired locks)

unfoldable pub is_held : Option RwLock → Bool
unfolding is_write_locked reader_count
is_held none = false
is_held (some lock) = is_write_locked lock || ltb 0 (reader_count lock)

unfoldable pub is_resource_locked : String → Locks → Bool
unfolding lookup is_held
is_resource_locked key locks = is_held (lookup key locks)
