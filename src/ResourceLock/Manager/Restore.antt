-- ===== src/ResourceLock/Manager/Restore.antt =====
-- What app/parallel_executor/resource_lock.py acquires it gives back: while no other thread acts, a
-- `with` statement leaves every lock as it found it.
use manus_claw.Prelude.{
  ℕ, ◌≡◌, sym, ◌∙◌, ap, true, false, String, List, [], ◌∷◌, inl, inr, arith, Option-cases, lookup,
  lookup_or, lookup_or-insert, string_eq, str_eq, eq_iff, if◌then◌else◌, lookup_or-some,
  lookup_or-none, eq_refl,
}
use manus_claw.ResourceLock.RwLock.{RwLock, fresh}
use manus_claw.ResourceLock.Declared.{AccessMode, ResourceDeclaration, lock_key}
use manus_claw.ResourceLock.Manager.{
  Locks, Acquired, acquire_mode, release_mode, after_release, release_one, release_from_last,
  acquire_one, get_or_create_lock, found_or_new,
}
use manus_claw.ResourceLock.Manager.Modes.{
  IsTidy, acquire_mode_free, acquire_mode_got, IsTidy-acquire_mode,
}

-- The lock of a key; one that is not registered yet is free.
abbrev pub lock_at : String → Locks → RwLock
lock_at key locks = lookup_or fresh key locks

abbrev pub SameLocks : Locks → Locks → Type 0
SameLocks l m = (key : String) → lock_at key l ≡ lock_at key m

-- No other thread notifies the one that waits.
abbrev pub undisturbed : ℕ → String → List RwLock
undisturbed attempt key = []

pub lock_at-release_one :
    (thread : ℕ) (key : String) (mode : AccessMode) (l : Locks) (k : String)
    → lock_at k (release_one thread (key, mode) l) ≡ (
        if str_eq key k
        then after_release (lock_at key l) (release_mode mode thread (lock_at key l))
        else lock_at k l)
unfolding release_one
lock_at-release_one thread key mode l k =
    lookup_or-insert fresh
      (after_release (lock_at key l) (release_mode mode thread (lock_at key l))) k key l

release_one-SameLocks :
    (thread : ℕ) (a : String × AccessMode) (l m : Locks)
    → SameLocks l m
    → SameLocks (release_one thread a l) (release_one thread a m)
release_one-SameLocks thread (key, mode) l m same k =
    lock_at-release_one thread key mode l k
    ∙ ground (arith, same key, same k)
    ∙ sym (lock_at-release_one thread key mode m k)

pub release_from_last-SameLocks :
    (thread : ℕ) (acquired : Acquired) (l m : Locks)
    → SameLocks l m
    → SameLocks (release_from_last thread acquired l) (release_from_last thread acquired m)
unfolding release_from_last
release_from_last-SameLocks thread [] l m same = same
release_from_last-SameLocks thread (a ∷ acquired) l m same =
    release_from_last-SameLocks thread acquired (release_one thread a l) (release_one thread a m)
      (release_one-SameLocks thread a l m same)

-- The lock that `_get_or_create_lock` returns is the lock of the key, and no lock changes.
get_or_create_lock_lem : (key : String) (l : Locks) → (get_or_create_lock key l).0 ≡ lock_at key l
unfolding get_or_create_lock
get_or_create_lock_lem key l = elim (Option-cases (lookup key l)) [
  | inl new ↦
      ap (λ o. (found_or_new key l o).0) new
      ∙ unfold found_or_new in sym (lookup_or-none fresh key l new)
  | inr (lock, old) ↦
      ap (λ o. (found_or_new key l o).0) old
      ∙ unfold found_or_new in sym (lookup_or-some fresh lock key l old)
]

get_or_create_lock-SameLocks : (key : String) (l : Locks) → SameLocks (get_or_create_lock key l).1 l
unfolding get_or_create_lock
get_or_create_lock-SameLocks key l k = elim (Option-cases (lookup key l)) [
  | inl new ↦
      ap (λ o. lock_at k (found_or_new key l o).1) new
      ∙ unfold found_or_new in
        (lookup_or-insert fresh fresh k key l
          ∙ ground (arith, eq_iff key k, lookup_or-none fresh key l new))
  | inr (lock, old) ↦ ap (λ o. lock_at k (found_or_new key l o).1) old
]

module _ (digest : String → String) (thread : ℕ) where
  abbrev pub key_of : ResourceDeclaration → String
  key_of d = lock_key digest d

  -- One acquisition without waiting touches the lock of its key alone.
  pub acquire_one_got :
      (d : ResourceDeclaration) (l : Locks)
      → (acquire_one digest thread (λ _. []) d l).0
        ≡ (acquire_mode d.mode thread [] (lock_at (key_of d) l)).0
  unfolding acquire_one
  acquire_one_got d l =
      ap (λ lock. (acquire_mode d.mode thread [] lock).0) (get_or_create_lock_lem (key_of d) l)

  pub lock_at-acquire_one :
      (d : ResourceDeclaration) (l : Locks) (k : String)
      → lock_at k (acquire_one digest thread (λ _. []) d l).1 ≡ (
          if str_eq (key_of d) k
          then (acquire_mode d.mode thread [] (lock_at (key_of d) l)).1
          else lock_at k l)
  unfolding acquire_one
  lock_at-acquire_one d l k =
      let (lock, l') = get_or_create_lock (key_of d) l in
      lookup_or-insert fresh (acquire_mode d.mode thread [] lock).1 k (key_of d) l'
      ∙ ground
          (arith, get_or_create_lock_lem (key_of d) l, get_or_create_lock-SameLocks (key_of d) l k)

  abbrev pub IsTidyAt : Locks → Type 0
  IsTidyAt l = (key : String) → IsTidy thread (lock_at key l)

  pub failed-SameLocks :
      (d : ResourceDeclaration) (l : Locks)
      → (acquire_one digest thread (λ _. []) d l).0 ≡ false
      → SameLocks (acquire_one digest thread (λ _. []) d l).1 l
  failed-SameLocks d l h k =
      lock_at-acquire_one d l k
      ∙ ground (
        arith,
        eq_iff (key_of d) k,
        acquire_mode_free d.mode thread (lock_at (key_of d) l) (sym (acquire_one_got d l) ∙ h),
      )

  pub acquire_one-IsTidyAt :
      (d : ResourceDeclaration) (l : Locks)
      → IsTidyAt l
      → IsTidyAt (acquire_one digest thread (λ _. []) d l).1
  acquire_one-IsTidyAt d l tidy k h = ground (
    arith,
    lock_at-acquire_one d l k,
    IsTidy-acquire_mode d.mode thread (lock_at (key_of d) l) (tidy (key_of d)),
    tidy k,
  )

  pub got-SameLocks :
      (d : ResourceDeclaration) (l : Locks)
      → IsTidyAt l
      → (acquire_one digest thread (λ _. []) d l).0 ≡ true
      → SameLocks
          (release_one thread (key_of d, d.mode) (acquire_one digest thread (λ _. []) d l).1)
          l
  got-SameLocks d l tidy h k =
      let l' = (acquire_one digest thread (λ _. []) d l).1 in
      let lock = lock_at (key_of d) l in
      let lock' = (acquire_mode d.mode thread [] lock).1 in
      let back =
        acquire_mode_got d.mode thread lock (tidy (key_of d)) (sym (acquire_one_got d l) ∙ h) in
      lock_at-release_one thread (key_of d) d.mode l' k
      ∙ ground (
        arith,
        eq_iff (key_of d) k,
        eq_refl (key_of d),
        lock_at-acquire_one d l k,
        lock_at-acquire_one d l (key_of d),
        back,
      )
