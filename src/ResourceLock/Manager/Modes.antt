-- ===== src/ResourceLock/Manager/Modes.antt =====
-- One lock under one thread of app/parallel_executor/resource_lock.py: a release takes back what an
-- acquisition without waiting has granted.
use manus_claw.Prelude.{
  ℕ, zero, suc, ◌+◌, ◌≡◌, ◌∙◌, ap, true, false, some, [], inl, inr, arith, Option-cases, lookup,
  lookup_or, insert, string_eq, nat_eq, if◌then◌else◌, lookup-insert_self, insert_same,
  insert-insert, remove-insert_new, ==_refl, ◌≢◌, Dict, leb, remove, ◌-◌, lookup_or-some,
  lookup_or-none,
}
use manus_claw.ResourceLock.RwLock.{
  RwLock, acquire_read, acquire_write, release_read, release_write, grant_read, grant_write,
  is_busy,
}
use manus_claw.ResourceLock.Declared.{AccessMode, read, write}
use manus_claw.ResourceLock.Manager.{acquire_mode, release_mode}

-- The table of a lock holds no entry of zero for the thread.
abbrev pub IsTidy : ℕ → RwLock → Type 0
IsTidy thread lock = lookup thread lock.reader_threads ≢ some 0

-- The table after one more READ lock of the thread and one less.
restored :
    (i : ℕ) (t : Dict ℕ ℕ)
    → lookup i t ≢ some 0
    → let c = lookup_or 0 i t in
      let t' = insert i (c + 1) t in
      (if leb (lookup_or 0 i t') 1 then remove i t' else insert i (lookup_or 0 i t' - 1) t') ≡ t
restored i t tidy = elim (Option-cases (lookup i t)) [
  | inl new ↦
      let c : lookup_or 0 i t ≡ 0 = lookup_or-none 0 i t new in
      rw c (
        rw (lookup_or-some 0 (0 + 1) i (insert i (0 + 1) t) (lookup-insert_self i (0 + 1) t))
          (remove-insert_new i (0 + 1) t new))
  | inr (n, old) ↦ again n old
]
  where
    again :
        (n : ℕ)
        → lookup i t ≡ some n
        → (let c = lookup_or 0 i t in
            let t' = insert i (c + 1) t in
            (if leb (lookup_or 0 i t') 1 then remove i t' else insert i (lookup_or 0 i t' - 1) t')
            ≡ t)
    again zero old = absurd (tidy old)
    again (suc m) old =
        let c : lookup_or 0 i t ≡ suc m = lookup_or-some 0 (suc m) i t old in
        let v : ℕ = suc m + 1 in
        let same : v - 1 ≡ suc m = omega arith in
        rw c (
          rw (lookup_or-some 0 v i (insert i v t) (lookup-insert_self i v t)) (
            ground (
              arith,
              insert-insert i (v - 1) v t
                  ∙ ap (λ u. insert i u t) same
                  ∙ insert_same i (suc m) t old,
            )))

-- What a thread acquires without waiting, its release takes back.
release_read-grant_read :
    (thread : ℕ) (lock : RwLock)
    → IsTidy thread lock
    → release_read thread (grant_read thread lock) ≡ some lock
unfolding release_read grant_read
release_read-grant_read thread lock tidy = ground (arith, restored thread lock.reader_threads tidy)

pub acquire_mode_free :
    (mode : AccessMode) (thread : ℕ) (lock : RwLock)
    → (acquire_mode mode thread [] lock).0 ≡ false
    → (acquire_mode mode thread [] lock).1 ≡ lock
unfolding acquire_mode acquire_read acquire_write
acquire_mode_free read thread lock h = ground arith
acquire_mode_free write thread lock h = ground arith

pub acquire_mode_got :
    (mode : AccessMode) (thread : ℕ) (lock : RwLock)
    → IsTidy thread lock
    → (acquire_mode mode thread [] lock).0 ≡ true
    → release_mode mode thread (acquire_mode mode thread [] lock).1 ≡ some lock
unfolding acquire_mode acquire_read acquire_write release_mode release_write
acquire_mode_got read thread lock tidy h = ground (arith, release_read-grant_read thread lock tidy)
acquire_mode_got write thread lock tidy h =
    unfold is_busy grant_write in ground (arith, ==_refl thread)

pub IsTidy-acquire_mode :
    (mode : AccessMode) (thread : ℕ) (lock : RwLock)
    → IsTidy thread lock
    → IsTidy thread (acquire_mode mode thread [] lock).1
unfolding acquire_mode acquire_read acquire_write grant_read grant_write
IsTidy-acquire_mode read thread lock tidy h = ground (
  arith,
  lookup-insert_self thread (lookup_or 0 thread lock.reader_threads + 1) lock.reader_threads,
)
IsTidy-acquire_mode write thread lock tidy h = ground arith
