-- ===== src/ResourceLock/Manager/Scope.antt =====
-- A `with` statement over `acquire_resources` (app/parallel_executor/resource_lock.py) leaves every
-- lock as it found it; a failed `acquire_resources_explicit` does not.
use manus_claw.Prelude.{
  nat_eq, ℕ, zero, suc, ◌≡◌, refl, sym, ◌∙◌, ap, String, List, [], ◌∷◌, inl, inr, snoc, reverse,
  Bool-cases, lookup,
}
use mathlib.Core.List.{reverse-append}
use manus_claw.ResourceLock.RwLock.{RwLock}
use manus_claw.ResourceLock.Declared.{ResourceDeclaration, lock_key, AccessMode, is_empty}
use manus_claw.ResourceLock.Manager.{
  Locks, Acquired, release_one, release_from_last, release_all, acquire_one, acquire_each,
  acquire_all, acquire_resources, sorted,
}
use manus_claw.ResourceLock.Manager.Restore.{
  SameLocks, undisturbed, IsTidyAt, release_from_last-SameLocks, failed-SameLocks, got-SameLocks,
  acquire_one-IsTidyAt, lock_at,
}

SameLocks-trans : (l m n : Locks) → SameLocks l m → SameLocks m n → SameLocks l n
SameLocks-trans l m n p q k = p k ∙ q k

release_all-snoc :
    (thread : ℕ) (acquired : Acquired) (a : String × AccessMode) (l : Locks)
    → release_all thread (snoc acquired a) l ≡ release_all thread acquired (release_one thread a l)
unfolding release_all release_from_last
release_all-snoc thread acquired a l = rw (reverse-append acquired (a ∷ []))

release_all-SameLocks :
    (thread : ℕ) (acquired : Acquired) (l m : Locks)
    → SameLocks l m
    → SameLocks (release_all thread acquired l) (release_all thread acquired m)
unfolding release_all
release_all-SameLocks thread acquired l m same =
    release_from_last-SameLocks thread (reverse acquired) l m same

module _ (digest : String → String) (thread : ℕ) where
  -- What a round acquired, on top of `acquired`, is what is to be released.
  pub acquire_each_restores :
      (ds : List ResourceDeclaration) (l : Locks) (acquired : Acquired)
      → IsTidyAt digest thread l
      → let a = acquire_each digest thread (λ _. []) ds l acquired in
        SameLocks (release_all thread a.acquired a.locks) (release_all thread acquired l)
  unfolding acquire_each
  acquire_each_restores [] l acquired tidy key = refl
  acquire_each_restores (d ∷ ds) l acquired tidy key =
      let one = acquire_one digest thread (λ _. []) d l in
      let x : String × AccessMode = (lock_key digest d, d.mode) in
      elim (Bool-cases one.0) [
        | inl got ↦ rw got (
            acquire_each_restores ds one.1 (snoc acquired x)
              (acquire_one-IsTidyAt digest thread d l tidy) key
            ∙ ap (lock_at key) (release_all-snoc thread acquired x one.1)
            ∙ release_all-SameLocks thread acquired (release_one thread x one.1) l
                (got-SameLocks digest thread d l tidy got) key)
        | inr refused ↦ rw refused (
            release_all-SameLocks thread acquired one.1 l
              (failed-SameLocks digest thread d l refused) key)
      ]

  pub acquire_all_restores :
      (left : ℕ) (ds : List ResourceDeclaration) (l : Locks) (acquired : Acquired)
      → IsTidyAt digest thread (release_all thread acquired l)
      → let a = acquire_all digest thread left undisturbed ds l acquired in
        SameLocks (release_all thread a.acquired a.locks) (release_all thread acquired l)
  unfolding acquire_all
  acquire_all_restores zero ds l acquired tidy key = refl
  acquire_all_restores (suc left) ds l acquired tidy key =
      let l' = release_all thread acquired l in
      let a = acquire_each digest thread (λ _. []) ds l' [] in
      let restored = acquire_each_restores ds l' [] tidy in
      elim (Bool-cases a.success) [
        | inl done ↦ rw done (restored key)
        | inr failed ↦ rw failed (
            acquire_all_restores left ds a.locks a.acquired
              (λ k h.
                tidy k (ap (λ (r : RwLock). lookup thread r.reader_threads) (sym (restored k)) ∙ h))
              key
            ∙ restored key)
      ]

  -- While no other thread acts, a body that leaves the locks as they are runs between an acquisition
  -- and a release after which every lock is as it was before: whether the body runs or the
  -- DeadlockDetectedError is raised. (No lock has an entry of zero for the thread at the start.)
  pub acquire_resources_restores {ℓ} :
      {B : Type ℓ} (retry_count : ℕ) (ds : List ResourceDeclaration) (body : Locks → B × Locks)
      (l : Locks)
      → IsTidyAt digest thread l
      → ((m : Locks) → SameLocks (body m).1 m)
      → SameLocks (acquire_resources digest thread retry_count undisturbed ds body l).1 l
  unfolding acquire_resources
  acquire_resources_restores retry_count ds body l tidy quiet key =
      let a = acquire_all digest thread retry_count undisturbed (sorted digest thread ds) l [] in
      let restored =
        acquire_all_restores retry_count (sorted digest thread ds) l [] (unfold release_all in tidy)
          key in
      let ran =
        release_all-SameLocks thread a.acquired (body a.locks).1 a.locks (quiet a.locks) key in
      elim (Bool-cases (is_empty ds)) [
        | inl none_declared ↦ rw none_declared (quiet l key)
        | inr declared ↦ elim (Bool-cases a.success) [
          | inl done ↦ rw (declared, done) (ran ∙ restored)
          | inr failed ↦ rw (declared, failed) restored
        ]
      ]
