-- ===== src/ResourceLock/Manager/Leak.antt =====
-- `acquire_resources_explicit` of app/parallel_executor/resource_lock.py when it raises.
use manus_claw.Prelude.{
  nat_eq, ℕ, zero, suc, ◌≡◌, refl, sym, ◌∙◌, ap, true, false, String, some, none, List, [], ◌∷◌,
  inl, inr, arith, Option-cases, eq_iff, string_eq, lookup, lookup_or-some, lookup_or-none, ◌≢◌,
  eq_refl,
}
use mathlib.Core.Path.{subst}
use manus_claw.ResourceLock.RwLock.{RwLock, acquire_read, acquire_write, grant_read, grant_write}
use manus_claw.ResourceLock.Declared.{AccessMode, read, write, ResourceDeclaration, lock_key}
use manus_claw.ResourceLock.Manager.{
  Locks, Acquired, Attempt, acquire_mode, release_all, acquire_one, acquire_each, acquire_all,
  acquire_resources_explicit, is_resource_locked, sorted, is_held, fresh, handle_of,
}
use manus_claw.ResourceLock.Manager.Restore.{
  lock_at, SameLocks, undisturbed, IsTidyAt, acquire_one_got, lock_at-acquire_one,
}
use manus_claw.ResourceLock.Manager.Scope.{acquire_each_restores}

is_resource_locked_lem :
    (key : String) (l : Locks) → is_resource_locked key l ≡ is_held (some (lock_at key l))
unfolding is_resource_locked
is_resource_locked_lem key l = elim (Option-cases (lookup key l)) [
  | inl new ↦
      ap is_held new
      ∙ unfold is_held in sym (ap (λ k. is_held (some k)) (lookup_or-none fresh key l new))
  | inr (lock, old) ↦
      ap is_held old ∙ sym (ap (λ k. is_held (some k)) (lookup_or-some fresh lock key l old))
]

granted_taken :
    (mode : AccessMode) (thread : ℕ) (lock : RwLock)
    → (acquire_mode mode thread [] lock).0 ≡ true
    → is_held (some (acquire_mode mode thread [] lock).1) ≡ true
unfolding acquire_mode acquire_read acquire_write grant_read grant_write is_held
granted_taken read thread lock h = ground arith
granted_taken write thread lock h = ground arith

module _ (digest : String → String) (thread : ℕ) (d e : ResourceDeclaration)
    (rest : List ResourceDeclaration) (start : Locks) (tidy : IsTidyAt digest thread start)
    (got : (acquire_mode d.mode thread [] (lock_at (lock_key digest d) start)).0 ≡ true)
    (blocked : (acquire_mode e.mode thread [] (lock_at (lock_key digest e) start)).0 ≡ false)
    (apart : lock_key digest d ≢ lock_key digest e) where
  abbrev HoldsOne : Attempt → Type 0
  HoldsOne a = (a.success ≡ false) × (is_resource_locked (lock_key digest d) a.locks ≡ true)

  each_holds :
      (l : Locks)
      → SameLocks l start
      → HoldsOne (acquire_each digest thread (λ _. []) (d ∷ e ∷ rest) l [])
  unfolding acquire_each
  each_holds l same =
      let one = acquire_one digest thread (λ _. []) d l in
      let two = acquire_one digest thread (λ _. []) e one.1 in
      let first : one.0 ≡ true =
        acquire_one_got digest thread d l
        ∙ ap (λ k. (acquire_mode d.mode thread [] k).0) (same (lock_key digest d))
        ∙ got in
      let kept : lock_at (lock_key digest e) one.1 ≡ lock_at (lock_key digest e) start =
        lock_at-acquire_one digest thread d l (lock_key digest e)
        ∙ ground
            (arith, eq_iff (lock_key digest d) (lock_key digest e), same (lock_key digest e)) in
      let second : two.0 ≡ false =
        acquire_one_got digest thread e one.1
        ∙ ap (λ k. (acquire_mode e.mode thread [] k).0) kept
        ∙ blocked in
      let third : is_resource_locked (lock_key digest d) two.1 ≡ true =
        is_resource_locked_lem (lock_key digest d) two.1
        ∙ ap (λ k. is_held (some k))
            (lock_at-acquire_one digest thread e one.1 (lock_key digest d)
              ∙ ground (
                arith,
                eq_iff (lock_key digest e) (lock_key digest d),
                lock_at-acquire_one digest thread d l (lock_key digest d),
                eq_refl (lock_key digest d),
                same (lock_key digest d),
              ))
        ∙ granted_taken d.mode thread (lock_at (lock_key digest d) start) got in
      ground (arith, first, second, third)

  attempt_restores :
      (l : Locks)
      → SameLocks l start
      → let a = acquire_each digest thread (λ _. []) (d ∷ e ∷ rest) l [] in
        SameLocks (release_all thread a.acquired a.locks) start
  unfolding release_all
  attempt_restores l same k =
      acquire_each_restores digest thread (d ∷ e ∷ rest) l []
        (λ key z.
          tidy key (ap (λ (r : RwLock). lookup thread r.reader_threads) (sym (same key)) ∙ z))
        k
      ∙ same k

  all_holds :
      (left : ℕ) (l : Locks) (acquired : Acquired)
      → SameLocks (release_all thread acquired l) start
      → HoldsOne (acquire_all digest thread (suc left) undisturbed (d ∷ e ∷ rest) l acquired)
  unfolding acquire_all
  all_holds zero l acquired same =
      let h = each_holds (release_all thread acquired l) same in rw h.0 (refl, h.1)
  all_holds (suc left) l acquired same =
      let l' = release_all thread acquired l in
      let a = acquire_each digest thread (λ _. []) (d ∷ e ∷ rest) l' [] in
      let h = each_holds l' same in
      rw h.0 (all_holds left a.locks a.acquired (attempt_restores l' same))

  failed_handle :
      (a : Attempt)
      → HoldsOne a
      → ((handle_of a).0 ≡ none) × (is_resource_locked (lock_key digest d) (handle_of a).1 ≡ true)
  unfolding handle_of
  failed_handle a (failed, locked) = rw failed (refl, locked)

  -- The hypotheses hold of a start at which the first lock of the sorted declarations is free for
  -- the thread and the second, of another key, is not. Then, while no other thread acts and at least one
  -- attempt is made, `acquire_resources_explicit` raises the DeadlockDetectedError, so that there is no
  -- handle to release, and the first lock stays locked.
  pub explicit_failure_keeps_lock :
      (left : ℕ) (ds : List ResourceDeclaration)
      → sorted digest thread ds ≡ d ∷ e ∷ rest
      → let (handle, l) =
          acquire_resources_explicit digest thread (suc left) undisturbed ds start in
        (handle ≡ none) × (is_resource_locked (lock_key digest d) l ≡ true)
  unfolding acquire_resources_explicit
  explicit_failure_keeps_lock left [] order = unfold sorted in cc
  explicit_failure_keeps_lock left (c ∷ cs) order = failed_handle _ (
      subst (λ l. HoldsOne (acquire_all digest thread (suc left) undisturbed l start []))
        (sym order) (all_holds left start [] (unfold release_all in λ k. refl)))
