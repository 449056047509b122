-- ===== src/ResourceLock/Manager/RoundTrip.antt =====
-- An explicit acquisition of app/parallel_executor/resource_lock.py and the release of its handle.
use manus_claw.Prelude.{
  if◌then◌else◌, ℕ, String, ◌≡◌, List, Option, some, true, Bool, none, Bool-cases, false, inl, inr,
  refl, [], arith, ap, sym, ◌∙◌,
}
use manus_claw.ResourceLock.Declared.{ResourceDeclaration, is_empty}
use manus_claw.ResourceLock.Manager.{
  Locks, Attempt, Handle, handle_of, release_all, acquire_all, acquire_resources_explicit,
  release_resources, sorted,
}
use manus_claw.ResourceLock.Manager.Restore.{SameLocks, undisturbed, IsTidyAt, lock_at}
use manus_claw.ResourceLock.Manager.Scope.{acquire_all_restores}

module _ (digest : String → String) (thread : ℕ) where
  -- The locks after the release of the handle, if there is one.
  after_handle : Option Handle × Locks → Locks
  after_handle (none, l) = l
  after_handle (some handle, l) = (release_resources digest thread handle l).1

  is_handle : Option Handle × Locks → Bool
  is_handle (none, l) = false
  is_handle (some handle, l) = true

  after_handle_of :
      (a : Attempt)
      → is_handle (handle_of a) ≡ true
      → after_handle (handle_of a) ≡ release_all thread a.acquired a.locks
  unfolding handle_of after_handle is_handle release_resources
  after_handle_of a h = elim (Bool-cases a.success) [
    | inl done ↦ rw done refl
    | inr failed ↦ absurd (ground (arith, h, failed))
  ]

  released_twice :
      (handle : Handle) (l : Locks)
      → let (handle', l') = release_resources digest thread handle l in
        release_resources digest thread handle' l' ≡ (handle', l')
  unfolding release_resources
  released_twice handle l = elim (Bool-cases handle.released) [
    | inl already ↦ ground (arith, already)
    | inr first ↦ ground (arith, first)
  ]

  -- What the release of a returned handle comes to.
  after_explicit :
      (retry_count : ℕ) (ds : List ResourceDeclaration) (l l' : Locks) (handle : Handle)
      → IsTidyAt digest thread l
      → acquire_resources_explicit digest thread retry_count undisturbed ds l ≡ (some handle, l')
      → SameLocks (release_resources digest thread handle l').1 l
  unfolding acquire_resources_explicit after_handle
  after_explicit retry_count ds l l' handle tidy e key =
      let a = acquire_all digest thread retry_count undisturbed (sorted digest thread ds) l [] in
      let start : Option Handle × Locks = (some (record { acquired = []; released = false }), l) in
      elim (Bool-cases (is_empty ds)) [
        | inl empty ↦
            let e' : start ≡ (some handle, l') =
              ap (λ b. if b then start else handle_of a) (sym empty) ∙ e in
            ap (λ p. lock_at key (after_handle p)) (sym e')
            ∙ unfold release_resources release_all in refl
        | inr some_declared ↦
            let e' : handle_of a ≡ (some handle, l') =
              ap (λ b. if b then start else handle_of a) (sym some_declared) ∙ e in
            ap (λ p. lock_at key (after_handle p)) (sym e')
            ∙ ap (lock_at key) (after_handle_of a (ap is_handle e' ∙ unfold is_handle in refl))
            ∙ acquire_all_restores digest thread retry_count (sorted digest thread ds) l []
                (unfold release_all in tidy) key
            ∙ unfold release_all in refl
      ]

  -- While no other thread acts, the release of the handle that `acquire_resources_explicit` returned
  -- leaves every lock as it was before the acquisition, and a second release changes nothing. (No
  -- lock has an entry of zero for the thread at the start.)
  pub release_resources-acquire_resources_explicit :
      (retry_count : ℕ) (ds : List ResourceDeclaration) (l l' : Locks) (handle : Handle)
      → IsTidyAt digest thread l
      → acquire_resources_explicit digest thread retry_count undisturbed ds l ≡ (some handle, l')
      → let (handle', l'') = release_resources digest thread handle l' in
        SameLocks l'' l × (release_resources digest thread handle' l'' ≡ (handle', l''))
  release_resources-acquire_resources_explicit retry_count ds l l' handle tidy e =
      (after_explicit retry_count ds l l' handle tidy e, released_twice handle l')
