-- ===== src/FifoLock/Invariant.antt =====
-- The invariant of `AsyncFIFOLock` (app/conversation/fifo_lock.py) and its tasks.
use manus_claw.Prelude.{
  ℕ, true, ◌≡◌, ◌⊎◌, arith, elem, false, elem-erase_ne, elem-snoc, List, update, inl, ◌∷◌, inr, ◌≢◌,
  ap, ◌∙◌, sym, Bool-cases, [], refl,
}
use manus_claw.FifoLock.AsyncLock.{
  Loop, idle_loop, cancel, resume, abort, waiting, inside, enter, pending, outside, resolved,
  grant_next, AsyncLock, FutureState, Step, leave, Reach, is_done, enter_step, next, resume_step,
  cancel_step, here, abort_cancelled, abort_resolved, leave_step,
}

-- The task is past `acquire`, or the lock was handed to it while it waits.
abbrev pub Owns : Loop → ℕ → Type 0
Owns s i = (s.place i ≡ inside) ⊎ ((s.place i ≡ waiting) × (s.lock.future i ≡ resolved))

abbrev pub WaitsFor : Loop → ℕ → Type 0
WaitsFor s i = (s.place i ≡ waiting) × (s.lock.future i ≡ pending)

pub record Inv (s : Loop) : Type 0 where
  pub unique : (i j : ℕ) → Owns s i → Owns s j → i ≡ j
  pub owned : (i : ℕ) → Owns s i → s.lock.held ≡ true
  pub queued : (i : ℕ) → WaitsFor s i → elem i s.lock.waiters ≡ true
  pub handed : (i : ℕ) → s.lock.held ≡ false → ¬ WaitsFor s i

pub idle-Inv : Inv idle_loop
idle-Inv = record {
  unique = λ i j o p. ground arith;
  owned = λ i o. ground arith;
  queued = λ i w. ground arith;
  handed = λ i h w. ground arith;
}

enter-Inv : (i : ℕ) (s : Loop) → s.place i ≡ outside → Inv s → Inv (enter i s)
unfolding enter
enter-Inv i s out inv = record {
  unique = λ j k o p. grind (arith, inv.unique, inv.owned);
  owned = λ j o. grind (arith, inv.owned);
  queued = λ j w. grind (arith, inv.queued, elem-snoc);
  handed = λ j h w. grind (arith, inv.handed);
}

resume-Inv :
    (i : ℕ) (s : Loop) → s.place i ≡ waiting → s.lock.future i ≡ resolved → Inv s → Inv (resume i s)
unfolding resume
resume-Inv i s w f inv = record {
  unique = λ j k o p. grind (arith, inv.unique);
  owned = λ j o. grind (arith, inv.owned);
  queued = λ j w. grind (arith, inv.queued);
  handed = λ j h w. grind (arith, inv.handed);
}

cancel-Inv : (i : ℕ) (s : Loop) → s.lock.future i ≡ pending → Inv s → Inv (cancel i s)
unfolding cancel
cancel-Inv i s f inv = record {
  unique = λ j k o p. grind (arith, inv.unique);
  owned = λ j o. grind (arith, inv.owned);
  queued = λ j w. grind (arith, inv.queued);
  handed = λ j h w. grind (arith, inv.handed);
}

abort-Inv : (i : ℕ) (s : Loop) → Inv s → Inv (abort i s)
unfolding abort
abort-Inv i s inv = record {
  unique = λ j k o p. grind (arith, inv.unique);
  owned = λ j o. grind (arith, inv.owned);
  queued = λ j w. grind (arith, inv.queued, elem-erase_ne);
  handed = λ j h w. grind (arith, inv.handed);
}

-- What the loop of `release` does with the queue `ws`: it finds no waiter that still waits, or it
-- hands the lock to one, and keeps every other waiter that still waits in the queue.
abbrev Freed : List ℕ → (ℕ → FutureState) → AsyncLock → Type 0
Freed ws f l = (l.held ≡ false) × (l.future ≡ f) × ((j : ℕ) → elem j ws ≡ true → f j ≢ pending)

abbrev HandedTo : ℕ → List ℕ → (ℕ → FutureState) → AsyncLock → Type 0
HandedTo w ws f l =
    (l.held ≡ true)
    × (f w ≡ pending)
    × (l.future ≡ update f w resolved)
    × ((j : ℕ) → elem j ws ≡ true → f j ≡ pending → j ≢ w → elem j l.waiters ≡ true)

grant_facts :
    (ws : List ℕ) (f : ℕ → FutureState)
    → Freed ws f (grant_next ws f) ⊎ ((w : ℕ) × HandedTo w ws f (grant_next ws f))
unfolding grant_next
grant_facts [] f = inl (refl, refl, λ j h. cc)
grant_facts (w ∷ ws) f = elim (Bool-cases (is_done (f w))) [
  | inl done ↦ rw done (skip w ws f (grant_next ws f) done (grant_facts ws f))
  | inr waits ↦ rw waits (inr (w, (refl, ground arith, refl, λ j m p ne. ground arith)))
]
  where
    skip :
        (w : ℕ) (ws : List ℕ) (f : ℕ → FutureState) (l : AsyncLock)
        → is_done (f w) ≡ true
        → Freed ws f l ⊎ ((v : ℕ) × HandedTo v ws f l)
        → Freed (w ∷ ws) f l ⊎ ((v : ℕ) × HandedTo v (w ∷ ws) f l)
    skip w ws f l done (inl h) = inl (h.0, h.1, λ j m p. grind (arith, h.2 j))
    skip w ws f l done (inr (v, h)) = inr (v, (h.0, h.1, h.2, λ j m p ne. grind (arith, h.3 j)))

module _ (i : ℕ) (s : Loop) (in_lock : s.place i ≡ inside) (inv : Inv s) where
  -- The state after a `release` that came to the lock `l`.
  leave_to : (l : AsyncLock) → Loop
  leave_to l = record { lock = l; place = update s.place i outside }

  owner_left : (l : AsyncLock) (j : ℕ) → l.future j ≡ s.lock.future j → ¬ Owns (leave_to l) j
  unfolding leave_to
  owner_left l j same o = grind (arith, inv.unique i j (inl in_lock))

  Freed-Inv : (l : AsyncLock) → Freed s.lock.waiters s.lock.future l → Inv (leave_to l)
  unfolding leave_to
  Freed-Inv l (free, same, done) = record {
    unique = λ j k o p. absurd (owner_left l j (ap (λ f. f j) same) o);
    owned = λ j o. absurd (owner_left l j (ap (λ f. f j) same) o);
    queued = λ j w. absurd (none_waits j w);
    handed = λ j e w. none_waits j w;
  }
    where
      none_waits : (j : ℕ) → ¬ WaitsFor (leave_to l) j
      none_waits j w = grind (arith, inv.queued j, done j, ap (λ f. f j) same)

  handed_owner :
      (w : ℕ) (l : AsyncLock)
      → HandedTo w s.lock.waiters s.lock.future l
      → (j : ℕ) → Owns (leave_to l) j
      → j ≡ w
  unfolding leave_to
  handed_owner w l (held, waits, future, kept) j o =
      grind (arith, inv.unique i j (inl in_lock), ap (λ f. f j) future)

  handed-Inv :
      (w : ℕ) (l : AsyncLock) → HandedTo w s.lock.waiters s.lock.future l → Inv (leave_to l)
  unfolding leave_to
  handed-Inv w l h = record {
    unique = λ j k o p. handed_owner w l h j o ∙ sym (handed_owner w l h k p);
    owned = λ j o. h.0;
    queued = λ j q. grind (arith, inv.queued j, h.3 j, ap (λ f. f j) h.2);
    handed = λ j e q. cc h.0;
  }

  leave-Inv : Inv (leave i s)
  unfolding leave leave_to
  leave-Inv =
      let l = grant_next s.lock.waiters s.lock.future in
      rw (inv.owned i (inl in_lock)) (elim (grant_facts s.lock.waiters s.lock.future) [
        | inl h ↦ Freed-Inv l h
        | inr (w, h) ↦ handed-Inv w l h
      ])

Step-Inv : {s t : Loop} → Step s t → Inv s → Inv t
Step-Inv {s} (enter_step i p) inv = enter-Inv i s p inv
Step-Inv {s} (resume_step i p f) inv = resume-Inv i s p f inv
Step-Inv {s} (cancel_step i p f) inv = cancel-Inv i s f inv
Step-Inv {s} (abort_cancelled i p f) inv = abort-Inv i s inv
Step-Inv {s} (abort_resolved i p f) inv = abort-Inv i s inv
Step-Inv {s} (leave_step i p) inv = leave-Inv i s p inv

pub Reach-Inv : {s t : Loop} → Inv s → Reach s t → Inv t
Reach-Inv inv here = inv
Reach-Inv inv (next r st) = Step-Inv st (Reach-Inv inv r)
