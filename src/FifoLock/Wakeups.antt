-- ===== src/FifoLock/Wakeups.antt =====
-- No wakeup of `FIFOLock` (app/conversation/fifo_lock.py) is lost.
use manus_claw.Prelude.{
  ℕ, true, false, ◌≡◌, ◌≢◌, ◌⊎◌, inl, inr, refl, List, [], ◌∷◌, arith, elem, erase, snoc, elem-snoc,
  elem-erase_ne, Bool-cases,
}
use manus_claw.FifoLock.ThreadLock.{
  Threads, outside, waiting, timed_out, granted, enter, wake, finish, expire, idle_threads, Reach,
  leave, Step, inside, give_up, next, enter_step, wake_step, here, expire_step, give_up_step,
  finish_step, leave_step,
}

abbrev pub Waits : Threads → ℕ → Type 0
Waits s i = (s.place i ≡ waiting) ⊎ (s.place i ≡ timed_out)

-- The thread has been signalled, or is on the way to the last block of `acquire`.
abbrev pub IsSignalled : Threads → ℕ → Type 0
IsSignalled s i = (s.place i ≡ granted) ⊎ (Waits s i × (s.lock.is_set i ≡ true))

abbrev pub Distinct : List ℕ → Type 0
Distinct [] = Unit
Distinct (i ∷ is) = (elem i is ≡ false) × Distinct is

pub record Inv (s : Threads) : Type 0 where
  pub queued : (i : ℕ) → elem i s.lock.waiters ≡ true → Waits s i × (s.lock.is_set i ≡ false)
  pub covered : (i : ℕ) → Waits s i → s.lock.is_set i ≡ false → elem i s.lock.waiters ≡ true
  pub distinct : Distinct s.lock.waiters
  pub alive : s.lock.waiters ≢ [] → (s.lock.held ≡ true) ⊎ ((j : ℕ) × IsSignalled s j)

Distinct-snoc : (i : ℕ) (is : List ℕ) → elem i is ≡ false → Distinct is → Distinct (snoc is i)
Distinct-snoc i [] h d = (refl, tt)
Distinct-snoc i (j ∷ is) h d =
    (ground (arith, elem-snoc j i is), Distinct-snoc i is (ground arith) d.1)

elem-erase_self : (i : ℕ) (is : List ℕ) → Distinct is → elem i (erase i is) ≡ false
elem-erase_self i [] d = refl
elem-erase_self i (j ∷ is) d = ground (arith, elem-erase_self i is d.1)

Distinct-erase : (i : ℕ) (is : List ℕ) → Distinct is → Distinct (erase i is)
Distinct-erase i [] d = tt
Distinct-erase i (j ∷ is) d = ground (arith, Distinct-erase i is d.1, elem-erase_ne j i is)

idle-Inv : Inv idle_threads
idle-Inv = record {
  queued = λ i h. cc;
  covered = λ i w. ground arith;
  distinct = tt;
  alive = λ ne. absurd (ne refl);
}

module _ (i : ℕ) (s : Threads) (inv : Inv s) where
  not_queued : ¬ Waits s i → elem i s.lock.waiters ≡ false
  not_queued idle = elim (Bool-cases (elem i s.lock.waiters)) [
    | inl h ↦ absurd (idle (inv.queued i h).0)
    | inr h ↦ h
  ]

  enter-Inv : s.place i ≡ outside → Inv (enter i s)
  unfolding enter
  enter-Inv out = record {
    queued = λ j h. grind (arith, inv.queued j, elem-snoc j i s.lock.waiters);
    covered = λ j w u. grind (arith, inv.covered j, elem-snoc j i s.lock.waiters);
    distinct =
        ground
          (arith, inv.distinct, Distinct-snoc i s.lock.waiters (not_queued (λ w. ground arith)));
    alive = λ ne. inl (ground arith);
  }

  wake-Inv : s.place i ≡ waiting → s.lock.is_set i ≡ true → Inv (wake i s)
  unfolding wake
  wake-Inv p e = record {
    queued = λ j h. grind (arith, inv.queued j);
    covered = λ j w u. grind (arith, inv.covered j);
    distinct = inv.distinct;
    alive = λ ne. inr (i, inl (ground arith));
  }

  expire-Inv : s.place i ≡ waiting → Inv (expire i s)
  unfolding expire
  expire-Inv p = record {
    queued = λ j h. grind (arith, inv.queued j);
    covered = λ j w u. grind (arith, inv.covered j);
    distinct = inv.distinct;
    alive = λ ne. elim (inv.alive ne) [ inl h ↦ inl h | inr (j, g) ↦ inr (j, grind arith) ];
  }

  finish-Inv : s.place i ≡ granted → Inv (finish i s)
  unfolding finish
  finish-Inv p = record {
    queued = λ j h. grind (arith, inv.queued j);
    covered = λ j w u. grind (arith, inv.covered j);
    distinct = inv.distinct;
    alive = λ ne. inl refl;
  }

  give_up-Inv : s.place i ≡ timed_out → Inv (give_up i s)
  unfolding give_up
  give_up-Inv p = elim (Bool-cases (elem i s.lock.waiters)) [
    | inl here_still ↦ rw here_still (record {
      queued = λ j h. grind (
        arith,
        inv.queued j,
        elem-erase_ne j i s.lock.waiters,
        elem-erase_self i s.lock.waiters inv.distinct,
      );
      covered = λ j w u. grind (arith, inv.covered j, elem-erase_ne j i s.lock.waiters);
      distinct = Distinct-erase i s.lock.waiters inv.distinct;
      alive = λ ne. elim (inv.alive (λ e. ne (rw e))) [
        | inl h ↦ inl h
        | inr (j, g) ↦ inr (j, grind (arith, inv.queued i here_still))
      ];
    })
    | inr gone ↦ rw gone (record {
      queued = λ j h. grind (arith, inv.queued j);
      covered = λ j w u. grind (arith, inv.covered j);
      distinct = inv.distinct;
      alive = λ ne. inr (i, inl (ground arith));
    })
  ]

  -- A release that raises, since another thread has released the lock already.
  raise-Inv : s.place i ≡ inside → s.lock.held ≡ false → Inv (leave i s)
  unfolding leave
  raise-Inv p free = rw free (record {
    queued = λ j h. grind (arith, inv.queued j);
    covered = λ j w u. grind (arith, inv.covered j);
    distinct = inv.distinct;
    alive = λ ne. elim (inv.alive ne) [ inl h ↦ absurd (cc) | inr (j, g) ↦ inr (j, grind arith) ];
  })

  release-Inv :
      (ws : List ℕ)
      → s.lock.waiters ≡ ws
      → s.place i ≡ inside
      → s.lock.held ≡ true
      → Inv (leave i s)
  unfolding leave
  release-Inv [] e p held =
      rw (held, e)
        (record {
          queued = λ j h. cc;
          covered = λ j w u. grind (arith, inv.covered j);
          distinct = tt;
          alive = λ ne. absurd (ne refl);
        })
  release-Inv (w ∷ ws) e p held =
      let d : Distinct (w ∷ ws) = rw e at inv.distinct in
      let head = inv.queued w (rw e (ground arith)) in
      rw (held, e)
        (record {
          queued = λ j h. grind (arith, inv.queued j, d.0);
          covered = λ j v u. grind (arith, inv.covered j, d.0);
          distinct = d.1;
          alive = λ ne. inr (w, grind (arith, head));
        })

  leave-Inv : s.place i ≡ inside → Inv (leave i s)
  leave-Inv p = elim (Bool-cases s.lock.held) [
    | inl held ↦ release-Inv s.lock.waiters refl p held
    | inr free ↦ raise-Inv p free
  ]

Step-Inv : {s t : Threads} → Step s t → Inv s → Inv t
Step-Inv {s} (enter_step i p) inv = enter-Inv i s inv p
Step-Inv {s} (wake_step i p e) inv = wake-Inv i s inv p e
Step-Inv {s} (expire_step i p) inv = expire-Inv i s inv p
Step-Inv {s} (give_up_step i p) inv = give_up-Inv i s inv p
Step-Inv {s} (finish_step i p) inv = finish-Inv i s inv p
Step-Inv {s} (leave_step i p) inv = leave-Inv i s inv p

pub Reach-Inv : {s : Threads} → Reach idle_threads s → Inv s
Reach-Inv here = idle-Inv
Reach-Inv (next r st) = Step-Inv st (Reach-Inv r)

-- In every reachable state a thread that waits unsignalled is in the queue, and it does not wait in
-- vain: the lock is held, or some thread has been signalled and has not yet taken the lock.
pub waiter_not_forgotten :
    (s : Threads) (i : ℕ)
    → Reach idle_threads s
    → Waits s i
    → s.lock.is_set i ≡ false
    → (elem i s.lock.waiters ≡ true) × ((s.lock.held ≡ true) ⊎ ((j : ℕ) × IsSignalled s j))
waiter_not_forgotten s i r w unset =
    let inv = Reach-Inv r in
    let member = inv.covered i w unset in (member, inv.alive (λ e. ground arith))
