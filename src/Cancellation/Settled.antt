-- ===== src/Cancellation/Settled.antt =====
-- The block of `cancel` under the lock (app/conversation/cancellation_token.py): who may be inside,
-- and what holds once the block has ended.
use manus_claw.Prelude.{
  ℕ, String, ◌≡◌, inl, arith, true, inr, Bool, some, none, false, Bool-cases, ◌⊎◌, refl,
}
use manus_claw.Cancellation.Token.{is_cancelled, reason, cancelled_at}
use manus_claw.Cancellation.Threads.{
  Threads, Place, Step, Reach, here, next, call, leave, enter, give_reason, give_time, set_event,
  sharing, idle, timing, notifying, cancelling, giving_reason, call_step, leave_step, enter_step,
  reason_step, time_step, set_step,
}

-- The thread has set the flag and not yet left the block.
abbrev pub is_inside : Place → Bool
is_inside idle = false
is_inside timing = true
is_inside notifying = false
is_inside (cancelling reason) = false
is_inside (giving_reason reason) = true

-- The thread has set the flag and goes on to set the event.
abbrev pub is_setting : Place → Bool
is_setting idle = false
is_setting timing = true
is_setting notifying = true
is_setting (cancelling reason) = false
is_setting (giving_reason reason) = true

-- The flag is set, and no thread is in the block.
abbrev pub Settled : Threads → Type 0
Settled s = (s.token.cancelled ≡ true) × (s.holder ≡ none)

abbrev pub IsFinal : Threads → Threads → Type 0
IsFinal s t =
    (is_cancelled t.token ≡ true)
    × (reason t.token ≡ reason s.token)
    × (cancelled_at t.token ≡ cancelled_at s.token)

pub record Inv (s : Threads) : Type 0 where
  pub inside :
      (i : ℕ) → is_inside (s.place i) ≡ true → (s.holder ≡ some i) × (s.token.cancelled ≡ true)
  pub dated : (at : ℕ) → s.token.at ≡ some at → Settled s
  pub set_late : s.token.event ≡ true → Settled s
  pub told : (i : ℕ) → s.place i ≡ notifying → Settled s
  pub woken :
      s.token.cancelled ≡ true
      → (s.token.event ≡ true) ⊎ ((i : ℕ) × (is_setting (s.place i) ≡ true))

module _ (t : Threads) (inv : Inv t) where
  call-Inv : (i : ℕ) (why : String) → t.place i ≡ idle → Inv (call i why t)
  unfolding call
  call-Inv i why p = record {
    inside = λ j h. grind (arith, inv.inside j);
    dated = inv.dated;
    set_late = inv.set_late;
    told = λ j h. grind (arith, inv.told j);
    woken = λ c. elim (inv.woken c) [ inl e ↦ inl e | inr (j, q) ↦ inr (j, grind arith) ];
  }

  leave-Inv : (i : ℕ) → t.place i ≡ idle → Inv (leave i t)
  unfolding leave
  leave-Inv i p = record {
    inside = λ j h. grind (arith, inv.inside j);
    dated = inv.dated;
    set_late = inv.set_late;
    told = λ j h. grind (arith, inv.told j);
    woken = λ c. elim (inv.woken c) [ inl e ↦ inl e | inr (j, q) ↦ inr (j, grind arith) ];
  }

  enter-Inv :
      (i : ℕ) (why : String) → t.place i ≡ cancelling why → t.holder ≡ none → Inv (enter i why t)
  unfolding enter
  enter-Inv i why p free = elim (Bool-cases t.token.cancelled) [
    | inl c ↦ rw c record {
      inside = λ j h. grind (arith, inv.inside j);
      dated = λ at e. (refl, refl);
      set_late = λ e. (refl, refl);
      told = λ j h. (refl, refl);
      woken = λ _. elim (inv.woken c) [ inl e ↦ inl e | inr (j, q) ↦ inr (j, grind arith) ];
    }
    | inr c ↦ rw c record {
      inside = λ j h. grind (arith, inv.inside j);
      dated = λ at e. grind (arith, inv.dated at e);
      set_late = λ e. grind (arith, inv.set_late e);
      told = λ j h. grind (arith, inv.told j);
      woken = λ _. inr (i, ground arith);
    }
  ]

  reason-Inv : (i : ℕ) (why : String) → t.place i ≡ giving_reason why → Inv (give_reason i why t)
  unfolding give_reason
  reason-Inv i why p =
      let (held, c) = inv.inside i (ground arith) in
      record {
        inside = λ j h. grind (arith, inv.inside j);
        dated = inv.dated;
        set_late = inv.set_late;
        told = λ j h. grind (arith, inv.told j);
        woken = λ _. inr (i, ground arith);
      }

  time-Inv : (i now : ℕ) → t.place i ≡ timing → Inv (give_time i now t)
  unfolding give_time
  time-Inv i now p =
      let (held, c) = inv.inside i (ground arith) in
      record {
        inside = λ j h. grind (arith, inv.inside j);
        dated = λ at e. (c, refl);
        set_late = λ e. (c, refl);
        told = λ j h. (c, refl);
        woken = λ _. inr (i, ground arith);
      }

  set-Inv : (i : ℕ) → t.place i ≡ notifying → Inv (set_event i t)
  unfolding set_event
  set-Inv i p =
      let settled = inv.told i p in
      record {
        inside = λ j h. grind (arith, inv.inside j);
        dated = inv.dated;
        set_late = λ e. settled;
        told = λ j h. settled;
        woken = λ c. inl refl;
      }

Step-Inv : (t u : Threads) → Step t u → Inv t → Inv u
Step-Inv t _ (call_step i why p) inv = call-Inv t inv i why p
Step-Inv t _ (leave_step i p) inv = leave-Inv t inv i p
Step-Inv t _ (enter_step i why p free) inv = enter-Inv t inv i why p free
Step-Inv t _ (reason_step i why p) inv = reason-Inv t inv i why p
Step-Inv t _ (time_step i now p) inv = time-Inv t inv i now p
Step-Inv t _ (set_step i p) inv = set-Inv t inv i p

sharing-Inv : (why : String) → Inv (sharing why)
unfolding sharing
sharing-Inv why = record {
  inside = λ i h. cc;
  dated = λ at h. cc;
  set_late = λ e. cc;
  told = λ i p. cc;
  woken = λ c. cc;
}

pub Reach-Inv : (why : String) (s : Threads) → Reach (sharing why) s → Inv s
Reach-Inv why _ here = sharing-Inv why
Reach-Inv why u (next {t} r step) = Step-Inv t u step (Reach-Inv why t r)

Step-Settled :
    (s t u : Threads) → Step t u → Inv t → Settled t → IsFinal s t → Settled u × IsFinal s u
unfolding call leave enter give_reason give_time set_event is_cancelled reason cancelled_at
Step-Settled s t _ (call_step i why p) inv settled final = (settled, final)
Step-Settled s t _ (leave_step i p) inv settled final = (settled, final)
Step-Settled s t _ (enter_step i why p free) inv (c, h) (f, g, e) =
    rw c ((refl, refl), (refl, g, e))
Step-Settled s t _ (reason_step i why p) inv (c, h) final =
    absurd (let held = (inv.inside i (ground arith)).0 in cc)
Step-Settled s t _ (time_step i now p) inv (c, h) final =
    absurd (let held = (inv.inside i (ground arith)).0 in cc)
Step-Settled s t _ (set_step i p) inv settled final = (settled, final)

both :
    (why : String) (s t : Threads)
    → Reach (sharing why) s
    → Settled s
    → Reach s t
    → Inv t × Settled t × IsFinal s t
both why s _ r settled here =
    (Reach-Inv why s r, settled, unfold is_cancelled in (settled.0, refl, refl))
both why s u r settled (next {t} r' step) =
    let (inv, settled', final) = both why s t r settled r' in
    let (settled'', final') = Step-Settled s t u step inv settled' final in
    (Step-Inv t u step inv, settled'', final')

pub Settled-IsFinal :
    (why : String) (s t : Threads) → Reach (sharing why) s → Settled s → Reach s t → IsFinal s t
Settled-IsFinal why s t r settled r' = (both why s t r settled r').2
