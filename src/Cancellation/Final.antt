-- ===== src/Cancellation/Final.antt =====
-- What threads can rely on of a shared `CancellationToken` (app/conversation/cancellation_token.py).
use manus_claw.Prelude.{
  ℕ, String, ◌≡◌, inl, arith, true, inr, Bool, some, ◌⊎◌, refl, ap, ◌∙◌, false,
}
use manus_claw.Cancellation.Token.{
  is_cancelled, reason, cancelled_at, raise_if_cancelled, wait_and_raise, wait, CancellationToken,
}
use manus_claw.Cancellation.Threads.{
  Threads, Place, Reach, here, next, call, enter, give_reason, give_time, set_event, sharing, idle,
  timing, notifying, cancelling, giving_reason, call_step, enter_step, reason_step, time_step,
  set_step,
}
use manus_claw.Cancellation.Settled.{is_setting, IsFinal, Reach-Inv, Settled-IsFinal}

-- Once the time of the cancellation of a shared token is set, the token is cancelled, and no steps
-- of any threads, later calls of `cancel` among them, change that, its reason or the time.
pub first_cancel-IsFinal :
    (why : String) (at : ℕ) (s t : Threads)
    → Reach (sharing why) s
    → cancelled_at s.token ≡ some at
    → Reach s t
    → IsFinal s t
unfolding cancelled_at
first_cancel-IsFinal why at s t r dated r' =
    Settled-IsFinal why s t r ((Reach-Inv why s r).dated at dated) r'

-- The thread sets the event by its own next steps.
sets_event :
    (i : ℕ) (s : Threads) (p : Place)
    → s.place i ≡ p
    → is_setting p ≡ true
    → (t : Threads) × Reach s t × (t.token.event ≡ true)
unfolding give_reason give_time set_event
sets_event i s notifying e q = (set_event i s, next here (set_step i e), refl)
sets_event i s timing e q =
    let u = give_time i 0 s in
    (set_event i u, next (next here (time_step i 0 e)) (set_step i (ground arith)), refl)
sets_event i s (giving_reason why) e q =
    let u = give_reason i why s in
    let v = give_time i 0 u in
    (
      set_event i v,
      next (next (next here (reason_step i why e)) (time_step i 0 (ground arith)))
          (set_step i (ground arith)),
      refl,
    )
sets_event i s idle e q = cc
sets_event i s (cancelling why) e q = cc

-- When a token that threads share is cancelled, a thread blocked in `wait` goes on with `True`, or
-- some thread is in `cancel` with the flag set and the event to be set, and steps lead to a state in
-- which a thread blocked in `wait` goes on with `True`.
pub cancelled_wakes_waiters :
    (why : String) (s : Threads)
    → Reach (sharing why) s
    → is_cancelled s.token ≡ true
    → (wait false s.token ≡ some true)
      ⊎ ((i : ℕ) × (is_setting (s.place i) ≡ true)
          × ((t : Threads) × Reach s t × (wait false t.token ≡ some true)))
unfolding is_cancelled wait
cancelled_wakes_waiters why s r c = elim ((Reach-Inv why s r).woken c) [
  | inl e ↦ inl (rw e refl)
  | inr (i, q) ↦
      (let (t, steps, set) = sets_event i s (s.place i) refl q in
        inr (i, q, (t, steps, rw set refl)))
]

-- An error of `wait_and_raise` says that the event is set, and carries the token's reason.
wait_and_raise_facts :
    (told : String) (expired : Bool) (t : CancellationToken)
    → wait_and_raise expired t ≡ some (some told)
    → (t.event ≡ true) × (reason t ≡ told)
unfolding wait_and_raise reason
wait_and_raise_facts told expired t w = ground arith

-- When `wait_and_raise` on a shared token raises an error, `raise_if_cancelled` raises the same one
-- in that state and, with the same reason, in every later state.
pub wait_and_raise-agrees :
    (why told : String) (expired : Bool) (s t : Threads)
    → Reach (sharing why) s
    → wait_and_raise expired s.token ≡ some (some told)
    → Reach s t
    → raise_if_cancelled t.token ≡ some told
unfolding wait_and_raise raise_if_cancelled is_cancelled reason
wait_and_raise-agrees why told expired s t r w r' =
    let (set, e) = wait_and_raise_facts told expired s.token w in
    let final = Settled-IsFinal why s t r ((Reach-Inv why s r).set_late set) r' in
    rw final.0 (ap some (final.1 ∙ e))

-- While a first `cancel` is between its assignments, `raise_if_cancelled` raises an error with the
-- token's first reason, and later one with the reason of the call.
raises_first_reason :
    (why given : String) (i : ℕ)
    → (s t : Threads) × Reach (sharing why) s
      × Reach s t
      × (raise_if_cancelled s.token ≡ some why)
      × (raise_if_cancelled t.token ≡ some given)
unfolding sharing call enter give_reason give_time raise_if_cancelled
raises_first_reason why given i =
    let called = call i given (sharing why) in
    let s = enter i given called in
    (
      s,
      give_reason i given s,
      next (next here (call_step i given refl)) (enter_step i given (ground arith) refl),
      next here (reason_step i given (ground arith)),
      refl,
      refl,
    )
