-- ===== src/Cancellation/Tests.antt =====
-- Runs of the token of app/conversation/cancellation_token.py.
use manus_claw.Prelude.{ℕ, refl, false, ◌≡◌, some, true, ◌⊎◌}
use manus_claw.Cancellation.Token.{
  is_cancelled, wait, wait_and_raise, raise_if_cancelled, cancelled_at,
}
use manus_claw.Cancellation.Threads.{
  Threads, Reach, here, next, call, enter, give_reason, give_time, set_event, sharing, call_step,
  enter_step, reason_step, time_step, set_step,
}
use manus_claw.Cancellation.Settled.{is_setting, IsFinal}
use manus_claw.Cancellation.Final.{
  first_cancel-IsFinal, cancelled_wakes_waiters, wait_and_raise-agrees,
}

-- Thread 1 is in `cancel`, with the flag set.
abbrev marked : Threads
marked = enter 1 "stop" (call 1 "stop" (sharing ""))

marked_reached : Reach (sharing "") marked
unfolding sharing call
marked_reached = next (next here (call_step 1 "stop" refl)) (enter_step 1 "stop" refl refl)

-- It has left the block, and then the event is set.
abbrev dated : Threads
dated = give_time 1 7 (give_reason 1 "stop" marked)

abbrev told : Threads
told = set_event 1 dated

told_reached : Reach (sharing "") told
unfolding sharing call enter give_reason give_time
told_reached =
    next (next (next marked_reached (reason_step 1 "stop" refl)) (time_step 1 7 refl))
      (set_step 1 refl)

-- Thread 2 cancels once more.
abbrev again : Threads
again = enter 2 "stop again" (call 2 "stop again" told)

again_reached : Reach told again
unfolding sharing call enter give_reason give_time set_event
again_reached =
    next (next here (call_step 2 "stop again" refl)) (enter_step 2 "stop again" refl refl)

first_cancel-IsFinal_example : IsFinal told again
first_cancel-IsFinal_example =
    first_cancel-IsFinal "" 7 told again told_reached
      (unfold cancelled_at sharing call enter give_reason give_time set_event in refl) again_reached

cancelled_wakes_waiters_example :
    (wait false marked.token ≡ some true)
    ⊎ ((i : ℕ) × (is_setting (marked.place i) ≡ true)
        × ((t : Threads) × Reach marked t × (wait false t.token ≡ some true)))
cancelled_wakes_waiters_example =
    cancelled_wakes_waiters "" marked marked_reached
      (unfold is_cancelled sharing call enter in refl)

wait_and_raise-agrees_example : raise_if_cancelled again.token ≡ some "stop"
wait_and_raise-agrees_example =
    wait_and_raise-agrees "" "stop" false told again told_reached
      (unfold wait_and_raise sharing call enter give_reason give_time set_event in refl)
      again_reached
