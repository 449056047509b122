-- ===== src/Cancellation/Threads.antt =====
-- Threads that share a `CancellationToken` (app/conversation/cancellation_token.py). A call of
-- `cancel` takes a step for each assignment of its block under the lock and one for the event's
-- `set`, and the properties are read without the lock, so in any state between them. `__exit__`
-- tests the flag in a step of its own.
use manus_claw.Prelude.{ℕ, Bool, ◌≡◌, String, Option, none, some, update, if◌then◌else◌}
use manus_claw.Cancellation.Token.{CancellationToken, new_token, mark, set_reason, set_time, notify}

-- Where a thread is in `cancel`: before the block, with the flag set, with the reason set, and
-- behind the block.
pub data Place : Type 0 where
  idle timing notifying : Place
  cancelling giving_reason : String → Place

-- `holder` is the thread that holds `self._lock`.
pub record Threads : Type 0 where
  pub token : CancellationToken
  pub holder : Option ℕ
  pub place : ℕ → Place

unfoldable pub sharing : String → Threads
unfolding new_token
sharing reason = record { token = new_token reason; holder = none; place = λ _. idle }

-- The call of `cancel`.
unfoldable pub call : ℕ → String → Threads → Threads
call i reason s = record s { place = update s.place i (cancelling reason) }

-- The test of `__exit__`.
unfoldable pub leave : ℕ → Threads → Threads
leave i s = record s {
  place =
      update s.place i
        (if s.token.cancelled then idle else cancelling "CancellationToken context exited");
}

abbrev entered : ℕ → String → Threads → Bool × CancellationToken → Threads
entered i reason s (goes_on, t) = record {
  token = t;
  holder = if goes_on then some i else none;
  place = update s.place i (if goes_on then giving_reason reason else idle);
}

-- The lock is taken, and the flag tested and set; a thread that finds it set gives the lock back.
unfoldable pub enter : ℕ → String → Threads → Threads
unfolding mark
enter i reason s = entered i reason s (mark s.token)

unfoldable pub give_reason : ℕ → String → Threads → Threads
unfolding set_reason
give_reason i reason s = record s {
  token = set_reason reason s.token;
  place = update s.place i timing;
}

-- The time is set, and the lock given back.
unfoldable pub give_time : ℕ → ℕ → Threads → Threads
unfolding set_time
give_time i now s = record {
  token = set_time now s.token;
  holder = none;
  place = update s.place i notifying;
}

unfoldable pub set_event : ℕ → Threads → Threads
unfolding notify
set_event i s = record s { token = notify s.token; place = update s.place i idle }

pub data Step (s : Threads) : Threads → Type 0 where
  call_step : (i : ℕ) (reason : String) → s.place i ≡ idle → Step s (call i reason s)
  leave_step : (i : ℕ) → s.place i ≡ idle → Step s (leave i s)
  enter_step :
      (i : ℕ) (reason : String)
      → s.place i ≡ cancelling reason
      → s.holder ≡ none
      → Step s (enter i reason s)
  reason_step :
      (i : ℕ) (reason : String) → s.place i ≡ giving_reason reason → Step s (give_reason i reason s)
  time_step : (i now : ℕ) → s.place i ≡ timing → Step s (give_time i now s)
  set_step : (i : ℕ) → s.place i ≡ notifying → Step s (set_event i s)

pub data Reach (s : Threads) : Threads → Type 0 where
  here : Reach s s
  next : {t u : Threads} → Reach s t → Step t u → Reach s u
