-- ===== src/Cancellation/Token.antt =====
-- `CancellationToken` of app/conversation/cancellation_token.py. Time is a number of ticks of the
-- monotonic clock; the event's flag is the field `event`.
use manus_claw.Prelude.{ℕ, ◌-◌, Bool, true, false, String, Option, none, some, if◌then◌else◌}

pub record CancellationToken : Type 0 where
  pub cancelled : Bool
  pub why : String
  pub event : Bool
  pub at : Option ℕ

unfoldable pub new_token : String → CancellationToken
new_token reason = record { cancelled = false; why = reason; event = false; at = none }

-- The test of `cancel` under `self._lock`, and `self._cancelled = True`: whether the call goes on.
unfoldable pub mark : CancellationToken → Bool × CancellationToken
mark t = if t.cancelled then (false, t) else (true, record t { cancelled = true })

-- `self._reason = reason`
unfoldable pub set_reason : String → CancellationToken → CancellationToken
set_reason reason t = record t { why = reason }

-- `self._cancelled_at = time.monotonic()`
unfoldable pub set_time : ℕ → CancellationToken → CancellationToken
set_time now t = record t { at = some now }

-- `self._event.set()`
unfoldable pub notify : CancellationToken → CancellationToken
notify t = record t { event = true }

-- `cancel`, run with no other thread between its parts.
unfoldable pub cancel : String → ℕ → CancellationToken → CancellationToken
unfolding mark set_reason set_time notify
cancel reason now t =
    let (goes_on, t') = mark t in
    if goes_on then notify (set_time now (set_reason reason t')) else t'

unfoldable pub is_cancelled : CancellationToken → Bool
is_cancelled t = t.cancelled

unfoldable pub reason : CancellationToken → String
reason t = t.why

unfoldable pub cancelled_at : CancellationToken → Option ℕ
cancelled_at t = t.at

elapsed : ℕ → Option ℕ → Option ℕ
elapsed now none = none
elapsed now (some at) = some (now - at)

unfoldable pub elapsed_since_cancel : ℕ → CancellationToken → Option ℕ
unfolding elapsed
elapsed_since_cancel now t = elapsed now t.at

-- The reason of the CancelledError it raises, if it raises one.
unfoldable pub raise_if_cancelled : CancellationToken → Option String
raise_if_cancelled t = if t.cancelled then some t.why else none

unfoldable pub check : CancellationToken → Bool
check t = t.cancelled

-- `wait`, looked at in one state: `none` when the thread stays blocked, else the returned flag.
unfoldable pub wait : Bool → CancellationToken → Option Bool
wait expired t = if t.event then some true else if expired then some false else none

raised : String → Option Bool → Option (Option String)
raised why none = none
raised why (some true) = some (some why)
raised why (some false) = some none

-- `wait_and_raise`: `none` when the thread stays blocked, else the reason of the CancelledError it
-- raises, if it raises one.
unfoldable pub wait_and_raise : Bool → CancellationToken → Option (Option String)
unfolding wait raised
wait_and_raise expired t = raised t.why (wait expired t)

-- `__exit__`, run with no other thread between its test and the call.
unfoldable pub exit : ℕ → CancellationToken → CancellationToken
unfolding cancel
exit now t = if t.cancelled then t else cancel "CancellationToken context exited" now t
