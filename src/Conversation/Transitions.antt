-- ===== src/Conversation/Transitions.antt =====
-- The state machine of app/conversation/state.py.
use manus_claw.Prelude.{◌⊎◌, ℕ, String, Option, List, [], ◌∷◌, ◌≡◌, ◌⊎◌}
use manus_claw.Conversation.State.{
  ExecutionStatus, idle, running, paused, finished, error, ConversationState, Info, set_status,
  try_set_status, add_blocked_action, add_blocked_message, set_error_message, set_pause_reason,
  register_secret, unregister_secret, clear_secrets,
}

-- The moves of the state machine.
pub data Moves : ExecutionStatus → ExecutionStatus → Type 0 where
  starts : Moves idle running
  finishes : Moves running finished
  pauses : Moves running paused
  fails : Moves running error
  resets : Moves running idle
  resumes : Moves paused running
  fails_paused : Moves paused error

-- Any number of moves.
pub data Reaches : ExecutionStatus → ExecutionStatus → Type 0 where
  here : {s : ExecutionStatus} → Reaches s s
  next : {s t u : ExecutionStatus} → Reaches s t → Moves t u → Reaches s u

-- A call of a method that changes the state.
pub data Call : Type 0 where
  sets_status tries_status : ℕ → ExecutionStatus → Call
  sets_error_message sets_pause_reason : Option String → Call
  adds_blocked_action adds_blocked_message : Info → Call
  registers_secret : String → String → Call
  unregisters_secret : String → Call
  clears_secrets : Call

abbrev pub after : Call → ConversationState → ConversationState
after (sets_status now new_status) s = (set_status now new_status s).1
after (tries_status now new_status) s = (try_set_status now new_status s).1
after (sets_error_message value) s = set_error_message value s
after (sets_pause_reason value) s = set_pause_reason value s
after (adds_blocked_action action) s = add_blocked_action action s
after (adds_blocked_message message) s = add_blocked_message message s
after (registers_secret key value) s = register_secret key value s
after (unregisters_secret key) s = unregister_secret key s
after clears_secrets s = clear_secrets s

abbrev pub after_all : List Call → ConversationState → ConversationState
after_all [] s = s
after_all (call ∷ calls) s = after_all calls (after call s)

-- The status moves, or stays as it is.
abbrev IsStep : ExecutionStatus → ExecutionStatus → Type 0
IsStep s t = Moves s t ⊎ (t ≡ s)
