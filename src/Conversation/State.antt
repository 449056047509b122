-- ===== src/Conversation/State.antt =====
-- `ExecutionStatus`, `SecretRegistry` and `ConversationState` of app/conversation/state.py. The lock's
-- blocks are steps; the references to the event log, the view, the policy and the analyzer are left
-- out, and the values of a blocked action are texts.
use manus_claw.Prelude.{
  ℕ, zero, suc, ◌-◌, Bool, true, false, ◌||◌, String, Option, none, some, List, [], ◌∷◌, ◌++◌, ◌==◌,
  snoc, length, str_eq, codes, is_prefix, is_infix, if◌then◌else◌, Dict, insert, remove, string_eq,
}

pub data ExecutionStatus : Type 0 where
  idle running paused finished error : ExecutionStatus

unfoldable pub is_terminal : ExecutionStatus → Bool
is_terminal idle = false
is_terminal running = false
is_terminal paused = false
is_terminal finished = true
is_terminal error = true

abbrev status_number : ExecutionStatus → ℕ
status_number idle = 0
status_number running = 1
status_number paused = 2
status_number finished = 3
status_number error = 4

abbrev pub same_status : ExecutionStatus → ExecutionStatus → Bool
same_status s t = status_number s == status_number t

-- `_VALID_TRANSITIONS`
unfoldable pub valid_transitions : ExecutionStatus → List ExecutionStatus
valid_transitions idle = running ∷ []
valid_transitions running = finished ∷ paused ∷ error ∷ idle ∷ []
valid_transitions paused = running ∷ error ∷ []
valid_transitions finished = []
valid_transitions error = []

unfoldable pub has_status : ExecutionStatus → List ExecutionStatus → Bool
has_status s [] = false
has_status s (t ∷ ts) = same_status s t || has_status s ts

unfoldable pub is_valid : ExecutionStatus → ExecutionStatus → Bool
unfolding has_status valid_transitions
is_valid old new_status = has_status new_status (valid_transitions old)

abbrev pub Info : Type 0
Info = Dict String String

pub record ConversationState : Type 0 where
  pub id : String
  pub status : ExecutionStatus
  pub secrets : Dict String String
  pub blocked_actions : List Info
  pub blocked_messages : List Info
  pub updated_at : Option ℕ
  pub error_message : Option String
  pub pause_reason : Option String

unfoldable pub new_state : String → ConversationState
new_state id = record {
  id = id;
  status = idle;
  secrets = [];
  blocked_actions = [];
  blocked_messages = [];
  updated_at = none;
  error_message = none;
  pause_reason = none;
}

-- What a transition to the status clears.
unfoldable pub cleared : ExecutionStatus → ConversationState → ConversationState
cleared idle s = record s { error_message = none; pause_reason = none }
cleared running s = record s { pause_reason = none }
cleared paused s = s
cleared finished s = s
cleared error s = s

-- The previous status, or the ValueError, and the state after.
unfoldable pub set_status :
    ℕ → ExecutionStatus → ConversationState → Option ExecutionStatus × ConversationState
unfolding is_valid cleared
set_status now new_status s =
    if is_valid s.status new_status
    then (
      some s.status,
      cleared new_status (record s { status = new_status; updated_at = some now }),
    )
    else if same_status s.status new_status
    then (some s.status, s)
    else (none, s)

is_some : Option ExecutionStatus → Bool
is_some none = false
is_some (some s) = true

unfoldable pub try_set_status : ℕ → ExecutionStatus → ConversationState → Bool × ConversationState
unfolding set_status is_some
try_set_status now new_status s =
    let (result, t) = set_status now new_status s in (is_some result, t)

unfoldable pub add_blocked_action : Info → ConversationState → ConversationState
add_blocked_action action s = record s { blocked_actions = snoc s.blocked_actions action }

unfoldable pub add_blocked_message : Info → ConversationState → ConversationState
add_blocked_message message s = record s { blocked_messages = snoc s.blocked_messages message }

unfoldable pub set_error_message : Option String → ConversationState → ConversationState
set_error_message value s = record s { error_message = value }

unfoldable pub set_pause_reason : Option String → ConversationState → ConversationState
set_pause_reason value s = record s { pause_reason = value }

-- `SecretRegistry.register`
unfoldable pub register_secret : String → String → ConversationState → ConversationState
unfolding insert
register_secret key value s =
    if str_eq value "" then s else record s { secrets = insert key value s.secrets }

unfoldable pub unregister_secret : String → ConversationState → ConversationState
unfolding remove
unregister_secret key s = record s { secrets = remove key s.secrets }

unfoldable pub clear_secrets : ConversationState → ConversationState
clear_secrets s = record s { secrets = [] }

-- `text.replace(old, new)` on code points, for an `old` that is not empty; `skip` counts what is left
-- of an occurrence.
unfoldable pub replace : List ℕ → List ℕ → ℕ → List ℕ → List ℕ
replace old new skip [] = []
replace old new zero (x ∷ xs) =
    let rest = replace old new zero xs in
    let behind = replace old new (length old - 1) xs in
    if is_prefix old (x ∷ xs) then new ++ behind else x ∷ rest
replace old new (suc skip) (x ∷ xs) = replace old new skip xs

-- `<REDACTED:key>`
unfoldable pub placeholder : String → List ℕ
placeholder key = codes "<REDACTED:" ++ (codes key ++ codes ">")

-- `SecretRegistry.redact`, on code points.
unfoldable pub redact : Dict String String → List ℕ → List ℕ
unfolding replace placeholder
redact [] text = text
redact ((key, value) ∷ secrets) text = redact secrets (
    if str_eq value ""
    then text
    else if is_infix (codes value) text
    then replace (codes value) (placeholder key) 0 text
    else text)

-- The counts and texts of `snapshot`.
pub record Snapshot : Type 0 where
  pub id : String
  pub status : ExecutionStatus
  pub error_message : Option String
  pub pause_reason : Option String
  pub blocked_actions_count : ℕ
  pub blocked_messages_count : ℕ
  pub secret_count : ℕ

unfoldable pub snapshot : ConversationState → Snapshot
snapshot s = record {
  id = s.id;
  status = s.status;
  error_message = s.error_message;
  pause_reason = s.pause_reason;
  blocked_actions_count = length s.blocked_actions;
  blocked_messages_count = length s.blocked_messages;
  secret_count = length s.secrets;
}
