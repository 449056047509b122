-- ===== src/StuckDetector/Events.antt =====
-- The helpers on events at the top of app/conversation/stuck_detector.py. An event is the record
-- of the attributes that `getattr` looks up, each with the default the source gives; an attribute
-- with two different defaults is an `Option`. `as_text` is `str(event)`, and `class_name` is
-- `type(event).__name__`. `digest` is the hexadecimal MD5 digest of a text (hashlib).
use manus_claw.Prelude.{
  String, append_text, Bool, true, false, not, ◌||◌, Option, none, some, List, [], ◌∷◌, str_eq,
  colon, take_chars, codes, is_infix, lower, one_of, if◌then◌else◌, ℕ,
}

pub record Function : Type 0 where
  pub name : String
  pub arguments : String

-- A tool call with a `function`, or one without, known by its text.
pub data ToolCall : Type 0 where
  function : Function → ToolCall
  opaque : String → ToolCall

pub record Event : Type 0 where
  pub kind : String
  pub tool_call : Option ToolCall
  pub as_text : String
  pub tool_name : String
  pub content : String
  pub error_type : Option String
  pub class_name : String
  pub error : String
  pub source : String
  pub role : String
  pub success : Bool

unfoldable pub is_action : Event → Bool
is_action event = str_eq event.kind "action"

unfoldable pub is_observation : Event → Bool
is_observation event = str_eq event.kind "observation"

unfoldable pub is_error : Event → Bool
is_error event = one_of event.kind ("agent_error" ∷ "conversation_error" ∷ [])

unfoldable pub is_user_message : Event → Bool
is_user_message event =
    if str_eq event.kind "message"
    then str_eq event.source "user" || str_eq event.role "user"
    else false

abbrev context_keywords : List String
context_keywords =
    "token" ∷ "context" ∷ "window" ∷ "maximum" ∷ "too many" ∷ "exceed" ∷ "length" ∷ "context_length"
    ∷ []

any_keyword : List String → List ℕ → Bool
any_keyword [] combined = false
any_keyword (keyword ∷ keywords) combined =
    is_infix (codes keyword) combined || any_keyword keywords combined

-- `getattr(event, "error_type", "")`
abbrev error_type_or : String → Option String → String
error_type_or default none = default
error_type_or default (some name) = name

unfoldable pub is_context_window_error : Event → Bool
unfolding any_keyword is_infix lower
is_context_window_error event =
    if str_eq event.kind "condensation_request"
    then true
    else if one_of event.kind ("agent_error" ∷ "conversation_error" ∷ [])
    then any_keyword context_keywords (
        lower
          (codes (append_text (error_type_or "" event.error_type) (append_text " " event.error))))
    else false

unfoldable pub is_failed_observation : Event → Bool
unfolding is_observation
is_failed_observation event = if not (is_observation event) then false else not event.success

-- `kind in ("action", "message", "observation")`
unfoldable pub is_convertible : Event → Bool
is_convertible event = one_of event.kind ("action" ∷ "message" ∷ "observation" ∷ [])

module _ (digest : String → String) where
  action_text : Option ToolCall → String → String
  action_text none as_text = as_text
  action_text (some (function f)) as_text = colon f.name f.arguments
  action_text (some (opaque text)) as_text = text

  unfoldable pub action_fingerprint : Event → String
  unfolding action_text
  action_fingerprint event = take_chars 12 (digest (action_text event.tool_call event.as_text))

  unfoldable pub observation_fingerprint : Event → String
  observation_fingerprint event =
      take_chars 12 (digest (colon event.tool_name (take_chars 200 event.content)))

  unfoldable pub error_fingerprint : Event → String
  error_fingerprint event = take_chars 12 (
      digest (colon (error_type_or event.class_name event.error_type) (take_chars 200 event.error)))
