-- ===== src/Hooks/Types.antt =====
-- app/hooks/types.py and `HookBase` of app/hooks/base.py. Values of any type (arguments and results of
-- tools, metadata) are left out, and a priority is a natural number.
use manus_claw.Prelude.{
  ℕ, Bool, true, ◌&&◌, String, Option, none, some, List, [], ◌∷◌, ◌≡◌, refl, sym, ap, ◌∙◌, ◌==◌,
  ==_iff, Eq, if◌then◌else◌, ◌↔◌, false,
}

pub data HookEventType : Type 0 where
  session_start user_prompt_submit pre_tool_use post_tool_use stop session_end : HookEventType

abbrev pub event_number : HookEventType → ℕ
event_number session_start = 0
event_number user_prompt_submit = 1
event_number pre_tool_use = 2
event_number post_tool_use = 3
event_number stop = 4
event_number session_end = 5

event_of : ℕ → HookEventType
event_of n =
    if n == 0
    then session_start
    else if n == 1
    then user_prompt_submit
    else if n == 2
    then pre_tool_use
    else if n == 3
    then post_tool_use
    else if n == 4
    then stop
    else session_end

event_of-event_number : (t : HookEventType) → event_of (event_number t) ≡ t
unfolding event_of
event_of-event_number session_start = refl
event_of-event_number user_prompt_submit = refl
event_of-event_number pre_tool_use = refl
event_of-event_number post_tool_use = refl
event_of-event_number stop = refl
event_of-event_number session_end = refl

abbrev pub same_event : HookEventType → HookEventType → Bool
same_event t u = event_number t == event_number u

pub same_event_iff : (t u : HookEventType) → (same_event t u ≡ true) ↔ (t ≡ u)
same_event_iff t u = (
  λ h.
      sym (event_of-event_number t)
      ∙ ap event_of ((==_iff (event_number t) (event_number u)).0 h)
      ∙ event_of-event_number u,
  λ p. (==_iff (event_number t) (event_number u)).1 (ap event_number p),
)

instance abbrev pub event_eq : Eq HookEventType
event_eq = record { beq = same_event; beq_iff = same_event_iff }

-- `event_type in self.subscribed_events`
unfoldable pub has_event : HookEventType → List HookEventType → Bool
has_event t [] = false
has_event t (u ∷ events) = if same_event t u then true else has_event t events

pub data HookDecision : Type 0 where
  allowed denied modified : HookDecision

pub record HookContext : Type 0 where
  pub event_type : HookEventType
  pub conversation_id : String
  pub agent_name : String
  pub source : String
  pub tool_name : Option String
  pub user_message : Option String

pub record HookResult : Type 0 where
  pub decision : HookDecision
  pub modified_content : Option String
  pub reason : String

unfoldable pub allow : String → HookResult
allow reason = record { decision = allowed; modified_content = none; reason = reason }

unfoldable pub deny : String → HookResult
deny reason = record { decision = denied; modified_content = none; reason = reason }

unfoldable pub modify : String → String → HookResult
modify content reason = record {
  decision = modified;
  modified_content = some content;
  reason = reason;
}

-- What comes of awaiting `on_event` under its timeout: a result, a value of another type, the
-- TimeoutError, or another exception with its text.
pub data Reply : Type 0 where
  returned : HookResult → Reply
  other_value timed_out : Reply
  raised : String → Reply

pub record Hook : Type 0 where
  pub name : String
  pub priority : ℕ
  pub enabled : Bool
  pub subscribed_events : List HookEventType
  pub fail_open : Bool
  pub on_event : HookContext → Reply

unfoldable pub is_subscribed : HookEventType → Hook → Bool
unfolding has_event
is_subscribed t h = h.enabled && has_event t h.subscribed_events

-- `HookError` and, for a timeout, `HookTimeoutError`.
pub data HookError : Type 0 where
  hook_error : String → HookEventType → String → HookError
  hook_timeout : String → HookEventType → HookError
