-- ===== src/Context/Events.antt =====
-- `Event` and `ViewProperty` of app/context/view_properties.py. A tool call is a dict of which any
-- key may be missing; the metadata of an event, which nothing here reads, is left out. A set of
-- texts or of positions is the list of what was added to it.
use manus_claw.Prelude.{
  ℕ, Bool, true, false, ◌&&◌, String, Option, none, some, List, [], ◌∷◌, ◌++◌, str_eq, one_of,
  if◌then◌else◌, ◌≡◌, ap, arith, eq_iff,
}

pub record CallFunction : Type 0 where
  pub name : Option String
  pub arguments : Option String

pub record ToolCall : Type 0 where
  pub id : Option String
  pub type : Option String
  pub function : Option CallFunction

pub record Event : Type 0 where
  pub id : String
  pub role : String
  pub content : Option String
  pub tool_calls : Option (List ToolCall)
  pub tool_call_id : Option String
  pub name : Option String
  pub batch_id : Option String

unfoldable pub is_assistant : Event → Bool
is_assistant e = str_eq e.role "assistant"

unfoldable pub is_tool : Event → Bool
is_tool e = str_eq e.role "tool"

unfoldable pub calls_of : Option (List ToolCall) → List ToolCall
calls_of none = []
calls_of (some calls) = calls

abbrev is_nonempty {ℓ} : {A : Type ℓ} → List A → Bool
is_nonempty [] = false
is_nonempty (a ∷ as') = true

unfoldable pub has_tool_calls : Event → Bool
unfolding calls_of
has_tool_calls e = is_nonempty (calls_of e.tool_calls)

abbrev pub with_id : Option String → List String → List String
with_id none ids = ids
with_id (some i) ids = i ∷ ids

-- `[tc["id"] for tc in calls if "id" in tc]`
unfoldable pub ids_of : List ToolCall → List String
ids_of [] = []
ids_of (c ∷ calls) = with_id c.id (ids_of calls)

unfoldable pub tool_call_ids : Event → List String
unfolding calls_of ids_of
tool_call_ids e = ids_of (calls_of e.tool_calls)

-- `event.is_assistant and event.has_tool_calls`
unfoldable pub is_caller : Event → Bool
unfolding is_assistant has_tool_calls
is_caller e = is_assistant e && has_tool_calls e

-- An optional text that is neither missing nor empty, as `if text` tests it.
unfoldable pub truthy : Option String → Option String
truthy none = none
truthy (some s) = if str_eq s "" then none else some s

-- The call that a response answers: `event.tool_call_id` where `event.is_tool and
-- event.tool_call_id`.
unfoldable pub response_id : Event → Option String
unfolding truthy is_tool
response_id e = if is_tool e then truthy e.tool_call_id else none

-- `text in texts`, where the text may be None.
unfoldable pub is_in : Option String → List String → Bool
is_in none ids = false
is_in (some i) ids = one_of i ids

-- The ids of all calls of assistants in the list.
unfoldable pub declared_ids : List Event → List String
unfolding is_caller tool_call_ids
declared_ids [] = []
declared_ids (e ∷ es) =
    let rest = declared_ids es in if is_caller e then tool_call_ids e ++ rest else rest

-- The ids that the responses in the list answer.
unfoldable pub response_ids : List Event → List String
unfolding response_id
response_ids [] = []
response_ids (e ∷ es) = with_id (response_id e) (response_ids es)

pub tool_not_assistant : (e : Event) → is_tool e ≡ true → is_assistant e ≡ false
unfolding is_tool is_assistant
tool_not_assistant e tool = ap (λ r. str_eq r "assistant") ((eq_iff e.role "tool").0 tool)

pub assistant_not_tool : (e : Event) → is_assistant e ≡ true → is_tool e ≡ false
unfolding is_tool is_assistant
assistant_not_tool e assistant = ap (λ r. str_eq r "tool") ((eq_iff e.role "assistant").0 assistant)

pub caller_assistant : (e : Event) → is_caller e ≡ true → is_assistant e ≡ true
unfolding is_caller
caller_assistant e caller = ground (arith, caller)

pub record ViewProperty : Type 0 where
  pub class_name : String
  pub check : List Event → Bool
  pub enforce : List Event → List Event
  pub safe_indices : List Event → List ℕ
