-- ===== src/Context/Tests.antt =====
-- Runs of the view and the condenser of app/context.
use manus_claw.Prelude.{String, Option, none, some, List, [], ◌∷◌, ◌≡◌, refl, true, false}
use manus_claw.Context.Events.{Event, ToolCall, is_tool, is_caller, tool_call_ids}
use manus_claw.Context.Batches.{batch_safe, batch_enforce, batch_check}
use manus_claw.Context.Uniqueness.{repeats, uniqueness_check}
use manus_claw.Context.Matching.{matching_safe, matching_check}
use manus_claw.Context.Loops.{all_but_first}
use manus_claw.Context.View.{new_view, enforce_properties, manipulation_indices, compute_indices}
use manus_claw.Context.View.Coherence.{
  Call, calls_add, sets_keep_first, reads_manipulation_indices, after_all,
  manipulation_indices-eq-compute_indices,
}
use manus_claw.Context.View.Disorder.{batch_enforce-keeps_disorder}
use manus_claw.Context.View.Enforced.{enforce_properties-checks}
use manus_claw.Context.Rolling.{condense, tokens, CondensationAction}
use manus_claw.Context.Rolling.Window.{AllIds, IsIdAt, IsRemovable, condense-IsRemovable}

abbrev event : String → String → Option (List ToolCall) → Option String → Event
event id role tool_calls tool_call_id = record {
  id = id;
  role = role;
  content = none;
  tool_calls = tool_calls;
  tool_call_id = tool_call_id;
  name = none;
  batch_id = none;
}

abbrev call : String → ToolCall
call id = record { id = some id; type = none; function = none }

abbrev asks : Event
asks = event "e1" "user" none none

abbrev calls_twice : Event
calls_twice = event "e2" "assistant" (some (call "a" ∷ call "b" ∷ [])) none

abbrev answers : String → String → Event
answers id tool_call_id = event id "tool" none (some tool_call_id)

-- The call `b` has no response, and `a` has two.
abbrev history : List Event
history = asks ∷ calls_twice ∷ answers "e3" "a" ∷ answers "e4" "a" ∷ asks ∷ asks ∷ []

enforce_properties-checks_example :
    let out = (enforce_properties (new_view history [] 1)).events in
    (uniqueness_check [] out ≡ true) × (matching_check out ≡ true)
enforce_properties-checks_example = enforce_properties-checks history 1

abbrev some_calls : List Call
some_calls = reads_manipulation_indices ∷ calls_add asks ∷ sets_keep_first 2 ∷ []

manipulation_indices-eq-compute_indices_example :
    let v = after_all some_calls (new_view history [] 1) in
    (manipulation_indices v).0 ≡ compute_indices v
manipulation_indices-eq-compute_indices_example =
    manipulation_indices-eq-compute_indices history [] 1 some_calls

batch_enforce-keeps_disorder_example :
    let t = answers "e1" "a" in
    let a = event "e2" "assistant" (some (call "a" ∷ [])) none in
    (batch_enforce (t ∷ a ∷ []) ≡ t ∷ a ∷ [])
    × (batch_check [] (batch_enforce (t ∷ a ∷ [])) ≡ false)
unfolding is_tool is_caller tool_call_ids
batch_enforce-keeps_disorder_example =
    batch_enforce-keeps_disorder (answers "e1" "a")
      (event "e2" "assistant" (some (call "a" ∷ [])) none) "a" refl refl refl refl refl

abbrev chat : List Event
chat =
    event "e1" "user" none none
    ∷ event "e2" "user" none none
    ∷ event "e3" "user" none none
    ∷ event "e4" "user" none none
    ∷ []

-- With one event to keep in front and at most two in all, `e2` goes.
abbrev made : CondensationAction
made = record { forgotten_event_ids = "e2" ∷ []; summary = none; reason = tokens }

chat_condensed : (condense 2 (new_view chat [] 1) tokens).0 ≡ some made
unfolding condense new_view batch_safe repeats matching_safe all_but_first
chat_condensed = refl

condense-IsRemovable_example :
    let v = new_view chat [] 1 in
    AllIds
      (λ id. IsIdAt (IsRemovable 1 2 (manipulation_indices v).0) id 0 chat)
      made.forgotten_event_ids
unfolding new_view
condense-IsRemovable_example =
    condense-IsRemovable 2 (new_view chat [] 1) tokens made chat_condensed
