-- ===== src/Context/Batches.antt =====
-- `BatchAtomicity` of app/context/view_properties.py.
use manus_claw.Prelude.{
  ℕ, zero, suc, Bool, true, false, ◌||◌, String, Option, none, some, List, [], ◌∷◌, ◌++◌, ◌==◌,
  elem, snoc, one_of, if◌then◌else◌, Dict, string_eq, insert, lookup,
}
use manus_claw.Context.Events.{
  Event, is_assistant, is_tool, is_caller, tool_call_ids, is_in, declared_ids, response_ids,
  response_id, ViewProperty,
}

-- The loop of `check`, with the ids of the assistants so far.
unfoldable pub batch_check : List String → List Event → Bool
unfolding is_caller tool_call_ids is_in is_tool
batch_check active [] = true
batch_check active (e ∷ es) =
    let called = batch_check (active ++ tool_call_ids e) es in
    let rest = batch_check active es in
    if is_caller e
    then called
    else if is_assistant e
    then rest
    else if is_tool e
    then (if is_in e.tool_call_id active then rest else false)
    else rest

-- `any(tc_id in tool_response_ids for tc_id in event.tool_call_ids)`
unfoldable pub any_in : List String → List String → Bool
any_in [] responses = false
any_in (i ∷ ids) responses = one_of i responses || any_in ids responses

-- Whether pass 3 of `enforce` keeps the event.
unfoldable pub keeps_batch : List String → List String → Event → Bool
unfolding is_tool is_in is_caller any_in tool_call_ids
keeps_batch declared responses e =
    if is_tool e
    then is_in e.tool_call_id declared
    else if is_caller e
    then any_in (tool_call_ids e) responses
    else true

unfoldable pub keep_batches : List String → List String → List Event → List Event
unfolding keeps_batch
keep_batches declared responses [] = []
keep_batches declared responses (e ∷ es) =
    let rest = keep_batches declared responses es in
    if keeps_batch declared responses e then e ∷ rest else rest

unfoldable pub batch_enforce : List Event → List Event
unfolding keep_batches declared_ids response_ids
batch_enforce es = keep_batches (declared_ids es) (response_ids es) es

-- `batch_map`: for each call id, the position of its assistant and those of its responses.
abbrev BatchMap : Type 0
BatchMap = Dict String (ℕ × List ℕ)

open_batches : ℕ → List String → BatchMap → BatchMap
unfolding insert
open_batches i [] m = m
open_batches i (call ∷ calls) m = open_batches i calls (insert call (i, []) m)

answered : ℕ → String → Option (ℕ × List ℕ) → BatchMap → BatchMap
unfolding insert
answered i call none m = m
answered i call (some (assistant, tools)) m = insert call (assistant, snoc tools i) m

answer : ℕ → Option String → BatchMap → BatchMap
unfolding answered lookup
answer i none m = m
answer i (some call) m = answered i call (lookup call m) m

-- The loop that fills the map, from position `i`, which skips position 0.
unfoldable pub batch_map : ℕ → List Event → BatchMap → BatchMap
unfolding open_batches answer is_caller tool_call_ids response_id
batch_map i [] m = m
batch_map i (e ∷ es) m = batch_map (suc i) es (
    if i == 0
    then m
    else if is_caller e
    then open_batches i (tool_call_ids e) m
    else answer i (response_id e) m)

-- The positions, from `i`, of events that are neither responses nor callers, but for position 0.
unfoldable pub standalone : ℕ → List Event → List ℕ
unfolding is_tool is_caller
standalone i [] = []
standalone i (e ∷ es) =
    let rest = standalone (suc i) es in
    if i == 0 || is_tool e || is_caller e then rest else i ∷ rest

ids_at : ℕ → List Event → List String
unfolding tool_call_ids
ids_at i [] = []
ids_at zero (e ∷ es) = tool_call_ids e
ids_at (suc i) (e ∷ es) = ids_at i es

tools_of : Option (ℕ × List ℕ) → List ℕ
tools_of none = []
tools_of (some (assistant, tools)) = tools

responses_to : List String → BatchMap → List ℕ
unfolding tools_of lookup
responses_to [] m = []
responses_to (call ∷ calls) m = tools_of (lookup call m) ++ responses_to calls m

-- The loop over the entries of the map; `seen` has the assistants that were handled.
whole_batches : List Event → BatchMap → List ℕ → BatchMap → List ℕ
unfolding responses_to ids_at
whole_batches es m seen [] = []
whole_batches es m seen ((call, (assistant, tools)) ∷ entries) =
    let skipped = whole_batches es m seen entries in
    let rest = whole_batches es m (assistant ∷ seen) entries in
    if elem assistant seen
    then skipped
    else assistant ∷ responses_to (ids_at assistant es) m ++ rest

unfoldable pub batch_safe : List Event → List ℕ
unfolding batch_map standalone whole_batches
batch_safe es = let m = batch_map 0 es [] in standalone 0 es ++ whole_batches es m [] m

abbrev pub batch_atomicity : ViewProperty
batch_atomicity = record {
  class_name = "BatchAtomicity";
  check = batch_check [];
  enforce = batch_enforce;
  safe_indices = batch_safe;
}
