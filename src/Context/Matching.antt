-- ===== src/Context/Matching.antt =====
-- `ToolCallMatching` of app/context/view_properties.py.
use manus_claw.Prelude.{
  ℕ, suc, Bool, true, ◌&&◌, String, Option, none, some, List, [], ◌∷◌, ◌++◌, ◌==◌, one_of,
  if◌then◌else◌, Dict, string_eq, insert, lookup,
}
use manus_claw.Context.Events.{
  Event, ToolCall, calls_of, is_tool, is_caller, tool_call_ids, truthy, is_in, declared_ids,
  response_ids, response_id, ViewProperty,
}
use manus_claw.Context.Batches.{standalone}

unfoldable pub is_subset : List String → List String → Bool
is_subset [] b = true
is_subset (i ∷ a) b = one_of i b && is_subset a b

-- `declared_ids == response_ids`, as sets
unfoldable pub matching_check : List Event → Bool
unfolding is_subset declared_ids response_ids
matching_check es =
    is_subset (declared_ids es) (response_ids es) && is_subset (response_ids es) (declared_ids es)

-- `[tc for tc in event.tool_calls if tc.get("id") in response_ids]`
unfoldable pub matched_calls : List String → List ToolCall → List ToolCall
unfolding is_in
matched_calls responses [] = []
matched_calls responses (c ∷ calls) =
    let rest = matched_calls responses calls in if is_in c.id responses then c ∷ rest else rest

-- What becomes of an assistant with calls, by the calls that have responses and by its content.
unfoldable pub caller_left : Event → List ToolCall → Option String → List Event
caller_left e (c ∷ calls) content = record e { tool_calls = some (c ∷ calls) } ∷ []
caller_left e [] (some text) = record e { tool_calls = none } ∷ []
caller_left e [] none = []

-- What becomes of an event in pass 3 of `enforce`.
unfoldable pub matched : List String → List String → Event → List Event
unfolding caller_left is_caller matched_calls calls_of truthy is_tool is_in
matched declared responses e =
    if is_caller e
    then caller_left e (matched_calls responses (calls_of e.tool_calls)) (truthy e.content)
    else if is_tool e
    then (if is_in e.tool_call_id declared then e ∷ [] else [])
    else e ∷ []

unfoldable pub match_all : List String → List String → List Event → List Event
unfolding matched
match_all declared responses [] = []
match_all declared responses (e ∷ es) =
    matched declared responses e ++ match_all declared responses es

unfoldable pub matching_enforce : List Event → List Event
unfolding match_all declared_ids response_ids
matching_enforce es = match_all (declared_ids es) (response_ids es) es

positions : ℕ → List String → Dict String ℕ → Dict String ℕ
unfolding insert
positions i [] m = m
positions i (call ∷ calls) m = positions i calls (insert call i m)

position : ℕ → Option String → Dict String ℕ → Dict String ℕ
unfolding insert
position i none m = m
position i (some call) m = insert call i m

-- `asst_by_call_id` and `tool_by_call_id`, which skip position 0.
index_maps : ℕ → List Event → Dict String ℕ → Dict String ℕ → Dict String ℕ × Dict String ℕ
unfolding positions position is_caller tool_call_ids response_id
index_maps i [] callers tools = (callers, tools)
index_maps i (e ∷ es) callers tools =
    index_maps (suc i) es
      (if i == 0
        then callers
        else if is_caller e
        then positions i (tool_call_ids e) callers
        else callers)
      (if i == 0 then tools else if is_caller e then tools else position i (response_id e) tools)

pair_at : ℕ → Option ℕ → List ℕ
pair_at caller none = []
pair_at caller (some tool) = caller ∷ tool ∷ []

-- The positions of both ends of the calls that have both.
pairs_in : Dict String ℕ → Dict String ℕ → List ℕ
unfolding pair_at lookup
pairs_in [] tools = []
pairs_in ((call, caller) ∷ callers) tools =
    pair_at caller (lookup call tools) ++ pairs_in callers tools

unfoldable pub matching_safe : List Event → List ℕ
unfolding index_maps pairs_in standalone
matching_safe es =
    let (callers, tools) = index_maps 0 es [] [] in pairs_in callers tools ++ standalone 0 es

abbrev pub tool_call_matching : ViewProperty
tool_call_matching = record {
  class_name = "ToolCallMatching";
  check = matching_check;
  enforce = matching_enforce;
  safe_indices = matching_safe;
}
