-- ===== src/Context/Loops.antt =====
-- `ToolLoopAtomicity` of app/context/view_properties.py.
use manus_claw.Prelude.{
  ℕ, zero, suc, ◌-◌, ◌*◌, Bool, true, false, ◌&&◌, not, String, Option, none, some, List, [], ◌∷◌,
  ◌==◌, leb, length, snoc, str_eq, if◌then◌else◌,
}
use manus_claw.Context.Events.{Event, is_assistant, is_tool, truthy, ViewProperty}

-- The state of `_detect_loops`.
pub record LoopScan : Type 0 where
  pub loops : List (List ℕ)
  pub current_loop : List ℕ
  pub current_tool_name : Option String

abbrev pub no_loops : LoopScan
no_loops = record { loops = []; current_loop = []; current_tool_name = none }

-- `event.name` of a tool event that has one.
unfoldable pub named_tool : Event → Option String
unfolding is_tool truthy
named_tool e = if is_tool e then truthy e.name else none

-- A current loop that is long enough joins the loops.
unfoldable pub closed : ℕ → LoopScan → List (List ℕ)
closed min_loop_length s =
    if leb (min_loop_length * 2) (length s.current_loop)
    then snoc s.loops s.current_loop
    else s.loops

same_name : String → Option String → Bool
same_name name none = false
same_name name (some current) = str_eq name current

-- `current_loop and current_loop[-1] != i - 1`
misses : ℕ → List ℕ → Bool
misses before [] = false
misses before (j ∷ []) = not (j == before)
misses before (j ∷ k ∷ loop) = misses before (k ∷ loop)

assistant_before : Option Event → Bool
unfolding is_assistant
assistant_before none = false
assistant_before (some e) = is_assistant e

-- The branch for a tool with a name, at position `i` behind `previous`.
unfoldable pub tool_step : ℕ → ℕ → Option Event → String → LoopScan → LoopScan
unfolding closed same_name misses assistant_before
tool_step min_loop_length i previous name s =
    if same_name name s.current_tool_name
    then record s {
      current_loop =
          snoc
            (if misses (i - 1) s.current_loop then snoc s.current_loop (i - 1) else s.current_loop)
            i;
    }
    else record {
      loops = closed min_loop_length s;
      current_loop = if assistant_before previous then (i - 1) ∷ i ∷ [] else i ∷ [];
      current_tool_name = some name;
    }

unfoldable pub loop_step : ℕ → ℕ → Option Event → Event → Option String → LoopScan → LoopScan
unfolding tool_step closed is_assistant
loop_step min_loop_length i previous e (some name) s = tool_step min_loop_length i previous name s
loop_step min_loop_length i previous e none s =
    if is_assistant e
    then s
    else record { loops = closed min_loop_length s; current_loop = []; current_tool_name = none }

scan_loops : ℕ → ℕ → Option Event → List Event → LoopScan → LoopScan
unfolding loop_step named_tool
scan_loops min_loop_length i previous [] s = s
scan_loops min_loop_length i previous (e ∷ es) s =
    scan_loops min_loop_length (suc i) (some e) es
      (loop_step min_loop_length i previous e (named_tool e) s)

unfoldable pub detect_loops : ℕ → List Event → List (List ℕ)
unfolding scan_loops closed
detect_loops min_loop_length es =
    closed min_loop_length (scan_loops min_loop_length 0 none es no_loops)

name_at : ℕ → List Event → Option String
unfolding named_tool
name_at i [] = none
name_at zero (e ∷ es) = named_tool e
name_at (suc i) (e ∷ es) = name_at i es

with_name : Option String → List String → List String
with_name none names = names
with_name (some name) names = name ∷ names

tool_names : List ℕ → List Event → List String
unfolding name_at with_name
tool_names [] es = []
tool_names (i ∷ loop) es = with_name (name_at i es) (tool_names loop es)

all_named : String → List String → Bool
all_named name [] = true
all_named name (n ∷ names) = str_eq n name && all_named name names

-- `not tool_names or len(set(tool_names)) == 1`
one_name : List String → Bool
unfolding all_named
one_name [] = true
one_name (name ∷ names) = all_named name names

check_loops : List (List ℕ) → List Event → Bool
unfolding one_name tool_names
check_loops [] es = true
check_loops (loop ∷ loops) es = one_name (tool_names loop es) && check_loops loops es

unfoldable pub loop_check : ℕ → List Event → Bool
unfolding check_loops detect_loops
loop_check min_loop_length es = check_loops (detect_loops min_loop_length es) es

-- `enforce` only looks at the loops.
unfoldable pub loop_enforce : List Event → List Event
loop_enforce es = es

-- Every position but 0.
unfoldable pub all_but_first : ℕ → List Event → List ℕ
all_but_first i [] = []
all_but_first i (e ∷ es) = let rest = all_but_first (suc i) es in if i == 0 then rest else i ∷ rest

abbrev pub tool_loop_atomicity : ℕ → ViewProperty
tool_loop_atomicity min_loop_length = record {
  class_name = "ToolLoopAtomicity";
  check = loop_check min_loop_length;
  enforce = loop_enforce;
  safe_indices = all_but_first 0;
}
