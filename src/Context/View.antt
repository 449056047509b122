-- ===== src/Context/View.antt =====
-- `View` of app/context/view.py. The cache of the manipulation indices is `none` when it is invalid.
-- A method that does not change the view in place returns the view beside its result where it
-- fills the cache.
pub mod Coherence
pub mod Matches
pub mod Enforced
pub mod Disorder
use manus_claw.Prelude.{
  ◌/◌, ℕ, suc, ◌+◌, Bool, true, false, ◌&&◌, String, Option, none, some, List, [], ◌∷◌, ◌++◌, leb,
  elem, max, length, codes, one_of, map, if◌then◌else◌, Dict, string_eq, insert,
}
use manus_claw.Context.Events.{Event, ToolCall, CallFunction, calls_of, ViewProperty}
use manus_claw.Context.Batches.{batch_atomicity}
use manus_claw.Context.Uniqueness.{observation_uniqueness}
use manus_claw.Context.Matching.{tool_call_matching}
use manus_claw.Context.Loops.{tool_loop_atomicity}

abbrev pub default_properties : List ViewProperty
default_properties =
    batch_atomicity ∷ observation_uniqueness ∷ tool_call_matching ∷ tool_loop_atomicity 3 ∷ []

pub record View : Type 0 where
  pub events : List Event
  pub properties : List ViewProperty
  pub keep_first : ℕ
  pub cache : Option (List ℕ)

-- `list(properties) if properties else list(DEFAULT_PROPERTIES)`
unfoldable pub or_default_properties : List ViewProperty → List ViewProperty
or_default_properties [] = default_properties
or_default_properties (p ∷ properties) = p ∷ properties

unfoldable pub new_view : List Event → List ViewProperty → ℕ → View
unfolding or_default_properties
new_view events properties keep_first = record {
  events = events;
  properties = or_default_properties properties;
  keep_first = keep_first;
  cache = none;
}

unfoldable pub invalidate_cache : View → View
invalidate_cache v = record v { cache = none }

unfoldable pub set_keep_first : ℕ → View → View
unfolding invalidate_cache
set_keep_first value v = invalidate_cache (record v { keep_first = value })

unfoldable pub keep_in : List ℕ → List ℕ → List ℕ
keep_in s [] = []
keep_in s (i ∷ is) = let rest = keep_in s is in if elem i s then i ∷ rest else rest

-- `combined & s & ...`
unfoldable pub intersect : List ViewProperty → List Event → List ℕ → List ℕ
unfolding keep_in
intersect [] es combined = combined
intersect (p ∷ properties) es combined =
    intersect properties es (keep_in (p.safe_indices es) combined)

unfoldable pub range_from : ℕ → List Event → List ℕ
range_from i [] = []
range_from i (e ∷ es) = i ∷ range_from (suc i) es

unfoldable pub combine : List ViewProperty → List Event → List ℕ
unfolding intersect range_from
combine [] es = range_from 0 es
combine (p ∷ properties) es = intersect properties es (p.safe_indices es)

-- `{i for i in combined if i >= keep_first}`
unfoldable pub beyond : ℕ → List ℕ → List ℕ
beyond k [] = []
beyond k (i ∷ is) = let rest = beyond k is in if leb k i then i ∷ rest else rest

-- What `manipulation_indices` computes when the cache is invalid.
unfoldable pub compute_indices : View → List ℕ
unfolding beyond combine
compute_indices v = elim v.events [
  | [] ↦ []
  | e ∷ es ↦ beyond v.keep_first (combine v.properties (e ∷ es))
]

unfoldable pub cached_or_computed : Option (List ℕ) → View → List ℕ × View
unfolding compute_indices
cached_or_computed (some indices) v = (indices, v)
cached_or_computed none v = (compute_indices v, record v { cache = some (compute_indices v) })

unfoldable pub manipulation_indices : View → List ℕ × View
unfolding cached_or_computed
manipulation_indices v = cached_or_computed v.cache v

unfoldable pub add : Event → View → View
unfolding invalidate_cache
add e v = invalidate_cache (record v { events = v.events ++ (e ∷ []) })

unfoldable pub add_events : List Event → View → View
unfolding invalidate_cache
add_events es v = invalidate_cache (record v { events = v.events ++ es })

unfoldable pub enforce_all : List ViewProperty → List Event → List Event
enforce_all [] es = es
enforce_all (p ∷ properties) es = enforce_all properties (p.enforce es)

unfoldable pub enforce_properties : View → View
unfolding enforce_all invalidate_cache
enforce_properties v = invalidate_cache (record v { events = enforce_all v.properties v.events })

unfoldable pub without_indices : List ℕ → ℕ → List Event → List Event
without_indices indices i [] = []
without_indices indices i (e ∷ es) =
    let rest = without_indices indices (suc i) es in if elem i indices then rest else e ∷ rest

unfoldable pub remove_indices : List ℕ → View → View
unfolding without_indices new_view enforce_properties
remove_indices indices v =
    enforce_properties (new_view (without_indices indices 0 v.events) v.properties v.keep_first)

unfoldable pub without_ids : List String → List Event → List Event
without_ids ids [] = []
without_ids ids (e ∷ es) =
    let rest = without_ids ids es in if one_of e.id ids then rest else e ∷ rest

unfoldable pub remove_event_ids : List String → View → View
unfolding without_ids new_view enforce_properties
remove_event_ids ids v =
    enforce_properties (new_view (without_ids ids v.events) v.properties v.keep_first)

check_each : List ViewProperty → List Event → Dict String Bool → Dict String Bool
unfolding insert
check_each [] es results = results
check_each (p ∷ properties) es results =
    check_each properties es (insert p.class_name (p.check es) results)

unfoldable pub check_properties : View → Dict String Bool
unfolding check_each
check_properties v = check_each v.properties v.events []

all_true : Dict String Bool → Bool
all_true [] = true
all_true ((name, ok) ∷ results) = ok && all_true results

unfoldable pub is_valid : View → Bool
unfolding check_properties all_true
is_valid v = all_true (check_properties v)

text_length : Option String → ℕ
text_length none = 0
text_length (some s) = length (codes s)

-- `len(tc.get("function", {}).get("arguments", ""))`
argument_length : Option CallFunction → ℕ
unfolding text_length
argument_length none = 0
argument_length (some f) = text_length f.arguments

arguments_length : List ToolCall → ℕ
unfolding argument_length
arguments_length [] = 0
arguments_length (c ∷ calls) = argument_length c.function + arguments_length calls

characters : List Event → ℕ
unfolding text_length arguments_length calls_of
characters [] = 0
characters (e ∷ es) =
    text_length e.content + arguments_length (calls_of e.tool_calls) + characters es

unfoldable pub token_estimate : View → ℕ
unfolding characters
token_estimate v = max 1 (characters v.events / 4)

unfoldable pub to_event_ids : View → List String
to_event_ids v = map (λ (e : Event). e.id) v.events

id_difference : List String → List String → List String
id_difference [] other = []
id_difference (i ∷ ids) other =
    let rest = id_difference ids other in if one_of i other then rest else i ∷ rest

unfoldable pub diff : View → View → List String × List String
unfolding id_difference to_event_ids
diff v w = (
  id_difference (to_event_ids v) (to_event_ids w),
  id_difference (to_event_ids w) (to_event_ids v),
)
