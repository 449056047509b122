-- ===== src/Context/Rolling.antt =====
-- `RollingCondenser` of app/context/condenser/rolling.py, and `CondensationAction` and `apply` of
-- app/context/condenser/base.py. Timings, metrics and the log are left out; an action keeps the ids to
-- forget, the summary and the reason.
pub mod Window
use manus_claw.Prelude.{
  ℕ, suc, ◌+◌, ◌-◌, Bool, true, false, ◌&&◌, String, Option, none, some, List, [], ◌∷◌, leb, ltb,
  elem, length, if◌then◌else◌,
}
use manus_claw.Context.Events.{Event, truthy}
use manus_claw.Context.View.{View, manipulation_indices, remove_event_ids, add, enforce_properties}

pub data CondensationReason : Type 0 where
  request tokens too_many_events : CondensationReason

unfoldable pub is_hard : CondensationReason → Bool
is_hard request = true
is_hard tokens = false
is_hard too_many_events = false

pub record CondensationAction : Type 0 where
  pub forgotten_event_ids : List String
  pub summary : Option String
  pub reason : CondensationReason

-- The setter and the constructor of `RollingCondenser`: `none` is the ValueError.
unfoldable pub valid_max_events : ℕ → Option ℕ
valid_max_events value = if ltb value 1 then none else some value

unfoldable pub should_condense : ℕ → View → Bool
should_condense max_events v = ltb (max_events + v.keep_first) (length v.events)

-- The ids of the events at positions, from `i` on, in `range(start, stop)` and in `manipulable`.
unfoldable pub forgotten : ℕ → ℕ → List ℕ → ℕ → List Event → List String
forgotten start stop manipulable i [] = []
forgotten start stop manipulable i (e ∷ es) =
    let rest = forgotten start stop manipulable (suc i) es in
    if leb start i && ltb i stop && elem i manipulable then e.id ∷ rest else rest

action_for : CondensationReason → List String → Option CondensationAction
action_for reason [] = none
action_for reason (i ∷ ids) =
    some (record { forgotten_event_ids = i ∷ ids; summary = none; reason = reason })

-- `condense`, with the view it leaves: looking at the manipulation indices fills the cache.
unfoldable pub condense : ℕ → View → CondensationReason → Option CondensationAction × View
unfolding manipulation_indices forgotten action_for
condense max_events v reason =
    let (manipulable, v') = manipulation_indices v in
    let total = length v.events in
    let cutoff = total - max_events in
    if leb total (max_events + v.keep_first)
    then (none, v)
    else if leb cutoff v.keep_first
    then (none, v')
    else (action_for reason (forgotten v.keep_first cutoff manipulable 0 v.events), v')

unfoldable pub summary_event : String → String → Event
summary_event id summary = record {
  id = id;
  role = "user";
  content = some summary;
  tool_calls = none;
  tool_call_id = none;
  name = none;
  batch_id = none;
}

with_summary : String → Option String → View → View
unfolding summary_event add
with_summary id none v = v
with_summary id (some summary) v = add (summary_event id summary) v

applied : String → Option String → List String → View → View
unfolding with_summary remove_event_ids enforce_properties
applied id none [] v = v
applied id (some summary) [] v =
    enforce_properties (with_summary id (some summary) (remove_event_ids [] v))
applied id summary (i ∷ ids) v =
    enforce_properties (with_summary id summary (remove_event_ids (i ∷ ids) v))

-- `CondenserBase.apply`; `id` is the fresh id of the summary's event.
unfoldable pub apply : String → View → CondensationAction → View
unfolding applied truthy
apply id v action = applied id (truthy action.summary) action.forgotten_event_ids v
