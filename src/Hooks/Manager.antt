-- ===== src/Hooks/Manager.antt =====
-- `HookManager` of app/hooks/manager.py. No other coroutine acts while hooks run.
use manus_claw.Prelude.{
  Bool, true, false, String, Option, none, some, List, [], ◌∷◌, leb, if◌then◌else◌, Dict, lookup,
  insert, remove, lookup_or, string_eq, append_text,
}
use manus_claw.Hooks.Types.{
  HookEventType, session_start, user_prompt_submit, pre_tool_use, post_tool_use, stop, session_end,
  event_eq, HookContext, HookResult, Reply, returned, other_value, timed_out, raised, Hook,
  is_subscribed, hook_error, hook_timeout, allow, deny, allowed,
}
use manus_claw.Hooks.Aggregate.{
  AggregateHookResult, new_aggregate, add, add_error, HookMetrics, no_metrics, record_run,
}

pub record HookManager : Type 0 where
  pub hooks : Dict String Hook
  pub event_index : Dict HookEventType (List String)
  pub metrics : Dict String HookMetrics
  pub initialized : Bool

unfoldable pub new_manager : HookManager
new_manager = record { hooks = []; event_index = []; metrics = []; initialized = false }

unfoldable pub subscribed : HookEventType → List Hook → List Hook
subscribed t [] = []
subscribed t (h ∷ hs) = let rest = subscribed t hs in if is_subscribed t h then h ∷ rest else rest

-- `subscribed.sort(key=lambda h: h.priority)`, which is stable.
unfoldable pub insert_hook : Hook → List Hook → List Hook
insert_hook h [] = h ∷ []
insert_hook h (g ∷ hs) =
    let rest = insert_hook h hs in if leb h.priority g.priority then h ∷ g ∷ hs else g ∷ rest

unfoldable pub sort_hooks : List Hook → List Hook
unfolding insert_hook
sort_hooks [] = []
sort_hooks (h ∷ hs) = insert_hook h (sort_hooks hs)

unfoldable pub names_of : List Hook → List String
names_of [] = []
names_of (h ∷ hs) = h.name ∷ names_of hs

-- `self._hooks.values()`
unfoldable pub values : Dict String Hook → List Hook
values [] = []
values ((name, h) ∷ d) = h ∷ values d

unfoldable pub names_for : HookEventType → Dict String Hook → List String
names_for t d = names_of (sort_hooks (subscribed t (values d)))

abbrev pub event_types : List HookEventType
event_types =
    session_start ∷ user_prompt_submit ∷ pre_tool_use ∷ post_tool_use ∷ stop ∷ session_end ∷ []

unfoldable pub index_events :
    List HookEventType
    → Dict String Hook
    → Dict HookEventType (List String)
    → Dict HookEventType (List String)
unfolding names_for insert
index_events [] d index = index
index_events (t ∷ events) d index = index_events events d (insert t (names_for t d) index)

unfoldable pub rebuild_index : HookManager → HookManager
unfolding index_events
rebuild_index m = record m { event_index = index_events event_types m.hooks [] }

unfoldable pub register : Hook → HookManager → HookManager
unfolding insert rebuild_index
register h m = rebuild_index (record m { hooks = insert h.name h m.hooks })

unfoldable pub insert_all : List Hook → Dict String Hook → Dict String Hook
unfolding insert
insert_all [] d = d
insert_all (h ∷ hs) d = insert_all hs (insert h.name h d)

unfoldable pub register_many : List Hook → HookManager → HookManager
unfolding insert_all rebuild_index
register_many hs m = rebuild_index (record m { hooks = insert_all hs m.hooks })

unfoldable pub unregister_found : Option Hook → String → HookManager → HookManager
unfolding rebuild_index remove
unregister_found none name m = m
unregister_found (some h) name m = rebuild_index (record m { hooks = remove name m.hooks })

unfoldable pub unregister : String → HookManager → Option Hook × HookManager
unfolding lookup unregister_found
unregister name m = (lookup name m.hooks, unregister_found (lookup name m.hooks) name m)

unfoldable pub get_hook : String → HookManager → Option Hook
unfolding lookup
get_hook name m = lookup name m.hooks

unfoldable pub list_hooks : HookManager → List Hook
unfolding values
list_hooks m = values m.hooks

-- `initialize`, of which the effects of the hooks' `setup` are left out.
unfoldable pub initialize : HookManager → HookManager
initialize m = record m { initialized = true }

-- `shutdown`, of which the effects of the hooks' `teardown` are left out.
unfoldable pub shutdown : HookManager → HookManager
shutdown m = record m { hooks = []; event_index = []; initialized = false }

-- `HookResult.allow() if hook.fail_open else HookResult.deny(...)`
unfoldable pub fallback : Hook → String → HookResult
unfolding allow deny
fallback h reason = if h.fail_open then allow "" else deny reason

-- What a reply adds to the aggregate.
unfoldable pub add_reply : HookEventType → Hook → Reply → AggregateHookResult → AggregateHookResult
add_reply t h (returned r) a = add r h.name a
add_reply t h other_value a = add (allow "") h.name a
add_reply t h timed_out a =
    add (fallback h (append_text "Hook '" (append_text h.name "' timed out"))) h.name
      (add_error (hook_timeout h.name t) a)
add_reply t h (raised e) a =
    add
      (fallback h (append_text "Hook '" (append_text h.name (append_text "' raised an error: " e))))
      h.name (add_error (hook_error h.name t e) a)

unfoldable pub count_reply : Reply → HookMetrics → HookMetrics
unfolding record_run
count_reply (returned r) m = record_run r.decision false false m
count_reply other_value m = record_run allowed false false m
count_reply timed_out m = record_run allowed false true m
count_reply (raised e) m = record_run allowed true false m

abbrev pub Metrics : Type 0
Metrics = Dict String HookMetrics

unfoldable pub count_run : Hook → Reply → Metrics → Metrics
unfolding insert lookup_or count_reply
count_run h reply metrics =
    insert h.name (count_reply reply (lookup_or no_metrics h.name metrics)) metrics

unfoldable pub run_hook :
    HookEventType
    → HookContext
    → Option Hook
    → AggregateHookResult × Metrics
    → AggregateHookResult × Metrics
unfolding add_reply count_run
run_hook t c none (a, metrics) = (a, metrics)
run_hook t c (some h) (a, metrics) =
    if h.enabled
    then (add_reply t h (h.on_event c) a, count_run h (h.on_event c) metrics)
    else (a, metrics)

unfoldable pub run_hooks :
    HookEventType
    → HookContext
    → Dict String Hook
    → List String
    → AggregateHookResult × Metrics
    → AggregateHookResult × Metrics
unfolding run_hook lookup
run_hooks t c hooks [] s = s
run_hooks t c hooks (name ∷ names) s =
    run_hooks t c hooks names (run_hook t c (lookup name hooks) s)

unfoldable pub execute_hooks :
    HookEventType → HookContext → HookManager → AggregateHookResult × HookManager
unfolding run_hooks lookup_or
execute_hooks t c m =
    let names = lookup_or [] t m.event_index in
    let (a, metrics) = run_hooks t c m.hooks names (new_aggregate, m.metrics) in
    (a, record m { metrics = metrics })
