-- ===== src/Hooks/Tests.antt =====
-- Runs of the hook manager of app/hooks/manager.py.
use manus_claw.Prelude.{ℕ, Bool, true, false, String, none, [], ◌∷◌, ◌≡◌, ◌&&◌, refl, List}
use manus_claw.Hooks.Types.{
  pre_tool_use, HookContext, Hook, Reply, timed_out, raised, is_subscribed,
}
use manus_claw.Hooks.Aggregate.{is_deny, is_denied, add, add_error}
use manus_claw.Hooks.Manager.{
  new_manager, execute_hooks, list_hooks, register_many, names_of, sort_hooks, subscribed, values,
  register, fallback, unregister,
}
use manus_claw.Hooks.Denial.{any_hook, decision_of, is_touch}
use manus_claw.Hooks.Denial.Registry.{
  Call, registers, registers_many, unregisters, after_all, verdict, execute_hooks-eq-verdict,
}

abbrev context : HookContext
context = record {
  event_type = pre_tool_use;
  conversation_id = "c1";
  agent_name = "manus";
  source = "agent";
  tool_name = none;
  user_message = none;
}

abbrev hook : String → ℕ → Bool → Reply → Hook
hook name priority fail_open reply = record {
  name = name;
  priority = priority;
  enabled = true;
  subscribed_events = pre_tool_use ∷ [];
  fail_open = fail_open;
  on_event = λ c. reply;
}

-- The logger fails open, the guard fails closed.
abbrev logging : Hook
logging = hook "log" 5 true timed_out

abbrev guarding : Hook
guarding = hook "guard" 1 false (raised "no rules")

abbrev setup_calls : List Call
setup_calls = registers logging ∷ registers_many (guarding ∷ logging ∷ []) ∷ []

denied_by_guard :
    is_denied (execute_hooks pre_tool_use context (after_all setup_calls new_manager)).0 ≡ true
unfolding is_denied execute_hooks register_many names_of sort_hooks subscribed values register
    new_manager is_subscribed add fallback add_error
denied_by_guard = refl

allowed_without_guard :
    is_denied
      (execute_hooks pre_tool_use context
        (after_all (unregisters "guard" ∷ []) (after_all setup_calls new_manager))).0
    ≡ false
unfolding is_denied execute_hooks unregister register_many register new_manager names_of sort_hooks
    subscribed values is_subscribed add fallback add_error
allowed_without_guard = refl

execute_hooks-eq-verdict_example :
    let m = after_all setup_calls new_manager in
    (execute_hooks pre_tool_use context m).0.decision
    ≡ verdict
        (any_hook
          (λ h. is_subscribed pre_tool_use h && is_deny (decision_of context h))
          (list_hooks m))
        (any_hook
          (λ h. is_subscribed pre_tool_use h && is_touch (decision_of context h))
          (list_hooks m))
execute_hooks-eq-verdict_example = execute_hooks-eq-verdict setup_calls pre_tool_use context
