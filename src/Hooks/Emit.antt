-- ===== src/Hooks/Emit.antt =====
-- The `emit_` methods of `HookManager` (app/hooks/manager.py).
use manus_claw.Prelude.{String, none, some, string_eq}
use manus_claw.Hooks.Types.{
  HookEventType, session_start, user_prompt_submit, pre_tool_use, post_tool_use, stop, session_end,
  event_eq, HookContext,
}
use manus_claw.Hooks.Aggregate.{AggregateHookResult}
use manus_claw.Hooks.Manager.{HookManager, execute_hooks}

unfoldable pub emit_pre_tool_use :
    String → String → String → String → HookManager → AggregateHookResult × HookManager
unfolding execute_hooks
emit_pre_tool_use tool_name conversation_id agent_name source m =
    execute_hooks pre_tool_use
      (record {
        event_type = pre_tool_use;
        conversation_id = conversation_id;
        agent_name = agent_name;
        source = source;
        tool_name = some tool_name;
        user_message = none;
      })
      m

unfoldable pub emit_user_prompt_submit :
    String → String → String → String → HookManager → AggregateHookResult × HookManager
unfolding execute_hooks
emit_user_prompt_submit user_message conversation_id agent_name source m =
    execute_hooks user_prompt_submit
      (record {
        event_type = user_prompt_submit;
        conversation_id = conversation_id;
        agent_name = agent_name;
        source = source;
        tool_name = none;
        user_message = some user_message;
      })
      m

unfoldable pub emit_post_tool_use :
    String → String → String → String → HookManager → AggregateHookResult × HookManager
unfolding execute_hooks
emit_post_tool_use tool_name conversation_id agent_name source m =
    execute_hooks post_tool_use
      (record {
        event_type = post_tool_use;
        conversation_id = conversation_id;
        agent_name = agent_name;
        source = source;
        tool_name = some tool_name;
        user_message = none;
      })
      m

-- A context without a tool or a message.
unfoldable pub plain_context : HookEventType → String → String → String → HookContext
plain_context event_type conversation_id agent_name source = record {
  event_type = event_type;
  conversation_id = conversation_id;
  agent_name = agent_name;
  source = source;
  tool_name = none;
  user_message = none;
}

unfoldable pub emit_session_start :
    String → String → String → HookManager → AggregateHookResult × HookManager
unfolding execute_hooks plain_context
emit_session_start conversation_id agent_name source m =
    execute_hooks session_start (plain_context session_start conversation_id agent_name source) m

unfoldable pub emit_session_end :
    String → String → String → HookManager → AggregateHookResult × HookManager
unfolding execute_hooks plain_context
emit_session_end conversation_id agent_name source m =
    execute_hooks session_end (plain_context session_end conversation_id agent_name source) m

unfoldable pub emit_stop :
    String → String → String → HookManager → AggregateHookResult × HookManager
unfolding execute_hooks plain_context
emit_stop conversation_id agent_name source m =
    execute_hooks stop (plain_context stop conversation_id agent_name source) m
