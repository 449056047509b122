-- ===== src/Hooks/Aggregate.antt =====
-- `AggregateHookResult` and `HookMetrics` of app/hooks/manager.py. Durations are left out.
use manus_claw.Prelude.{
  ℕ, suc, ◌+◌, Bool, true, false, String, Option, none, List, [], snoc, str_eq, append_text,
  if◌then◌else◌, or_default,
}
use manus_claw.Hooks.Types.{
  HookDecision, allowed, denied, modified, HookResult, HookError, allow, deny, modify,
}

pub record AggregateHookResult : Type 0 where
  pub decision : HookDecision
  pub modified_content : Option String
  pub denial_reason : String
  pub modification_reason : String
  pub results : List HookResult
  pub errors : List HookError

abbrev pub new_aggregate : AggregateHookResult
new_aggregate = record {
  decision = allowed;
  modified_content = none;
  denial_reason = "";
  modification_reason = "";
  results = [];
  errors = [];
}

-- `result.reason or f"... by hook '{hook_name}'"`
unfoldable pub reason_or : String → String → String → String
reason_or reason before hook_name =
    if str_eq reason ""
    then append_text before (append_text " by hook '" (append_text hook_name "'"))
    else reason

unfoldable pub add_deny : HookDecision → String → AggregateHookResult → AggregateHookResult
add_deny denied reason a = a
add_deny allowed reason a = record a { decision = denied; denial_reason = reason }
add_deny modified reason a = record a { decision = denied; denial_reason = reason }

unfoldable pub or_modified : HookDecision → HookDecision
or_modified allowed = modified
or_modified denied = denied
or_modified modified = modified

unfoldable pub merge_decision :
    HookDecision → HookResult → String → AggregateHookResult → AggregateHookResult
unfolding add_deny reason_or or_modified
merge_decision allowed r hook_name a = a
merge_decision denied r hook_name a = add_deny a.decision (reason_or r.reason "Denied" hook_name) a
merge_decision modified r hook_name a = record a {
  decision = or_modified a.decision;
  modified_content = r.modified_content;
  modification_reason = reason_or r.reason "Modified" hook_name;
}

unfoldable pub add : HookResult → String → AggregateHookResult → AggregateHookResult
unfolding merge_decision
add r hook_name a = merge_decision r.decision r hook_name (record a { results = snoc a.results r })

unfoldable pub add_error : HookError → AggregateHookResult → AggregateHookResult
add_error error a = record a { errors = snoc a.errors error }

abbrev pub is_deny : HookDecision → Bool
is_deny allowed = false
is_deny denied = true
is_deny modified = false

unfoldable pub is_denied : AggregateHookResult → Bool
is_denied a = is_deny a.decision

unfoldable pub is_allowed : AggregateHookResult → Bool
is_allowed a = elim a.decision [ allowed ↦ true | denied ↦ false | modified ↦ false ]

unfoldable pub is_modified : AggregateHookResult → Bool
is_modified a = elim a.decision [ allowed ↦ false | denied ↦ false | modified ↦ true ]

unfoldable pub to_hook_result : AggregateHookResult → HookResult
unfolding allow deny modify or_default
to_hook_result a = elim a.decision [
  | allowed ↦ allow ""
  | denied ↦ deny a.denial_reason
  | modified ↦ modify (or_default "" a.modified_content) a.modification_reason
]

pub record HookMetrics : Type 0 where
  pub invocations : ℕ
  pub errors : ℕ
  pub timeouts : ℕ
  pub denies : ℕ
  pub modifications : ℕ

abbrev pub no_metrics : HookMetrics
no_metrics = record { invocations = 0; errors = 0; timeouts = 0; denies = 0; modifications = 0 }

abbrev one_if : Bool → ℕ
one_if true = 1
one_if false = 0

-- `record` of the source.
unfoldable pub record_run : HookDecision → Bool → Bool → HookMetrics → HookMetrics
record_run decision is_error is_timeout m = record {
  invocations = suc m.invocations;
  errors = m.errors + one_if is_error;
  timeouts = m.timeouts + one_if is_timeout;
  denies = m.denies + one_if (is_deny decision);
  modifications = m.modifications + elim decision [ allowed ↦ 0 | denied ↦ 0 | modified ↦ 1 ];
}
