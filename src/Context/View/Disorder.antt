-- ===== src/Context/View/Disorder.antt =====
-- A response in front of its call (app/context/view_properties.py).
use manus_claw.Prelude.{
  String, ◌≡◌, true, false, some, str_eq, ◌∷◌, [], arith, none, eq_refl, ap, ◌∙◌, refl,
}
use manus_claw.Context.Events.{
  Event, is_tool, is_caller, response_id, tool_call_ids, is_in, tool_not_assistant,
  assistant_not_tool, caller_assistant, truthy, declared_ids, response_ids,
}
use manus_claw.Context.Batches.{batch_check, batch_enforce, keep_batches, keeps_batch, any_in}

-- Of a view of a response and, behind it, the assistant that made that call and no other,
-- `BatchAtomicity.enforce` keeps both events, and so does not establish what `check` asks for (the
-- call's id is not empty).
pub batch_enforce-keeps_disorder :
    (t a : Event) (call : String)
    → is_tool t ≡ true
    → t.tool_call_id ≡ some call
    → str_eq call "" ≡ false
    → is_caller a ≡ true
    → tool_call_ids a ≡ call ∷ []
    → (batch_enforce (t ∷ a ∷ []) ≡ t ∷ a ∷ [])
      × (batch_check [] (batch_enforce (t ∷ a ∷ [])) ≡ false)
unfolding batch_enforce
batch_enforce-keeps_disorder t a call tool id named caller calls =
    let es = t ∷ a ∷ [] in
    let not_assistant = tool_not_assistant t tool in
    let not_tool = assistant_not_tool a (caller_assistant a caller) in
    let plain : is_caller t ≡ false = unfold is_caller in ground (arith, not_assistant) in
    let answers : response_id t ≡ some call =
      unfold response_id truthy in rw (tool, id, named) refl in
    let silent : response_id a ≡ none = unfold response_id in rw not_tool refl in
    let declared : declared_ids es ≡ call ∷ [] =
      unfold declared_ids in rw (plain, caller, calls) refl in
    let responses : response_ids es ≡ call ∷ [] =
      unfold response_ids in rw (answers, silent) refl in
    let kept : keep_batches (call ∷ []) (call ∷ []) es ≡ es =
      unfold keep_batches keeps_batch is_in any_in in
      rw (tool, id, not_tool, caller, calls, eq_refl call) refl in
    let same : batch_enforce es ≡ es =
      ap (λ d. keep_batches d (response_ids es) es) declared
      ∙ ap (λ r. keep_batches (call ∷ []) r es) responses
      ∙ kept in
    let orphan : batch_check [] es ≡ false =
      unfold batch_check is_in in rw (plain, not_assistant, tool, id) refl in
    (same, ap (batch_check []) same ∙ orphan)
