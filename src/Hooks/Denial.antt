-- ===== src/Hooks/Denial.antt =====
-- What `execute_hooks` of app/hooks/manager.py decides: lists of hooks, and what each adds.
pub mod Registry
use manus_claw.Prelude.{
  if◌then◌else◌, Bool, true, false, not, ◌&&◌, ◌||◌, String, List, [], ◌∷◌, ◌≡◌, refl, ap, ◌∙◌, inl,
  inr, leb, Dict, lookup, string_eq, some, Option, Bool-cases, arith,
}
use manus_claw.Hooks.Types.{
  allow, HookError, hook_timeout, hook_error, HookEventType, HookContext, Reply, returned,
  other_value, timed_out, raised, Hook, is_subscribed, HookResult, HookDecision, allowed, denied,
  modified,
}
use manus_claw.Hooks.Aggregate.{
  reason_or, add_error, AggregateHookResult, is_denied, is_deny, add, merge_decision, add_deny,
  or_modified,
}
use manus_claw.Hooks.Manager.{
  count_run, subscribed, insert_hook, sort_hooks, names_of, run_hook, run_hooks, fallback, Metrics,
  add_reply,
}

abbrev pub any_hook : (Hook → Bool) → List Hook → Bool
any_hook f [] = false
any_hook f (h ∷ hs) = f h || any_hook f hs

abbrev pub AllHooks : (Hook → Type 0) → List Hook → Type 0
AllHooks P [] = Unit
AllHooks P (h ∷ hs) = P h × AllHooks P hs

-- What a hook that fails decides, and what the reply of a hook decides.
abbrev pub on_failure : Hook → HookDecision
on_failure h = if h.fail_open then allowed else denied

abbrev pub reply_decision : Hook → Reply → HookDecision
reply_decision h (returned r) = r.decision
reply_decision h other_value = allowed
reply_decision h timed_out = on_failure h
reply_decision h (raised e) = on_failure h

abbrev pub decision_of : HookContext → Hook → HookDecision
decision_of c h = reply_decision h (h.on_event c)

module _ (t : HookEventType) (h : Hook) (hs : List Hook) where
  subscribed_hit : is_subscribed t h ≡ true → subscribed t (h ∷ hs) ≡ h ∷ subscribed t hs
  unfolding subscribed
  subscribed_hit hit = rw hit refl

  subscribed_miss : is_subscribed t h ≡ false → subscribed t (h ∷ hs) ≡ subscribed t hs
  unfolding subscribed
  subscribed_miss miss = rw miss refl

module _ (f : Hook → Bool) where
  any_hook-insert :
      (h : Hook) (hs : List Hook) → any_hook f (insert_hook h hs) ≡ (f h || any_hook f hs)
  unfolding insert_hook
  any_hook-insert h [] = refl
  any_hook-insert h (g ∷ hs) = elim (Bool-cases (leb h.priority g.priority)) [
    | inl before ↦ rw before refl
    | inr after ↦ rw after (ground (arith, any_hook-insert h hs))
  ]

  pub any_hook-sort : (hs : List Hook) → any_hook f (sort_hooks hs) ≡ any_hook f hs
  unfolding sort_hooks
  any_hook-sort [] = refl
  any_hook-sort (h ∷ hs) = any_hook-insert h (sort_hooks hs) ∙ ap (λ b. f h || b) (any_hook-sort hs)

  pub any_hook-subscribed :
      (t : HookEventType) (hs : List Hook)
      → any_hook f (subscribed t hs) ≡ any_hook (λ h. is_subscribed t h && f h) hs
  any_hook-subscribed t [] = unfold subscribed in refl
  any_hook-subscribed t (h ∷ hs) = elim (Bool-cases (is_subscribed t h)) [
    | inl hit ↦ rw (subscribed_hit t h hs hit, hit) (ap (λ b. f h || b) (any_hook-subscribed t hs))
    | inr miss ↦ rw (subscribed_miss t h hs miss, miss) (any_hook-subscribed t hs)
  ]

module _ (P : Hook → Type 0) where
  AllHooks-insert :
      (h : Hook) (hs : List Hook) → P h → AllHooks P hs → AllHooks P (insert_hook h hs)
  unfolding insert_hook
  AllHooks-insert h [] p all = (p, tt)
  AllHooks-insert h (g ∷ hs) p (q, all) = elim (Bool-cases (leb h.priority g.priority)) [
    | inl before ↦ rw before (p, (q, all))
    | inr after ↦ rw after (q, AllHooks-insert h hs p all)
  ]

  pub AllHooks-sort : (hs : List Hook) → AllHooks P hs → AllHooks P (sort_hooks hs)
  unfolding sort_hooks
  AllHooks-sort [] all = tt
  AllHooks-sort (h ∷ hs) (p, all) = AllHooks-insert h (sort_hooks hs) p (AllHooks-sort hs all)

  pub AllHooks-subscribed :
      (t : HookEventType) (hs : List Hook) → AllHooks P hs → AllHooks P (subscribed t hs)
  AllHooks-subscribed t [] all = unfold subscribed in tt
  AllHooks-subscribed t (h ∷ hs) (p, all) = elim (Bool-cases (is_subscribed t h)) [
    | inl hit ↦ rw (subscribed_hit t h hs hit) (p, AllHooks-subscribed t hs all)
    | inr miss ↦ rw (subscribed_miss t h hs miss) (AllHooks-subscribed t hs all)
  ]

-- The decision is not to let the step go on as it is.
abbrev pub is_touch : HookDecision → Bool
is_touch allowed = false
is_touch denied = true
is_touch modified = true

abbrev Merges : (HookDecision → Bool) → Type 0
Merges p =
    (d : HookDecision) (r : HookResult) (name : String) (a : AggregateHookResult)
    → p (merge_decision d r name a).decision ≡ (p a.decision || p d)

add_deny-decision :
    (d : HookDecision) (reason : String) (a : AggregateHookResult)
    → a.decision ≡ d
    → (add_deny d reason a).decision ≡ denied
unfolding add_deny
add_deny-decision denied reason a h = h
add_deny-decision allowed reason a h = refl
add_deny-decision modified reason a h = refl

or_modified-is_deny : (d : HookDecision) → is_deny (or_modified d) ≡ (is_deny d || false)
unfolding or_modified
or_modified-is_deny allowed = refl
or_modified-is_deny denied = refl
or_modified-is_deny modified = refl

or_modified-is_touch : (d : HookDecision) → is_touch (or_modified d) ≡ (is_touch d || true)
unfolding or_modified
or_modified-is_touch allowed = refl
or_modified-is_touch denied = refl
or_modified-is_touch modified = refl

merged_denial :
    (r : HookResult) (name : String) (a : AggregateHookResult)
    → (merge_decision denied r name a).decision ≡ denied
unfolding merge_decision
merged_denial r name a = add_deny-decision a.decision (reason_or r.reason "Denied" name) a refl

pub is_deny-Merges : Merges is_deny
is_deny-Merges allowed r name a = unfold merge_decision in ground arith
is_deny-Merges denied r name a = ap is_deny (merged_denial r name a) ∙ ground arith
is_deny-Merges modified r name a = unfold merge_decision in or_modified-is_deny a.decision

pub is_touch-Merges : Merges is_touch
is_touch-Merges allowed r name a = unfold merge_decision in ground arith
is_touch-Merges denied r name a = ap is_touch (merged_denial r name a) ∙ ground arith
is_touch-Merges modified r name a = unfold merge_decision in or_modified-is_touch a.decision

fallback-decision : (h : Hook) (reason : String) → (fallback h reason).decision ≡ on_failure h
unfolding fallback
fallback-decision h reason = elim (Bool-cases h.fail_open) [
  | inl opens ↦ rw opens refl
  | inr closes ↦ rw closes refl
]

module _ (p : HookDecision → Bool) (merges : Merges p) where
  add-decision :
      (r : HookResult) (name : String) (a : AggregateHookResult)
      → p (add r name a).decision ≡ (p a.decision || p r.decision)
  unfolding add
  add-decision r name a = merges r.decision r name _

  failure-decision :
      (h : Hook) (reason : String) (e : HookError) (a : AggregateHookResult)
      → p (add (fallback h reason) h.name (add_error e a)).decision
        ≡ (p a.decision || p (on_failure h))
  failure-decision h reason e a =
      add-decision (fallback h reason) h.name (add_error e a)
      ∙ ap (λ d. p (add_error e a).decision || p d) (fallback-decision h reason)
      ∙ unfold add_error in refl

  add_reply-decision :
      (t : HookEventType) (h : Hook) (reply : Reply) (a : AggregateHookResult)
      → p (add_reply t h reply a).decision ≡ (p a.decision || p (reply_decision h reply))
  unfolding add_reply allow
  add_reply-decision t h (returned r) a = add-decision r h.name a
  add_reply-decision t h other_value a = add-decision _ h.name a
  add_reply-decision t h timed_out a = failure-decision h _ (hook_timeout h.name t) a
  add_reply-decision t h (raised e) a = failure-decision h _ (hook_error h.name t e) a

  run_hook-decision :
      (t : HookEventType) (c : HookContext) (h : Hook) (s : AggregateHookResult × Metrics)
      → p (run_hook t c (some h) s).0.decision
        ≡ (p s.0.decision || (h.enabled && p (decision_of c h)))
  unfolding run_hook
  run_hook-decision t c h (a, metrics) =
      let reply = h.on_event c in
      let ran : AggregateHookResult × Metrics =
        (add_reply t h reply a, count_run h reply metrics) in
      let f : Bool → Bool = λ b. p (if b then ran else (a, metrics)).0.decision in
      elim (Bool-cases h.enabled) [
        | inl on ↦ ap f on ∙ add_reply-decision t h reply a ∙ ground (arith, on)
        | inr off ↦ ap f off ∙ ground (arith, off)
      ]

  -- The hooks that are found under their names decide.
  pub run_hooks-decision :
      (t : HookEventType) (c : HookContext) (d : Dict String Hook) (hs : List Hook)
      → AllHooks (λ h. lookup h.name d ≡ some h) hs
      → (s : AggregateHookResult × Metrics)
      → p (run_hooks t c d (names_of hs) s).0.decision
        ≡ (p s.0.decision || any_hook (λ h. h.enabled && p (decision_of c h)) hs)
  unfolding run_hooks names_of
  run_hooks-decision t c d [] all s = ground arith
  run_hooks-decision t c d (h ∷ hs) (found, all) s =
      ap (λ o. p (run_hooks t c d (names_of hs) (run_hook t c o s)).0.decision) found
      ∙ run_hooks-decision t c d hs all (run_hook t c (some h) s)
      ∙ ground (arith, run_hook-decision t c h s)
