-- ===== src/Hooks/Denial/Registry.antt =====
-- The registry of `HookManager` (app/hooks/manager.py) under its methods, and who denies.
use manus_claw.Prelude.{
  true, false, if◌then◌else◌, ◌||◌, Bool, ◌&&◌, String, Option, none, some, List, [], ◌∷◌, ◌≡◌,
  refl, ap, sym, ◌∙◌, Dict, lookup, insert, remove, lookup_or, HasDistinctKeys,
  insert-HasDistinctKeys, remove-HasDistinctKeys, string_eq, str_eq, eq_iff,
}
use manus_claw.Hooks.Types.{
  HookDecision, allowed, denied, modified, HookEventType, HookContext, Hook, event_eq,
  is_subscribed, session_start, user_prompt_submit, pre_tool_use, post_tool_use, stop, session_end,
}
use manus_claw.Hooks.Aggregate.{is_deny, new_aggregate}
use manus_claw.Hooks.Manager.{
  rebuild_index, unregister_found, names_of, sort_hooks, subscribed, run_hooks, HookManager,
  new_manager, register, register_many, unregister, initialize, shutdown, execute_hooks, list_hooks,
  values, names_for, index_events, event_types, insert_all, unregister_found, rebuild_index,
}
use manus_claw.Hooks.Denial.{
  any_hook, AllHooks, any_hook-sort, any_hook-subscribed, AllHooks-sort, AllHooks-subscribed,
  Bool-cases, inl, inr, arith, decision_of, is_touch, Merges, is_deny-Merges, is_touch-Merges,
  run_hooks-decision,
}

-- A call of a method that changes the manager.
pub data Call : Type 0 where
  registers : Hook → Call
  registers_many : List Hook → Call
  unregisters : String → Call
  initializes shuts_down : Call
  executes_hooks : HookEventType → HookContext → Call

abbrev pub after : Call → HookManager → HookManager
after (registers h) m = register h m
after (registers_many hs) m = register_many hs m
after (unregisters name) m = (unregister name m).1
after initializes m = initialize m
after shuts_down m = shutdown m
after (executes_hooks t c) m = (execute_hooks t c m).1

abbrev pub after_all : List Call → HookManager → HookManager
after_all [] m = m
after_all (call ∷ calls) m = after_all calls (after call m)

abbrev IsNamed : Dict String Hook → Type 0
IsNamed [] = Unit
IsNamed ((name, h) ∷ d) = (name ≡ h.name) × IsNamed d

record IsWellFormed (m : HookManager) : Type 0 where
  named : IsNamed m.hooks
  distinct : HasDistinctKeys m.hooks
  indexed : (t : HookEventType) → lookup_or [] t m.event_index ≡ names_for t m.hooks

insert-IsNamed : (h : Hook) (d : Dict String Hook) → IsNamed d → IsNamed (insert h.name h d)
unfolding insert
insert-IsNamed h [] n = (refl, tt)
insert-IsNamed h ((j, g) ∷ d) (n, ns) = elim (Bool-cases (str_eq j h.name)) [
  | inl same ↦ rw same ((eq_iff j h.name).0 same, ns)
  | inr other ↦ rw other (n, insert-IsNamed h d ns)
]

remove-IsNamed : (name : String) (d : Dict String Hook) → IsNamed d → IsNamed (remove name d)
unfolding remove
remove-IsNamed name [] n = tt
remove-IsNamed name ((j, g) ∷ d) (n, ns) = elim (Bool-cases (str_eq j name)) [
  | inl same ↦ rw same ns
  | inr other ↦ rw other (n, remove-IsNamed name d ns)
]

insert_all-IsNamed :
    (hs : List Hook) (d : Dict String Hook)
    → IsNamed d × HasDistinctKeys d
    → IsNamed (insert_all hs d) × HasDistinctKeys (insert_all hs d)
unfolding insert_all
insert_all-IsNamed [] d p = p
insert_all-IsNamed (h ∷ hs) d (n, k) =
    insert_all-IsNamed hs (insert h.name h d)
      (insert-IsNamed h d n, insert-HasDistinctKeys h.name h d k)

index_events-names_for :
    (t : HookEventType) (d : Dict String Hook)
    → lookup_or [] t (index_events event_types d []) ≡ names_for t d
unfolding index_events lookup_or lookup insert
index_events-names_for session_start d = refl
index_events-names_for user_prompt_submit d = refl
index_events-names_for pre_tool_use d = refl
index_events-names_for post_tool_use d = refl
index_events-names_for stop d = refl
index_events-names_for session_end d = refl

-- `_rebuild_index` makes any table of hooks that are under their names well-formed.
rebuilt :
    (m : HookManager) → IsNamed m.hooks × HasDistinctKeys m.hooks → IsWellFormed (rebuild_index m)
unfolding rebuild_index
rebuilt m (n, k) = record {
  named = n;
  distinct = k;
  indexed = λ t. index_events-names_for t m.hooks;
}

unregister_found-IsWellFormed :
    (o : Option Hook) (name : String) (m : HookManager)
    → IsWellFormed m
    → IsWellFormed (unregister_found o name m)
unfolding unregister_found
unregister_found-IsWellFormed none name m w = w
unregister_found-IsWellFormed (some h) name m w =
    rebuilt (record m { hooks = remove name m.hooks })
      (remove-IsNamed name m.hooks w.named, remove-HasDistinctKeys name m.hooks w.distinct)

no_names : (t : HookEventType) → lookup_or [] t [] ≡ names_for t []
unfolding lookup_or lookup names_for names_of sort_hooks subscribed values
no_names t = refl

after-IsWellFormed : (call : Call) (m : HookManager) → IsWellFormed m → IsWellFormed (after call m)
unfolding register register_many unregister initialize shutdown execute_hooks
after-IsWellFormed (registers h) m w =
    rebuilt (record m { hooks = insert h.name h m.hooks })
      (insert-IsNamed h m.hooks w.named, insert-HasDistinctKeys h.name h m.hooks w.distinct)
after-IsWellFormed (registers_many hs) m w =
    rebuilt (record m { hooks = insert_all hs m.hooks })
      (insert_all-IsNamed hs m.hooks (w.named, w.distinct))
after-IsWellFormed (unregisters name) m w =
    unregister_found-IsWellFormed (lookup name m.hooks) name m w
after-IsWellFormed initializes m w = record {
  named = w.named;
  distinct = w.distinct;
  indexed = w.indexed;
}
after-IsWellFormed shuts_down m w = record { named = tt; distinct = tt; indexed = no_names }
after-IsWellFormed (executes_hooks t c) m w = record {
  named = w.named;
  distinct = w.distinct;
  indexed = w.indexed;
}

after_all-IsWellFormed :
    (calls : List Call) (m : HookManager) → IsWellFormed m → IsWellFormed (after_all calls m)
after_all-IsWellFormed [] m w = w
after_all-IsWellFormed (call ∷ calls) m w =
    after_all-IsWellFormed calls (after call m) (after-IsWellFormed call m w)

AllHooks-map :
    (P Q : Hook → Type 0)
    → ((h : Hook) → P h → Q h)
    → (hs : List Hook) → AllHooks P hs
    → AllHooks Q hs
AllHooks-map P Q f [] all = tt
AllHooks-map P Q f (h ∷ hs) (p, all) = (f h p, AllHooks-map P Q f hs all)

-- Every hook is found under its name.
values_found :
    (d : Dict String Hook)
    → IsNamed d
    → HasDistinctKeys d
    → AllHooks (λ h. lookup h.name d ≡ some h) (values d)
unfolding values lookup
values_found [] n k = tt
values_found ((j, g) ∷ d) (n, ns) (fresh, k) = (
  rw ((eq_iff j g.name).1 n) refl,
  AllHooks-map _ _
      (λ h found. elim (Bool-cases (str_eq j h.name)) [
        | inl same ↦
            (let e : ◌≡◌ {A = Option Hook} (some h) none =
                sym found ∙ ap (λ x. lookup x d) (sym ((eq_iff j h.name).0 same)) ∙ fresh in
              cc)
        | inr other ↦ rw other found
      ])
      (values d) (values_found d ns k),
)

any_hook_same :
    (f g : Hook → Bool)
    → ((h : Hook) → f h ≡ g h)
    → (hs : List Hook) → any_hook f hs ≡ any_hook g hs
any_hook_same f g e [] = refl
any_hook_same f g e (h ∷ hs) = ground (arith, e h, any_hook_same f g e hs)

-- The decision of hooks of which some deny, or some deny or modify.
abbrev pub verdict : Bool → Bool → HookDecision
verdict denies touches = if denies then denied else if touches then modified else allowed

verdict_of :
    (d : HookDecision) (denies touches : Bool)
    → is_deny d ≡ denies
    → is_touch d ≡ touches
    → d ≡ verdict denies touches
verdict_of allowed x y e f = ap (verdict false) f ∙ ap (λ b. verdict b y) e
verdict_of denied x y e f = ap (verdict true) f ∙ ap (λ b. verdict b y) e
verdict_of modified x y e f = ap (verdict false) f ∙ ap (λ b. verdict b y) e

module _ (p : HookDecision → Bool) (merges : Merges p) (calm : p allowed ≡ false) where
  enabled_once :
      (t : HookEventType) (c : HookContext) (h : Hook)
      → (is_subscribed t h && (h.enabled && p (decision_of c h)))
        ≡ (is_subscribed t h && p (decision_of c h))
  unfolding is_subscribed
  enabled_once t c h = ground arith

  run_registered :
      (m : HookManager) (t : HookEventType) (c : HookContext)
      → IsWellFormed m
      → p (execute_hooks t c m).0.decision
        ≡ any_hook (λ h. is_subscribed t h && p (decision_of c h)) (list_hooks m)
  unfolding execute_hooks list_hooks names_for
  run_registered m t c w =
      let hs = subscribed t (values m.hooks) in
      let found = values_found m.hooks w.named w.distinct in
      let decides : Hook → Bool = λ h. h.enabled && p (decision_of c h) in
      ap (λ names. p (run_hooks t c m.hooks names (new_aggregate, m.metrics)).0.decision)
        (w.indexed t)
      ∙ run_hooks-decision p merges t c m.hooks (sort_hooks hs)
          (AllHooks-sort _ hs (AllHooks-subscribed _ t (values m.hooks) found))
          (new_aggregate, m.metrics)
      ∙ ap (λ b. b || any_hook decides (sort_hooks hs)) calm
      ∙ any_hook-sort decides hs
      ∙ any_hook-subscribed decides t (values m.hooks)
      ∙ any_hook_same _ _ (enabled_once t c) (values m.hooks)

-- Whatever methods were called on a new manager, `execute_hooks` decides by the hooks of the registry
-- that are enabled and subscribed to the event, whatever their order: it denies if one of them denies,
-- or fails and does not fail open, else it modifies if one of them modifies, and else it allows.
pub execute_hooks-eq-verdict :
    (calls : List Call) (t : HookEventType) (c : HookContext)
    → let m = after_all calls new_manager in
      (execute_hooks t c m).0.decision
      ≡ verdict
          (any_hook (λ h. is_subscribed t h && is_deny (decision_of c h)) (list_hooks m))
          (any_hook (λ h. is_subscribed t h && is_touch (decision_of c h)) (list_hooks m))
unfolding new_manager
execute_hooks-eq-verdict calls t c =
    let m = after_all calls new_manager in
    let w : IsWellFormed m =
      after_all-IsWellFormed calls new_manager
        (record { named = tt; distinct = tt; indexed = no_names }) in
    verdict_of (execute_hooks t c m).0.decision _ _
      (run_registered is_deny is_deny-Merges refl m t c w)
      (run_registered is_touch is_touch-Merges refl m t c w)
