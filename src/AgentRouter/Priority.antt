-- ===== src/AgentRouter/Priority.antt =====
-- Which rule decides a route of app/agent/router.py.
use manus_claw.Prelude.{
  ◌≤◌, List, [], ◌∷◌, ◌⊎◌, inl, inr, arith, Bool-cases, leb, String, Option, Bool, ◌≡◌, false, true,
  refl, if◌then◌else◌,
}
use manus_claw.AgentRouter.Routes.{
  RouteRule, insert_rule, sort_rules, Message, matches, resolve_route, registered,
}

-- Some rule of the list has the property.
abbrev pub AnyRule : (RouteRule → Type 0) → List RouteRule → Type 0
AnyRule P [] = ⊥
AnyRule P (r ∷ rules) = P r ⊎ AnyRule P rules

abbrev pub AllRules {ℓ} : (RouteRule → Type ℓ) → List RouteRule → Type ℓ
AllRules P [] = Unit
AllRules P (r ∷ rules) = P r × AllRules P rules

abbrev IsSorted : List RouteRule → Type 0
IsSorted [] = Unit
IsSorted (r ∷ rules) = AllRules (λ s. s.priority ≤ r.priority) rules × IsSorted rules

module _ {ℓ} (P : RouteRule → Type ℓ) where
  AllRules-insert :
      (r : RouteRule) (rules : List RouteRule)
      → P r
      → AllRules P rules
      → AllRules P (insert_rule r rules)
  unfolding insert_rule
  AllRules-insert r [] p all = (p, tt)
  AllRules-insert r (s ∷ rules) p (q, all) = elim (Bool-cases (leb s.priority r.priority)) [
    | inl before ↦ rw before (p, (q, all))
    | inr after ↦ rw after (q, AllRules-insert r rules p all)
  ]

  AllRules-sort : (rules : List RouteRule) → AllRules P rules → AllRules P (sort_rules rules)
  unfolding sort_rules
  AllRules-sort [] all = tt
  AllRules-sort (r ∷ rules) (p, all) =
      AllRules-insert r (sort_rules rules) p (AllRules-sort rules all)

  AllRules-uninsert :
      (r : RouteRule) (rules : List RouteRule)
      → AllRules P (insert_rule r rules)
      → P r × AllRules P rules
  unfolding insert_rule
  AllRules-uninsert r [] all = all
  AllRules-uninsert r (s ∷ rules) all =
      let earlier = AllRules-uninsert r rules in
      let f : AllRules P
            (if leb s.priority r.priority then r ∷ s ∷ rules else s ∷ insert_rule r rules)
          → P r × (P s × AllRules P rules) =
        elim (Bool-cases (leb s.priority r.priority)) [
          | inl before ↦ rw before (λ h. h)
          | inr after ↦ rw after (λ (q, h). let (p, rest) = earlier h in (p, (q, rest)))
        ] in
      f all

  AllRules-unsort : (rules : List RouteRule) → AllRules P (sort_rules rules) → AllRules P rules
  unfolding sort_rules
  AllRules-unsort [] all = tt
  AllRules-unsort (r ∷ rules) all =
      let (p, rest) = AllRules-uninsert r (sort_rules rules) all in (p, AllRules-unsort rules rest)

module _ (P : RouteRule → Type 0) where
  AnyRule-uninsert :
      (r : RouteRule) (rules : List RouteRule)
      → AnyRule P (insert_rule r rules)
      → P r ⊎ AnyRule P rules
  unfolding insert_rule
  AnyRule-uninsert r [] any = any
  AnyRule-uninsert r (s ∷ rules) any =
      let earlier = AnyRule-uninsert r rules in
      let f : AnyRule P
            (if leb s.priority r.priority then r ∷ s ∷ rules else s ∷ insert_rule r rules)
          → P r ⊎ (P s ⊎ AnyRule P rules) =
        elim (Bool-cases (leb s.priority r.priority)) [
          | inl before ↦ rw before (λ h. h)
          | inr after ↦ rw after (λ h. elim h [
            | inl q ↦ inr (inl q)
            | inr more ↦ elim (earlier more) [ inl p ↦ inl p | inr rest ↦ inr (inr rest) ]
          ])
        ] in
      f any

  AnyRule-unsort : (rules : List RouteRule) → AnyRule P (sort_rules rules) → AnyRule P rules
  unfolding sort_rules
  AnyRule-unsort [] any = any
  AnyRule-unsort (r ∷ rules) any = elim (AnyRule-uninsert r (sort_rules rules) any) [
    | inl p ↦ inl p
    | inr more ↦ inr (AnyRule-unsort rules more)
  ]

AllRules-map {ℓ κ} :
    (P : RouteRule → Type ℓ) (Q : RouteRule → Type κ)
    → ((r : RouteRule) → P r → Q r)
    → (rules : List RouteRule) → AllRules P rules
    → AllRules Q rules
AllRules-map P Q f [] all = tt
AllRules-map P Q f (r ∷ rules) (p, all) = (f r p, AllRules-map P Q f rules all)

insert_rule-IsSorted :
    (r : RouteRule) (rules : List RouteRule) → IsSorted rules → IsSorted (insert_rule r rules)
unfolding insert_rule
insert_rule-IsSorted r [] d = (tt, tt)
insert_rule-IsSorted r (s ∷ rules) (below, d) = elim (Bool-cases (leb s.priority r.priority)) [
  | inl before ↦
      rw before ((ground arith, AllRules-map _ _ (λ t h. ground arith) rules below), (below, d))
  | inr after ↦
      rw after (AllRules-insert _ r rules (ground arith) below, insert_rule-IsSorted r rules d)
]

sort_rules-IsSorted : (rules : List RouteRule) → IsSorted (sort_rules rules)
unfolding sort_rules
sort_rules-IsSorted [] = tt
sort_rules-IsSorted (r ∷ rules) =
    insert_rule-IsSorted r (sort_rules rules) (sort_rules-IsSorted rules)

module _ (search : String → String → Option Bool) (configs : List String) (m : Message) where
  -- The rule matches, decides the route, and no matching rule has a higher priority.
  pub record IsDecisive (rules : List RouteRule) (target : String) (w : RouteRule) : Type 0 where
    pub listed : AnyRule (λ r. r ≡ w) rules
    pub fits : matches search w m ≡ true
    pub chosen : target ≡ (if registered w.agent_name configs then w.agent_name else "manus")
    pub highest : AllRules (λ r. matches search r m ≡ true → r.priority ≤ w.priority) rules

  abbrev pub IsRouted : List RouteRule → String → Type 0
  IsRouted rules target =
      (AllRules (λ r. matches search r m ≡ false) rules × (target ≡ "manus"))
      ⊎ ((w : RouteRule) × IsDecisive rules target w)

  route_sorted :
      (rules : List RouteRule)
      → IsSorted rules
      → IsRouted rules (resolve_route search rules configs m)
  unfolding resolve_route
  route_sorted [] d = inl (tt, refl)
  route_sorted (r ∷ rules) (below, d) = elim (Bool-cases (matches search r m)) [
    | inl hit ↦ inr (
      r,
      record {
        listed = inl refl;
        fits = hit;
        chosen = rw hit;
        highest = (λ h. omega arith, AllRules-map _ _ (λ t h k. h) rules below);
      },
    )
    | inr miss ↦ elim (route_sorted rules d) [
      | inl (none_fits, e) ↦ inl ((miss, none_fits), rw miss e)
      | inr (w, h) ↦ inr (
        w,
        record {
          listed = inr h.listed;
          fits = h.fits;
          chosen = rw miss h.chosen;
          highest = (λ k. ground (arith, miss, k), h.highest);
        },
      )
    ]
  ]

  -- With the rules sorted as they are when the configuration is loaded, a message goes to the agent of
  -- a matching rule of the highest priority among those that match, or to `manus` if that agent is not
  -- configured or no rule matches.
  pub resolve_route-IsRouted :
      (rules : List RouteRule) → IsRouted rules (resolve_route search (sort_rules rules) configs m)
  resolve_route-IsRouted rules =
      elim (route_sorted (sort_rules rules) (sort_rules-IsSorted rules)) [
        | inl (none_fits, e) ↦ inl (AllRules-unsort _ rules none_fits, e)
        | inr (w, h) ↦ inr (
          w,
          record {
            listed = AnyRule-unsort _ rules h.listed;
            fits = h.fits;
            chosen = h.chosen;
            highest = AllRules-unsort _ rules h.highest;
          },
        )
      ]
