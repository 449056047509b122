-- ===== src/AgentRouter/Sessions.antt =====
-- What `AgentRouter.get_agent` (app/agent/router.py) promises.
use mathlib.Core.Option.{some-injective}
use manus_claw.Prelude.{
  ℕ, ◌≤◌, ◌<◌, ◌≡◌, Bool, true, String, Option, none, some, List, map, length, Dict,
  HasDistinctKeys, lookup, codes, is_prefix, string_eq, ◌⊎◌, Option-cases, ◌∷◌, inl, arith, inr, [],
  refl, ap, false, sym, Bool-cases, ◌∙◌, ◌==◌, if◌then◌else◌,
}
use manus_claw.AgentRouter.Registry.{Registry, with_registry}
use manus_claw.AgentRouter.Routes.{RouteRule, Message, resolve_route}
use manus_claw.AgentRouter.Capacity.{put_within_size, get_outcome}
use manus_claw.AgentRouter.Router.{
  module_of, import_class, create_agent, session_key, get_agent, found_or_created, longer,
  from_module,
}

is_prefix_grown :
    (x c : ℕ) (p cs rest m : List ℕ)
    → (is_prefix p rest ≡ true → is_prefix p cs ≡ true)
    → some (c ∷ rest) ≡ some m
    → is_prefix (x ∷ p) m ≡ true
    → is_prefix (x ∷ p) (c ∷ cs) ≡ true
unfolding is_prefix
is_prefix_grown x c p cs rest [] grow e h = cc
is_prefix_grown x c p cs rest (d ∷ m) grow e h =
    let h' : is_prefix (x ∷ p) (c ∷ rest) ≡ true =
      ap (is_prefix (x ∷ p)) (some-injective _ _ e) ∙ h in
    ground (arith, h', grow)

is_prefix_dot : (x c : ℕ) (p m : List ℕ) → longer c none ≡ some m → is_prefix (x ∷ p) m ≡ false
unfolding longer is_prefix
is_prefix_dot x c p [] e = refl
is_prefix_dot x c p (d ∷ m) e = elim (Bool-cases (c == b'.')) [
  | inl dot ↦ ground (arith, e, dot)
  | inr other ↦ ground (arith, e, other)
]

-- What the module part of a class path starts with, the class path starts with.
is_prefix-module_of :
    (p cs m : List ℕ) → module_of cs ≡ some m → is_prefix p m ≡ true → is_prefix p cs ≡ true
unfolding module_of
is_prefix-module_of [] cs m e h = unfold is_prefix in refl
is_prefix-module_of (x ∷ p) [] m e h = cc
is_prefix-module_of (x ∷ p) (c ∷ cs) m e h = elim (Option-cases (module_of cs)) [
  | inl without ↦ let dot = is_prefix_dot x c p m (ap (longer c) (sym without) ∙ e) in cc
  | inr (rest, found) ↦
      is_prefix_grown x c p cs rest m (is_prefix-module_of p cs rest found)
        (unfold longer in (ap (longer c) (sym found) ∙ e)) h
]

module _ {A : Type 0} (load : String → Option A) (manus : A) where
  from_module_loaded :
      (path : String) (found : Option (List ℕ)) (agent : A)
      → from_module load manus path found ≡ some agent
      → (m : List ℕ) × (found ≡ some m)
        × (load path ≡ some agent)
        × (is_prefix (codes "app.") m ≡ true)
  unfolding from_module
  from_module_loaded path none agent e = cc
  from_module_loaded path (some m) agent e = elim (Bool-cases (is_prefix (codes "app.") m)) [
    | inl inside ↦ (m, refl, ap (λ b. if b then load path else none) (sym inside) ∙ e, inside)
    | inr outside ↦
        let e' : none ≡ some agent = ap (λ b. if b then load path else none) (sym outside) ∙ e in cc
  ]

  -- An agent is the default Manus, or it was loaded from a class path that starts with `app.`.
  pub create_agent_stays_in_app :
      (configs : Dict String String) (agent_name : String)
      → let agent = create_agent load manus configs agent_name in
        (agent ≡ manus)
        ⊎ ((path : String) × (lookup agent_name configs ≡ some path)
            × (load path ≡ some agent)
            × (is_prefix (codes "app.") (codes path) ≡ true))
  unfolding create_agent import_class
  create_agent_stays_in_app configs agent_name = elim (Option-cases (lookup agent_name configs)) [
    | inl absent ↦ inl (rw absent refl)
    | inr (path, e) ↦ elim (Option-cases (import_class load manus path)) [
      | inl failed ↦ inl (rw e (rw failed refl))
      | inr (agent, loaded) ↦
          let (m, split, made, inside) =
            from_module_loaded path (module_of (codes path)) agent
              (unfold import_class in loaded) in
          inr (
            path,
            e,
            made ∙ rw e (rw loaded refl),
            is_prefix-module_of (codes "app.") (codes path) m split inside,
          )
    ]
  ]

  -- With a positive cache size, `get_agent` succeeds; then the cache is within its size, and the
  -- session's key has the agent that was returned. (No key stands twice in the cache at the start.)
  pub get_agent_caches :
      (search : String → String → Option Bool) (rules : List RouteRule)
      (configs : Dict String String) (now later : ℕ) (m : Message) (r : Registry A)
      → 0 < r.cache_size
      → HasDistinctKeys r.cache
      → (agent : A) × (s : Registry A) × (get_agent load manus search rules configs now later m r
          ≡ some (agent, s))
        × (length s.cache ≤ r.cache_size)
        × (lookup (session_key (resolve_route search rules (map (λ c. c.0) configs) m) m) s.cache
            ≡ some agent)
  unfolding get_agent
  get_agent_caches search rules configs now later m r pos d =
      let key = session_key (resolve_route search rules (map (λ c. c.0) configs) m) m in
      let fresh =
        create_agent load manus configs (resolve_route search rules (map (λ c. c.0) configs) m) in
      elim (get_outcome now key r pos d) [
        | inl (s, e, size, distinct) ↦
            let (t, stored, fits, found, _) =
              put_within_size later key fresh s (omega (arith, size)) distinct in
            (
              fresh,
              t,
              ap (found_or_created later key fresh) e
                  ∙ unfold found_or_created in ap (λ o. with_registry o (λ u. (fresh, u))) stored,
              omega (arith, fits, size),
              found,
            )
        | inr (agent, s, e, fits, found) ↦ (agent, s, rw e refl, fits, found)
      ]
