-- ===== src/AgentRouter/Router.antt =====
-- `AgentRouter.get_agent` of app/agent/router.py with the creation of agents. `configs` gives the
-- class path of each configured agent, `load` imports a class and calls it (`none` when that
-- raises), `manus` is what `Manus()` gives, and `search` is that of the routes.
use manus_claw.Prelude.{
  ℕ, Bool, String, Option, none, some, List, [], ◌∷◌, ◌==◌, map, if◌then◌else◌, Dict, string_eq,
  lookup, or_default, colon, codes, is_prefix,
}
use manus_claw.AgentRouter.Registry.{Registry, get, put, with_registry}
use manus_claw.AgentRouter.Routes.{RouteRule, Message, resolve_route}

unfoldable pub longer : ℕ → Option (List ℕ) → Option (List ℕ)
longer c none = if c == b'.' then some [] else none
longer c (some module_path) = some (c ∷ module_path)

-- The module part of `dotted_path.rsplit(".", 1)`, on code points; `none` without a dot.
unfoldable pub module_of : List ℕ → Option (List ℕ)
unfolding longer
module_of [] = none
module_of (c ∷ cs) = longer c (module_of cs)

unfoldable pub session_key : String → Message → String
session_key route m = colon route (colon m.platform (colon m.user m.channel_id))

-- `get_agent` after the look into the registry, at the time of its `put`.
unfoldable pub found_or_created :
    {A : Type 0} → ℕ → String → A → Option (Option A × Registry A) → Option (A × Registry A)
unfolding put
found_or_created now key agent none = none
found_or_created now key agent (some (some cached, r)) = some (cached, r)
found_or_created now key agent (some (none, r)) =
    with_registry (put now key agent r) (λ s. (agent, s))

module _ {A : Type 0} (load : String → Option A) (manus : A) where
  unfoldable pub from_module : String → Option (List ℕ) → Option A
  unfolding is_prefix
  from_module path none = none
  from_module path (some module_path) =
      if is_prefix (codes "app.") module_path then load path else none

  -- `_import_class(path)()`: `none` when it raises.
  unfoldable pub import_class : String → Option A
  unfolding from_module module_of
  import_class path = from_module path (module_of (codes path))

  unfoldable pub configured : Option String → A
  unfolding import_class or_default
  configured none = manus
  configured (some class_path) = or_default manus (import_class class_path)

  unfoldable pub create_agent : Dict String String → String → A
  unfolding configured lookup
  create_agent configs agent_name = configured (lookup agent_name configs)

  -- `none` is the KeyError of a registry of size 0.
  unfoldable pub get_agent :
      (String → String → Option Bool)
      → List RouteRule
      → Dict String String
      → ℕ
      → ℕ
      → Message
      → Registry A
      → Option (A × Registry A)
  unfolding found_or_created create_agent session_key get resolve_route
  get_agent search rules configs now later m r =
      let route = resolve_route search rules (map (λ c. c.0) configs) m in
      let key = session_key route m in
      found_or_created later key (create_agent configs route) (get now key r)
