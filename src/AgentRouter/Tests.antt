-- ===== src/AgentRouter/Tests.antt =====
-- Runs of the router of app/agent/router.py, with agents that are their class paths.
use manus_claw.Prelude.{
  ℕ, List, String, Dict, lookup, ◌≡◌, some, Option, map, ◌⊎◌, ◌∷◌, HasDistinctKeys, string_eq, [],
  is_prefix, none, Bool, refl, length, ◌≤◌, codes, false, arith, true,
}
use manus_claw.AgentRouter.Registry.{Registry, get, idle_keys}
use manus_claw.AgentRouter.Routes.{RouteRule, Message, resolve_route, sort_rules}
use manus_claw.AgentRouter.Capacity.{get_misses_when_full}
use manus_claw.AgentRouter.Priority.{IsRouted, resolve_route-IsRouted}
use manus_claw.AgentRouter.Router.{create_agent, get_agent, session_key}
use manus_claw.AgentRouter.Sessions.{create_agent_stays_in_app, get_agent_caches}

-- A pattern is found only where it is the whole value.
abbrev no_search : String → String → Option Bool
no_search pattern value = some false

abbrev load_path : String → Option String
load_path path = some path

abbrev rule : String → String → ℕ → RouteRule
rule channel agent_name priority = record {
  channel = channel;
  user_id = "";
  chat_id = "";
  agent_name = agent_name;
  priority = priority;
}

abbrev rules : List RouteRule
rules = rule "" "manus" 0 ∷ rule "discord" "browser" 5 ∷ rule "discord" "coder" 9 ∷ []

abbrev message : Message
message = record { platform = "discord"; user = "ann"; channel_id = "7" }

abbrev configs : Dict String String
configs =
    ("manus", "app.agent.manus.Manus")
    ∷ ("coder", "app.agent.coder.Coder")
    ∷ ("browser", "os.Popen")
    ∷ []

abbrev names : List String
names = map (λ c. c.0) configs

to_coder : resolve_route no_search (sort_rules rules) names message ≡ "coder"
unfolding resolve_route sort_rules
to_coder = refl

only_app : create_agent load_path "default" configs "browser" ≡ "default"
unfolding create_agent lookup
only_app = refl

resolve_route-IsRouted_example :
    IsRouted no_search names message rules
      (resolve_route no_search (sort_rules rules) names message)
resolve_route-IsRouted_example = resolve_route-IsRouted no_search names message rules

create_agent_stays_in_app_example :
    let agent = create_agent load_path "default" configs "coder" in
    (agent ≡ "default")
    ⊎ ((path : String) × (lookup "coder" configs ≡ some path)
        × (load_path path ≡ some agent)
        × (is_prefix (codes "app.") (codes path) ≡ true))
create_agent_stays_in_app_example = create_agent_stays_in_app load_path "default" configs "coder"

-- A registry for two agents, with both places taken.
abbrev full_registry : Registry String
full_registry = record {
  cache = ("a", "A") ∷ ("b", "B") ∷ [];
  last_active = ("a", 5) ∷ ("b", 6) ∷ [];
  cache_size = 2;
  idle_ttl = 100;
  cleaned = [];
}

full_distinct : HasDistinctKeys full_registry.cache
unfolding lookup
full_distinct = (refl, (refl, tt))

get_agent_caches_example :
    (agent : String) × (s : Registry String) × (get_agent load_path "default" no_search rules
        configs 7 8 message full_registry
      ≡ some (agent, s))
    × (length s.cache ≤ 2)
    × (lookup (session_key (resolve_route no_search rules names message) message) s.cache
        ≡ some agent)
get_agent_caches_example =
    get_agent_caches load_path "default" no_search rules configs 7 8 message full_registry
      (omega arith) full_distinct

get_misses_when_full_example :
    (s : Registry String) × (get 7 "a" full_registry ≡ some (none, s)) × (lookup "a" s.cache ≡ none)
get_misses_when_full_example =
    get_misses_when_full 7 "a" "A" (("b", "B") ∷ []) full_registry refl (unfold lookup in refl) refl
      (unfold idle_keys in refl)
