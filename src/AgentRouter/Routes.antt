-- ===== src/AgentRouter/Routes.antt =====
-- `RouteRule` and the routing of app/agent/router.py. `search` is `re.search(pattern, value)` as a
-- test; its `none` is the re.error of a bad pattern. Priorities are natural numbers.
use manus_claw.Prelude.{
  ℕ, Bool, true, false, not, String, Option, none, some, List, [], ◌∷◌, leb, str_eq, if◌then◌else◌,
}

pub record RouteRule : Type 0 where
  pub channel : String
  pub user_id : String
  pub chat_id : String
  pub agent_name : String
  pub priority : ℕ

pub record Message : Type 0 where
  pub platform : String
  pub user : String
  pub channel_id : String

-- `name in self._configs`
unfoldable pub registered : String → List String → Bool
registered name [] = false
registered name (c ∷ configs) = if str_eq c name then true else registered name configs

-- `self._rules.sort(key=lambda r: r.priority, reverse=True)`, which is stable.
unfoldable pub insert_rule : RouteRule → List RouteRule → List RouteRule
insert_rule r [] = r ∷ []
insert_rule r (s ∷ rules) =
    let rest = insert_rule r rules in if leb s.priority r.priority then r ∷ s ∷ rules else s ∷ rest

unfoldable pub sort_rules : List RouteRule → List RouteRule
unfolding insert_rule
sort_rules [] = []
sort_rules (r ∷ rules) = insert_rule r (sort_rules rules)

module _ (search : String → String → Option Bool) where
  -- `bool(re.search(pattern, value))`, and the `except re.error`.
  searched : String → String → Option Bool → Bool
  searched pattern value none = str_eq pattern value
  searched pattern value (some found) = found

  unfoldable pub match_pattern : String → String → Bool
  unfolding searched
  match_pattern pattern value =
      if str_eq pattern ""
      then true
      else if str_eq pattern value
      then true
      else searched pattern value (search pattern value)

  -- `pattern and not _match_pattern(pattern, value)`
  unfoldable pub rejects : String → String → Bool
  unfolding match_pattern
  rejects pattern value = if str_eq pattern "" then false else not (match_pattern pattern value)

  unfoldable pub matches : RouteRule → Message → Bool
  unfolding rejects
  matches rule m =
      if rejects rule.channel m.platform
      then false
      else if rejects rule.user_id m.user
      then false
      else if rejects rule.chat_id m.channel_id
      then false
      else true

  unfoldable pub resolve_route : List RouteRule → List String → Message → String
  unfolding matches registered
  resolve_route [] configs m = "manus"
  resolve_route (rule ∷ rules) configs m =
      let later = resolve_route rules configs m in
      if matches rule m
      then (if registered rule.agent_name configs then rule.agent_name else "manus")
      else later
