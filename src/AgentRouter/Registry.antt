-- ===== src/AgentRouter/Registry.antt =====
-- `AgentRegistry` of app/agent/router.py. The cache is in the order of its OrderedDict, times are
-- ticks of the monotonic clock, and `cleaned` lists the agents whose cleanup was scheduled or run.
use manus_claw.Prelude.{
  ℕ, ◌+◌, String, Option, none, some, List, [], ◌∷◌, ◌++◌, ltb, leb, snoc, length, if◌then◌else◌,
  Dict, string_eq, lookup, insert, remove,
}

pub record Registry (A : Type 0) : Type 0 where
  pub cache : Dict String A
  pub last_active : Dict String ℕ
  pub cache_size : ℕ
  pub idle_ttl : ℕ
  pub cleaned : List A

-- The keys with `now - t > idle_ttl`.
unfoldable pub idle_keys : ℕ → ℕ → Dict String ℕ → List String
idle_keys now ttl [] = []
idle_keys now ttl ((k, t) ∷ d) =
    let rest = idle_keys now ttl d in if ltb (t + ttl) now then k ∷ rest else rest

module _ {A : Type 0} where
  -- `AgentRegistry(cache_size, idle_ttl)`
  abbrev pub new_registry : ℕ → ℕ → Registry A
  new_registry cache_size idle_ttl = record {
    cache = [];
    last_active = [];
    cache_size = cache_size;
    idle_ttl = idle_ttl;
    cleaned = [];
  }

  agents_of : Option A → List A
  agents_of none = []
  agents_of (some agent) = agent ∷ []

  -- `pop` of both maps, for one key, and the cleanup of the agent.
  unfoldable pub evict : String → Registry A → Registry A
  unfolding agents_of lookup remove
  evict k r = record r {
    cache = remove k r.cache;
    last_active = remove k r.last_active;
    cleaned = r.cleaned ++ agents_of (lookup k r.cache);
  }

  unfoldable pub evict_each : List String → Registry A → Registry A
  unfolding evict
  evict_each [] r = r
  evict_each (k ∷ ks) r = evict_each ks (evict k r)

  unfoldable pub evict_idle : ℕ → Registry A → Registry A
  unfolding evict_each idle_keys
  evict_idle now r = evict_each (idle_keys now r.idle_ttl r.last_active) r

  -- `while len(cache) >= cache_size: popitem(last=False)`; `none` is the KeyError of an empty cache.
  unfoldable pub evict_first : Dict String A → Registry A → Option (Registry A)
  unfolding remove
  evict_first [] r = if leb r.cache_size 0 then none else some (record r { cache = [] })
  evict_first ((k, agent) ∷ cache) r =
      let rest =
        evict_first cache
          (record r { last_active = remove k r.last_active; cleaned = snoc r.cleaned agent }) in
      if leb r.cache_size (length ((k, agent) ∷ cache))
      then rest
      else some (record r { cache = (k, agent) ∷ cache })

  unfoldable pub evict_lru : Registry A → Option (Registry A)
  unfolding evict_first
  evict_lru r = evict_first r.cache r

  -- `cache.move_to_end(key)` with `agent` as its value.
  abbrev pub move_to_end : String → A → Dict String A → Dict String A
  move_to_end key agent cache = snoc (remove key cache) (key, agent)

  unfoldable pub touch : String → ℕ → Option A → Registry A → Option A × Registry A
  unfolding remove insert
  touch key now none r = (none, r)
  touch key now (some agent) r = (
    some agent,
    record r { cache = move_to_end key agent r.cache; last_active = insert key now r.last_active },
  )

  abbrev pub with_registry {ℓ} : {B : Type ℓ} → Option (Registry A) → (Registry A → B) → Option B
  with_registry none f = none
  with_registry (some r) f = some (f r)

  unfoldable pub get : ℕ → String → Registry A → Option (Option A × Registry A)
  unfolding evict_idle evict_lru touch lookup
  get now key r =
      with_registry (evict_lru (evict_idle now r)) (λ s. touch key now (lookup key s.cache) s)

  -- The cache with the agent stored, by what the key held before.
  unfoldable pub stored_cache : String → A → Dict String A → Option A → Dict String A
  unfolding remove
  stored_cache key agent cache none = snoc cache (key, agent)
  stored_cache key agent cache (some old) = move_to_end key agent cache

  unfoldable pub store : ℕ → String → A → Registry A → Registry A
  unfolding lookup stored_cache insert
  store now key agent r = record r {
    cache = stored_cache key agent r.cache (lookup key r.cache);
    last_active = insert key now r.last_active;
  }

  unfoldable pub put : ℕ → String → A → Registry A → Option (Registry A)
  unfolding evict_idle evict_lru store
  put now key agent r = with_registry (evict_lru (evict_idle now r)) (store now key agent)

  -- `AgentRegistry.remove`
  unfoldable pub take_out : String → Registry A → Option A × Registry A
  unfolding lookup remove
  take_out key r = (
    lookup key r.cache,
    record r { cache = remove key r.cache; last_active = remove key r.last_active },
  )

  all_agents : Dict String A → List A
  all_agents [] = []
  all_agents ((k, agent) ∷ cache) = agent ∷ all_agents cache

  unfoldable pub cleanup_all : Registry A → Registry A
  unfolding all_agents
  cleanup_all r = record r {
    cache = [];
    last_active = [];
    cleaned = r.cleaned ++ all_agents r.cache;
  }

  unfoldable pub size : Registry A → ℕ
  size r = length r.cache
