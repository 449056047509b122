-- ===== src/AgentRouter/Capacity.antt =====
-- How many agents `AgentRegistry` (app/agent/router.py) keeps, and which it drops.
use manus_claw.Prelude.{
  ℕ, suc, ◌+◌, ◌≤◌, ◌<◌, ◌≡◌, refl, ◌∙◌, ap, String, none, some, List, [], ◌∷◌, arith, length, snoc,
  Dict, HasDistinctKeys, lookup, remove, eq_refl, Bool-cases, remove-HasDistinctKeys, leb, inl, inr,
  string_eq, lookup-insert_self, Option-cases, length-append, lookup-remove_self, ◌⊎◌, insert,
}
use manus_claw.AgentRouter.Registry.{
  Registry, evict, evict_each, idle_keys, evict_idle, evict_first, evict_lru, touch, get, store,
  put, with_registry, stored_cache, move_to_end,
}

module _ {A : Type 0} where
  -- The result of `evict_first`, which has room for one more agent.
  abbrev HasRoom : ℕ → Registry A → Type 0
  HasRoom n r = (length r.cache < n) × (r.cache_size ≡ n) × HasDistinctKeys r.cache

  evict_first_room :
      (cache : Dict String A) (r : Registry A)
      → 0 < r.cache_size
      → HasDistinctKeys cache
      → (s : Registry A) × (evict_first cache r ≡ some s) × HasRoom r.cache_size s
  unfolding evict_first
  evict_first_room [] r pos d = (record r { cache = [] }, ground arith, (omega arith, refl, tt))
  evict_first_room ((k, agent) ∷ cache) r pos d =
      let r' = record r { last_active = remove k r.last_active; cleaned = snoc r.cleaned agent } in
      let (s, e, room) = evict_first_room cache r' pos d.1 in
      elim (Bool-cases (leb r.cache_size (length ((k, agent) ∷ cache)))) [
        | inl full ↦ (s, rw full e, room)
        | inr fits ↦ (record r { cache = (k, agent) ∷ cache }, rw fits, (ground arith, refl, d))
      ]

  evict_each_keeps :
      (ks : List String) (r : Registry A)
      → HasDistinctKeys r.cache
      → HasDistinctKeys (evict_each ks r).cache × ((evict_each ks r).cache_size ≡ r.cache_size)
  unfolding evict_each
  evict_each_keeps [] r d = (d, refl)
  evict_each_keeps (k ∷ ks) r d =
      evict_each_keeps ks (evict k r) (remove-HasDistinctKeys k r.cache d)

  length-remove : (k : String) (d : Dict String A) → length (remove k d) ≤ length d
  unfolding remove
  length-remove k [] = omega arith
  length-remove k ((j, a) ∷ d) = ground (arith, length-remove k d)

  lookup-snoc :
      (k : String) (a : A) (d : Dict String A)
      → lookup k d ≡ none
      → lookup k (snoc d (k, a)) ≡ some a
  unfolding lookup
  lookup-snoc k a [] h = rw eq_refl
  lookup-snoc k a ((j, b) ∷ d) h = ground (arith, lookup-snoc k a d)

  evict_first_fits :
      (cache : Dict String A) (r : Registry A)
      → length cache < r.cache_size
      → evict_first cache r ≡ some (record r { cache = cache })
  unfolding evict_first
  evict_first_fits [] r room = ground arith
  evict_first_fits ((k, agent) ∷ cache) r room = ground arith

  stored_facts :
      (key : String) (agent : A) (cache : Dict String A)
      → HasDistinctKeys cache
      → let c = stored_cache key agent cache (lookup key cache) in
        (length c ≤ length cache + 1) × (lookup key c ≡ some agent)
  unfolding stored_cache
  stored_facts key agent cache d = elim (Option-cases (lookup key cache)) [
    | inl new ↦
        rw new
          (omega (arith, length-append cache ((key, agent) ∷ [])), lookup-snoc key agent cache new)
    | inr (old, e) ↦ rw e (
      omega (arith, length-append (remove key cache) ((key, agent) ∷ []), length-remove key cache),
      lookup-snoc key agent (remove key cache) (lookup-remove_self key cache d),
    )
  ]

  -- With a positive cache size, `put` succeeds; then the cache is within its size, and the key has the
  -- agent and the time of the call. (No key stands twice in the cache at the start.)
  pub put_within_size :
      (now : ℕ) (key : String) (agent : A) (r : Registry A)
      → 0 < r.cache_size
      → HasDistinctKeys r.cache
      → (s : Registry A) × (put now key agent r ≡ some s)
        × (length s.cache ≤ r.cache_size)
        × (lookup key s.cache ≡ some agent)
        × (lookup key s.last_active ≡ some now)
  unfolding put evict_idle
  put_within_size now key agent r pos d =
      let r1 = evict_idle now r in
      let kept = evict_each_keeps (idle_keys now r.idle_ttl r.last_active) r d in
      let (s, e, room) = evict_first_room r1.cache r1 (omega (arith, kept.1)) kept.0 in
      let facts = stored_facts key agent s.cache room.2 in
      (
        store now key agent s,
        unfold evict_lru in ap (λ o. with_registry o (store now key agent)) e,
        unfold store in omega (arith, facts.0, room.0, room.1, kept.1),
        unfold store in facts.1,
        unfold store in lookup-insert_self key now s.last_active,
      )

  -- With room made, `get` finds nothing, or has what it found at the end of a cache within its size.
  pub get_outcome :
      (now : ℕ) (key : String) (r : Registry A)
      → 0 < r.cache_size
      → HasDistinctKeys r.cache
      → ((s : Registry A) × (get now key r ≡ some (none, s))
          × (s.cache_size ≡ r.cache_size)
          × HasDistinctKeys s.cache)
        ⊎ ((agent : A) × (s : Registry A) × (get now key r ≡ some (some agent, s))
            × (length s.cache ≤ r.cache_size)
            × (lookup key s.cache ≡ some agent))
  unfolding get evict_idle
  get_outcome now key r pos d =
      let r1 = evict_idle now r in
      let kept = evict_each_keeps (idle_keys now r.idle_ttl r.last_active) r d in
      let (s, e, room) = evict_first_room r1.cache r1 (omega (arith, kept.1)) kept.0 in
      let run : get now key r ≡ some (touch key now (lookup key s.cache) s) =
        unfold evict_lru in
        ap (λ o. with_registry o (λ (u : Registry A). touch key now (lookup key u.cache) u)) e in
      elim (Option-cases (lookup key s.cache)) [
        | inl absent ↦ inl (
          s,
          run ∙ ap (λ o. some (touch key now o s)) absent ∙ unfold touch in refl,
          room.1 ∙ kept.1,
          room.2,
        )
        | inr (agent, found) ↦ inr (
          agent,
          record s {
            cache = move_to_end key agent s.cache;
            last_active = insert key now s.last_active;
          },
          run ∙ ap (λ o. some (touch key now o s)) found ∙ unfold touch in refl,
          omega (
            arith,
            length-append (remove key s.cache) ((key, agent) ∷ []),
            length-remove key s.cache,
            room.0,
            kept.1,
          ),
          lookup-snoc key agent (remove key s.cache) (lookup-remove_self key s.cache room.2),
        )
      ]

  -- When the cache is full and no agent is idle, `get` of the least recently used key evicts that very
  -- agent before it looks for it: it returns nothing.
  pub get_misses_when_full :
      (now : ℕ) (key : String) (agent : A) (rest : Dict String A) (r : Registry A)
      → r.cache ≡ (key, agent) ∷ rest
      → lookup key rest ≡ none
      → length r.cache ≡ r.cache_size
      → idle_keys now r.idle_ttl r.last_active ≡ []
      → (s : Registry A) × (get now key r ≡ some (none, s)) × (lookup key s.cache ≡ none)
  unfolding get
  get_misses_when_full now key agent rest r full absent size fresh =
      let r' = record r {
        last_active = remove key r.last_active;
        cleaned = snoc r.cleaned agent;
      } in
      let s = record r' { cache = rest } in
      let same : evict_idle now r ≡ r =
        unfold evict_idle evict_each in ap (λ ks. evict_each ks r) fresh in
      let long : length r.cache ≡ suc (length rest) = ap length full in
      let fits : evict_first rest r' ≡ some s = evict_first_fits rest r' (omega arith) in
      let evicted : evict_lru r ≡ some s =
        unfold evict_lru in
        (ap (λ c. evict_first c r) full ∙ unfold evict_first in ground (arith, fits)) in
      (
        s,
        ap
              (λ (t : Registry A).
                with_registry (evict_lru t) (λ u. touch key now (lookup key u.cache) u))
              same
            ∙ ap (λ o. with_registry o (λ (u : Registry A). touch key now (lookup key u.cache) u))
                evicted
            ∙ ap (λ o. some (touch key now o s)) absent
            ∙ unfold touch in refl,
        absent,
      )
