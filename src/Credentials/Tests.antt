-- ===== src/Credentials/Tests.antt =====
-- Runs of the pools and the rotator of app/llm/credential_pool.py.
use manus_claw.Prelude.{ℕ, String, none, some, List, [], ◌∷◌, ◌≡◌, ◌⊎◌, refl, false}
use manus_claw.Credentials.Pool.{Credential, CredentialPool, new_pool, get, is_available}
use manus_claw.Credentials.Rotator.{new_rotator, get_next, add_pool, key_leb}
use manus_claw.Credentials.Best.{
  AllCredentials, Call, marks_exhausted, after_all, IsBest, get-IsBest,
}
use manus_claw.Credentials.Order.{add_pools, without_priorities, get_next_ignores_priorities}

abbrev keys : List (String × ℕ)
keys = ("second", 2) ∷ ("first", 1) ∷ []

abbrev some_calls : List Call
some_calls = marks_exhausted 100 0 ∷ []

-- At time 110 the first key cools until 160.
abbrev pool : CredentialPool
pool = after_all some_calls (new_pool keys 60)

get-IsBest_example :
    (AllCredentials (λ d. is_available 110 d ≡ false) pool.creds × (get 110 pool ≡ none))
    ⊎ ((k : ℕ) × (c : Credential) × IsBest 110 pool.creds k c × (get 110 pool ≡ some (k, c)))
get-IsBest_example = get-IsBest keys 60 some_calls 110

abbrev pools : List (String × CredentialPool × ℕ)
pools = ("openai", new_pool keys 60, 1) ∷ ("anthropic", new_pool keys 60, 9) ∷ []

-- The provider with the lower priority comes first, by its name.
anthropic_first : (get_next 5 none (add_pools pools new_rotator)).1 ≡ "anthropic"
unfolding get_next add_pool key_leb new_pool is_available
anthropic_first = refl

get_next_ignores_priorities_example :
    get_next 5 none (add_pools pools new_rotator)
    ≡ get_next 5 none (add_pools (without_priorities pools) new_rotator)
get_next_ignores_priorities_example = get_next_ignores_priorities 5 none pools
