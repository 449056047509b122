-- ===== src/Credentials/Order.antt =====
-- The order of the providers of `CrossProviderRotator` (app/llm/credential_pool.py).
use manus_claw.Prelude.{
  ℕ, String, Option, List, [], ◌∷◌, ◌≡◌, refl, ap, ◌∙◌, arith, if◌then◌else◌, snoc, one_of, insert,
  string_eq,
}
use manus_claw.Credentials.Pool.{CredentialPool}
use manus_claw.Credentials.Rotator.{
  CrossProviderRotator, new_rotator, key_leb, insert_provider, sort_providers, add_pool, get_next,
}

abbrev pub add_pools :
    List (String × CredentialPool × ℕ) → CrossProviderRotator → CrossProviderRotator
add_pools [] r = r
add_pools ((provider, pool, priority) ∷ pools) r =
    add_pools pools (add_pool provider pool priority r)

-- The same pools, all with priority 0.
abbrev pub without_priorities :
    List (String × CredentialPool × ℕ) → List (String × CredentialPool × ℕ)
without_priorities [] = []
without_priorities ((provider, pool, priority) ∷ pools) =
    (provider, pool, 0) ∷ without_priorities pools

key_leb_same : (n : ℕ) (p q : String) → key_leb n p q ≡ key_leb 0 p q
unfolding key_leb
key_leb_same n p q = ground arith

insert_provider_same :
    (n : ℕ) (p : String) (order : List String)
    → insert_provider n p order ≡ insert_provider 0 p order
unfolding insert_provider
insert_provider_same n p [] = refl
insert_provider_same n p (q ∷ order) =
    ap (λ b. if b then p ∷ q ∷ order else q ∷ insert_provider n p order) (key_leb_same n p q)
    ∙ ap (λ rest. if key_leb 0 p q then p ∷ q ∷ order else q ∷ rest)
        (insert_provider_same n p order)

sort_providers_same :
    (n : ℕ) (order : List String) → sort_providers n order ≡ sort_providers 0 order
unfolding sort_providers
sort_providers_same n [] = refl
sort_providers_same n (p ∷ order) =
    insert_provider_same n p (sort_providers n order)
    ∙ ap (insert_provider 0 p) (sort_providers_same n order)

add_pool_same :
    (provider : String) (pool : CredentialPool) (n : ℕ) (r : CrossProviderRotator)
    → add_pool provider pool n r ≡ add_pool provider pool 0 r
unfolding add_pool
add_pool_same provider pool n r =
    let with_order : List String → CrossProviderRotator =
      λ order. record { pools = insert provider pool r.pools; priority_order = order } in
    ap with_order (
      sort_providers_same n (
        if one_of provider r.priority_order
        then r.priority_order
        else snoc r.priority_order provider))

add_pools_same :
    (pools : List (String × CredentialPool × ℕ)) (r : CrossProviderRotator)
    → add_pools pools r ≡ add_pools (without_priorities pools) r
add_pools_same [] r = refl
add_pools_same ((provider, pool, n) ∷ pools) r =
    add_pools_same pools (add_pool provider pool n r)
    ∙ ap (add_pools (without_priorities pools)) (add_pool_same provider pool n r)

-- The priorities that pools are registered with make no difference: `get_next` chooses as if they were
-- all 0.
pub get_next_ignores_priorities :
    (now : ℕ) (preferred : Option String) (pools : List (String × CredentialPool × ℕ))
    → get_next now preferred (add_pools pools new_rotator)
      ≡ get_next now preferred (add_pools (without_priorities pools) new_rotator)
get_next_ignores_priorities now preferred pools =
    ap (get_next now preferred) (add_pools_same pools new_rotator)
