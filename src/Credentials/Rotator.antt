-- ===== src/Credentials/Rotator.antt =====
-- `CrossProviderRotator` of app/llm/credential_pool.py.
use manus_claw.Prelude.{
  ℕ, ◌+◌, Bool, false, ◌&&◌, ◌||◌, String, Option, none, some, List, [], ◌∷◌, ◌==◌, ltb, str_eq,
  text_leb, snoc, one_of, if◌then◌else◌, Dict, lookup, insert, string_eq,
}
use manus_claw.Credentials.Pool.{
  Credential, CredentialPool, get, mark_exhausted, mark_success, available_count,
}

pub record CrossProviderRotator : Type 0 where
  pub pools : Dict String CredentialPool
  pub priority_order : List String

abbrev pub new_rotator : CrossProviderRotator
new_rotator = record { pools = []; priority_order = [] }

-- The order of `(priority, p)` and `(priority, q)`: one and the same priority stands in both keys.
unfoldable pub key_leb : ℕ → String → String → Bool
key_leb priority p q = ltb priority priority || (priority == priority && text_leb p q)

unfoldable pub insert_provider : ℕ → String → List String → List String
insert_provider priority p [] = p ∷ []
insert_provider priority p (q ∷ order) =
    let rest = insert_provider priority p order in
    if key_leb priority p q then p ∷ q ∷ order else q ∷ rest

unfoldable pub sort_providers : ℕ → List String → List String
unfolding insert_provider
sort_providers priority [] = []
sort_providers priority (p ∷ order) = insert_provider priority p (sort_providers priority order)

unfoldable pub add_pool : String → CredentialPool → ℕ → CrossProviderRotator → CrossProviderRotator
unfolding sort_providers insert
add_pool provider pool priority r = record {
  pools = insert provider pool r.pools;
  priority_order = sort_providers priority (
      if one_of provider r.priority_order
      then r.priority_order
      else snoc r.priority_order provider);
}

-- The credential of a provider's pool, with its provider.
unfoldable pub get_from : ℕ → String → Option CredentialPool → Option (ℕ × Credential)
unfolding get
get_from now provider none = none
get_from now provider (some pool) = get now pool

unfoldable pub or_later :
    String
    → Option (ℕ × Credential)
    → Option (ℕ × Credential) × String
    → Option (ℕ × Credential) × String
or_later provider none later = later
or_later provider (some found) later = (some found, provider)

abbrev pub is_preferred : Option String → String → Bool
is_preferred none provider = false
is_preferred (some preferred) provider =
    if str_eq preferred "" then false else str_eq provider preferred

unfoldable pub try_each :
    ℕ → Option String → Dict String CredentialPool → List String → Option (ℕ × Credential) × String
unfolding get_from or_later lookup
try_each now preferred pools [] = (none, "")
try_each now preferred pools (provider ∷ order) =
    let later = try_each now preferred pools order in
    if is_preferred preferred provider
    then later
    else or_later provider (get_from now provider (lookup provider pools)) later

-- `get_next`; a preferred provider that is empty, or has no pool, is passed over.
unfoldable pub get_next :
    ℕ → Option String → CrossProviderRotator → Option (ℕ × Credential) × String
unfolding try_each get_from or_later lookup
get_next now none r = try_each now none r.pools r.priority_order
get_next now (some preferred) r =
    let others = try_each now (some preferred) r.pools r.priority_order in
    if str_eq preferred ""
    then others
    else or_later preferred (get_from now preferred (lookup preferred r.pools)) others

unfoldable pub change_pool :
    String
    → (CredentialPool → CredentialPool)
    → Option CredentialPool
    → CrossProviderRotator
    → CrossProviderRotator
unfolding insert
change_pool provider f none r = r
change_pool provider f (some pool) r = record r { pools = insert provider (f pool) r.pools }

unfoldable pub exhaust_in : ℕ → String → ℕ → CrossProviderRotator → CrossProviderRotator
unfolding change_pool lookup
exhaust_in now provider i r =
    change_pool provider (mark_exhausted now i) (lookup provider r.pools) r

unfoldable pub succeed_in : String → ℕ → CrossProviderRotator → CrossProviderRotator
unfolding change_pool lookup
succeed_in provider i r = change_pool provider (mark_success i) (lookup provider r.pools) r

unfoldable pub count_in : ℕ → Dict String CredentialPool → ℕ
count_in now [] = 0
count_in now ((provider, pool) ∷ pools) = available_count now pool + count_in now pools

unfoldable pub total_available : ℕ → CrossProviderRotator → ℕ
unfolding count_in
total_available now r = count_in now r.pools
