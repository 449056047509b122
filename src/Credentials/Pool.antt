-- ===== src/Credentials/Pool.antt =====
-- `Credential` and `CredentialPool` of app/llm/credential_pool.py. A credential, which callers hold by
-- reference, is its position in the pool; times are numbers of ticks, and priorities natural numbers.
use manus_claw.Prelude.{
  ℕ, zero, suc, ◌+◌, Bool, String, Option, none, some, List, [], ◌∷◌, leb, str_eq, length, one_of,
  if◌then◌else◌,
}

pub record Credential : Type 0 where
  pub api_key : String
  pub priority : ℕ
  pub exhausted_until : ℕ
  pub use_count : ℕ
  pub fail_count : ℕ

pub record CredentialPool : Type 0 where
  pub creds : List Credential
  pub cooldown : ℕ

unfoldable pub is_available : ℕ → Credential → Bool
is_available now c = leb c.exhausted_until now

unfoldable pub exhausted : ℕ → ℕ → Credential → Credential
exhausted now cooldown c = record c {
  exhausted_until = now + cooldown;
  fail_count = c.fail_count + 1;
}

unfoldable pub succeeded : Credential → Credential
succeeded c = record c { use_count = c.use_count + 1; exhausted_until = 0 }

unfoldable pub new_credential : String × ℕ → Credential
new_credential (api_key, priority) = record {
  api_key = api_key;
  priority = priority;
  exhausted_until = 0;
  use_count = 0;
  fail_count = 0;
}

-- `sorted(..., key=lambda c: c.priority)`, which is stable.
unfoldable pub insert_credential : Credential → List Credential → List Credential
insert_credential c [] = c ∷ []
insert_credential c (d ∷ cs) =
    let rest = insert_credential c cs in if leb c.priority d.priority then c ∷ d ∷ cs else d ∷ rest

unfoldable pub sorted_credentials : List (String × ℕ) → List Credential
unfolding insert_credential new_credential
sorted_credentials [] = []
sorted_credentials (k ∷ keys) = insert_credential (new_credential k) (sorted_credentials keys)

unfoldable pub new_pool : List (String × ℕ) → ℕ → CredentialPool
unfolding sorted_credentials
new_pool keys cooldown = record { creds = sorted_credentials keys; cooldown = cooldown }

-- `enumerate(env_keys)`, without the empty keys
unfoldable pub numbered : ℕ → List String → List (String × ℕ)
numbered i [] = []
numbered i (k ∷ keys) =
    let rest = numbered (suc i) keys in if str_eq k "" then rest else (k, i) ∷ rest

unfoldable pub from_env : List String → ℕ → CredentialPool
unfolding numbered new_pool
from_env env_keys cooldown = new_pool (numbered 0 env_keys) cooldown

-- The keys of a profile's entries, each once, with the priority of its first entry.
unfoldable pub unique_keys : List String → List (String × ℕ) → List (String × ℕ)
unique_keys seen [] = []
unique_keys seen ((key, priority) ∷ entries) =
    let rest = unique_keys seen entries in
    let more = unique_keys (key ∷ seen) entries in
    if str_eq key "" then rest else if one_of key seen then rest else (key, priority) ∷ more

unfoldable pub from_profile : List (String × ℕ) → CredentialPool
unfolding unique_keys new_pool
from_profile entries = new_pool (unique_keys [] entries) 60

-- The first available credential, with its position from `i` on.
unfoldable pub first_available : ℕ → ℕ → List Credential → Option (ℕ × Credential)
first_available now i [] = none
first_available now i (c ∷ cs) =
    let rest = first_available now (suc i) cs in if is_available now c then some (i, c) else rest

unfoldable pub get : ℕ → CredentialPool → Option (ℕ × Credential)
unfolding first_available
get now pool = first_available now 0 pool.creds

unfoldable pub change_at : ℕ → (Credential → Credential) → List Credential → List Credential
change_at i f [] = []
change_at zero f (c ∷ cs) = f c ∷ cs
change_at (suc i) f (c ∷ cs) = c ∷ change_at i f cs

unfoldable pub mark_exhausted : ℕ → ℕ → CredentialPool → CredentialPool
unfolding change_at
mark_exhausted now i pool = record pool {
  creds = change_at i (exhausted now pool.cooldown) pool.creds;
}

unfoldable pub mark_success : ℕ → CredentialPool → CredentialPool
unfolding change_at
mark_success i pool = record pool { creds = change_at i succeeded pool.creds }

unfoldable pub size : CredentialPool → ℕ
size pool = length pool.creds

unfoldable pub count_available : ℕ → List Credential → ℕ
count_available now [] = 0
count_available now (c ∷ cs) =
    let rest = count_available now cs in if is_available now c then suc rest else rest

unfoldable pub available_count : ℕ → CredentialPool → ℕ
unfolding count_available
available_count now pool = count_available now pool.creds
