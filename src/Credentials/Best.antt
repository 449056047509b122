-- ===== src/Credentials/Best.antt =====
-- Which key `get` of app/llm/credential_pool.py returns.

use manus_claw.Prelude.{
  ℕ, zero, suc, ◌+◌, ◌≤◌, true, false, String, Option, none, some, List, [], ◌∷◌, ◌≡◌, ◌⊎◌, inl,
  inr, refl, ap, ◌∙◌, leb, arith, Bool-cases,
}
use manus_claw.Credentials.Pool.{
  Credential, CredentialPool, is_available, exhausted, succeeded, new_credential, insert_credential,
  sorted_credentials, new_pool, first_available, get, change_at, mark_exhausted, mark_success,
}

abbrev pub AllCredentials : (Credential → Type 0) → List Credential → Type 0
AllCredentials P [] = Unit
AllCredentials P (c ∷ cs) = P c × AllCredentials P cs

-- The credential at a position.
abbrev pub at : ℕ → List Credential → Option Credential
at i [] = none
at zero (c ∷ cs) = some c
at (suc i) (c ∷ cs) = at i cs

-- A call of a method that changes the pool.
pub data Call : Type 0 where
  marks_exhausted : ℕ → ℕ → Call
  marks_success : ℕ → Call

abbrev pub after : Call → CredentialPool → CredentialPool
after (marks_exhausted now i) pool = mark_exhausted now i pool
after (marks_success i) pool = mark_success i pool

abbrev pub after_all : List Call → CredentialPool → CredentialPool
after_all [] pool = pool
after_all (call ∷ calls) pool = after_all calls (after call pool)

AllCredentials-map :
    (P Q : Credential → Type 0)
    → ((c : Credential) → P c → Q c)
    → (cs : List Credential) → AllCredentials P cs
    → AllCredentials Q cs
AllCredentials-map P Q f [] all = tt
AllCredentials-map P Q f (c ∷ cs) (p, all) = (f c p, AllCredentials-map P Q f cs all)

abbrev IsSorted : List Credential → Type 0
IsSorted [] = Unit
IsSorted (c ∷ cs) = AllCredentials (λ d. c.priority ≤ d.priority) cs × IsSorted cs

AllCredentials-insert :
    (P : Credential → Type 0) (c : Credential) (cs : List Credential)
    → P c
    → AllCredentials P cs
    → AllCredentials P (insert_credential c cs)
unfolding insert_credential
AllCredentials-insert P c [] p all = (p, tt)
AllCredentials-insert P c (d ∷ cs) p (q, all) = elim (Bool-cases (leb c.priority d.priority)) [
  | inl before ↦ rw before (p, (q, all))
  | inr after ↦ rw after (q, AllCredentials-insert P c cs p all)
]

insert_credential-IsSorted :
    (c : Credential) (cs : List Credential) → IsSorted cs → IsSorted (insert_credential c cs)
unfolding insert_credential
insert_credential-IsSorted c [] s = (tt, tt)
insert_credential-IsSorted c (d ∷ cs) (above, s) = elim (Bool-cases (leb c.priority d.priority)) [
  | inl before ↦
      rw before ((ground arith, AllCredentials-map _ _ (λ e h. ground arith) cs above), (above, s))
  | inr after ↦
      rw after
        (AllCredentials-insert _ c cs (ground arith) above, insert_credential-IsSorted c cs s)
]

sorted_credentials-IsSorted : (keys : List (String × ℕ)) → IsSorted (sorted_credentials keys)
unfolding sorted_credentials
sorted_credentials-IsSorted [] = tt
sorted_credentials-IsSorted (k ∷ keys) =
    insert_credential-IsSorted (new_credential k) (sorted_credentials keys)
      (sorted_credentials-IsSorted keys)

module _ (f : Credential → Credential) (same : (c : Credential) → (f c).priority ≡ c.priority) where
  AllCredentials-change :
      (n i : ℕ) (cs : List Credential)
      → AllCredentials (λ d. n ≤ d.priority) cs
      → AllCredentials (λ d. n ≤ d.priority) (change_at i f cs)
  unfolding change_at
  AllCredentials-change n i [] all = tt
  AllCredentials-change n zero (c ∷ cs) (p, all) = (ground (arith, same c), all)
  AllCredentials-change n (suc i) (c ∷ cs) (p, all) = (p, AllCredentials-change n i cs all)

  change_at-IsSorted : (i : ℕ) (cs : List Credential) → IsSorted cs → IsSorted (change_at i f cs)
  unfolding change_at
  change_at-IsSorted i [] s = tt
  change_at-IsSorted zero (c ∷ cs) (above, s) =
      (AllCredentials-map _ _ (λ d h. ground (arith, same c)) cs above, s)
  change_at-IsSorted (suc i) (c ∷ cs) (above, s) =
      (AllCredentials-change c.priority i cs above, change_at-IsSorted i cs s)

after-IsSorted :
    (call : Call) (pool : CredentialPool) → IsSorted pool.creds → IsSorted (after call pool).creds
unfolding mark_exhausted mark_success
after-IsSorted (marks_exhausted now i) pool s =
    change_at-IsSorted (exhausted now pool.cooldown) (λ c. unfold exhausted in refl) i pool.creds s
after-IsSorted (marks_success i) pool s =
    change_at-IsSorted succeeded (λ c. unfold succeeded in refl) i pool.creds s

after_all-IsSorted :
    (calls : List Call) (pool : CredentialPool)
    → IsSorted pool.creds
    → IsSorted (after_all calls pool).creds
after_all-IsSorted [] pool s = s
after_all-IsSorted (call ∷ calls) pool s =
    after_all-IsSorted calls (after call pool) (after-IsSorted call pool s)

-- The credential at the position is available, and no available one has a higher priority, that is, a
-- smaller number.
pub record IsBest (now : ℕ) (cs : List Credential) (k : ℕ) (c : Credential) : Type 0 where
  pub found : at k cs ≡ some c
  pub available : is_available now c ≡ true
  pub first : AllCredentials (λ d. is_available now d ≡ true → c.priority ≤ d.priority) cs

first_available-IsBest :
    (now i : ℕ) (cs : List Credential)
    → IsSorted cs
    → (AllCredentials (λ d. is_available now d ≡ false) cs × (first_available now i cs ≡ none))
      ⊎ ((k : ℕ) × (c : Credential) × IsBest now cs k c
          × (first_available now i cs ≡ some (k + i, c)))
unfolding first_available
first_available-IsBest now i [] s = inl (tt, refl)
first_available-IsBest now i (c ∷ cs) (above, s) = elim (Bool-cases (is_available now c)) [
  | inl ready ↦ inr (
    0,
    c,
    record {
      found = refl;
      available = ready;
      first = (λ h. omega arith, AllCredentials-map _ _ (λ d h k. h) cs above);
    },
    rw ready (ap (λ n. some (n, c)) (omega arith)),
  )
  | inr cooling ↦ elim (first_available-IsBest now (suc i) cs s) [
    | inl (all, e) ↦ inl ((cooling, all), rw cooling e)
    | inr (k, d, best, e) ↦ inr (
      suc k,
      d,
      record {
        found = best.found;
        available = best.available;
        first = (λ h. ground (arith, cooling, h), best.first);
      },
      rw cooling (e ∙ ap (λ n. some (n, d)) (omega arith)),
    )
  ]
]

-- Whatever keys were marked exhausted or successful since the pool was made, `get` returns an
-- available key of the highest priority among the available ones, and no key only if none is
-- available.
pub get-IsBest :
    (keys : List (String × ℕ)) (cooldown : ℕ) (calls : List Call) (now : ℕ)
    → let pool = after_all calls (new_pool keys cooldown) in
      (AllCredentials (λ d. is_available now d ≡ false) pool.creds × (get now pool ≡ none))
      ⊎ ((k : ℕ) × (c : Credential) × IsBest now pool.creds k c × (get now pool ≡ some (k, c)))
unfolding get new_pool
get-IsBest keys cooldown calls now =
    let pool = after_all calls (new_pool keys cooldown) in
    let sorted =
      after_all-IsSorted calls (new_pool keys cooldown) (sorted_credentials-IsSorted keys) in
    elim (first_available-IsBest now 0 pool.creds sorted) [
      | inl none_ready ↦ inl none_ready
      | inr (k, c, best, e) ↦ inr (k, c, best, e ∙ ap (λ n. some (n, c)) (omega arith))
    ]
