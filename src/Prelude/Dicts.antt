-- ===== src/Prelude/Dicts.antt =====
-- Python's dict in insertion order, over any type of keys with a Boolean equality.
use Prim.Native.Nat.{ℕ}
use Prim.Native.String.{String}
use mathlib.Core.Path.{◌≡◌, refl, ap, sym, ◌∙◌}
use mathlib.Core.Logic.{◌↔◌, ◌≢◌, inl, inr}
use mathlib.Core.Bool.{Bool, true, false}
use mathlib.Core.Option.{Option, none, some}
use mathlib.Core.List.{List, [], ◌∷◌}
use native.Mathlib.Omega.{arith}
use text.Mathlib.Text.{◌==◌ as str_eq}
use text.Mathlib.TextEquality.{eq_iff}
use manus_claw.Prelude.Tests.{◌==◌, ==_iff, if◌then◌else◌, Bool-cases}

pub record Eq {ℓ} (K : Type ℓ) : Type ℓ where
  pub beq : K → K → Bool
  pub beq_iff : (a b : K) → (beq a b ≡ true) ↔ (a ≡ b)

instance abbrev pub nat_eq : Eq ℕ
nat_eq = record { beq = ◌==◌; beq_iff = ==_iff }

instance abbrev pub string_eq : Eq String
string_eq = record { beq = str_eq; beq_iff = eq_iff }

unfoldable pub or_default {ℓ} : {A : Type ℓ} → A → Option A → A
or_default a none = a
or_default a (some b) = b

abbrev pub Dict {ℓ κ} : Type ℓ → Type κ → Type (ℓ ⊔ κ)
Dict K V = List (K × V)

module _ {ℓ} {K : Type ℓ} ⦃e : Eq K⦄ where
  pub beq_refl : (k : K) → e.beq k k ≡ true
  beq_refl k = (e.beq_iff k k).1 refl

  pub ne_of_beq : (j k : K) → e.beq j k ≡ false → k ≢ j
  ne_of_beq j k other p =
      let q : true ≡ false = sym (beq_refl j) ∙ ap (λ t. e.beq j t) (sym p) ∙ other in cc

  pub beq_ne : (j k : K) → j ≢ k → e.beq j k ≡ false
  beq_ne j k ne = elim (Bool-cases (e.beq j k)) [
    | inl h ↦ absurd (ne ((e.beq_iff j k).0 h))
    | inr h ↦ h
  ]

module _ {ℓ κ} {K : Type ℓ} {V : Type κ} ⦃e : Eq K⦄ where
  -- `d.get(k)`
  unfoldable pub lookup : K → Dict K V → Option V
  lookup k [] = none
  lookup k ((j, v) ∷ d) = if e.beq j k then some v else lookup k d

  -- `d[k] = v`
  unfoldable pub insert : K → V → Dict K V → Dict K V
  insert k v [] = (k, v) ∷ []
  insert k v ((j, w) ∷ d) = if e.beq j k then (j, v) ∷ d else (j, w) ∷ insert k v d

  -- `d.pop(k, None)`
  unfoldable pub remove : K → Dict K V → Dict K V
  remove k [] = []
  remove k ((j, w) ∷ d) = if e.beq j k then d else (j, w) ∷ remove k d

  -- `d.get(k, v)`
  unfoldable pub lookup_or : V → K → Dict K V → V
  unfolding lookup or_default
  lookup_or v k d = or_default v (lookup k d)

  pub lookup-insert_self : (k : K) (v : V) (d : Dict K V) → lookup k (insert k v d) ≡ some v
  unfolding lookup insert
  lookup-insert_self k v [] = rw beq_refl
  lookup-insert_self k v ((j, w) ∷ d) = elim (Bool-cases (e.beq j k)) [
    | inl h ↦ rw h (rw h)
    | inr h ↦ rw h (rw h (lookup-insert_self k v d))
  ]

  pub lookup-insert_ne :
      (j k : K) (v : V) (d : Dict K V) → k ≢ j → lookup j (insert k v d) ≡ lookup j d
  unfolding lookup insert
  lookup-insert_ne j k v [] ne = rw (beq_ne k j ne)
  lookup-insert_ne j k v ((i, w) ∷ d) ne = elim (Bool-cases (e.beq i k)) [
    | inl h ↦ rw h (rw ((e.beq_iff i k).0 h) (rw (beq_ne k j ne)))
    | inr h ↦ rw h (rw (lookup-insert_ne j k v d ne))
  ]

  pub remove-insert_new :
      (k : K) (v : V) (d : Dict K V) → lookup k d ≡ none → remove k (insert k v d) ≡ d
  unfolding lookup insert remove
  remove-insert_new k v [] h = rw beq_refl
  remove-insert_new k v ((j, w) ∷ d) h = elim (Bool-cases (e.beq j k)) [
    | inl same ↦ (let h' : some w ≡ none = rw same at h in cc)
    | inr other ↦
        rw other (rw other (ap (λ t. (j, w) ∷ t) (remove-insert_new k v d (rw other at h))))
  ]

  pub insert-insert : (k : K) (v w : V) (d : Dict K V) → insert k v (insert k w d) ≡ insert k v d
  unfolding insert
  insert-insert k v w [] = rw beq_refl
  insert-insert k v w ((j, u) ∷ d) = elim (Bool-cases (e.beq j k)) [
    | inl same ↦ rw same (rw same)
    | inr other ↦ rw other (rw other (ap (λ t. (j, u) ∷ t) (insert-insert k v w d)))
  ]

  pub insert_same : (k : K) (v : V) (d : Dict K V) → lookup k d ≡ some v → insert k v d ≡ d
  unfolding lookup insert
  insert_same k v [] h = cc
  insert_same k v ((j, w) ∷ d) h = elim (Bool-cases (e.beq j k)) [
    | inl same ↦ (let h' : some w ≡ some v = rw same at h in ground arith)
    | inr other ↦ rw other (ap (λ t. (j, w) ∷ t) (insert_same k v d (rw other at h)))
  ]

  -- No key stands twice.
  abbrev pub HasDistinctKeys : Dict K V → Type κ
  HasDistinctKeys [] = Unit
  HasDistinctKeys ((j, w) ∷ d) = (lookup j d ≡ none) × HasDistinctKeys d

  pub insert-HasDistinctKeys :
      (k : K) (v : V) (d : Dict K V) → HasDistinctKeys d → HasDistinctKeys (insert k v d)
  unfolding insert lookup
  insert-HasDistinctKeys k v [] h = (refl, tt)
  insert-HasDistinctKeys k v ((j, w) ∷ d) h = elim (Bool-cases (e.beq j k)) [
    | inl same ↦ rw same h
    | inr other ↦
        rw other
          (lookup-insert_ne j k v d (ne_of_beq j k other) ∙ h.0, insert-HasDistinctKeys k v d h.1)
  ]

  pub lookup-remove_ne : (j k : K) (d : Dict K V) → k ≢ j → lookup j (remove k d) ≡ lookup j d
  unfolding lookup remove
  lookup-remove_ne j k [] ne = refl
  lookup-remove_ne j k ((i, w) ∷ d) ne = elim (Bool-cases (e.beq i k)) [
    | inl h ↦ rw h (rw ((e.beq_iff i k).0 h) (rw (beq_ne k j ne)))
    | inr h ↦ rw h (rw (lookup-remove_ne j k d ne))
  ]

  pub lookup-remove_self : (k : K) (d : Dict K V) → HasDistinctKeys d → lookup k (remove k d) ≡ none
  unfolding lookup remove
  lookup-remove_self k [] h = refl
  lookup-remove_self k ((i, w) ∷ d) h = elim (Bool-cases (e.beq i k)) [
    | inl same ↦ rw same (rw (← (e.beq_iff i k).0 same) h.0)
    | inr other ↦ rw other (rw other (lookup-remove_self k d h.1))
  ]

  pub remove-HasDistinctKeys :
      (k : K) (d : Dict K V) → HasDistinctKeys d → HasDistinctKeys (remove k d)
  unfolding lookup remove
  remove-HasDistinctKeys k [] h = tt
  remove-HasDistinctKeys k ((j, w) ∷ d) h = elim (Bool-cases (e.beq j k)) [
    | inl same ↦ rw same h.1
    | inr other ↦
        rw other
          (lookup-remove_ne j k d (ne_of_beq j k other) ∙ h.0, remove-HasDistinctKeys k d h.1)
  ]

  pub lookup_or-none : (u : V) (k : K) (d : Dict K V) → lookup k d ≡ none → lookup_or u k d ≡ u
  unfolding lookup_or
  lookup_or-none u k d h = ap (or_default u) h

  pub lookup_or-some : (u v : V) (k : K) (d : Dict K V) → lookup k d ≡ some v → lookup_or u k d ≡ v
  unfolding lookup_or
  lookup_or-some u v k d h = ap (or_default u) h

  pub lookup_or-insert :
      (u v : V) (j k : K) (d : Dict K V)
      → lookup_or u j (insert k v d) ≡ (if e.beq k j then v else lookup_or u j d)
  lookup_or-insert u v j k d = elim (Bool-cases (e.beq k j)) [
    | inl same ↦ rw same (
        rw ((e.beq_iff k j).0 same)
          (lookup_or-some u v j (insert j v d) (lookup-insert_self j v d)))
    | inr other ↦ rw other (
        unfold lookup_or in
        ap (or_default u) (lookup-insert_ne j k v d (λ p. ne_of_beq k j other (sym p))))
  ]
