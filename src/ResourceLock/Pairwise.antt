-- ===== src/ResourceLock/Pairwise.antt =====
-- `DeclaredResources.conflicts_with` (app/parallel_executor/declared_resources.py) against the test
-- of every pair of declarations.
use manus_claw.Prelude.{
  String, lookup, List, insert, Dict, ◌∷◌, str_eq, Bool, [], ◌≡◌, false, ◌++◌, refl, Bool-cases,
  none, true, ◌&&◌, sym, inl, ◌||◌, string_eq, snoc, ◌∙◌, some, inr, arith, append-nil, ap,
  append_assoc, eq_iff, beq_ne, ne_of_beq,
}
use manus_claw.ResourceLock.Declared.{
  ResourceDeclaration, is_write, clashes, lock_key, has_key, collect, by_key, any_conflict,
  conflicts_with, is_empty,
}

insert_new :
    (k : String) (d : ResourceDeclaration) (m : Dict String ResourceDeclaration)
    → lookup k m ≡ none
    → insert k d m ≡ snoc m (k, d)
unfolding lookup insert
insert_new k d [] absent = refl
insert_new k d ((j, e) ∷ m) absent = elim (Bool-cases (str_eq j k)) [
  | inl same ↦ (let h : some e ≡ none = rw same at absent in cc)
  | inr other ↦
      (let h : lookup k m ≡ none = rw other at absent in
        rw other (ap (λ t. (j, e) ∷ t) (insert_new k d m h)))
]

lookup-snoc_ne :
    (j k : String) (d : ResourceDeclaration) (m : Dict String ResourceDeclaration)
    → str_eq k j ≡ false
    → lookup j (snoc m (k, d)) ≡ lookup j m
unfolding lookup
lookup-snoc_ne j k d [] other = rw other refl
lookup-snoc_ne j k d ((i, e) ∷ m) other = ground (arith, lookup-snoc_ne j k d m other)

module _ (digest : String → String) where
  -- No two declarations of the list have one lock key.
  abbrev pub HasDistinctLockKeys : List ResourceDeclaration → Type 0
  HasDistinctLockKeys [] = Unit
  HasDistinctLockKeys (d ∷ ds) =
      (has_key digest (lock_key digest d) ds ≡ false) × HasDistinctLockKeys ds

  -- The declaration and one of the list are for one resource, and one of the two writes.
  unfoldable pub clashes_with : ResourceDeclaration → List ResourceDeclaration → Bool
  clashes_with d [] = false
  clashes_with d (e ∷ es) =
      (str_eq (lock_key digest e) (lock_key digest d) && (is_write d || is_write e))
      || clashes_with d es

  unfoldable pub pairwise : List ResourceDeclaration → List ResourceDeclaration → Bool
  unfolding clashes_with
  pairwise [] es = false
  pairwise (d ∷ ds) es = clashes_with d es || pairwise ds es

  entries : List ResourceDeclaration → Dict String ResourceDeclaration
  entries [] = []
  entries (d ∷ ds) = (lock_key digest d, d) ∷ entries ds

  AreAbsent : List ResourceDeclaration → Dict String ResourceDeclaration → Type 0
  AreAbsent [] m = Unit
  AreAbsent (d ∷ ds) m = (lookup (lock_key digest d) m ≡ none) × AreAbsent ds m

  AreAbsent-snoc :
      (ds : List ResourceDeclaration) (k : String) (d : ResourceDeclaration)
      (m : Dict String ResourceDeclaration)
      → has_key digest k ds ≡ false
      → AreAbsent ds m
      → AreAbsent ds (snoc m (k, d))
  unfolding AreAbsent has_key
  AreAbsent-snoc [] k d m h absent = tt
  AreAbsent-snoc (e ∷ ds) k d m h (a, absent) = (
    lookup-snoc_ne (lock_key digest e) k d m
          (beq_ne k (lock_key digest e) (ne_of_beq (lock_key digest e) k (ground (arith, h))))
        ∙ a,
    AreAbsent-snoc ds k d m (ground (arith, h)) absent,
  )

  collect_distinct :
      (ds : List ResourceDeclaration) (m : Dict String ResourceDeclaration)
      → HasDistinctLockKeys ds
      → AreAbsent ds m
      → collect digest ds m ≡ m ++ entries ds
  unfolding collect entries AreAbsent
  collect_distinct [] m distinct absent = sym (append-nil m)
  collect_distinct (d ∷ ds) m (new, distinct) (a, absent) =
      ap (collect digest ds) (insert_new (lock_key digest d) d m a)
      ∙ collect_distinct ds (snoc m (lock_key digest d, d)) distinct
          (AreAbsent-snoc ds (lock_key digest d) d m new absent)
      ∙ append_assoc m ((lock_key digest d, d) ∷ []) (entries ds)

  nothing_absent : (ds : List ResourceDeclaration) → AreAbsent ds []
  unfolding AreAbsent lookup
  nothing_absent [] = tt
  nothing_absent (d ∷ ds) = (refl, nothing_absent ds)

  by_key_distinct :
      (ds : List ResourceDeclaration) → HasDistinctLockKeys ds → by_key digest ds ≡ entries ds
  unfolding by_key
  by_key_distinct ds distinct = collect_distinct ds [] distinct (nothing_absent ds)

  clashes_with_absent :
      (d e : ResourceDeclaration) (es : List ResourceDeclaration)
      → str_eq (lock_key digest e) (lock_key digest d) ≡ true
      → has_key digest (lock_key digest e) es ≡ false
      → clashes_with d es ≡ false
  unfolding clashes_with has_key
  clashes_with_absent d e [] same absent = refl
  clashes_with_absent d e (f ∷ es) same absent =
      let p : lock_key digest e ≡ lock_key digest d = (eq_iff _ _).0 same in
      let here : str_eq (lock_key digest f) (lock_key digest e) ≡ false = ground (arith, absent) in
      let apart : str_eq (lock_key digest f) (lock_key digest d) ≡ false =
        ap (str_eq (lock_key digest f)) (sym p) ∙ here in
      rw apart (clashes_with_absent d e es same (ground (arith, absent)))

  clashes-lookup :
      (d : ResourceDeclaration) (es : List ResourceDeclaration)
      → HasDistinctLockKeys es
      → clashes d (lookup (lock_key digest d) (entries es)) ≡ clashes_with d es
  unfolding clashes lookup entries clashes_with
  clashes-lookup d [] distinct = refl
  clashes-lookup d (e ∷ es) (new, distinct) =
      elim (Bool-cases (str_eq (lock_key digest e) (lock_key digest d))) [
        | inl same ↦ rw (same, clashes_with_absent d e es same new) (ground arith)
        | inr other ↦ rw other (clashes-lookup d es distinct)
      ]

  any_conflict-entries :
      (ds es : List ResourceDeclaration)
      → HasDistinctLockKeys es
      → any_conflict digest (entries ds) (entries es) ≡ pairwise ds es
  unfolding any_conflict entries pairwise
  any_conflict-entries [] es distinct = refl
  any_conflict-entries (d ∷ ds) es distinct =
      rw (clashes-lookup d es distinct, any_conflict-entries ds es distinct)

  pairwise-nil : (ds : List ResourceDeclaration) → pairwise ds [] ≡ false
  unfolding pairwise
  pairwise-nil [] = refl
  pairwise-nil (d ∷ ds) = pairwise-nil ds

  -- When each of two sets declares a resource at most once, they conflict exactly if some
  -- declaration of the one and some declaration of the other are for the same resource and one of
  -- the two writes.
  pub conflicts_with-eq-pairwise :
      (ds es : List ResourceDeclaration)
      → HasDistinctLockKeys ds
      → HasDistinctLockKeys es
      → conflicts_with digest ds es ≡ pairwise ds es
  unfolding conflicts_with is_empty
  conflicts_with-eq-pairwise [] es left right = unfold pairwise in refl
  conflicts_with-eq-pairwise (d ∷ ds) [] left right = sym (pairwise-nil (d ∷ ds))
  conflicts_with-eq-pairwise (d ∷ ds) (e ∷ es) left right =
      ap (λ m. any_conflict digest m (by_key digest (e ∷ es))) (by_key_distinct (d ∷ ds) left)
      ∙ ap (any_conflict digest (entries (d ∷ ds))) (by_key_distinct (e ∷ es) right)
      ∙ any_conflict-entries (d ∷ ds) (e ∷ es) right
