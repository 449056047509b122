-- ===== src/ResourceLock/Conflicts.antt =====
-- `DeclaredResources.conflicts_with` of app/parallel_executor/declared_resources.py on sets that may
-- declare a resource more than once, against one reader.
use manus_claw.Prelude.{
  String, Bool, Option, none, some, List, [], ◌∷◌, ◌≡◌, true, false, ◌∙◌, ap, refl, sym, arith, inl,
  inr, Bool-cases, str_eq, string_eq, Dict, HasDistinctKeys, insert-HasDistinctKeys, lookup, insert,
  lookup-insert_self, lookup-insert_ne, ne_of_beq, beq_ne, eq_iff, if◌then◌else◌,
}
use manus_claw.ResourceLock.Declared.{
  AccessMode, ResourceDeclaration, is_write, clashes, lock_key, collect, by_key, any_conflict,
  conflicts_with, is_empty,
}

abbrev pub declare : String → String → AccessMode → ResourceDeclaration
declare type id mode = record { resource_type = type; resource_id = id; mode = mode }

module _ (digest : String → String) where
  -- The last declaration with the key, or `found` when there is none.
  abbrev pub last_of :
      String → Option ResourceDeclaration → List ResourceDeclaration → Option ResourceDeclaration
  last_of key found [] = found
  last_of key found (d ∷ ds) =
      last_of key (if str_eq (lock_key digest d) key then some d else found) ds

  abbrev pub writes : Option ResourceDeclaration → Bool
  writes none = false
  writes (some d) = is_write d

  lookup-collect :
      (key : String) (ds : List ResourceDeclaration) (m : Dict String ResourceDeclaration)
      → lookup key (collect digest ds m) ≡ last_of key (lookup key m) ds
  unfolding collect
  lookup-collect key [] m = refl
  lookup-collect key (d ∷ ds) m =
      lookup-collect key ds (insert (lock_key digest d) d m)
      ∙ ap (λ found. last_of key found ds)
          (elim (Bool-cases (str_eq (lock_key digest d) key)) [
            | inl same ↦
                rw ((eq_iff (lock_key digest d) key).0 same)
                  (lookup-insert_self key d m ∙ rw ((eq_iff key key).1 refl))
            | inr other ↦ rw other (
                lookup-insert_ne key (lock_key digest d) d m
                  (λ e. ne_of_beq (lock_key digest d) key other (sym e)))
          ])

  collect-HasDistinctKeys :
      (ds : List ResourceDeclaration) (m : Dict String ResourceDeclaration)
      → HasDistinctKeys m
      → HasDistinctKeys (collect digest ds m)
  unfolding collect
  collect-HasDistinctKeys [] m h = h
  collect-HasDistinctKeys (d ∷ ds) m h =
      collect-HasDistinctKeys ds (insert (lock_key digest d) d m)
        (insert-HasDistinctKeys (lock_key digest d) d m h)

  -- A map of resources conflicts with one reader as its entry for the reader's key says.
  any_conflict-reader :
      (key : String) (q : ResourceDeclaration) (m : Dict String ResourceDeclaration)
      → is_write q ≡ false
      → HasDistinctKeys m
      → any_conflict digest m ((key, q) ∷ []) ≡ writes (lookup key m)
  unfolding any_conflict clashes lookup
  any_conflict-reader key q [] reads h = refl
  any_conflict-reader key q ((j, d) ∷ m) reads (new, h) =
      let rest = any_conflict-reader key q m reads h in
      elim (Bool-cases (str_eq j key)) [
        | inl same ↦
            (let p = (eq_iff j key).0 same in
              let back : str_eq key j ≡ true = (eq_iff key j).1 (sym p) in
              let gone : any_conflict digest m ((key, q) ∷ []) ≡ false =
                rest ∙ ap (λ k. writes (lookup k m)) (sym p) ∙ ap writes new in
              rw (back, same) (unfold clashes in rw (reads, gone) (ground arith)))
        | inr other ↦ rw (beq_ne key j (ne_of_beq j key other), other) rest
      ]

  -- A set conflicts with a single READ declaration exactly if, in its order of iteration, its last
  -- declaration of that resource is a WRITE, whatever it declares of the resource before.
  pub conflicts_with-reader :
      (ds : List ResourceDeclaration) (q : ResourceDeclaration)
      → is_write q ≡ false
      → conflicts_with digest ds (q ∷ []) ≡ writes (last_of (lock_key digest q) none ds)
  unfolding conflicts_with is_empty by_key insert lookup
  conflicts_with-reader [] q reads = refl
  conflicts_with-reader (d ∷ ds) q reads =
      any_conflict-reader (lock_key digest q) q (by_key digest (d ∷ ds)) reads
        (collect-HasDistinctKeys (d ∷ ds) [] tt)
      ∙ ap writes (lookup-collect (lock_key digest q) (d ∷ ds) [])
