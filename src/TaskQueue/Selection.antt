-- ===== src/TaskQueue/Selection.antt =====
-- Which task a worker of app/task_queue.py takes.
use manus_claw.Prelude.{
  ◌≤◌, ◌<◌, true, false, Option, none, some, List, [], ◌∷◌, ◌≡◌, ◌⊎◌, inl, inr, refl, ap, arith,
  Bool-cases, sym, ◌∙◌,
}
use manus_claw.TaskQueue.Entries.{
  Row, Table, queued, has_status, priority_value, comes_first, first_of, next_row, next_queued_task,
  rows, task_of,
}

abbrev pub AnyRow : (Row → Type 0) → List Row → Type 0
AnyRow P [] = ⊥
AnyRow P (r ∷ rs) = P r ⊎ AnyRow P rs

abbrev pub AllRows : (Row → Type 0) → List Row → Type 0
AllRows P [] = Unit
AllRows P (r ∷ rs) = P r × AllRows P rs

pub AllRows-map :
    (P Q : Row → Type 0) → ((r : Row) → P r → Q r) → (rs : List Row) → AllRows P rs → AllRows Q rs
AllRows-map P Q f [] all = tt
AllRows-map P Q f (r ∷ rs) (p, all) = (f r p, AllRows-map P Q f rs all)

-- The first row has a higher priority, or the same one and it was written no later.
abbrev pub Precedes : Row → Row → Type 0
Precedes r s =
    (priority_value s.task.priority < priority_value r.task.priority)
    ⊎ ((priority_value s.task.priority ≡ priority_value r.task.priority)
        × (r.updated_at ≤ s.updated_at))

-- The row is queued, stands in the list, and precedes every queued row.
pub record IsFirst (rs : List Row) (r : Row) : Type 0 where
  pub listed : AnyRow (λ s. s ≡ r) rs
  pub waits : has_status queued r ≡ true
  pub first : AllRows (λ s. has_status queued s ≡ true → Precedes r s) rs

comes_first-Precedes : (r s : Row) → comes_first r s ≡ true → Precedes r s
unfolding comes_first
comes_first-Precedes r s h = ground (arith, h)

comes_second-Precedes : (r s : Row) → comes_first r s ≡ false → Precedes s r
unfolding comes_first
comes_second-Precedes r s h = ground (arith, h)

Precedes-trans : (r s t : Row) → Precedes r s → Precedes s t → Precedes r t
Precedes-trans r s t p q = ground (arith, p, q)

Precedes-refl : (r : Row) → Precedes r r
Precedes-refl r = inr (refl, omega arith)

clash : {A : Type 0} (s : Row) → has_status queued s ≡ false → has_status queued s ≡ true → A
clash s o h = let e : true ≡ false = sym h ∙ o in cc

abbrev IsNext : List Row → Option Row → Type 0
IsNext rs o =
    (AllRows (λ s. has_status queued s ≡ false) rs × (o ≡ none))
    ⊎ ((r : Row) × IsFirst rs r × (o ≡ some r))

module _ (r : Row) (rs : List Row) where
  next_row-waits :
      (o : Option Row)
      → has_status queued r ≡ true
      → next_row rs ≡ o
      → next_row (r ∷ rs) ≡ first_of r o
  unfolding next_row
  next_row-waits o waits e = rw waits (ap (first_of r) e)

  next_row-other : has_status queued r ≡ false → next_row (r ∷ rs) ≡ next_row rs
  unfolding next_row
  next_row-other other = rw other refl

  first_of-before : (s : Row) → comes_first r s ≡ true → first_of r (some s) ≡ some r
  unfolding first_of
  first_of-before s before = rw before refl

  first_of-after : (s : Row) → comes_first r s ≡ false → first_of r (some s) ≡ some s
  unfolding first_of
  first_of-after s after = rw after refl

next_row-IsNext : (rs : List Row) → IsNext rs (next_row rs)
next_row-IsNext [] = inl (tt, unfold next_row in refl)
next_row-IsNext (r ∷ rs) = elim (Bool-cases (has_status queued r)) [
  | inl waits ↦ elim (next_row-IsNext rs) [
    | inl (all, e) ↦ inr (
      r,
      record {
        listed = inl refl;
        waits = waits;
        first = (λ h. Precedes-refl r, AllRows-map _ _ (λ s o h. clash s o h) rs all);
      },
      next_row-waits r rs none waits e ∙ unfold first_of in refl,
    )
    | inr (s, h, e) ↦ elim (Bool-cases (comes_first r s)) [
      | inl before ↦ inr (
        r,
        record {
          listed = inl refl;
          waits = waits;
          first = (
            λ k. Precedes-refl r,
            AllRows-map _ _ (λ t p k. Precedes-trans r s t (comes_first-Precedes r s before) (p k))
                rs h.first,
          );
        },
        next_row-waits r rs (some s) waits e ∙ first_of-before r rs s before,
      )
      | inr after ↦ inr (
        s,
        record {
          listed = inr h.listed;
          waits = h.waits;
          first = (λ k. comes_second-Precedes r s after, h.first);
        },
        next_row-waits r rs (some s) waits e ∙ first_of-after r rs s after,
      )
    ]
  ]
  | inr other ↦ elim (next_row-IsNext rs) [
    | inl (all, e) ↦ inl ((other, all), next_row-other r rs other ∙ e)
    | inr (s, h, e) ↦ inr (
      s,
      record { listed = inr h.listed; waits = h.waits; first = (λ k. clash r other k, h.first) },
      next_row-other r rs other ∙ e,
    )
  ]
]

-- A worker takes a queued task of the highest priority, and among those one that was written first; it
-- finds no task only if none is queued.
pub next_queued_task-IsFirst :
    (table : Table)
    → (AllRows (λ s. has_status queued s ≡ false) (rows table) × (next_queued_task table ≡ none))
      ⊎ ((r : Row) × IsFirst (rows table) r × (next_queued_task table ≡ some r.task))
unfolding next_queued_task task_of
next_queued_task-IsFirst table = elim (next_row-IsNext (rows table)) [
  | inl (all, e) ↦ inl (all, ap task_of e)
  | inr (r, h, e) ↦ inr (r, h, ap task_of e)
]
