-- ===== src/TaskQueue/Rows.antt =====
-- The rows of the tasks table of app/task_queue.py, found by their ids and sorted by time.

use manus_claw.Prelude.{
  String, Option, none, some, List, [], ◌∷◌, ◌≡◌, ◌⊎◌, inl, inr, refl, ap, sym, ◌∙◌, leb,
  if◌then◌else◌, lookup, string_eq, HasDistinctKeys, str_eq, eq_iff, Bool-cases,
}
use manus_claw.TaskQueue.Entries.{Row, Table, rows, newest_first, insert_row}
use manus_claw.TaskQueue.Selection.{AnyRow, AllRows, AllRows-map}

-- Every row stands under its task's id.
abbrev pub IsKeyed : Table → Type 0
IsKeyed [] = Unit
IsKeyed ((id, r) ∷ table) = (id ≡ r.task.id) × IsKeyed table

module _ (P : Row → Type 0) where
  AllRows-insert : (r : Row) (rs : List Row) → P r → AllRows P rs → AllRows P (insert_row r rs)
  unfolding insert_row
  AllRows-insert r [] p all = (p, tt)
  AllRows-insert r (s ∷ rs) p (q, all) = elim (Bool-cases (leb s.updated_at r.updated_at)) [
    | inl before ↦ rw before (p, (q, all))
    | inr after ↦ rw after (q, AllRows-insert r rs p all)
  ]

  pub AllRows-newest : (rs : List Row) → AllRows P rs → AllRows P (newest_first rs)
  unfolding newest_first
  AllRows-newest [] all = tt
  AllRows-newest (r ∷ rs) (p, all) = AllRows-insert r (newest_first rs) p (AllRows-newest rs all)

  AnyRow-insert : (r : Row) (rs : List Row) → P r ⊎ AnyRow P rs → AnyRow P (insert_row r rs)
  unfolding insert_row
  AnyRow-insert r [] any = any
  AnyRow-insert r (s ∷ rs) any = elim (Bool-cases (leb s.updated_at r.updated_at)) [
    | inl before ↦ rw before any
    | inr after ↦ rw after (elim any [
      | inl p ↦ inr (AnyRow-insert r rs (inl p))
      | inr (inl p) ↦ inl p
      | inr (inr rest) ↦ inr (AnyRow-insert r rs (inr rest))
    ])
  ]

  pub AnyRow-newest : (rs : List Row) → AnyRow P rs → AnyRow P (newest_first rs)
  unfolding newest_first
  AnyRow-newest [] any = any
  AnyRow-newest (r ∷ rs) any =
      AnyRow-insert r (newest_first rs)
        (elim any [ inl p ↦ inl p | inr rest ↦ inr (AnyRow-newest rs rest) ])

pub rows_found :
    (table : Table)
    → IsKeyed table
    → HasDistinctKeys table
    → AllRows (λ r. lookup r.task.id table ≡ some r) (rows table)
unfolding rows lookup
rows_found [] n k = tt
rows_found ((j, s) ∷ table) (n, ns) (fresh, k) = (
  rw ((eq_iff j s.task.id).1 n) refl,
  AllRows-map _ _
      (λ r found. elim (Bool-cases (str_eq j r.task.id)) [
        | inl same ↦
            (let e : ◌≡◌ {A = Option Row} (some r) none =
                sym found ∙ ap (λ x. lookup x table) (sym ((eq_iff j r.task.id).0 same)) ∙ fresh in
              cc)
        | inr other ↦ rw other found
      ])
      (rows table) (rows_found table ns k),
)

pub rows_among :
    (id : String) (r : Row) (table : Table)
    → IsKeyed table
    → lookup id table ≡ some r
    → AnyRow (λ s. s.task.id ≡ id) (rows table)
unfolding rows lookup
rows_among id r [] n h = (let e : ◌≡◌ {A = Option Row} none (some r) = h in cc)
rows_among id r ((j, s) ∷ table) (n, ns) h = elim (Bool-cases (str_eq j id)) [
  | inl same ↦ inl (sym n ∙ (eq_iff j id).0 same)
  | inr other ↦
      inr
        (rows_among id r table ns (ap (λ b. if b then some s else lookup id table) (sym other) ∙ h))
]
