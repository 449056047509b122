-- ===== src/ResourceLock/RwLock/Exclusion.antt =====
-- The readers-writer discipline of `_ResourceRWLock` (app/parallel_executor/resource_lock.py).

use manus_claw.ResourceLock.RwLock.{is_busy, reader_count}
use manus_claw.Prelude.{
  ℕ, ◌-◌, ◌+◌, ◌≤◌, ◌≡◌, true, some, [], ◌∷◌, arith, Dict, HasDistinctKeys, nat_eq, lookup_or,
  insert, remove, Bool-cases, if◌then◌else◌, Option-cases, ◌==◌, lookup-remove_self, inl,
  lookup-remove_ne, insert-HasDistinctKeys, inr, sym, refl, ◌<◌, ◌∙◌, ==_refl,
  remove-HasDistinctKeys,
}
use manus_claw.ResourceLock.RwLock.Threads.{
  Threads, idle_threads, try_read, end_read, end_write, try_write, Step, Reach, next, try_read_step,
  here, try_write_step, end_read_step, end_write_step,
}

-- The sum of the entries.
pub total : Dict ℕ ℕ → ℕ
total [] = 0
total ((k, v) ∷ d) = v + total d

total-insert : (k v : ℕ) (d : Dict ℕ ℕ) → total (insert k v d) + lookup_or 0 k d ≡ total d + v
unfolding total insert lookup_or
total-insert k v [] = ground arith
total-insert k v ((j, w) ∷ d) = ground (arith, total-insert k v d)

total-remove : (k : ℕ) (d : Dict ℕ ℕ) → total (remove k d) + lookup_or 0 k d ≡ total d
unfolding total remove lookup_or
total-remove k [] = ground arith
total-remove k ((j, w) ∷ d) = ground (arith, total-remove k d)

lookup_or-le-total : (k : ℕ) (d : Dict ℕ ℕ) → lookup_or 0 k d ≤ total d
unfolding total lookup_or
lookup_or-le-total k [] = ground arith
lookup_or-le-total k ((j, w) ∷ d) = ground (arith, lookup_or-le-total k d)

count-insert :
    (i k v : ℕ) (d : Dict ℕ ℕ)
    → lookup_or 0 i (insert k v d) ≡ (if k == i then v else lookup_or 0 i d)
unfolding lookup_or insert
count-insert i k v [] = ground arith
count-insert i k v ((j, w) ∷ d) = ground (arith, count-insert i k v d)

count-remove :
    (i k : ℕ) (d : Dict ℕ ℕ)
    → HasDistinctKeys d
    → lookup_or 0 i (remove k d) ≡ (if k == i then 0 else lookup_or 0 i d)
unfolding lookup_or
count-remove i k d h = ground (arith, lookup-remove_self k d h, lookup-remove_ne i k d)

pub record Inv (s : Threads) : Type 0 where
  pub table : (i : ℕ) → lookup_or 0 i s.lock.reader_threads ≡ s.reads i
  pub keys : HasDistinctKeys s.lock.reader_threads
  pub sum : total s.lock.reader_threads ≡ s.lock.readers
  pub exclusive : (i : ℕ) → s.lock.writer ≡ some i → s.lock.readers ≡ 0
  pub owner : (i : ℕ) → s.writes i ≡ true → s.lock.writer ≡ some i

idle-Inv : Inv idle_threads
unfolding total lookup_or
idle-Inv = record {
  table = λ i. refl;
  keys = tt;
  sum = refl;
  exclusive = λ i h. cc;
  owner = λ i h. cc;
}

module _ (i : ℕ) (s : Threads) (inv : Inv s) where
  try_read-Inv : Inv (try_read i s)
  unfolding try_read
  try_read-Inv = elim (Option-cases s.lock.writer) [
    | inl free ↦ rw free (record {
      table = λ j. ground (
        arith,
        inv.table j,
        inv.table i,
        count-insert j i (lookup_or 0 i s.lock.reader_threads + 1) s.lock.reader_threads,
      );
      keys = insert-HasDistinctKeys i _ s.lock.reader_threads inv.keys;
      sum = ground (
        arith,
        inv.sum,
        total-insert i (lookup_or 0 i s.lock.reader_threads + 1) s.lock.reader_threads,
      );
      exclusive = λ j h. cc;
      owner = λ j h. grind (arith, inv.owner j);
    })
    | inr (w, taken) ↦ rw taken (record {
      table = λ j. ground (arith, inv.table j);
      keys = inv.keys;
      sum = inv.sum;
      exclusive = λ j h. inv.exclusive w taken;
      owner = λ j h. sym taken ∙ inv.owner j h;
    })
  ]

  try_write-Inv : Inv (try_write i s)
  unfolding try_write
  try_write-Inv = elim (Bool-cases (is_busy s.lock)) [
    | inl busy ↦ rw busy (record {
      table = inv.table;
      keys = inv.keys;
      sum = inv.sum;
      exclusive = inv.exclusive;
      owner = λ j h. ground (arith, inv.owner j);
    })
    | inr idle ↦ rw idle (record {
      table = inv.table;
      keys = inv.keys;
      sum = inv.sum;
      exclusive = λ j h. unfold is_busy in ground (arith, idle);
      owner = λ j h. unfold is_busy in ground (arith, idle, inv.owner j);
    })
  ]

  readers-pos : 0 < s.reads i → 0 < s.lock.readers
  readers-pos h = ground (arith, inv.sum, inv.table i, lookup_or-le-total i s.lock.reader_threads)

  end_read-Inv : 0 < s.reads i → Inv (end_read i s)
  unfolding end_read
  end_read-Inv h =
      let d = s.lock.reader_threads in
      let n = lookup_or 0 i d in
      let pos = readers-pos h in
      record {
        table = λ j. ground (
          arith,
          pos,
          inv.table j,
          inv.table i,
          count-remove j i d inv.keys,
          count-insert j i (n - 1) d,
        );
        keys = ground (
          arith,
          inv.keys,
          remove-HasDistinctKeys i d inv.keys,
          insert-HasDistinctKeys i (n - 1) d inv.keys,
        );
        sum = ground (arith, pos, inv.sum, inv.table i, total-remove i d, total-insert i (n - 1) d);
        exclusive = λ j e. ground (arith, pos, inv.exclusive j);
        owner = λ j w. ground (arith, pos, inv.owner j w);
      }

  end_write-Inv : s.writes i ≡ true → Inv (end_write i s)
  unfolding end_write
  end_write-Inv h = rw (inv.owner i h) (
      rw (==_refl i) (record {
        table = inv.table;
        keys = inv.keys;
        sum = inv.sum;
        exclusive = λ j e. cc;
        owner = λ j w. ground (arith, inv.owner j, inv.owner i h);
      }))

Step-Inv : {s t : Threads} → Step s t → Inv s → Inv t
Step-Inv {s} (try_read_step i) inv = try_read-Inv i s inv
Step-Inv {s} (try_write_step i) inv = try_write-Inv i s inv
Step-Inv {s} (end_read_step i h) inv = end_read-Inv i s inv h
Step-Inv {s} (end_write_step i h) inv = end_write-Inv i s inv h

pub Reach-Inv : {s : Threads} → Reach idle_threads s → Inv s
Reach-Inv here = idle-Inv
Reach-Inv (next r st) = Step-Inv st (Reach-Inv r)

-- While a thread holds the WRITE lock, no thread holds a READ lock and no other holds the WRITE
-- lock, in every state that acquisitions and releases by holders lead to.
pub writer_excludes_all :
    (s : Threads) (i j : ℕ)
    → Reach idle_threads s
    → s.writes i ≡ true
    → (s.reads j ≡ 0) × (s.writes j ≡ true → i ≡ j)
writer_excludes_all s i j r w =
    let inv = Reach-Inv r in
    (
      ground (
        arith,
        inv.table j,
        inv.sum,
        inv.exclusive i (inv.owner i w),
        lookup_or-le-total j s.lock.reader_threads,
      ),
      λ v. ground (arith, inv.owner i w, inv.owner j v),
    )

-- In every state that acquisitions and releases by holders lead to, the reader count that the lock
-- keeps is the sum of the entries of its table, and the entry of a thread is the number of READ
-- locks that the thread holds.
pub reader_count-eq-total :
    (s : Threads) (i : ℕ)
    → Reach idle_threads s
    → (reader_count s.lock ≡ total s.lock.reader_threads)
      × (lookup_or 0 i s.lock.reader_threads ≡ s.reads i)
unfolding reader_count
reader_count-eq-total s i r = let inv = Reach-Inv r in (sym inv.sum, inv.table i)
