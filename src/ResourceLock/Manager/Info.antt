-- ===== src/ResourceLock/Manager/Info.antt =====
-- `get_lock_info` of app/parallel_executor/resource_lock.py, and what it tells of one key.
use manus_claw.Prelude.{
  ◌||◌, sym, ℕ, ◌≡◌, ◌∙◌, ap, Bool, false, String, Option, none, some, List, [], ◌∷◌, inl, inr,
  Dict, string_eq, lookup, insert, lookup-insert_self, lookup-insert_ne, Bool-cases, ◌≢◌, ne_of_beq,
  Option-cases, refl, ltb,
}
use manus_claw.ResourceLock.RwLock.{RwLock, is_write_locked, reader_count}
use manus_claw.ResourceLock.Manager.{Locks, is_resource_locked, is_held}

pub record LockInfo : Type 0 where
  pub write_locked : Bool
  pub readers : ℕ

unfoldable pub info_of : RwLock → LockInfo
unfolding is_write_locked reader_count
info_of lock = record { write_locked = is_write_locked lock; readers = reader_count lock }

-- `list(self._locks.keys())`
unfoldable pub registered_keys : Locks → List String
registered_keys [] = []
registered_keys ((key, lock) ∷ locks) = key ∷ registered_keys locks

unfoldable pub put_info : String → Option RwLock → Dict String LockInfo → Dict String LockInfo
unfolding insert
put_info key none result = result
put_info key (some lock) result = insert key (info_of lock) result

unfoldable pub collect_info : List String → Locks → Dict String LockInfo → Dict String LockInfo
unfolding put_info lookup
collect_info [] locks result = result
collect_info (key ∷ keys) locks result =
    collect_info keys locks (put_info key (lookup key locks) result)

unfoldable pub get_lock_info : Locks → Dict String LockInfo
unfolding collect_info registered_keys
get_lock_info locks = collect_info (registered_keys locks) locks []

abbrev info_at : Option RwLock → Option LockInfo
info_at none = none
info_at (some lock) = some (info_of lock)

put_found :
    (key : String) (lock : RwLock) (result : Dict String LockInfo)
    → lookup key (put_info key (some lock) result) ≡ some (info_of lock)
unfolding put_info
put_found key lock result = lookup-insert_self key (info_of lock) result

put_kept :
    (key : String) (found : Option RwLock) (result : Dict String LockInfo)
    → lookup key result ≡ info_at found
    → lookup key (put_info key found result) ≡ info_at found
unfolding put_info
put_kept key none result h = h
put_kept key (some lock) result h = put_found key lock result

lookup-put_info_ne :
    (j key : String) (found : Option RwLock) (result : Dict String LockInfo)
    → key ≢ j
    → lookup j (put_info key found result) ≡ lookup j result
unfolding put_info
lookup-put_info_ne j key none result ne = refl
lookup-put_info_ne j key (some lock) result ne = lookup-insert_ne j key (info_of lock) result ne

-- What the result says of a key already, the rest of the loop keeps.
collect_info-keeps :
    (j : String) (keys : List String) (locks : Locks) (result : Dict String LockInfo)
    → lookup j result ≡ info_at (lookup j locks)
    → lookup j (collect_info keys locks result) ≡ info_at (lookup j locks)
unfolding collect_info
collect_info-keeps j [] locks result h = h
collect_info-keeps j (key ∷ keys) locks result h =
    let next = put_info key (lookup key locks) result in
    collect_info-keeps j keys locks next (elim (Bool-cases (string_eq.beq key j)) [
      | inl same ↦ rw ((string_eq.beq_iff key j).0 same) (put_kept j (lookup j locks) result h)
      | inr other ↦
          lookup-put_info_ne j key (lookup key locks) result (λ e. ne_of_beq key j other (sym e))
          ∙ h
    ])

-- A key that the loop has still to visit is told of.
collect_info-finds :
    (j : String) (lock : RwLock) (before : Locks) (locks : Locks) (result : Dict String LockInfo)
    → lookup j locks ≡ some lock
    → lookup j before ≡ some lock
    → lookup j (collect_info (registered_keys before) locks result) ≡ info_at (lookup j locks)
unfolding collect_info registered_keys lookup
collect_info-finds j lock [] locks result h k = (let never : none ≡ some lock = k in cc)
collect_info-finds j lock ((key, l) ∷ before) locks result h k =
    let next = put_info key (lookup key locks) result in
    elim (Bool-cases (string_eq.beq key j)) [
      | inl same ↦
          collect_info-keeps j (registered_keys before) locks next
            (rw ((string_eq.beq_iff key j).0 same) (rw h (put_found j lock result)))
      | inr other ↦ collect_info-finds j lock before locks next h (rw other at k)
    ]

-- The snapshot tells of every registered lock, as it is, and of no other key.
pub lookup-get_lock_info :
    (key : String) (locks : Locks) → lookup key (get_lock_info locks) ≡ info_at (lookup key locks)
unfolding get_lock_info
lookup-get_lock_info key locks = elim (Option-cases (lookup key locks)) [
  | inl missing ↦
      collect_info-keeps key (registered_keys locks) locks [] (rw missing (unfold lookup in refl))
  | inr (lock, found) ↦ collect_info-finds key lock locks locks [] found found
]

-- A lock is held as `is_resource_locked` says when the snapshot shows a writer or a reader.
abbrev shows_held : Option LockInfo → Bool
shows_held none = false
shows_held (some info) = info.write_locked || ltb 0 info.readers

shows_held-info_at : (found : Option RwLock) → shows_held (info_at found) ≡ is_held found
unfolding info_of is_held
shows_held-info_at none = refl
shows_held-info_at (some lock) = refl

pub is_resource_locked-get_lock_info :
    (key : String) (locks : Locks)
    → shows_held (lookup key (get_lock_info locks)) ≡ is_resource_locked key locks
unfolding is_resource_locked
is_resource_locked-get_lock_info key locks =
    ap shows_held (lookup-get_lock_info key locks) ∙ shows_held-info_at (lookup key locks)
