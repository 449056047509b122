-- ===== src/ResourceLock/Declared/Factories.antt =====
-- The factories and the other queries of app/parallel_executor/declared_resources.py. `absolute`
-- stands for os.path.abspath followed by os.path.normpath.
use manus_claw.Prelude.{
  ℕ, zero, suc, ◌+◌, ◌/◌, ◌≡◌, ◌||◌, Bool, not, String, Option, none, some, List, [], ◌∷◌, ltb,
  if◌then◌else◌, eq_refl, append_text, lookup, insert, ◌-◌, ◌*◌, refl, ◌⊎◌, inl, inr, arith,
}
use manus_claw.ResourceLock.Declared.{
  AccessMode, read, write, ResourceDeclaration, is_write_mode, is_read, is_empty, frozen, lock_key,
  clashes, conflicts_with, write_declarations, is_write,
}

unfoldable pub read_declarations : List ResourceDeclaration → List ResourceDeclaration
unfolding is_read
read_declarations [] = []
read_declarations (d ∷ ds) = let rest = read_declarations ds in if is_read d then d ∷ rest else rest

-- `len(self)`
unfoldable pub count : List ResourceDeclaration → ℕ
count [] = 0
count (d ∷ ds) = suc (count ds)

-- `bool(self)`
unfoldable pub is_true : List ResourceDeclaration → Bool
unfolding is_empty
is_true ds = not (is_empty ds)

unfoldable pub empty : List ResourceDeclaration
unfolding frozen
empty = frozen []

unfoldable pub single : String → String → AccessMode → List ResourceDeclaration
unfolding frozen
single type id mode = frozen (record { resource_type = type; resource_id = id; mode = mode } ∷ [])

unfoldable pub file_resource : (String → String) → String → AccessMode → List ResourceDeclaration
unfolding single
file_resource absolute path mode = single "file" (absolute path) mode

unfoldable pub terminal_resource : String → AccessMode → List ResourceDeclaration
unfolding single
terminal_resource session_id mode = single "terminal" session_id mode

abbrev digits_of : List String
digits_of = "0" ∷ "1" ∷ "2" ∷ "3" ∷ "4" ∷ "5" ∷ "6" ∷ "7" ∷ "8" ∷ "9" ∷ []

unfoldable pub text_at : ℕ → List String → String
text_at n [] = ""
text_at zero (s ∷ texts) = s
text_at (suc n) (s ∷ texts) = text_at n texts

unfoldable pub digit : ℕ → String
unfolding text_at
digit n = text_at n digits_of

-- The last digits of a number, as many as it has and at most as many as the fuel.
unfoldable pub digits : ℕ → ℕ → String
unfolding digit
digits zero n = ""
digits (suc fuel) n =
    let rest = digits fuel (n / 10) in
    if ltb n 10 then digit n else append_text rest (digit (n - n / 10 * 10))

-- `str(n)`: the successor is fuel enough, as a number has at most that many digits.
unfoldable pub decimal : ℕ → String
unfolding digits
decimal n = digits (suc n) n

unfoldable pub endpoint : String → Option ℕ → String
unfolding decimal
endpoint host none = host
endpoint host (some port) = append_text host (append_text ":" (decimal port))

unfoldable pub network_resource : String → Option ℕ → AccessMode → List ResourceDeclaration
unfolding single endpoint
network_resource host port mode = single "network" (endpoint host port) mode

-- Two sets of one declaration each, of the same resource, conflict if one of the modes is WRITE.
pub conflicts_with-single :
    (digest : String → String) (type id : String) (m n : AccessMode)
    → conflicts_with digest (single type id m) (single type id n)
      ≡ (is_write_mode m || is_write_mode n)
unfolding conflicts_with single lookup insert lock_key clashes
conflicts_with-single digest type id read read = simp eq_refl
conflicts_with-single digest type id read write = simp eq_refl
conflicts_with-single digest type id write n = simp eq_refl

-- Two calls that name a file by paths of one absolute path conflict if one of them writes.
pub conflicts_with-file_resource :
    (digest absolute : String → String) (p q : String) (m n : AccessMode)
    → absolute p ≡ absolute q
    → conflicts_with digest (file_resource absolute p m) (file_resource absolute q n)
      ≡ (is_write_mode m || is_write_mode n)
unfolding file_resource
conflicts_with-file_resource digest absolute p q m n same =
    rw same (conflicts_with-single digest "file" (absolute q) m n)

mode-cases : (m : AccessMode) → (m ≡ read) ⊎ (m ≡ write)
mode-cases read = inl refl
mode-cases write = inr refl

-- Each declaration is a READ one or a WRITE one.
pub count-read_declarations :
    (ds : List ResourceDeclaration)
    → count (read_declarations ds) + count (write_declarations ds) ≡ count ds
unfolding count read_declarations write_declarations is_read is_write
count-read_declarations [] = refl
count-read_declarations (d ∷ ds) =
    let rest = count-read_declarations ds in
    elim (mode-cases d.mode) [ inl h ↦ rw h (ground arith) | inr h ↦ rw h (ground arith) ]
