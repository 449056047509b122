-- ===== src/ResourceLock/Declared.antt =====
-- app/parallel_executor/declared_resources.py. A frozen set of declarations is a list without
-- duplicates, in an order that no result rests on; `digest` is the SHA-256 digest in hexadecimal.
pub mod Factories
use manus_claw.Prelude.{
  Bool, true, false, ◌||◌, ◌&&◌, String, none, some, List, [], ◌∷◌, ◌++◌, str_eq, append_text,
  if◌then◌else◌, Dict, string_eq, lookup, insert, Option,
}

pub data AccessMode : Type 0 where
  read write : AccessMode

pub record ResourceDeclaration : Type 0 where
  pub resource_type : String
  pub resource_id : String
  pub mode : AccessMode

abbrev pub is_write_mode : AccessMode → Bool
is_write_mode write = true
is_write_mode read = false

unfoldable pub is_write : ResourceDeclaration → Bool
is_write d = is_write_mode d.mode

unfoldable pub is_read : ResourceDeclaration → Bool
is_read d = elim d.mode [ read ↦ true | write ↦ false ]

abbrev same_mode : AccessMode → AccessMode → Bool
same_mode read read = true
same_mode write write = true
same_mode _ _ = false

-- The equality of the frozen dataclass.
abbrev pub same_declaration : ResourceDeclaration → ResourceDeclaration → Bool
same_declaration c d =
    str_eq c.resource_type d.resource_type
    && str_eq c.resource_id d.resource_id
    && same_mode c.mode d.mode

-- `item in self.declarations`
unfoldable pub contains : ResourceDeclaration → List ResourceDeclaration → Bool
contains c [] = false
contains c (d ∷ ds) = same_declaration c d || contains c ds

-- `frozenset(declarations)`
unfoldable pub frozen : List ResourceDeclaration → List ResourceDeclaration
unfolding contains
frozen [] = []
frozen (d ∷ ds) = let rest = frozen ds in if contains d rest then rest else d ∷ rest

unfoldable pub is_empty : List ResourceDeclaration → Bool
is_empty [] = true
is_empty (d ∷ ds) = false

-- `self.declarations | other.declarations`
unfoldable pub union :
    List ResourceDeclaration → List ResourceDeclaration → List ResourceDeclaration
unfolding frozen
union ds es = frozen (ds ++ es)

unfoldable pub write_declarations : List ResourceDeclaration → List ResourceDeclaration
write_declarations [] = []
write_declarations (d ∷ ds) =
    let rest = write_declarations ds in if is_write d then d ∷ rest else rest

unfoldable pub has_writes : List ResourceDeclaration → Bool
has_writes [] = false
has_writes (d ∷ ds) = is_write d || has_writes ds

-- Conflict if either side is a WRITE, where the other side has the key at all.
unfoldable pub clashes : ResourceDeclaration → Option ResourceDeclaration → Bool
clashes d none = false
clashes d (some e) = is_write d || is_write e

module _ (digest : String → String) where
  unfoldable pub lock_key : ResourceDeclaration → String
  lock_key d = digest (append_text d.resource_type (append_text "::" d.resource_id))

  unfoldable pub has_key : String → List ResourceDeclaration → Bool
  has_key key [] = false
  has_key key (d ∷ ds) = str_eq (lock_key d) key || has_key key ds

  unfoldable pub intersection :
      List ResourceDeclaration → List ResourceDeclaration → List ResourceDeclaration
  unfolding has_key
  intersection [] es = []
  intersection (d ∷ ds) es =
      let rest = intersection ds es in if has_key (lock_key d) es then d ∷ rest else rest

  unfoldable pub collect :
      List ResourceDeclaration → Dict String ResourceDeclaration → Dict String ResourceDeclaration
  collect [] m = m
  collect (d ∷ ds) m = collect ds (insert (lock_key d) d m)

  -- `{d.lock_key: d for d in declarations}`: the last declaration of a key stands.
  unfoldable pub by_key : List ResourceDeclaration → Dict String ResourceDeclaration
  unfolding collect
  by_key ds = collect ds []

  -- The loop over the common keys, as a loop over the first map.
  unfoldable pub any_conflict :
      Dict String ResourceDeclaration → Dict String ResourceDeclaration → Bool
  unfolding clashes
  any_conflict [] other = false
  any_conflict ((key, d) ∷ m) other = clashes d (lookup key other) || any_conflict m other

  unfoldable pub conflicts_with : List ResourceDeclaration → List ResourceDeclaration → Bool
  unfolding by_key any_conflict is_empty is_write
  conflicts_with ds es =
      if is_empty ds || is_empty es then false else any_conflict (by_key ds) (by_key es)
