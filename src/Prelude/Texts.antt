-- ===== src/Prelude/Texts.antt =====
-- Python's text operations on native strings: concatenation, slices, membership, lower case.
use Prim.Native.Nat.{Ordering, ℕ, zero, suc, ◌+◌}
use Prim.Native.Char.{code}
use Prim.Native.String.{compare, String, ◌++◌}
use mathlib.Core.Bool.{Bool, true, false, ◌&&◌, ◌||◌}
use mathlib.Core.List.{List, [], ◌∷◌}
use text.Mathlib.Text.{◌==◌ as str_eq}
use manus_claw.Prelude.Tests.{leb, ◌==◌, if◌then◌else◌}

-- `s + t`
abbrev pub append_text : String → String → String
append_text s t = s ++ t

-- `f"{s}:{t}"`
abbrev pub colon : String → String → String
colon s t = s ++ (":" ++ t)

-- `s[:n]`
abbrev pub take_chars : ℕ → String → String
take_chars zero s = ""
take_chars (suc n) String.[] = ""
take_chars (suc n) (String.◌∷◌ c s) = String.◌∷◌ c (take_chars n s)

-- The code points of a text.
abbrev pub codes : String → List ℕ
codes String.[] = []
codes (String.◌∷◌ c s) = code c ∷ codes s

unfoldable pub is_prefix : List ℕ → List ℕ → Bool
is_prefix [] ys = true
is_prefix (x ∷ xs) [] = false
is_prefix (x ∷ xs) (y ∷ ys) = x == y && is_prefix xs ys

-- `xs in ys`, on code points
unfoldable pub is_infix : List ℕ → List ℕ → Bool
unfolding is_prefix
is_infix xs [] = is_prefix xs []
is_infix xs (y ∷ ys) = is_prefix xs (y ∷ ys) || is_infix xs ys

-- `s.lower()` on code points, as far as ASCII text can show in the result: the ASCII capitals,
-- and the two other characters whose lower case has an ASCII letter (U+212A, the Kelvin sign, and
-- U+0130, whose lower case is `i` and U+0307). No other character's lower case holds ASCII.
unfoldable pub lower : List ℕ → List ℕ
lower [] = []
lower (c ∷ cs) =
    let rest = lower cs in
    if leb b'A' c && leb c b'Z'
    then (c + 32) ∷ rest
    else if c == 0x212a
    then b'k' ∷ rest
    else if c == 0x130
    then b'i' ∷ 0x307 ∷ rest
    else c ∷ rest

-- `s <= t`, the order of Python's strings
abbrev pub text_leb : String → String → Bool
text_leb s t = elim (compare s t) [ Ordering.gt ↦ false | _ ↦ true ]

-- `s in names`, for a literal tuple or list of names
abbrev pub one_of : String → List String → Bool
one_of s [] = false
one_of s (n ∷ ns) = str_eq s n || one_of s ns
