-- ===== src/FileStore/Tests.antt =====
-- Runs of the store of app/file_store/memory.py, in which each character is one byte.
use manus_claw.Prelude.{
  ℕ, String, none, List, [], ◌∷◌, ◌≡◌, refl, true, false, codes, str_eq, if◌then◌else◌,
}
use manus_claw.FileStore.Memory.{
  text, bytes, ok, empty_path, new_store, read, delete, validated, is_file, write, exceeds, encoded,
}
use manus_claw.FileStore.Contents.{
  Call, writes, deletes, after_all, specified_all, read_of, read-eq-read_of,
}

abbrev tag : List ℕ → String
tag d = "t"

-- The second write is refused, the third is too large.
abbrev some_calls : List Call
some_calls =
    writes 1 "a.txt" (text "hi") "text/plain" true []
    ∷ writes 2 "a.txt" (text "no") "text/plain" false []
    ∷ writes 3 "b.txt" (bytes (1 ∷ 2 ∷ 3 ∷ 4 ∷ [])) "application/octet-stream" true []
    ∷ deletes "b.txt"
    ∷ []

read_first : read "a.txt" (after_all codes tag 3 some_calls (new_store 3)) ≡ ok (codes "hi")
unfolding read delete validated is_file write exceeds new_store encoded
read_first = refl

read-eq-read_of_example : read "a.txt" (after_all codes tag 3 some_calls (new_store 3)) ≡ (
    if str_eq "a.txt" ""
    then empty_path
    else read_of codes tag 3 (specified_all codes tag 3 some_calls (λ p. none) "a.txt"))
read-eq-read_of_example = read-eq-read_of codes tag 3 some_calls "a.txt"
