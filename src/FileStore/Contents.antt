-- ===== src/FileStore/Contents.antt =====
-- `InMemoryFileStore` (app/file_store/memory.py) as a map from paths to bytes.
use mathlib.Core.Path.{subst}
use manus_claw.Prelude.{
  ℕ, Bool, true, false, not, ◌&&◌, String, Option, none, some, List, [], ◌∷◌, ◌≡◌, ◌≢◌, ne_of_beq,
  refl, ap, sym, ◌∙◌, inl, inr, str_eq, eq_iff, Bool-cases, Dict, lookup, insert, remove,
  HasDistinctKeys, string_eq, lookup-insert_self, lookup-insert_ne, lookup-remove_self,
  lookup-remove_ne, insert-HasDistinctKeys, remove-HasDistinctKeys, if◌then◌else◌,
}
use manus_claw.FileStore.Memory.{
  found_data, Content, MemoryFile, FileMetadata, Result, ok, empty_path, too_large, already_exists,
  not_found, InMemoryFileStore, new_store, validated, is_file, exceeds, encoded, new_file, write,
  read, delete, clear, build_metadata,
}

-- A call of a method that changes the store; a write with its time, content type and metadata.
pub data Call : Type 0 where
  writes : ℕ → String → Content → String → Bool → Dict String String → Call
  deletes : String → Call
  clears : Call

-- What the paths hold.
abbrev pub Contents : Type 0
Contents = String → Option (List ℕ)

abbrev pub set_at : String → Option (List ℕ) → Contents → Contents
set_at path value c p = if str_eq p path then value else c p

abbrev pub holds : Option (List ℕ) → Bool
holds none = false
holds (some d) = true

module _ (encode : String → List ℕ) (tag : List ℕ → String) (max_file_size : ℕ) where
  -- A write that is refused changes nothing.
  abbrev pub specified : Call → Contents → Contents
  specified (writes now path content content_type overwrite metadata) c =
      if str_eq path ""
      then c
      else if exceeds max_file_size (encoded encode tag content)
      then c
      else if holds (c path) && not overwrite
      then c
      else set_at path (some (encoded encode tag content)) c
  specified (deletes path) c = if str_eq path "" then c else set_at path none c
  specified clears c = λ p. none

  abbrev pub specified_all : List Call → Contents → Contents
  specified_all [] c = c
  specified_all (call ∷ calls) c = specified_all calls (specified call c)

  abbrev pub after : Call → InMemoryFileStore → InMemoryFileStore
  after (writes now path content content_type overwrite metadata) store =
      (write encode tag now path content content_type overwrite metadata store).1
  after (deletes path) store = (delete path store).1
  after clears store = clear store

  abbrev pub after_all : List Call → InMemoryFileStore → InMemoryFileStore
  after_all [] store = store
  after_all (call ∷ calls) store = after_all calls (after call store)

  abbrev data_of : Option MemoryFile → Option (List ℕ)
  data_of none = none
  data_of (some f) = some f.data_bytes

  -- The store holds the contents.
  record Holds (store : InMemoryFileStore) (c : Contents) : Type 0 where
    bounded : store.max_file_size ≡ max_file_size
    distinct : HasDistinctKeys store.files
    same : (p : String) → data_of (lookup p store.files) ≡ c p

  -- Writing or refusing, by the tests of `write`.
  chosen-Holds :
      (a b d : Bool) (store changed : InMemoryFileStore) (m : FileMetadata) (c e : Contents)
      → Holds store c
      → Holds changed e
      → Holds
          (if◌then◌else◌ {A = Result FileMetadata × InMemoryFileStore} a
            (empty_path, store)
            (if b
              then (too_large, store)
              else if d
              then (already_exists, store)
              else (ok m, changed))).1
          (if a then c else if b then c else if d then c else e)
  chosen-Holds true b d store changed m c e h g = h
  chosen-Holds false true d store changed m c e h g = h
  chosen-Holds false false true store changed m c e h g = h
  chosen-Holds false false false store changed m c e h g = g

  set_at-Holds :
      (path : String) (v : Option (List ℕ)) (store changed : InMemoryFileStore) (c : Contents)
      → Holds store c
      → changed.max_file_size ≡ store.max_file_size
      → HasDistinctKeys changed.files
      → data_of (lookup path changed.files) ≡ v
      → ((p : String) → path ≢ p → lookup p changed.files ≡ lookup p store.files)
      → Holds changed (set_at path v c)
  set_at-Holds path v store changed c h size keys self others = record {
    bounded = size ∙ h.bounded;
    distinct = keys;
    same = λ p. elim (Bool-cases (str_eq p path)) [
      | inl here ↦
          ap (λ q. data_of (lookup q changed.files)) ((eq_iff p path).0 here)
          ∙ self
          ∙ sym (ap (λ b. if b then v else c p) here)
      | inr other ↦
          ap data_of (others p (λ q. ne_of_beq p path other q))
          ∙ h.same p
          ∙ sym (ap (λ b. if b then v else c p) other)
    ];
  }

  holds-data_of : (o : Option MemoryFile) → is_file o ≡ holds (data_of o)
  unfolding is_file
  holds-data_of none = refl
  holds-data_of (some f) = refl

  no_data : (o : Option MemoryFile) → is_file o ≡ false → data_of o ≡ none
  unfolding is_file
  no_data none h = refl
  no_data (some f) h = (let h' : true ≡ false = h in cc)

  write-Holds :
      (now : ℕ) (path : String) (content : Content) (content_type : String) (overwrite : Bool)
      (metadata : Dict String String) (store : InMemoryFileStore) (c : Contents)
      → Holds store c
      → Holds
          (write encode tag now path content content_type overwrite metadata store).1
          (specified (writes now path content content_type overwrite metadata) c)
  unfolding write validated
  write-Holds now path content content_type overwrite metadata store c h =
      let d = encoded encode tag content in
      let existing = lookup path store.files in
      let f = new_file encode tag now d content_type metadata existing in
      let changed = record store { files = insert path f store.files } in
      let a = str_eq path "" in
      let e = set_at path (some d) c in
      let size : exceeds store.max_file_size d ≡ exceeds max_file_size d =
        ap (λ n. exceeds n d) h.bounded in
      let known : (is_file existing && not overwrite) ≡ (holds (c path) && not overwrite) =
        ap (λ b. b && not overwrite) (holds-data_of existing ∙ ap holds (h.same path)) in
      let written : Holds changed e =
        set_at-Holds path (some d) store changed c h refl
          (insert-HasDistinctKeys path f store.files h.distinct)
          (ap data_of (lookup-insert_self path f store.files) ∙ unfold new_file in refl)
          (λ p ne. lookup-insert_ne p path f store.files ne) in
      let r = (write encode tag now path content content_type overwrite metadata store).1 in
      subst
        (λ x.
          Holds r
            (if a then c else if x then c else if holds (c path) && not overwrite then c else e))
        size
        (subst
          (λ y.
            Holds r
              (if a then c else if exceeds store.max_file_size d then c else if y then c else e))
          known
          (chosen-Holds a (exceeds store.max_file_size d) (is_file existing && not overwrite) store
            changed (build_metadata path f) c e h written))

  removed-Holds :
      (a b : Bool) (store changed : InMemoryFileStore) (c e : Contents)
      → Holds store c
      → Holds changed e
      → (b ≡ false → Holds store e)
      → Holds
          (if◌then◌else◌ {A = Result Bool × InMemoryFileStore} a
            (empty_path, store)
            (if b then (ok true, changed) else (ok false, store))).1
          (if a then c else e)
  removed-Holds true b store changed c e h g k = h
  removed-Holds false true store changed c e h g k = g
  removed-Holds false false store changed c e h g k = k refl

  delete-Holds :
      (path : String) (store : InMemoryFileStore) (c : Contents)
      → Holds store c
      → Holds (delete path store).1 (specified (deletes path) c)
  unfolding delete validated
  delete-Holds path store c h =
      let changed = record store { files = remove path store.files } in
      let removed : Holds changed (set_at path none c) =
        set_at-Holds path none store changed c h refl
          (remove-HasDistinctKeys path store.files h.distinct)
          (ap data_of (lookup-remove_self path store.files h.distinct))
          (λ p ne. lookup-remove_ne p path store.files ne) in
      removed-Holds (str_eq path "") (is_file (lookup path store.files)) store changed c
        (set_at path none c) h removed
        (λ gone.
          set_at-Holds path none store store c h refl h.distinct
            (no_data (lookup path store.files) gone) (λ p ne. refl))

  after-Holds :
      (call : Call) (store : InMemoryFileStore) (c : Contents)
      → Holds store c
      → Holds (after call store) (specified call c)
  after-Holds (writes now path content content_type overwrite metadata) store c h =
      write-Holds now path content content_type overwrite metadata store c h
  after-Holds (deletes path) store c h = delete-Holds path store c h
  after-Holds clears store c h =
      unfold clear lookup in record { bounded = h.bounded; distinct = tt; same = λ p. refl }

  after_all-Holds :
      (calls : List Call) (store : InMemoryFileStore) (c : Contents)
      → Holds store c
      → Holds (after_all calls store) (specified_all calls c)
  after_all-Holds [] store c h = h
  after_all-Holds (call ∷ calls) store c h =
      after_all-Holds calls (after call store) (specified call c) (after-Holds call store c h)

  -- What `read` returns for a path of a map from paths to bytes.
  abbrev pub read_of : Option (List ℕ) → Result (List ℕ)
  read_of none = not_found
  read_of (some d) = ok d

  found_data-data_of : (o : Option MemoryFile) → found_data o ≡ read_of (data_of o)
  unfolding found_data
  found_data-data_of none = refl
  found_data-data_of (some f) = refl

  -- Whatever was written, deleted and cleared, `read` raises the error of an empty path, or
  -- returns what the map from paths to bytes holds that the same calls make of the empty map.
  pub read-eq-read_of :
      (calls : List Call) (path : String)
      → read path (after_all calls (new_store max_file_size))
        ≡ (if str_eq path "" then empty_path else read_of (specified_all calls (λ p. none) path))
  unfolding read new_store
  read-eq-read_of calls path =
      let store = after_all calls (new_store max_file_size) in
      let h : Holds store (specified_all calls (λ p. none)) =
        after_all-Holds calls (new_store max_file_size) (λ p. none)
          (unfold lookup in record { bounded = refl; distinct = tt; same = λ p. refl }) in
      ap (λ (r : Result (List ℕ)). if str_eq path "" then empty_path else r)
        (found_data-data_of (lookup path store.files) ∙ ap read_of (h.same path))
