-- ===== src/FileStore/Memory.antt =====
-- `InMemoryFileStore` of app/file_store/memory.py. Bytes are numbers and times are numbers of ticks;
-- `encode` is UTF-8, and `tag` the text of the hash of some bytes.
use manus_claw.Prelude.{
  ℕ, ◌+◌, Bool, true, false, not, ◌&&◌, String, Option, none, some, List, [], ◌∷◌, ltb, length,
  codes, is_prefix, str_eq, text_leb, append_text, if◌then◌else◌, Dict, lookup, insert, remove,
  string_eq,
}

pub data Content : Type 0 where
  bytes : List ℕ → Content
  text : String → Content

pub record MemoryFile : Type 0 where
  pub data_bytes : List ℕ
  pub content_type : String
  pub metadata : Dict String String
  pub created_at : ℕ
  pub modified_at : ℕ
  pub etag : String

pub record FileMetadata : Type 0 where
  pub path : String
  pub size_bytes : ℕ
  pub content_type : String
  pub created_at : ℕ
  pub modified_at : ℕ
  pub etag : String
  pub extra : Dict String String

-- A result, or the error that is raised.
pub data Result (A : Type 0) : Type 0 where
  ok : A → Result A
  empty_path too_large already_exists not_found : Result A

pub record InMemoryFileStore : Type 0 where
  pub files : Dict String MemoryFile
  pub max_file_size : ℕ

unfoldable pub new_store : ℕ → InMemoryFileStore
new_store max_file_size = record { files = []; max_file_size = max_file_size }

unfoldable pub build_metadata : String → MemoryFile → FileMetadata
build_metadata path f = record {
  path = path;
  size_bytes = length f.data_bytes;
  content_type = f.content_type;
  created_at = f.created_at;
  modified_at = f.modified_at;
  etag = f.etag;
  extra = f.metadata;
}

-- `_validate_path`, and then the rest.
unfoldable pub validated :
    {A : Type 0}
    → String
    → InMemoryFileStore
    → Result A × InMemoryFileStore
    → Result A × InMemoryFileStore
validated path store rest = if str_eq path "" then (empty_path, store) else rest

abbrev created : Option MemoryFile → ℕ → ℕ
created none now = now
created (some existing) now = existing.created_at

unfoldable pub is_file : Option MemoryFile → Bool
is_file none = false
is_file (some f) = true

unfoldable pub exceeds : ℕ → List ℕ → Bool
exceeds max_file_size d = ltb 0 max_file_size && ltb max_file_size (length d)

module _ (encode : String → List ℕ) (tag : List ℕ → String) where
  unfoldable pub encoded : Content → List ℕ
  encoded (bytes d) = d
  encoded (text s) = encode s

  unfoldable pub new_file :
      ℕ → List ℕ → String → Dict String String → Option MemoryFile → MemoryFile
  new_file now d content_type metadata existing = record {
    data_bytes = d;
    content_type = content_type;
    metadata = metadata;
    created_at = created existing now;
    modified_at = now;
    etag = tag d;
  }

  unfoldable pub write :
      ℕ
      → String
      → Content
      → String
      → Bool
      → Dict String String
      → InMemoryFileStore
      → Result FileMetadata × InMemoryFileStore
  unfolding build_metadata new_file lookup insert
  write now path content content_type overwrite metadata store =
      let d = encoded content in
      let existing = lookup path store.files in
      let f = new_file now d content_type metadata existing in
      validated path store (
        if exceeds store.max_file_size d
        then (too_large, store)
        else if is_file existing && not overwrite
        then (already_exists, store)
        else (ok (build_metadata path f), record store { files = insert path f store.files }))

unfoldable pub found_data : Option MemoryFile → Result (List ℕ)
found_data none = not_found
found_data (some f) = ok f.data_bytes

unfoldable pub read : String → InMemoryFileStore → Result (List ℕ)
unfolding found_data lookup
read path store = if str_eq path "" then empty_path else found_data (lookup path store.files)

unfoldable pub delete : String → InMemoryFileStore → Result Bool × InMemoryFileStore
unfolding lookup remove
delete path store = validated path store (
    if is_file (lookup path store.files)
    then (ok true, record store { files = remove path store.files })
    else (ok false, store))

unfoldable pub exists : String → InMemoryFileStore → Result Bool
unfolding lookup is_file
exists path store = if str_eq path "" then empty_path else ok (is_file (lookup path store.files))

unfoldable pub insert_metadata : FileMetadata → List FileMetadata → List FileMetadata
insert_metadata m [] = m ∷ []
insert_metadata m (n ∷ ms) =
    let rest = insert_metadata m ms in if text_leb m.path n.path then m ∷ n ∷ ms else n ∷ rest

-- The files under a prefix, sorted by path.
unfoldable pub list_files : String → Dict String MemoryFile → List FileMetadata
unfolding insert_metadata build_metadata
list_files prefix [] = []
list_files prefix ((path, f) ∷ files) =
    let rest = list_files prefix files in
    if is_prefix (codes prefix) (codes path)
    then insert_metadata (build_metadata path f) rest
    else rest

found_url : String → Option MemoryFile → Result String
found_url path none = not_found
found_url path (some f) = ok (append_text "memory://" path)

unfoldable pub get_url : String → InMemoryFileStore → Result String
unfolding found_url lookup
get_url path store = if str_eq path "" then empty_path else found_url path (lookup path store.files)

found_metadata : String → Option MemoryFile → Result FileMetadata
unfolding build_metadata
found_metadata path none = not_found
found_metadata path (some f) = ok (build_metadata path f)

unfoldable pub get_metadata : String → InMemoryFileStore → Result FileMetadata
unfolding found_metadata lookup
get_metadata path store =
    if str_eq path "" then empty_path else found_metadata path (lookup path store.files)

unfoldable pub clear : InMemoryFileStore → InMemoryFileStore
clear store = record store { files = [] }

unfoldable pub file_count : InMemoryFileStore → ℕ
file_count store = length store.files

unfoldable pub sizes : Dict String MemoryFile → ℕ
sizes [] = 0
sizes ((path, f) ∷ files) = length f.data_bytes + sizes files

unfoldable pub total_size : InMemoryFileStore → ℕ
unfolding sizes
total_size store = sizes store.files
