-- ===== src/Core/Enumeration.antt =====
-- `enumerate_package_directory`, `EnumerationBudget::record` and `unexpected_from_names` of
-- crates/cakesplitter-core/src/package_binding.rs.
pub mod Ordered
pub mod Bounds
pub mod Unexpected
use cake_splitter.Prelude.{
  ℕ, ◌+◌, Bool, true, false, not, ◌&&◌, ◌||◌, List, [], ◌∷◌, ◌++◌, Option, none, some, Text, codes,
  byte_len, is_empty, text_eq, text_mem, ltb, leb, ◌==◌, length, Result, ok, err, reject_if, ok_or,
  checked_add, saturating_add, ◌>>=◌, ◌>>◌, if◌then◌else◌,
}
use cake_splitter.Core.Error.{
  CoreError, FilePath, IoError, io, cancelled, non_utf8_filename, unsafe_filesystem_path,
  package_enumeration_limit,
}

abbrev pub max_directory_entries : ℕ
max_directory_entries = 65_536

abbrev pub max_slice_candidates : ℕ
max_slice_candidates = 51_024

abbrev pub max_diagnostic_entries : ℕ
max_diagnostic_entries = 1_024

abbrev pub max_entry_filename_bytes : ℕ
max_entry_filename_bytes = 200

abbrev pub max_metadata_bytes : ℕ
max_metadata_bytes = 25_165_824

pub record EnumerationBudget : Type 0 where
  pub entry_count : ℕ  -- usize
  pub candidate_count : ℕ  -- usize
  pub metadata_bytes : ℕ  -- usize

abbrev pub no_entries : EnumerationBudget
no_entries = record { entry_count = 0; candidate_count = 0; metadata_bytes = 0 }

-- the three resources of the later limits; `usize` has 64 bits
too_many_entries : CoreError
too_many_entries = package_enumeration_limit (codes "directory entry count") max_directory_entries

too_many_bytes : CoreError
too_many_bytes = package_enumeration_limit (codes "enumeration metadata bytes") max_metadata_bytes

too_many_candidates : CoreError
too_many_candidates = package_enumeration_limit (codes "candidate Slice count") max_slice_candidates

unfoldable pub record_candidate : EnumerationBudget → Bool → Result CoreError EnumerationBudget
unfolding too_many_candidates
record_candidate budget false = ok budget
record_candidate budget true = do
  candidate_count ← ok_or (checked_add budget.candidate_count 1) too_many_candidates
  reject_if (ltb max_slice_candidates candidate_count) too_many_candidates
  ok (record budget { candidate_count = candidate_count })

unfoldable pub record_entry : EnumerationBudget → Text → Bool → Result CoreError EnumerationBudget
unfolding record_candidate too_many_entries too_many_bytes
record_entry budget name is_slice = do
  reject_if (ltb max_entry_filename_bytes (byte_len name))
      (package_enumeration_limit (codes "entry filename byte length") max_entry_filename_bytes)
  entry_count ← ok_or (checked_add budget.entry_count 1) too_many_entries
  reject_if (ltb max_directory_entries entry_count) too_many_entries
  metadata_bytes ←
      ok_or (checked_add budget.metadata_bytes (saturating_add (byte_len name) 64)) too_many_bytes
  reject_if (ltb max_metadata_bytes metadata_bytes) too_many_bytes
  record_candidate (record budget { entry_count = entry_count; metadata_bytes = metadata_bytes })
      is_slice

-- `str` order: by bytes, which is by scalar values
unfoldable pub text_leb : Text → Text → Bool
text_leb [] t = true
text_leb (c ∷ s) [] = false
text_leb (c ∷ s) (d ∷ t) = ltb c d || (c == d && text_leb s t)

-- `names.sort()`, by insertion
unfoldable pub insert_sorted : Text → List Text → List Text
unfolding text_leb
insert_sorted name [] = name ∷ []
insert_sorted name (n ∷ ns) =
    let later = insert_sorted name ns in if text_leb name n then name ∷ n ∷ ns else n ∷ later

unfoldable pub sort : List Text → List Text
unfolding insert_sorted
sort [] = []
sort (n ∷ ns) = insert_sorted n (sort ns)

-- `name.ends_with(suffix)`
unfoldable pub ends_with : Text → Text → Bool
ends_with suffix [] = is_empty suffix
ends_with suffix (c ∷ s) = text_eq (c ∷ s) suffix || ends_with suffix s

-- what the system says of one entry of the directory
pub record DirEntry : Type 0 where
  pub path : FilePath
  pub name : Option Text  -- `none` if it is not UTF-8
  pub metadata_error : Option IoError
  pub is_file : Bool
  pub is_link : Bool  -- a symbolic link or a reparse point

-- one turn of the directory iterator, and whether the token was cancelled before it
pub record Turn : Type 0 where
  pub is_cancelled : Bool
  pub entry : Result IoError DirEntry

pub record PackageInventory : Type 0 where
  pub slice_names : List Text
  pub manifest_names : List Text

-- `result.map_err(io_error(path))`
abbrev io_at {ℓ} : {A : Type ℓ} → FilePath → Result IoError A → Result CoreError A
io_at path (ok a) = ok a
io_at path (err e) = err (io path e)

abbrev metadata_of : DirEntry → Result CoreError (Unit {0})
metadata_of e = elim e.metadata_error [ none ↦ ok tt | some error ↦ err (io e.path error) ]

-- one entry: the budget after it, and the names that it adds
unfoldable pub visit_entry :
    EnumerationBudget → DirEntry → Result CoreError (EnumerationBudget × List Text × List Text)
visit_entry budget entry = do
  name ← ok_or entry.name non_utf8_filename
  metadata_of entry
  reject_if entry.is_link (unsafe_filesystem_path entry.path)
  let is_slice = entry.is_file && ends_with (codes ".slice") name
  budget' ← record_entry budget name is_slice
  let is_manifest = entry.is_file && ends_with (codes ".cake.json") name
  ok (budget', (if is_slice then name ∷ [] else []), (if is_manifest then name ∷ [] else []))

-- the loop over the directory; a manifest's path is the directory's with this name
unfoldable pub enumerate_entries :
    FilePath → EnumerationBudget → List Turn → Result CoreError PackageInventory
enumerate_entries directory budget [] = ok (record { slice_names = []; manifest_names = [] })
enumerate_entries directory budget (turn ∷ turns) = do
  reject_if turn.is_cancelled cancelled
  entry ← io_at directory turn.entry
  visited ← visit_entry budget entry
  rest ← enumerate_entries directory visited.0 turns
  ok (record {
    slice_names = visited.1 ++ rest.slice_names;
    manifest_names = visited.2 ++ rest.manifest_names;
  })

-- `existing` is what `validate_existing_directory` and then `fs::read_dir` said of the directory
unfoldable pub enumerate_package_directory :
    FilePath → Result CoreError (Unit {0}) → List Turn → Result CoreError PackageInventory
enumerate_package_directory directory existing turns = do
  existing
  found ← enumerate_entries directory no_entries turns
  ok (record { slice_names = sort found.slice_names; manifest_names = sort found.manifest_names })

-- the loop, with the names pushed so far
unfoldable pub unexpected_loop : List Text → List Text → List Text → Result CoreError (List Text)
unexpected_loop expected unexpected [] = ok unexpected
unexpected_loop expected unexpected (name ∷ names) =
    let skip = unexpected_loop expected unexpected names in
    let keep = unexpected_loop expected (unexpected ++ name ∷ []) names in
    if text_mem name expected
    then skip
    else if leb max_diagnostic_entries (length unexpected)
    then err (
        package_enumeration_limit (codes "unexpected Slice diagnostic count")
          max_diagnostic_entries)
    else keep

unfoldable pub unexpected_from_names : List Text → List Text → Result CoreError (List Text)
unfolding unexpected_loop
unexpected_from_names names expected = unexpected_loop expected [] names
