-- ===== src/Core/Merge/Inspect.antt =====
-- `load_manifest` and `inspect_package` of crates/cakesplitter-core/src/lib.rs.
use cake_splitter.Prelude.{
  ℕ, suc, Bool, true, false, not, ◌&&◌, List, [], ◌∷◌, ◌++◌, Option, none, some, Text, codes,
  text_eq, is_empty, ltb, ◌==◌, length, take, Result, ok, err, reject_if, map,
}
use cake_splitter.Format.Manifest.{CakeManifest, SliceEntry, manifest_too_large, max_manifest_bytes}
use cake_splitter.Format.Validate.{parse_manifest_json}
use cake_splitter.Core.Enumeration.{
  PackageInventory, enumerate_package_directory, unexpected_from_names,
}
use cake_splitter.Core.Error.{CoreError, FilePath, io, invalid_manifest}
use cake_splitter.Core.Integrity.{Bytes}
use cake_splitter.Core.Path.{join, parent}
use cake_splitter.Core.System.{System, in_core}
use cake_splitter.Core.Host.{Node, M, pure, ◌>>=◌, ◌>>◌, lift, check_cancelled, call, open_file}
use cake_splitter.Core.Stream.{hash_reader}
use cake_splitter.Core.Publish.{attempt}

unfoldable pub load_manifest : System → FilePath → M CakeManifest
load_manifest sys path = do
  file ← open_file path
  lift (
      reject_if (ltb max_manifest_bytes (length file.content))
        (invalid_manifest manifest_too_large))
  call path
  let json = take (suc max_manifest_bytes) file.content
  lift (reject_if (not (sys.is_utf8 json)) (io path (codes "stream did not contain valid UTF-8")))
  lift (in_core (parse_manifest_json sys.external json))

-- `File::open` and the loop over the whole file
unfoldable pub hash_file : (Bytes → Text) → FilePath → M Text
hash_file sha256 path = do file ← open_file path; hash_reader sha256 path

pub record PackageInspection : Type 0 where
  pub manifest : CakeManifest
  pub expected_slice_count : ℕ
  pub found_slice_count : ℕ
  pub missing : List Text
  pub corrupted : List Text
  pub unexpected : List Text
  pub verified : Bool

-- what the loop over the slices collects
pub record Tally : Type 0 where
  pub found_slice_count : ℕ
  pub missing : List Text
  pub corrupted : List Text

abbrev with_missing : Tally → Text → Tally
with_missing tally name = record tally { missing = tally.missing ++ name ∷ [] }

abbrev with_corrupted : Tally → Text → Tally
with_corrupted tally name = record tally { corrupted = tally.corrupted ++ name ∷ [] }

-- `path.is_file()`
unfoldable pub is_file : Option Node → Bool
is_file none = false
is_file (some node) = node.is_regular

unfoldable pub note_hash : Tally → SliceEntry → Bool → Tally
note_hash tally slice true = tally
note_hash tally slice false = with_corrupted tally slice.filename

unfoldable pub check_hash : (Bytes → Text) → FilePath → SliceEntry → Tally → Bool → M Tally
unfolding hash_file note_hash
check_hash sha256 path slice tally false = pure tally
check_hash sha256 path slice tally true = do
  actual ← hash_file sha256 path
  pure (note_hash tally slice (text_eq actual slice.sha256))

unfoldable pub check_size : (Bytes → Text) → FilePath → SliceEntry → Tally → Bool → Bool → M Tally
unfolding check_hash
check_size sha256 path slice tally verify_hashes false = pure (with_corrupted tally slice.filename)
check_size sha256 path slice tally verify_hashes true =
    check_hash sha256 path slice tally verify_hashes

unfoldable pub check_found : (Bytes → Text) → FilePath → SliceEntry → Tally → Bool → Bool → M Tally
unfolding check_size
check_found sha256 path slice tally verify_hashes false = pure (with_missing tally slice.filename)
check_found sha256 path slice tally verify_hashes true = do
  metadata ← open_file path
  check_size sha256 path slice (record tally { found_slice_count = suc tally.found_slice_count })
      verify_hashes (length metadata.content == slice.size)

-- the body of the `for` loop
unfoldable pub inspect_slice : (Bytes → Text) → FilePath → Bool → SliceEntry → Tally → M Tally
unfolding check_found is_file
inspect_slice sha256 directory verify_hashes slice tally = do
  check_cancelled
  let path = join directory slice.filename
  node ← attempt (open_file path)
  check_found sha256 path slice tally verify_hashes (is_file node)

unfoldable pub inspect_slices : (Bytes → Text) → FilePath → Bool → List SliceEntry → Tally → M Tally
unfolding inspect_slice
inspect_slices sha256 directory verify_hashes [] tally = pure tally
inspect_slices sha256 directory verify_hashes (slice ∷ rest) tally = do
  next ← inspect_slice sha256 directory verify_hashes slice tally
  inspect_slices sha256 directory verify_hashes rest next

unfoldable pub names_beyond :
    List Text → Result CoreError PackageInventory → Result CoreError (List Text)
names_beyond expected (ok inventory) = unexpected_from_names inventory.slice_names expected
names_beyond expected (err e) = err e

unfoldable pub bounded_unexpected_slice_names : System → FilePath → List Text → M (List Text)
unfolding names_beyond
bounded_unexpected_slice_names sys directory expected w = (
  names_beyond expected (
      enumerate_package_directory directory (sys.existing directory w.files)
        (sys.turns directory w.files)),
  w,
)

unfoldable pub inspect_package : System → FilePath → Bool → M PackageInspection
unfolding inspect_slices bounded_unexpected_slice_names load_manifest
inspect_package sys manifest_path verify_hashes = do
  manifest ← load_manifest sys manifest_path
  let directory = parent manifest_path
  tally ←
      inspect_slices sys.sha256 directory verify_hashes manifest.slices
        (record { found_slice_count = 0; missing = []; corrupted = [] })
  unexpected ←
      bounded_unexpected_slice_names sys directory
        (map (λ s. SliceEntry.filename s) manifest.slices)
  pure (record {
    manifest = manifest;
    expected_slice_count = manifest.slice_count;
    found_slice_count = tally.found_slice_count;
    missing = tally.missing;
    corrupted = tally.corrupted;
    unexpected = unexpected;
    verified =
        verify_hashes && is_empty tally.missing && is_empty tally.corrupted && is_empty unexpected;
  })

unfoldable pub verify_package : System → FilePath → M PackageInspection
verify_package sys manifest_path = inspect_package sys manifest_path true
