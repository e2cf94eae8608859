-- ===== src/Core/Merge.antt =====
-- `merge_package_with_progress` of crates/cakesplitter-core/src/lib.rs.
pub mod Inspect
pub mod Loaded
pub mod Verified
pub mod Seen
pub mod Appended
pub mod Output
pub mod Whole
use cake_splitter.Prelude.{
  Bool, true, false, not, List, [], ◌∷◌, Text, codes, text_eq, is_empty, reject_if,
}
use cake_splitter.Format.Manifest.{CakeManifest, SliceEntry}
use cake_splitter.Core.Error.{
  FilePath, missing_slices, corrupted_slices, unexpected_slices, final_hash_mismatch,
}
use cake_splitter.Core.Integrity.{new, finish}
use cake_splitter.Core.Path.{join, parent, has_parent, partial_path}
use cake_splitter.Core.System.{System}
use cake_splitter.Core.Host.{
  Node, M, pure, ◌>>=◌, ◌>>◌, lift, check_cancelled, call, open_file, ensure_absent, create_new,
  read_at,
}
use cake_splitter.Core.Stream.{Job, Cursor, copy}
use cake_splitter.Core.Publish.{StagedOutput, finalize_staged_output}
use cake_splitter.Core.Merge.Inspect.{PackageInspection, load_manifest, inspect_package}

unfoldable pub merge_job : CakeManifest → FilePath → SliceEntry → FilePath → Job
merge_job manifest path slice partial = record {
  source = path;
  target = partial;
  at_end = corrupted_slices (slice.filename ∷ []);
  operation = codes "merge";
  total_bytes = manifest.original.size;
  current_slice = slice.index;
  slice_count = manifest.slice_count;
}

-- the body of the `for` loop; the cursor's position is that in the slice
unfoldable pub append_slice : CakeManifest → FilePath → FilePath → SliceEntry → Cursor → M Cursor
unfolding merge_job
append_slice manifest directory partial slice cursor = do
  check_cancelled
  let path = join directory slice.filename
  input ← open_file path
  after ← copy (merge_job manifest path slice partial) slice.size (record cursor { position = 0 })
  probe ← read_at path after.position 1
  lift (reject_if (not (is_empty probe)) (corrupted_slices (slice.filename ∷ [])))
  pure after

unfoldable pub append_slices :
    CakeManifest → FilePath → FilePath → List SliceEntry → Cursor → M Cursor
unfolding append_slice
append_slices manifest directory partial [] cursor = pure cursor
append_slices manifest directory partial (slice ∷ rest) cursor = do
  next ← append_slice manifest directory partial slice cursor
  append_slices manifest directory partial rest next

unfoldable pub require_intact : PackageInspection → M (Unit {0})
require_intact inspection = do
  lift (reject_if (not (is_empty inspection.missing)) (missing_slices inspection.missing))
  lift (reject_if (not (is_empty inspection.corrupted)) (corrupted_slices inspection.corrupted))
  lift (reject_if (not (is_empty inspection.unexpected)) (unexpected_slices inspection.unexpected))

-- `if let Some(parent) = output_path.parent() { create_dir_all(parent)?; }`
unfoldable pub create_if : FilePath → Bool → M (Unit {0})
create_if path true = call (parent path)
create_if path false = pure tt

unfoldable pub create_parent : FilePath → M (Unit {0})
unfolding create_if
create_parent path = create_if path (has_parent path)

abbrev pub no_bytes : Cursor
no_bytes = record { position = 0; bytes_processed = 0; original_hasher = new; slice_hasher = new }

abbrev pub staged_output : CakeManifest → FilePath → Node → StagedOutput
staged_output manifest output_path node = record {
  partial_path = partial_path output_path;
  final_path = output_path;
  identity = node.identity;
  expected_size = manifest.original.size;
  expected_sha256 = manifest.original.sha256;
}

-- from the creation of the output on
unfoldable pub write_output : System → FilePath → FilePath → CakeManifest → M (Unit {0})
unfolding append_slices
write_output sys manifest_path output_path manifest = do
  let partial = partial_path output_path
  create_new partial
  after ← append_slices manifest (parent manifest_path) partial manifest.slices no_bytes
  call partial
  call partial
  let actual = finish sys.sha256 after.original_hasher
  lift (
      reject_if (not (text_eq actual manifest.original.sha256))
        (final_hash_mismatch manifest.original.sha256 actual))
  node ← open_file partial
  finalize_staged_output sys.sha256 (staged_output manifest output_path node)

unfoldable pub merge_package_with_progress : System → FilePath → FilePath → M (Unit {0})
unfolding require_intact create_parent write_output
merge_package_with_progress sys manifest_path output_path = do
  manifest ← load_manifest sys manifest_path
  inspection ← inspect_package sys manifest_path true
  require_intact inspection
  ensure_absent output_path
  ensure_absent (partial_path output_path)
  create_parent output_path
  write_output sys manifest_path output_path manifest

-- with a callback that does nothing
unfoldable pub merge_package : System → FilePath → FilePath → M (Unit {0})
merge_package sys manifest_path output_path =
    merge_package_with_progress sys manifest_path output_path
