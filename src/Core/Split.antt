-- ===== src/Core/Split.antt =====
-- `split_file_with_progress` of crates/cakesplitter-core/src/lib.rs.
pub mod Prepare
pub mod Stage
pub mod Untouched
pub mod Staging
pub mod Sources
pub mod Separate
pub mod Content
pub mod Published
pub mod Outcome
pub mod Whole
use cake_splitter.Prelude.{
  suc, not, ◌+◌, List, [], ◌∷◌, ◌++◌, Text, is_empty, text_eq, length, Result, ok, err, reject_if,
  map, map_err, codes,
}
use cake_splitter.Format.Manifest.{CakeManifest, SliceEntry, format_identifier, format_version}
use cake_splitter.Format.Validate.{validate}
use cake_splitter.Core.Error.{CoreError, FilePath, invalid_json, source_changed}
use cake_splitter.Core.Integrity.{Bytes, new, update, finish}
use cake_splitter.Core.Path.{partial_path}
use cake_splitter.Core.System.{System, SplitOptions, in_core}
use cake_splitter.Core.Host.{
  Node, M, World, pure, ◌>>=◌, ◌>>◌, lift, call, open_file, create_new, write_all, read_at,
}
use cake_splitter.Core.Stream.{Cursor, hash_reader}
use cake_splitter.Core.Publish.{
  StagedOutput, ensure_source_unchanged, rollback_owned_published_outputs, finalize_staged_output,
}
use cake_splitter.Core.Split.Prepare.{Plan, prepare}
use cake_splitter.Core.Split.Stage.{stage_slices}

abbrev pub start : Cursor
start = record { position = 0; bytes_processed = 0; original_hasher = new; slice_hasher = new }

unfoldable pub manifest_of : System → Plan → Text → List SliceEntry → CakeManifest
manifest_of sys plan sha256 slices = record {
  format = format_identifier;
  version = format_version;
  package_id = sys.new_uuid;
  created_at = sys.now;
  original = record { filename = plan.filename; size = plan.state.len; sha256 = sha256 };
  target_slice_size = plan.slice_size;
  slice_count = plan.slice_count;
  slices = slices;
}

-- the first reading of the source, for its digest
unfoldable pub baseline : System → Plan → M Text
baseline sys plan = do
  ensure_source_unchanged plan.input plan.state
  sha256 ← hash_reader sys.sha256 plan.input
  ensure_source_unchanged plan.input plan.state
  call plan.input
  pure sha256

-- after the slices: nothing may follow, and the bytes must be those of the first reading
unfoldable pub check_streamed : System → Plan → Text → Cursor → M (Unit {0})
check_streamed sys plan sha256 cursor = do
  probe ← read_at plan.input cursor.position 1
  lift (reject_if (not (is_empty probe)) source_changed)
  ensure_source_unchanged plan.input plan.state
  lift (reject_if (not (text_eq (finish sys.sha256 cursor.original_hasher) sha256)) source_changed)

-- the manifest's `.partial` file
unfoldable pub stage_manifest : System → Plan → CakeManifest → M StagedOutput
stage_manifest sys plan manifest = do
  lift (in_core (validate sys.external manifest))
  let partial = partial_path plan.manifest_path
  encoded ← lift (map_err invalid_json (sys.manifest_to_json manifest))
  create_new partial
  write_all partial encoded
  write_all partial (codes "\n")
  call partial
  call partial
  node ← open_file partial
  pure (record {
    partial_path = partial;
    final_path = plan.manifest_path;
    identity = node.identity;
    expected_size = length encoded + 1;
    expected_sha256 = finish sys.sha256 (update (update new encoded) (codes "\n"));
  })

unfoldable pub publish : (Bytes → Text) → List StagedOutput → M (Unit {0})
publish sha256 [] = pure tt
publish sha256 (staged ∷ rest) = do finalize_staged_output sha256 staged; publish sha256 rest

-- `if ensure_source_unchanged(..).is_err() { rollback..; return Err(..) }`
unfoldable pub confirm_or_rollback :
    List StagedOutput → Result CoreError (Unit {0}) × World → Result CoreError (Unit {0}) × World
confirm_or_rollback published (ok a, w) = (ok tt, w)
confirm_or_rollback published (err e, w) =
    (rollback_owned_published_outputs published >> lift (err source_changed)) w

unfoldable pub confirm : Plan → List StagedOutput → M (Unit {0})
unfolding confirm_or_rollback
confirm plan published w =
    confirm_or_rollback published (ensure_source_unchanged plan.input plan.state w)

-- from the first reading of the source on
unfoldable pub split_prepared : System → Plan → List (FilePath × FilePath) → M FilePath
unfolding baseline check_streamed stage_manifest publish confirm manifest_of
split_prepared sys plan paths = do
  sha256 ← baseline sys plan
  staged ← stage_slices sys.sha256 plan 1 paths start
  check_streamed sys plan sha256 staged.1
  manifest ← stage_manifest sys plan (manifest_of sys plan sha256 (map (λ s. s.1) staged.0))
  ensure_source_unchanged plan.input plan.state
  let outputs = map (λ s. s.0) staged.0 ++ manifest ∷ []
  publish sys.sha256 outputs
  confirm plan outputs
  pure plan.manifest_path

unfoldable pub split_file_with_progress : System → FilePath → SplitOptions → M FilePath
unfolding split_prepared
split_file_with_progress sys input options = do
  prepared ← prepare sys input options
  split_prepared sys prepared.0 prepared.1

-- with a callback that does nothing
unfoldable pub split_file : System → FilePath → SplitOptions → M FilePath
split_file sys input options = split_file_with_progress sys input options
