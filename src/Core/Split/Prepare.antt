-- ===== src/Core/Split/Prepare.antt =====
-- `split_file_with_progress` of crates/cakesplitter-core/src/lib.rs, up to the checks of the output paths.
use cake_splitter.Prelude.{
  ℕ, zero, suc, not, ◌||◌, List, [], ◌∷◌, ◌++◌, Text, codes, ltb, ◌==◌, reject_if, ok_or,
}
use cake_splitter.Format.Manifest.{unsafe_integer, max_safe_integer, max_slice_count}
use cake_splitter.Format.Slicing.{expected_slice_count, slice_index_width, slice_filename}
use cake_splitter.Format.Filename.{validate_portable_filename}
use cake_splitter.Core.Error.{
  FilePath, invalid_manifest, invalid_input, invalid_slice_size, slice_limit, non_utf8_filename,
}
use cake_splitter.Core.Path.{join, file_name, partial_path}
use cake_splitter.Core.System.{System, SplitOptions, in_core}
use cake_splitter.Core.Host.{M, pure, ◌>>=◌, ◌>>◌, lift, call, open_file, ensure_absent}
use cake_splitter.Core.Publish.{SourceState, source_state, or_changed}

-- what the first phase fixes
pub record Plan : Type 0 where
  pub input : FilePath
  pub filename : Text
  pub state : SourceState
  pub slice_size : ℕ
  pub slice_count : ℕ
  pub manifest_path : FilePath

-- the tests up to the numbers of the split
unfoldable pub check_source : System → FilePath → SplitOptions → M (Text × SourceState)
check_source sys input options = do
  lift (
      reject_if (options.slice_size == 0 || ltb max_safe_integer options.slice_size)
        invalid_slice_size)
  node ← open_file input
  lift (reject_if (not node.is_regular) (invalid_input input))
  opened ← or_changed (open_file input)
  call options.output_dir
  filename ← lift (ok_or (file_name input) non_utf8_filename)
  lift (in_core (validate_portable_filename sys.external filename))
  let state = source_state opened
  lift (reject_if (ltb max_safe_integer state.len) (invalid_manifest unsafe_integer))
  pure (filename, state)

-- the paths of the slices from an index on, none of which may exist
unfoldable pub plan_paths : System → FilePath → Text → ℕ → ℕ → ℕ → M (List (FilePath × FilePath))
plan_paths sys output_dir filename width index zero = pure []
plan_paths sys output_dir filename width index (suc n) = do
  let name = slice_filename filename index width
  lift (in_core (validate_portable_filename sys.external name))
  let final_path = join output_dir name
  ensure_absent final_path
  ensure_absent (partial_path final_path)
  paths ← plan_paths sys output_dir filename width (suc index) n
  pure ((partial_path final_path, final_path) ∷ paths)

unfoldable pub prepare : System → FilePath → SplitOptions → M (Plan × List (FilePath × FilePath))
unfolding check_source plan_paths
prepare sys input options = do
  source ← check_source sys input options
  let slice_count = expected_slice_count source.1.len options.slice_size
  lift (reject_if (ltb max_slice_count slice_count) (slice_limit slice_count max_slice_count))
  let manifest_name = source.0 ++ codes ".cake.json"
  lift (in_core (validate_portable_filename sys.external manifest_name))
  let manifest_path = join options.output_dir manifest_name
  ensure_absent manifest_path
  ensure_absent (partial_path manifest_path)
  let width = slice_index_width slice_count
  paths ← plan_paths sys options.output_dir source.0 width 1 slice_count
  pure (
    record {
      input = input;
      filename = source.0;
      state = source.1;
      slice_size = options.slice_size;
      slice_count = slice_count;
      manifest_path = manifest_path;
    },
    paths,
  )
