-- ===== src/Core/Split/Stage.antt =====
-- `split_file_with_progress`: the loop that writes the slices to `.partial` files.
use cake_splitter.Prelude.{ℕ, suc, ◌-◌, min, List, [], ◌∷◌, Text, codes, ok_or}
use cake_splitter.Format.Manifest.{SliceEntry}
use cake_splitter.Core.Error.{FilePath, source_changed, non_utf8_filename}
use cake_splitter.Core.Integrity.{Bytes, new, finish}
use cake_splitter.Core.Path.{file_name}
use cake_splitter.Core.Host.{
  Node, M, pure, ◌>>=◌, ◌>>◌, lift, check_cancelled, call, open_file, create_new,
}
use cake_splitter.Core.Stream.{Job, Cursor, copy}
use cake_splitter.Core.Publish.{StagedOutput}
use cake_splitter.Core.Split.Prepare.{Plan}

unfoldable pub job_of : Plan → ℕ → FilePath → Job
job_of plan index partial = record {
  source = plan.input;
  target = partial;
  at_end = source_changed;
  operation = codes "split";
  total_bytes = plan.state.len;
  current_slice = index;
  slice_count = plan.slice_count;
}

unfoldable pub expected_size : Plan → Cursor → ℕ
expected_size plan cursor = min (plan.state.len - cursor.bytes_processed) plan.slice_size

module _ (sha256 : Bytes → Text) where
  unfoldable pub staged_of : Plan → FilePath × FilePath → Cursor → Cursor → Node → StagedOutput
  unfolding expected_size
  staged_of plan paths before after node = record {
    partial_path = paths.0;
    final_path = paths.1;
    identity = node.identity;
    expected_size = expected_size plan before;
    expected_sha256 = finish sha256 after.slice_hasher;
  }

  unfoldable pub entry_of : Plan → ℕ → Text → Cursor → Cursor → SliceEntry
  unfolding expected_size
  entry_of plan index filename before after = record {
    index = index;
    filename = filename;
    offset = before.bytes_processed;
    size = expected_size plan before;
    sha256 = finish sha256 after.slice_hasher;
  }

  -- the body of the `for` loop
  unfoldable pub stage_slice :
      Plan → ℕ → FilePath × FilePath → Cursor → M ((StagedOutput × SliceEntry) × Cursor)
  unfolding job_of staged_of entry_of expected_size
  stage_slice plan index paths cursor = do
    check_cancelled
    create_new paths.0
    after ←
        copy (job_of plan index paths.0) (expected_size plan cursor)
          (record cursor { slice_hasher = new })
    call paths.0
    call paths.0
    node ← open_file paths.0
    filename ← lift (ok_or (file_name paths.1) non_utf8_filename)
    pure
        ((staged_of plan paths cursor after node, entry_of plan index filename cursor after), after)

  unfoldable pub stage_slices :
      Plan → ℕ → List (FilePath × FilePath) → Cursor → M (List (StagedOutput × SliceEntry) × Cursor)
  unfolding stage_slice
  stage_slices plan index [] cursor = pure ([], cursor)
  stage_slices plan index (paths ∷ rest) cursor = do
    first ← stage_slice plan index paths cursor
    later ← stage_slices plan (suc index) rest first.1
    pure (first.0 ∷ later.0, later.1)
