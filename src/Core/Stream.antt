-- ===== src/Core/Stream.antt =====
-- The loops of crates/cakesplitter-core/src/lib.rs that stream a file: `hash_reader`, and the copy
-- loop that splitting and merging share. Both stop on fuel.
pub mod Hashed
pub mod Copied
pub mod Fuel
use cake_splitter.Prelude.{
  ℕ, zero, suc, ◌+◌, ◌-◌, min, [], ◌∷◌, Option, none, some, Text, codes, length,
}
use cake_splitter.Core.Error.{CoreError, FilePath, io}
use cake_splitter.Core.Integrity.{Bytes, Sha256State, new, update, finish}
use cake_splitter.Core.Host.{
  Node, Progress, M, pure, fail, ◌>>=◌, ◌>>◌, report, check_cancelled, default_buffer_size, read_at,
  write_all,
}

-- what the source has no counterpart of
abbrev pub out_of_fuel : FilePath → CoreError
out_of_fuel path = io path (codes "out of fuel")

-- `if read == 0 { ... } else { ... }`
abbrev pub if_read : {A : Type 0} → Bytes → M A → M A → M A
if_read [] nothing more = nothing
if_read (b ∷ bs) nothing more = more

abbrev pub size_of : Option Node → ℕ
size_of none = 0
size_of (some node) = length node.content

module _ (sha256 : Bytes → Text) where
  unfoldable pub hash_loop : ℕ → FilePath → ℕ → Sha256State → M Text
  hash_loop zero path position hasher = fail (out_of_fuel path)
  hash_loop (suc fuel) path position hasher = do
    check_cancelled
    bytes ← read_at path position default_buffer_size
    if_read bytes (pure (finish sha256 hasher))
        (hash_loop fuel path (position + length bytes) (update hasher bytes))

  -- from the start of the file; each turn but the last reads a byte
  unfoldable pub hash_reader : FilePath → M Text
  unfolding hash_loop
  hash_reader path w = hash_loop (suc (size_of (w.files path))) path 0 new w

-- A file that is copied to the end of a new one, with the error for a source that ends early and
-- what is reported after each chunk.
pub record Job : Type 0 where
  pub source : FilePath
  pub target : FilePath
  pub at_end : CoreError
  pub operation : Text
  pub total_bytes : ℕ
  pub current_slice : ℕ
  pub slice_count : ℕ

-- the loop's variables; merging has no `slice_hasher`
pub record Cursor : Type 0 where
  pub position : ℕ
  pub bytes_processed : ℕ
  pub original_hasher : Sha256State
  pub slice_hasher : Sha256State

progress_of : Job → ℕ → Progress
progress_of job bytes_processed = record {
  operation = job.operation;
  bytes_processed = bytes_processed;
  total_bytes = job.total_bytes;
  current_slice = job.current_slice;
  slice_count = job.slice_count;
}

unfoldable pub advance : Cursor → Bytes → Cursor
advance cursor bytes = record {
  position = cursor.position + length bytes;
  bytes_processed = cursor.bytes_processed + length bytes;
  original_hasher = update cursor.original_hasher bytes;
  slice_hasher = update cursor.slice_hasher bytes;
}

-- `while remaining > 0`; each turn copies a byte
unfoldable pub copy_loop : ℕ → Job → ℕ → Cursor → M Cursor
unfolding progress_of advance
copy_loop fuel job zero cursor = pure cursor
copy_loop zero job (suc remaining) cursor = fail (out_of_fuel job.source)
copy_loop (suc fuel) job (suc remaining) cursor = do
  check_cancelled
  bytes ← read_at job.source cursor.position (min (suc remaining) default_buffer_size)
  if_read bytes (fail job.at_end) (do
    write_all job.target bytes
    report (progress_of job (cursor.bytes_processed + length bytes))
    copy_loop fuel job (suc remaining - length bytes) (advance cursor bytes))

unfoldable pub copy : Job → ℕ → Cursor → M Cursor
unfolding copy_loop
copy job remaining cursor = copy_loop remaining job remaining cursor
