-- ===== src/Cli/Planning.antt =====
-- `slice_size_for_count` of crates/cakesplitter-cli/src/planning.rs.
pub mod Counted
use cake_splitter.Prelude.{
  ℕ, ◌+◌, ◌/◌, ◌%◌, ltb, ◌==◌, not, codes, Result, ok, reject_if, ◌>>=◌, ◌>>◌, if◌then◌else◌,
}
use cake_splitter.Format.Slicing.{expected_slice_count}
use cake_splitter.Cli.Error.{CliError, usage_error}

-- `u64::div_ceil`, for a divisor that is not 0
abbrev pub div_ceil : ℕ → ℕ → ℕ
div_ceil a b = if a % b == 0 then a / b else a / b + 1

-- `parse_slice_count` lets no count below 1 through
unfoldable pub slice_size_for_count : ℕ → ℕ → Result CliError ℕ
slice_size_for_count source_size count = do
  reject_if (source_size == 0) (usage_error (codes "slice_count_for_empty_source"))
  reject_if (ltb source_size count) (usage_error (codes "slice_count_exceeds_source_bytes"))
  let slice_size = div_ceil source_size count
  reject_if (not (expected_slice_count source_size slice_size == count))
      (usage_error (codes "slice_count_not_representable"))
  ok slice_size
