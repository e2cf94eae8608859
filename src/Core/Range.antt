-- ===== src/Core/Range.antt =====
-- `planned_slice_range` of crates/cakesplitter-core/src/resumable.rs.
pub mod Plan
use cake_splitter.Prelude.{
  ℕ, ◌+◌, ◌-◌, ◌*◌, min, ◌||◌, Option, none, some, Text, codes, ltb, ◌==◌, Result, ok, err,
  reject_if, ok_or, checked_mul, checked_sub, ◌>>=◌, ◌>>◌,
}
use cake_splitter.Format.Manifest.{unsafe_integer, max_safe_integer, max_slice_count}
use cake_splitter.Format.Slicing.{expected_slice_count}
use cake_splitter.Core.Error.{
  CoreError, invalid_manifest, invalid_slice_size, slice_limit, resume_rejected,
}

-- `option.and_then(f)`
abbrev and_then : Option ℕ → (ℕ → Option ℕ) → Option ℕ
and_then none f = none
and_then (some a) f = f a

-- the offset and the length of the slice of a one-based index
unfoldable pub planned_slice_range : ℕ → ℕ → ℕ → Result CoreError (ℕ × ℕ)
planned_slice_range total_size slice_size index = do
  reject_if (ltb max_safe_integer total_size) (invalid_manifest unsafe_integer)
  reject_if (slice_size == 0 || ltb max_safe_integer slice_size) invalid_slice_size
  let slice_count = expected_slice_count total_size slice_size
  reject_if (ltb max_slice_count slice_count) (slice_limit slice_count max_slice_count)
  reject_if (index == 0 || ltb slice_count index)
      (resume_rejected (codes "Slice index is outside the processing plan"))
  offset ←
      ok_or (and_then (checked_sub index 1) (λ value. checked_mul value slice_size))
        (resume_rejected (codes "Slice offset overflow"))
  remaining ←
      ok_or (checked_sub total_size offset)
        (resume_rejected (codes "Slice offset exceeds source size"))
  ok (offset, min remaining slice_size)
