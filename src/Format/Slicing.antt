-- ===== src/Format/Slicing.antt =====
-- `expected_slice_count`, `slice_index_width` and `slice_filename`.
pub mod Count
pub mod Name
use cake_splitter.Prelude.{
  ℕ, ◌+◌, ◌-◌, ◌/◌, max, ◌++◌, Text, codes, length, ◌==◌, ◌||◌, if◌then◌else◌,
}
use cake_splitter.Format.Decimal.{to_decimal, zero_padded}

unfoldable pub expected_slice_count : ℕ → ℕ → ℕ
expected_slice_count size target_slice_size =
    if size == 0 || target_slice_size == 0 then 0 else 1 + (size - 1) / target_slice_size

unfoldable pub slice_index_width : ℕ → ℕ
unfolding to_decimal
slice_index_width slice_count = max 3 (length (to_decimal (max slice_count 1)))

unfoldable pub slice_filename : Text → ℕ → ℕ → Text
slice_filename original_filename index width =
    original_filename ++ (codes "." ++ (zero_padded width index ++ codes ".slice"))
