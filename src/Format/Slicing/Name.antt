-- ===== src/Format/Slicing/Name.antt =====
-- The slices of one package have different filenames.
use mathlib.Core.List.{append_cancel_left, append_cancel_right}
use cake_splitter.Prelude.{ℕ, ◌≡◌, Text, codes}
use cake_splitter.Format.Decimal.{zero_padded_injective}
use cake_splitter.Format.Slicing.{slice_filename}

-- At one width, the filename determines the index, whatever the number of digits.
pub slice_filename_injective :
    (original : Text) (width i j : ℕ)
    → slice_filename original i width ≡ slice_filename original j width
    → i ≡ j
unfolding slice_filename
slice_filename_injective original width i j e = zero_padded_injective width i j (
    append_cancel_right _ _ (codes ".slice")
      (append_cancel_left (codes ".") _ _ (append_cancel_left original _ _ e)))
