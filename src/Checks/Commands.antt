-- ===== src/Checks/Commands.antt =====
-- The theorems on the command line at concrete inputs.
use cake_splitter.Prelude.{ℕ, ◌<◌, ◌≤◌, ◌≡◌, ◌↔◌, refl, ◌∷◌, Text, codes, ok, All, arith}
use cake_splitter.Format.Slicing.{expected_slice_count}
use cake_splitter.Core.Error
use cake_splitter.Core.Error.{CoreError, IoError, io}
use cake_splitter.Cli.Error.{ErrorKind, other, IsClassified, from_core, from_core-IsClassified}
use cake_splitter.Cli.Planning.{slice_size_for_count}
use cake_splitter.Cli.Planning.Counted.{slice_size_for_count_iff}
use cake_splitter.Cli.Parse.{
  parse_size, parse_slice_count, trim, trim_start, number_part, has_loose_separator, parse_u64,
  without_separators, parse_digits, multiplier, unit_part,
}
use cake_splitter.Format.Filename.{is_whitespace, contains_str, starts_with}
use cake_splitter.Cli.Parse.Printed.{parse_size-to_decimal}
use cake_splitter.Format.Decimal.{to_decimal, value_from}
use cake_splitter.Format.Manifest.{max_slice_count}
use cake_splitter.Cli.Terminal.{terminal_safe}
use cake_splitter.Cli.Terminal.Safe.{IsPlain, terminal_safe_lem}
use cake_splitter.Checks.Samples.{folder}

abbrev disk_full : CoreError
disk_full = io folder (codes "no space left on device")

abbrev kind_of : IoError → ErrorKind
kind_of e = other

from_core-IsClassified_example : IsClassified (Error.code disk_full) (from_core kind_of disk_full)
from_core-IsClassified_example = from_core-IsClassified kind_of disk_full

-- ten bytes in three slices
slice_size_for_count_iff_example :
    ((s : ℕ) × (slice_size_for_count 10 3 ≡ ok s))
    ↔ ((t : ℕ) × (0 < t) × (expected_slice_count 10 t ≡ 3))
slice_size_for_count_iff_example = slice_size_for_count_iff 10 3 (omega arith)

-- an escape character and one that turns the text to the left
abbrev hostile : Text
hostile = 27 ∷ 0x202e ∷ codes "gpj.exe"

hostile_shown : terminal_safe hostile ≡ codes "\\u{1b}\\u{202e}gpj.exe"
unfolding terminal_safe cake_splitter.Cli.Terminal.is_bidi_control
    cake_splitter.Cli.Terminal.escape_default cake_splitter.Cli.Terminal.to_hex
    cake_splitter.Cli.Terminal.hex_onto cake_splitter.Format.Filename.is_control
hostile_shown = refl

terminal_safe_lem_example :
    All IsPlain (terminal_safe hostile)
    × (terminal_safe (terminal_safe hostile) ≡ terminal_safe hostile)
terminal_safe_lem_example = terminal_safe_lem hostile

parse_size-to_decimal_example :
    (parse_size (to_decimal 4_096) ≡ ok 4_096)
    × (4_096 ≤ max_slice_count → parse_slice_count (to_decimal 4_096) ≡ ok 4_096)
parse_size-to_decimal_example = parse_size-to_decimal 4_096 (omega arith) (omega arith)

size-units : parse_size (codes " 1_024KiB ") ≡ ok 1_048_576
unfolding parse_size trim trim_start is_whitespace number_part contains_str starts_with
    has_loose_separator parse_u64 without_separators parse_digits value_from multiplier unit_part
size-units = refl
