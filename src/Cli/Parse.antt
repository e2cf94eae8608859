-- ===== src/Cli/Parse.antt =====
-- `parse_size` and `parse_slice_count` of crates/cakesplitter-cli/src/cli.rs.
pub mod Printed
use mathlib.Core.List.{reverse}
use cake_splitter.Prelude.{
  ℕ, ◌+◌, Bool, true, false, not, ◌&&◌, ◌||◌, [], ◌∷◌, ◌++◌, map, Option, none, some, Text, codes,
  text_eq, ltb, leb, ◌==◌, all, is_empty, Result, ok, reject_if, ok_or, ◌>>=◌, ◌>>◌, max_u64,
  checked_mul, if◌then◌else◌,
}
use cake_splitter.Format.Manifest.{max_safe_integer, max_slice_count}
use cake_splitter.Format.Decimal.{value_from, to_decimal}
use cake_splitter.Format.Filename.{is_whitespace, first_is, last_is, contains_str}
use cake_splitter.Cli.Terminal.{terminal_safe}

abbrev pub is_digit : ℕ → Bool
is_digit ch = leb b'0' ch && leb ch b'9'

unfoldable pub trim_start : Text → Text
trim_start [] = []
trim_start (ch ∷ s) = let rest = trim_start s in if is_whitespace ch then rest else ch ∷ s

-- `str::trim`
unfoldable pub trim : Text → Text
trim s = reverse (trim_start (reverse (trim_start s)))

-- `str::parse::<u64>`
unfoldable pub parse_digits : Text → Option ℕ
parse_digits [] = none
parse_digits (ch ∷ s) =
    if all is_digit (ch ∷ s) && leb (value_from 0 (ch ∷ s)) max_u64
    then some (value_from 0 (ch ∷ s))
    else none

unfoldable pub parse_u64 : Text → Option ℕ
parse_u64 [] = none
parse_u64 (ch ∷ s) = if ch == b'+' then parse_digits s else parse_digits (ch ∷ s)

abbrev pub is_sign : ℕ → Bool
is_sign ch = ch == b'-' || ch == b'+'

-- the part before the first character that is neither a digit nor `_`, and the part from there on
unfoldable pub number_part : Text → Text
number_part [] = []
number_part (ch ∷ s) =
    let rest = number_part s in if is_digit ch || ch == b'_' then ch ∷ rest else []

unfoldable pub unit_part : Text → Text
unit_part [] = []
unit_part (ch ∷ s) = let rest = unit_part s in if is_digit ch || ch == b'_' then rest else ch ∷ s

-- a `_` that does not stand between two digits, with the character before the text
unfoldable pub has_loose_separator : Option ℕ → Text → Bool
has_loose_separator before [] = false
has_loose_separator before (ch ∷ s) =
    (ch == b'_'
      && (elim before [ none ↦ true | some b ↦ not (is_digit b) ] || not (first_is is_digit s)))
    || has_loose_separator (some ch) s

unfoldable pub without_separators : Text → Text
without_separators [] = []
without_separators (ch ∷ s) =
    let rest = without_separators s in if ch == b'_' then rest else ch ∷ rest

abbrev pub to_ascii_lowercase : ℕ → ℕ
to_ascii_lowercase ch = if leb b'A' ch && leb ch b'Z' then ch + 32 else ch

unfoldable pub multiplier : Text → Option ℕ
multiplier unit =
    if is_empty unit || text_eq unit (codes "b")
    then some 1
    else if text_eq unit (codes "kib")
    then some 1_024
    else if text_eq unit (codes "mib")
    then some 1_048_576
    else if text_eq unit (codes "gib")
    then some 1_073_741_824
    else none

-- the error is the message
unfoldable pub parse_size : Text → Result Text ℕ
parse_size value = do
  let trimmed = trim value
  reject_if (is_empty trimmed || first_is is_sign trimmed)
      (codes "size must be a positive integer followed by B, KiB, MiB, or GiB")
  let number = number_part trimmed
  let unit = trim (unit_part trimmed)
  reject_if
      (is_empty number
        || first_is (λ ch. ch == b'_') number
        || last_is (λ ch. ch == b'_') number
        || contains_str (codes "__") number
        || has_loose_separator none number)
      (codes "size digits may contain only single separators between digits")
  parsed ←
      ok_or (parse_u64 (without_separators number)) (codes "invalid size: " ++ terminal_safe value)
  scale ← ok_or (multiplier (map to_ascii_lowercase unit)) (
      codes "unsupported or ambiguous size unit: "
      ++ (terminal_safe unit ++ codes "; use B, KiB, MiB, or GiB"))
  let message =
      codes "size must be between 1 and "
      ++ (to_decimal max_safe_integer ++ codes " bytes after unit conversion")
  size ← ok_or (checked_mul parsed scale) message
  reject_if (not (ltb 0 size && leb size max_safe_integer)) message
  ok size

unfoldable pub parse_slice_count : Text → Result Text ℕ
parse_slice_count value = do
  reject_if (first_is is_sign (trim value)) (codes "Slice count must be a positive integer")
  count ← ok_or (parse_u64 (trim value)) (codes "invalid Slice count: " ++ terminal_safe value)
  reject_if (not (leb 1 count && leb count max_slice_count))
      (codes "Slice count must be between 1 and " ++ to_decimal max_slice_count)
  ok count
