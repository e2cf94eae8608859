-- ===== src/Cli/Terminal.antt =====
-- crates/cakesplitter-cli/src/terminal.rs.
pub mod Safe
use cake_splitter.Prelude.{
  ℕ, zero, suc, ◌+◌, ◌-◌, ◌/◌, ◌%◌, Bool, ◌&&◌, ◌||◌, [], ◌∷◌, ◌++◌, Text, codes, replicate, length,
  ltb, leb, ◌==◌, if◌then◌else◌,
}
use cake_splitter.Format.Filename.{is_control}

unfoldable pub is_bidi_control : ℕ → Bool
is_bidi_control ch =
    ch == 0x061c
    || ch == 0x200e
    || ch == 0x200f
    || (leb 0x202a ch && leb ch 0x202e)
    || (leb 0x2066 ch && leb ch 0x2069)

abbrev pub hex_digit : ℕ → ℕ
hex_digit d = if ltb d 10 then b'0' + d else b'a' + (d - 10)

-- the digits of `{:x}`, in front of others; a `u32` has at most eight
unfoldable pub hex_onto : ℕ → ℕ → Text → Text
hex_onto zero n digits = digits
hex_onto (suc fuel) n digits =
    let later = hex_onto fuel (n / 16) (hex_digit (n % 16) ∷ digits) in
    if ltb n 16 then hex_digit (n % 16) ∷ digits else later

unfoldable pub to_hex : ℕ → Text
to_hex n = hex_onto 8 n []

-- `\u{…}`
abbrev pub unicode_escape : ℕ → Text
unicode_escape ch = codes "\\u{" ++ (to_hex ch ++ codes "}")

-- `char::escape_default` of a control character
unfoldable pub escape_default : ℕ → Text
escape_default ch =
    if ch == 9
    then codes "\\t"
    else if ch == 13
    then codes "\\r"
    else if ch == 10
    then codes "\\n"
    else unicode_escape ch

unfoldable pub terminal_safe : Text → Text
terminal_safe [] = []
terminal_safe (ch ∷ text) =
    let rest = terminal_safe text in
    if is_bidi_control ch
    then unicode_escape ch ++ rest
    else if is_control ch
    then escape_default ch ++ rest
    else ch ∷ rest

-- `{:04x}`
abbrev pub four_digits : Text → Text
four_digits digits = replicate (4 - length digits) b'0' ++ digits

unfoldable pub json_terminal_safe : Text → Text
json_terminal_safe [] = []
json_terminal_safe (ch ∷ text) =
    let rest = json_terminal_safe text in
    if is_bidi_control ch then codes "\\u" ++ (four_digits (to_hex ch) ++ rest) else ch ∷ rest
