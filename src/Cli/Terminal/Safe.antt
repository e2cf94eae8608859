-- ===== src/Cli/Terminal/Safe.antt =====
-- What `terminal_safe` lets through to a terminal.
use cake_splitter.Prelude.{
  ℕ, zero, suc, ◌/◌, ◌%◌, ◌≤◌, ◌<◌, ◌≡◌, refl, ap, false, [], ◌∷◌, ◌++◌, Text, codes, ltb, ◌==◌,
  All, Bool-cases, inl, inr, arith,
}
use cake_splitter.Format.Filename.{is_control}
use cake_splitter.Cli.Terminal.{
  is_bidi_control, hex_digit, hex_onto, to_hex, unicode_escape, escape_default, terminal_safe,
}

-- neither a control character nor one that turns the direction of the text
abbrev pub IsPlain : ℕ → Type 0
IsPlain ch = (is_control ch ≡ false) × (is_bidi_control ch ≡ false)

ascii-IsPlain : (ch : ℕ) → 32 ≤ ch → ch < 127 → IsPlain ch
unfolding is_control is_bidi_control
ascii-IsPlain ch low high = (ground arith, ground arith)

hex_digit-IsPlain : (n : ℕ) → IsPlain (hex_digit (n % 16))
hex_digit-IsPlain n = ascii-IsPlain (hex_digit (n % 16)) (ground arith) (ground arith)

All-++ : (P : ℕ → Type 0) (s t : Text) → All P s → All P t → All P (s ++ t)
All-++ P [] t all others = others
All-++ P (ch ∷ s) t (p, all) others = (p, All-++ P s t all others)

hex_onto-IsPlain :
    (fuel n : ℕ) (digits : Text) → All IsPlain digits → All IsPlain (hex_onto fuel n digits)
unfolding hex_onto
hex_onto-IsPlain zero n digits all = all
hex_onto-IsPlain (suc fuel) n digits all = elim (Bool-cases (ltb n 16)) [
  | inl small ↦ rw small (hex_digit-IsPlain n, all)
  | inr large ↦
      rw large
        (hex_onto-IsPlain fuel (n / 16) (hex_digit (n % 16) ∷ digits) (hex_digit-IsPlain n, all))
]

to_hex-IsPlain : (n : ℕ) → All IsPlain (to_hex n)
unfolding to_hex
to_hex-IsPlain n = hex_onto-IsPlain 8 n [] tt

unicode_escape-IsPlain : (ch : ℕ) → All IsPlain (unicode_escape ch)
unicode_escape-IsPlain ch = (
  ascii-IsPlain b'\\' (omega arith) (omega arith),
  (
    ascii-IsPlain b'u' (omega arith) (omega arith),
    (
      ascii-IsPlain b'{' (omega arith) (omega arith),
      All-++ IsPlain (to_hex ch) (codes "}") (to_hex-IsPlain ch)
          (ascii-IsPlain b'}' (omega arith) (omega arith), tt),
    ),
  ),
)

letter_escape-IsPlain :
    (letter : ℕ) → 32 ≤ letter → letter < 127 → All IsPlain (b'\\' ∷ letter ∷ [])
letter_escape-IsPlain letter low high =
    (ascii-IsPlain b'\\' (omega arith) (omega arith), (ascii-IsPlain letter low high, tt))

escape_default-IsPlain : (ch : ℕ) → All IsPlain (escape_default ch)
unfolding escape_default
escape_default-IsPlain ch = elim (Bool-cases (ch == 9)) [
  | inl tab ↦ rw tab (letter_escape-IsPlain b't' (omega arith) (omega arith))
  | inr no_tab ↦ elim (Bool-cases (ch == 13)) [
    | inl return ↦ rw (no_tab, return) (letter_escape-IsPlain b'r' (omega arith) (omega arith))
    | inr no_return ↦ elim (Bool-cases (ch == 10)) [
      | inl line ↦
          rw (no_tab, no_return, line) (letter_escape-IsPlain b'n' (omega arith) (omega arith))
      | inr other ↦ rw (no_tab, no_return, other) (unicode_escape-IsPlain ch)
    ]
  ]
]

terminal_safe-IsPlain : (text : Text) → All IsPlain (terminal_safe text)
unfolding terminal_safe
terminal_safe-IsPlain [] = tt
terminal_safe-IsPlain (ch ∷ text) =
    let rest = terminal_safe-IsPlain text in
    elim (Bool-cases (is_bidi_control ch)) [
      | inl bidi ↦
          rw bidi (
            All-++ IsPlain (unicode_escape ch) (terminal_safe text) (unicode_escape-IsPlain ch)
              rest)
      | inr straight ↦ elim (Bool-cases (is_control ch)) [
        | inl control ↦
            rw (straight, control)
              (All-++ IsPlain (escape_default ch) (terminal_safe text) (escape_default-IsPlain ch)
                rest)
        | inr plain ↦ rw (straight, plain) ((plain, straight), rest)
      ]
    ]

kept_plain : (text : Text) → All IsPlain text → terminal_safe text ≡ text
unfolding terminal_safe
kept_plain [] all = refl
kept_plain (ch ∷ text) ((plain, straight), all) =
    rw (straight, plain) (ap (λ rest. ch ∷ rest) (kept_plain text all))

-- What `terminal_safe` returns has no control character and none that turns the direction of the
-- text, whatever it is given, and a second call changes nothing.
pub terminal_safe_lem :
    (text : Text)
    → All IsPlain (terminal_safe text) × (terminal_safe (terminal_safe text) ≡ terminal_safe text)
terminal_safe_lem text =
    (terminal_safe-IsPlain text, kept_plain (terminal_safe text) (terminal_safe-IsPlain text))
