-- ===== src/Format/Filename.antt =====
-- `validate_portable_filename` and `is_windows_reserved_name`.
pub mod Portable
use cake_splitter.Prelude.{
  ℕ, Bool, true, false, ◌&&◌, ◌||◌, [], ◌∷◌, ◌++◌, Text, codes, byte_len, text_eq, text_mem, ltb,
  leb, ◌==◌, any, is_empty, Result, ok, reject_if, ◌>>=◌, ◌>>◌,
}
use cake_splitter.Format.Manifest.{
  ManifestError, unsafe_filename, filename_too_long, External, max_filename_bytes,
}

-- `char::is_control`: the general category Cc
unfoldable pub is_control : ℕ → Bool
is_control c = ltb c 0x20 || (leb 0x7f c && leb c 0x9f)

-- `char::is_whitespace`: the property White_Space
unfoldable pub is_whitespace : ℕ → Bool
is_whitespace c =
    (leb 0x9 c && leb c 0xd)
    || c == 0x20
    || c == 0x85
    || c == 0xa0
    || c == 0x1680
    || (leb 0x2000 c && leb c 0x200a)
    || c == 0x2028
    || c == 0x2029
    || c == 0x202f
    || c == 0x205f
    || c == 0x3000

-- `str::starts_with`, `str::contains`
unfoldable pub starts_with : Text → Text → Bool
starts_with [] s = true
starts_with (p ∷ ps) [] = false
starts_with (p ∷ ps) (c ∷ s) = p == c && starts_with ps s

unfoldable pub contains_str : Text → Text → Bool
contains_str p [] = is_empty p
contains_str p (c ∷ s) = starts_with p (c ∷ s) || contains_str p s

unfoldable pub char_mem : ℕ → Text → Bool
char_mem c [] = false
char_mem c (d ∷ s) = c == d || char_mem c s

-- `filename.chars().next().is_some_and(p)` and the same at `next_back()`
abbrev pub first_is : (ℕ → Bool) → Text → Bool
first_is p [] = false
first_is p (c ∷ s) = p c

abbrev pub last_is : (ℕ → Bool) → Text → Bool
last_is p [] = false
last_is p (c ∷ []) = p c
last_is p (c ∷ d ∷ s) = last_is p (d ∷ s)

-- `filename.split('.').next()`
unfoldable pub before_dot : Text → Text
before_dot [] = []
before_dot (c ∷ s) = let rest = before_dot s in elim (c == b'.') [ true ↦ [] | false ↦ c ∷ rest ]

-- `chars().flat_map(char::to_uppercase).collect()`
unfoldable pub uppercase : External → Text → Text
uppercase x [] = []
uppercase x (c ∷ s) = x.to_uppercase c ++ uppercase x s

-- `strip_prefix(prefix).is_some_and(p)`
abbrev pub suffix_is : (Text → Bool) → Text → Text → Bool
suffix_is p [] s = p s
suffix_is p (c ∷ cs) [] = false
suffix_is p (c ∷ cs) (d ∷ s) = c == d && suffix_is p cs s

is_port_digit : Text → Bool
is_port_digit [] = false
is_port_digit (d ∷ []) = leb b'1' d && leb d b'9'
is_port_digit (d ∷ e ∷ s) = false

unfoldable pub is_windows_reserved_name : External → Text → Bool
unfolding before_dot uppercase is_port_digit
is_windows_reserved_name x filename =
    let basename = uppercase x (before_dot filename) in
    text_mem basename (codes "CON" ∷ codes "PRN" ∷ codes "AUX" ∷ codes "NUL" ∷ codes "CLOCK$" ∷ [])
    || text_mem basename (
        codes "COM¹"
        ∷ codes "COM²"
        ∷ codes "COM³"
        ∷ codes "LPT¹"
        ∷ codes "LPT²"
        ∷ codes "LPT³"
        ∷ [])
    || suffix_is is_port_digit (codes "COM") basename
    || suffix_is is_port_digit (codes "LPT") basename

-- the characters of the `contains([...])` test
abbrev pub forbidden : Text
forbidden = codes "/\\:<>\"|?*"

unfoldable pub is_unsafe_filename : External → Text → Bool
is_unsafe_filename x filename =
    is_empty filename
    || text_eq filename (codes ".")
    || text_eq filename (codes "..")
    || any (λ c. char_mem c forbidden) filename
    || any (λ c. c == 0) filename
    || any is_control filename
    || first_is is_whitespace filename
    || last_is (λ c. c == b'.' || is_whitespace c) filename
    || contains_str (codes "..\\") filename
    || contains_str (codes "../") filename
    || is_windows_reserved_name x filename

unfoldable pub validate_portable_filename : External → Text → Result ManifestError (Unit {0})
validate_portable_filename x filename = do
  let byte_length = byte_len filename
  reject_if (ltb max_filename_bytes byte_length) (filename_too_long byte_length max_filename_bytes)
  reject_if (is_unsafe_filename x filename) (unsafe_filename filename)
  ok tt
