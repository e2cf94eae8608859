-- ===== src/Format/Filename/Portable.antt =====
-- What the accepted filenames are, without the tests that the others make superfluous.
use cake_splitter.Prelude.{
  ℕ, ◌≤◌, ◌≡◌, refl, ap, ◌↔◌, inl, inr, true, false, ◌||◌, [], ◌∷◌, arith, Text, codes, byte_len,
  text_eq, is_empty, ltb, ◌==◌, any, All, ok, Bool-cases, reject_if-eq-ok, ltb→le, le→ltb,
}
use cake_splitter.Format.Manifest.{External, max_filename_bytes}
use cake_splitter.Format.Filename.{
  is_control, is_whitespace, starts_with, contains_str, char_mem, first_is, last_is, forbidden,
  is_windows_reserved_name, is_unsafe_filename, validate_portable_filename,
}

-- neither a control character nor one that some file system reserves
pub record IsPlain (c : ℕ) : Type 0 where
  pub printable : is_control c ≡ false
  pub allowed : char_mem c forbidden ≡ false

pub record IsPortable (x : External) (name : Text) : Type 0 where
  pub short : byte_len name ≤ max_filename_bytes
  pub nonempty : is_empty name ≡ false
  pub plain : All IsPlain name
  pub start : first_is is_whitespace name ≡ false
  pub finish : last_is (λ c. c == b'.' || is_whitespace c) name ≡ false
  pub unreserved : is_windows_reserved_name x name ≡ false

IsPlain-of_tests :
    (s : Text)
    → any (λ c. char_mem c forbidden) s ≡ false
    → any is_control s ≡ false
    → All IsPlain s
IsPlain-of_tests [] h k = tt
IsPlain-of_tests (c ∷ s) h k = (
  record { printable = ground arith; allowed = ground arith },
  IsPlain-of_tests s (ground arith) (ground arith),
)

-- a zero byte is a control character, and a traversal has a separator
nonzero_of_printable : (c : ℕ) → is_control c ≡ false → (c == 0) ≡ false
unfolding is_control
nonzero_of_printable c h = ground arith

tests_of_plain :
    (s : Text)
    → All IsPlain s
    → (any (λ c. char_mem c forbidden) s ≡ false)
      × (any is_control s ≡ false)
      × (any (λ c. c == 0) s ≡ false)
tests_of_plain [] h = (refl, refl, refl)
tests_of_plain (c ∷ s) (p, ps) =
    let (allowed, printable, nonzero) = tests_of_plain s ps in
    (
      cc (p.allowed, allowed),
      cc (p.printable, printable),
      cc (nonzero_of_printable c p.printable, nonzero),
    )

-- a character of the part is one of the whole
char_mem-starts_with :
    (k : ℕ) (p s : Text) → starts_with p s ≡ true → char_mem k p ≡ true → char_mem k s ≡ true
unfolding starts_with char_mem
char_mem-starts_with k [] s h m = cc
char_mem-starts_with k (c ∷ p) [] h m = cc
char_mem-starts_with k (c ∷ p) (d ∷ s) h m = ground (arith, char_mem-starts_with k p s)

char_mem-tail : (k d : ℕ) (s : Text) → char_mem k s ≡ true → char_mem k (d ∷ s) ≡ true
unfolding char_mem
char_mem-tail k d s h = ground arith

char_mem-skip :
    (k c : ℕ) (s : Text) → (k == c) ≡ false → char_mem k s ≡ false → char_mem k (c ∷ s) ≡ false
unfolding char_mem
char_mem-skip k c s h m = ground arith

char_mem-contains_str :
    (k c : ℕ) (p s : Text)
    → contains_str (c ∷ p) s ≡ true
    → char_mem k (c ∷ p) ≡ true
    → char_mem k s ≡ true
unfolding contains_str
char_mem-contains_str k c p [] h m = cc
char_mem-contains_str k c p (d ∷ s) h m = elim (Bool-cases (starts_with (c ∷ p) (d ∷ s))) [
  | inl here ↦ char_mem-starts_with k (c ∷ p) (d ∷ s) here m
  | inr later ↦ char_mem-tail k d s (char_mem-contains_str k c p s (ground (arith, later)) m)
]

not_char_mem :
    (k : ℕ) (s : Text)
    → char_mem k forbidden ≡ true
    → any (λ c. char_mem c forbidden) s ≡ false
    → char_mem k s ≡ false
not_char_mem k [] f h = unfold char_mem in refl
not_char_mem k (c ∷ s) f h = elim (Bool-cases (k == c)) [
  | inl same ↦ let e : k ≡ c = ground arith in ground (arith, ap (λ j. char_mem j forbidden) e)
  | inr other ↦ char_mem-skip k c s other (not_char_mem k s f (ground arith))
]

-- without a separator there is no traversal
no_traversal :
    (c k : ℕ) (p s : Text)
    → char_mem k (c ∷ p) ≡ true
    → char_mem k forbidden ≡ true
    → any (λ d. char_mem d forbidden) s ≡ false
    → contains_str (c ∷ p) s ≡ false
no_traversal c k p s m f h = elim (Bool-cases (contains_str (c ∷ p) s)) [
  | inl found ↦ cc (char_mem-contains_str k c p s found m, not_char_mem k s f h)
  | inr absent ↦ absent
]

-- a name of dots alone ends in a dot
not_dots :
    (s : Text)
    → last_is (λ c. c == b'.' || is_whitespace c) s ≡ false
    → (text_eq s (codes ".") ≡ false) × (text_eq s (codes "..") ≡ false)
not_dots [] h = (refl, refl)
not_dots (c ∷ []) h = (ground arith, ground arith)
not_dots (c ∷ d ∷ []) h = (ground arith, ground arith)
not_dots (c ∷ d ∷ e ∷ s) h = (ground arith, ground arith)

-- the tests that matter, of those that failed
safe_tests :
    (x : External) (name : Text)
    → is_unsafe_filename x name ≡ false
    → (is_empty name ≡ false)
      × (any (λ c. char_mem c forbidden) name ≡ false)
      × (any is_control name ≡ false)
      × (first_is is_whitespace name ≡ false)
      × (last_is (λ c. c == b'.' || is_whitespace c) name ≡ false)
      × (is_windows_reserved_name x name ≡ false)
unfolding is_unsafe_filename
safe_tests x name h = ground arith

IsPortable-of_accepted :
    (x : External) (name : Text) → validate_portable_filename x name ≡ ok tt → IsPortable x name
unfolding validate_portable_filename
IsPortable-of_accepted x name h =
    let (short, rest) = reject_if-eq-ok (ltb max_filename_bytes (byte_len name)) _ _ h in
    let (safe, _) = reject_if-eq-ok (is_unsafe_filename x name) _ _ rest in
    let (nonempty, allowed, printable, start, finish, unreserved) = safe_tests x name safe in
    record {
      short = ltb→le _ _ short;
      nonempty = nonempty;
      plain = IsPlain-of_tests name allowed printable;
      start = start;
      finish = finish;
      unreserved = unreserved;
    }

accepted_of_portable :
    (x : External) (name : Text) → IsPortable x name → validate_portable_filename x name ≡ ok tt
unfolding validate_portable_filename is_unsafe_filename
accepted_of_portable x name p =
    let (allowed, printable, nonzero) = tests_of_plain name p.plain in
    let (dot, dots) = not_dots name p.finish in
    rw (
      le→ltb _ _ p.short,
      p.nonempty,
      dot,
      dots,
      allowed,
      nonzero,
      printable,
      p.start,
      p.finish,
      no_traversal b'.' b'\\' (codes ".\\") name (unfold char_mem in refl) (unfold char_mem in refl)
          allowed,
      no_traversal b'.' b'/' (codes "./") name (unfold char_mem in refl) (unfold char_mem in refl)
          allowed,
      p.unreserved,
    )

-- A filename is accepted exactly when it is portable.
pub validate_portable_filename_iff :
    (x : External) (name : Text) → (validate_portable_filename x name ≡ ok tt) ↔ IsPortable x name
validate_portable_filename_iff x name = (IsPortable-of_accepted x name, accepted_of_portable x name)
