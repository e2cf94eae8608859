-- ===== src/Cli/Parse/Printed.antt =====
-- The reading of the sizes and the counts that `to_string` writes.
use mathlib.Core.List.{reverse, reverse-cons, reverse-reverse}
use cake_splitter.Prelude.{
  ℕ, zero, suc, ◌+◌, ◌/◌, ◌%◌, ◌≤◌, ◌<◌, ◌≡◌, refl, subst, true, false, [], ◌∷◌, ◌++◌, Option, some,
  Text, codes, ltb, ◌==◌, all, All, none, not, ◌&&◌, leb, le→leb, checked_mul, ok, Bool-cases, inl,
  inr, max_u64, arith,
}
use cake_splitter.Format.Manifest.{max_safe_integer, max_slice_count}
use cake_splitter.Format.Decimal.{digits, to_decimal, value_from, value_from-to_decimal}
use cake_splitter.Format.Filename.{is_whitespace, last_is, starts_with, contains_str}
use cake_splitter.Cli.Parse.{
  is_digit, is_sign, trim_start, trim, parse_digits, parse_u64, number_part, unit_part,
  has_loose_separator, without_separators, multiplier, parse_size, parse_slice_count,
}

abbrev pub IsDigit : ℕ → Type 0
IsDigit ch = (48 ≤ ch) × (ch < 58)

All-++ : (s t : Text) → All IsDigit s → All IsDigit t → All IsDigit (s ++ t)
All-++ [] t a b = b
All-++ (ch ∷ s) t (d, a) b = (d, All-++ s t a b)

All-reverse : (s : Text) → All IsDigit s → All IsDigit (reverse s)
All-reverse [] a = tt
All-reverse (ch ∷ s) (d, a) =
    rw (reverse-cons ch s) (All-++ (reverse s) (ch ∷ []) (All-reverse s a) (d, tt))

digits-AllDigit : (fuel n : ℕ) → All IsDigit (digits fuel n)
unfolding digits
digits-AllDigit zero n = tt
digits-AllDigit (suc fuel) n = elim (Bool-cases (ltb n 10)) [
  | inl small ↦ rw (small, All) ((omega arith, ground arith), tt)
  | inr large ↦
      rw (large, All)
        (All-++ (digits fuel (n / 10)) ((48 + n % 10) ∷ []) (digits-AllDigit fuel (n / 10))
          ((omega arith, ground arith), tt))
]

trim_start-digits : (s : Text) → All IsDigit s → trim_start s ≡ s
unfolding trim_start is_whitespace
trim_start-digits [] a = refl
trim_start-digits (ch ∷ s) ((low, high), a) = ground arith

trim-digits : (s : Text) → All IsDigit s → trim s ≡ s
unfolding trim
trim-digits s a =
    rw (trim_start-digits s a, trim_start-digits (reverse s) (All-reverse s a)) (reverse-reverse s)

all-digits : (s : Text) → All IsDigit s → all is_digit s ≡ true
all-digits [] a = refl
all-digits (ch ∷ s) ((low, high), a) = let e = all-digits s a in ground arith

number_part-digits : (s : Text) → All IsDigit s → number_part s ≡ s
unfolding number_part
number_part-digits [] a = refl
number_part-digits (ch ∷ s) ((low, high), a) = let e = number_part-digits s a in ground arith

unit_part-digits : (s : Text) → All IsDigit s → unit_part s ≡ []
unfolding unit_part
unit_part-digits [] a = refl
unit_part-digits (ch ∷ s) ((low, high), a) = let e = unit_part-digits s a in ground arith

without_separators-digits : (s : Text) → All IsDigit s → without_separators s ≡ s
unfolding without_separators
without_separators-digits [] a = refl
without_separators-digits (ch ∷ s) ((low, high), a) =
    let e = without_separators-digits s a in ground arith

has_loose_separator-digits :
    (before : Option ℕ) (s : Text) → All IsDigit s → has_loose_separator before s ≡ false
unfolding has_loose_separator
has_loose_separator-digits before [] a = refl
has_loose_separator-digits before (ch ∷ s) ((low, high), a) =
    let e = has_loose_separator-digits (some ch) s a in ground arith

contains_str-digits : (s : Text) → All IsDigit s → contains_str (codes "__") s ≡ false
unfolding contains_str starts_with
contains_str-digits [] a = refl
contains_str-digits (ch ∷ s) ((low, high), a) = let e = contains_str-digits s a in ground arith

last_is-digits : (s : Text) → All IsDigit s → last_is (λ c. c == b'_') s ≡ false
last_is-digits [] a = refl
last_is-digits (ch ∷ []) ((low, high), a) = ground arith
last_is-digits (ch ∷ d ∷ s) (_, a) = last_is-digits (d ∷ s) a

parse_u64-digits :
    (ch : ℕ) (s : Text)
    → All IsDigit (ch ∷ s)
    → value_from 0 (ch ∷ s) ≤ max_u64
    → parse_u64 (ch ∷ s) ≡ some (value_from 0 (ch ∷ s))
unfolding parse_u64 parse_digits
parse_u64-digits ch s ((low, high), a) small =
    let sign : (ch == b'+') ≡ false = ground arith in
    rw (sign, all-digits (ch ∷ s) ((low, high), a), le→leb (value_from 0 (ch ∷ s)) max_u64 small)
      refl

checked_mul_one : (n : ℕ) → n ≤ max_u64 → checked_mul n 1 ≡ some n
checked_mul_one n small = ground arith

in_range : (n most : ℕ) → 1 ≤ n → n ≤ most → not (ltb 0 n && leb n most) ≡ false
in_range n most big small = ground arith

parse_size-digits :
    (ch : ℕ) (s : Text)
    → All IsDigit (ch ∷ s)
    → 1 ≤ value_from 0 (ch ∷ s)
    → value_from 0 (ch ∷ s) ≤ max_safe_integer
    → parse_size (ch ∷ s) ≡ ok (value_from 0 (ch ∷ s))
unfolding parse_size multiplier
parse_size-digits ch s ((low, high), a) big small =
    let number : All IsDigit (ch ∷ s) = ((low, high), a) in
    let sign : is_sign ch ≡ false = ground arith in
    let separator : (ch == b'_') ≡ false = ground arith in
    rw
      (
        trim-digits (ch ∷ s) number,
        number_part-digits (ch ∷ s) number,
        unit_part-digits (ch ∷ s) number,
        sign,
        separator,
        last_is-digits (ch ∷ s) number,
        contains_str-digits (ch ∷ s) number,
        has_loose_separator-digits none (ch ∷ s) number,
        without_separators-digits (ch ∷ s) number,
        parse_u64-digits ch s number (omega arith),
      )
      (rw
        (
          trim-digits [] tt,
          checked_mul_one (value_from 0 (ch ∷ s)) (omega arith),
          in_range (value_from 0 (ch ∷ s)) max_safe_integer big small,
        )
        refl)

parse_slice_count-digits :
    (ch : ℕ) (s : Text)
    → All IsDigit (ch ∷ s)
    → 1 ≤ value_from 0 (ch ∷ s)
    → value_from 0 (ch ∷ s) ≤ max_slice_count
    → parse_slice_count (ch ∷ s) ≡ ok (value_from 0 (ch ∷ s))
unfolding parse_slice_count
parse_slice_count-digits ch s ((low, high), a) big small =
    let number : All IsDigit (ch ∷ s) = ((low, high), a) in
    let sign : is_sign ch ≡ false = ground arith in
    rw
      (
        trim-digits (ch ∷ s) number,
        sign,
        parse_u64-digits ch s number (omega arith),
        le→leb 1 (value_from 0 (ch ∷ s)) big,
        le→leb (value_from 0 (ch ∷ s)) max_slice_count small,
      )
      refl

parse-digits :
    (s : Text)
    → All IsDigit s
    → 1 ≤ value_from 0 s
    → value_from 0 s ≤ max_safe_integer
    → (parse_size s ≡ ok (value_from 0 s))
      × (value_from 0 s ≤ max_slice_count → parse_slice_count s ≡ ok (value_from 0 s))
unfolding value_from
parse-digits [] a big small = absurd (omega arith)
parse-digits (ch ∷ s) a big small =
    (parse_size-digits ch s a big small, λ few. parse_slice_count-digits ch s a big few)

-- The command line reads back the decimal text of every size from 1 to the largest safe integer, and,
-- as a slice count, of every one of those that is no more than the largest count.
pub parse_size-to_decimal :
    (n : ℕ)
    → 1 ≤ n
    → n ≤ max_safe_integer
    → (parse_size (to_decimal n) ≡ ok n)
      × (n ≤ max_slice_count → parse_slice_count (to_decimal n) ≡ ok n)
unfolding to_decimal
parse_size-to_decimal n big small =
    let value = value_from-to_decimal n in
    subst
      (λ v.
        (parse_size (to_decimal n) ≡ ok v)
        × (v ≤ max_slice_count → parse_slice_count (to_decimal n) ≡ ok v))
      value
      (parse-digits (to_decimal n) (digits-AllDigit (suc n) n) (rw value big) (rw value small))
