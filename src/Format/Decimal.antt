-- ===== src/Format/Decimal.antt =====
-- `u64::to_string` and the zero padding of `format!("{index:0width$}")`, with the reading that
-- undoes both.
use cake_splitter.Prelude.{
  ℕ, zero, suc, ◌+◌, ◌-◌, ◌*◌, ◌/◌, ◌%◌, ◌<◌, ◌≡◌, refl, true, false, [], ◌∷◌, ◌++◌, arith, ltb,
  Bool-cases, inl, inr, length, replicate, Text, sym, ap, ◌∙◌,
}

-- one digit for each unit of fuel; a number below `fuel` needs no more
unfoldable pub digits : ℕ → ℕ → Text
digits zero n = []
digits (suc fuel) n = elim (ltb n 10) [
  | true ↦ (48 + n) ∷ []
  | false ↦ digits fuel (n / 10) ++ (48 + n % 10) ∷ []
]

-- `n.to_string()`
unfoldable pub to_decimal : ℕ → Text
unfolding digits
to_decimal n = digits (suc n) n

-- `format!("{n:0width$}")`
unfoldable pub zero_padded : ℕ → ℕ → Text
unfolding to_decimal
zero_padded width n = replicate (width - length (to_decimal n)) 48 ++ to_decimal n

-- the number that a digit string stands for, read left to right
unfoldable pub value_from : ℕ → Text → ℕ
value_from acc [] = acc
value_from acc (d ∷ ds) = value_from (acc * 10 + (d - 48)) ds

value_from-append :
    (acc : ℕ) (s t : Text) → value_from acc (s ++ t) ≡ value_from (value_from acc s) t
unfolding value_from
value_from-append acc [] t = refl
value_from-append acc (c ∷ s) t = value_from-append (acc * 10 + (c - 48)) s t

value_from-digits : (fuel n : ℕ) → n < fuel → value_from 0 (digits fuel n) ≡ n
unfolding digits value_from
value_from-digits zero n h = absurd (omega arith)
value_from-digits (suc fuel) n h = elim (Bool-cases (ltb n 10)) [
  | inl small ↦ rw (small, digits) (omega arith)
  | inr large ↦
      rw (large, digits)
        (value_from-append 0 (digits fuel (n / 10)) ((48 + n % 10) ∷ [])
          ∙ omega (arith, value_from-digits fuel (n / 10) (ground arith)))
]

value_from-zeros : (k : ℕ) (s : Text) → value_from 0 (replicate k 48 ++ s) ≡ value_from 0 s
unfolding value_from
value_from-zeros zero s = refl
value_from-zeros (suc k) s = value_from-zeros k s

-- Reading a padded number back gives the number.
pub value_from-zero_padded : (width n : ℕ) → value_from 0 (zero_padded width n) ≡ n
unfolding zero_padded
value_from-zero_padded width n =
    value_from-zeros (width - length (to_decimal n)) (to_decimal n)
    ∙ value_from-digits (suc n) n (omega arith)

pub value_from-to_decimal : (n : ℕ) → value_from 0 (to_decimal n) ≡ n
unfolding to_decimal
value_from-to_decimal n = value_from-digits (suc n) n (omega arith)

-- Two numbers with the same padded text are the same number.
pub zero_padded_injective : (width m n : ℕ) → zero_padded width m ≡ zero_padded width n → m ≡ n
zero_padded_injective width m n e =
    sym (value_from-zero_padded width m) ∙ ap (value_from 0) e ∙ value_from-zero_padded width n

runs : zero_padded 3 1207 ≡ 49 ∷ 50 ∷ 48 ∷ 55 ∷ []
unfolding zero_padded
runs = refl
