-- ===== src/Cli/Planning/Counted.antt =====
-- Which slice counts a uniform slice size can give.
use cake_splitter.Prelude.{
  ℕ, zero, suc, ◌+◌, ◌*◌, ◌/◌, ◌%◌, ◌≤◌, ◌<◌, ◌≡◌, ◌↔◌, refl, sym, ap, ◌∙◌, ltb, le→ltb, ◌==◌,
  ==_iff, not, true, false, ok, reject_if-eq-ok, ok_injective, arith,
}
use native.Mathlib.Nat.{div-add-mod, div-mul-le_self, mul-le-mul_left, mul-le-mul_right}
use native.Mathlib.Decide.{dec_le}
use cake_splitter.Format.Slicing.{expected_slice_count}
use cake_splitter.Format.Slicing.Count.{expected_slice_count-le_iff, size-le-count}
use cake_splitter.Cli.Planning.{div_ceil, slice_size_for_count}

div_ceil-covers : (a b : ℕ) → 0 < b → a ≤ div_ceil a b * b
div_ceil-covers a b pos = grind arith

div_ceil-least : (a b n : ℕ) → 0 < b → a ≤ n * b → div_ceil a b ≤ n
div_ceil-least a b n pos h = elim (dec_le (suc n) (a / b)) [
  | yes fewer ↦
      let below : suc n * b ≤ a / b * b = mul-le-mul_right b fewer in
      let quotient : a / b * b ≤ a = div-mul-le_self a b in absurd (omega arith)
  | no enough ↦
      let whole : b * (a / b) + a % b ≡ a = div-add-mod a b in
      elim (dec_le n (a / b)) [
        | no more ↦ ground arith
        | yes few ↦
            let same : a / b ≡ n = omega arith in
            let product : b * (a / b) ≡ n * b = ap (λ q. b * q) same ∙ omega arith in
            let rest : a % b ≡ 0 = omega (arith, whole, product, h) in ground (arith, rest, same)
      ]
]

counted_pos : (size t : ℕ) → 0 < expected_slice_count size t → (0 < size) × (0 < t)
unfolding expected_slice_count
counted_pos size t h = (ground arith, ground arith)

module _ (size count : ℕ) (pos : 0 < count) where
  -- the smallest size that needs no more slices gives as many as any size with that count
  found_size :
      (t : ℕ)
      → 0 < t
      → expected_slice_count size t ≡ count
      → expected_slice_count size (div_ceil size count) ≡ count
  found_size t pos_t gives =
      let s = div_ceil size count in
      let some_bytes = (counted_pos size t (omega (arith, gives))).0 in
      let enough : size ≤ count * t =
        (expected_slice_count-le_iff size t pos_t count).0 (omega (arith, gives)) in
      let s-le-t : s ≤ t = div_ceil-least size count t pos (omega (arith, enough)) in
      let covers : size ≤ s * count = div_ceil-covers size count pos in
      let pos_s : 0 < s = positive s covers some_bytes in
      let few : expected_slice_count size s ≤ count =
        (expected_slice_count-le_iff size s pos_s count).1 (omega (arith, covers)) in
      let reach : size ≤ expected_slice_count size s * s = size-le-count size s pos_s in
      let wider : expected_slice_count size s * s ≤ expected_slice_count size s * t =
        mul-le-mul_left (expected_slice_count size s) s-le-t in
      let many : expected_slice_count size t ≤ expected_slice_count size s =
        (expected_slice_count-le_iff size t pos_t (expected_slice_count size s)).1 (omega arith) in
      omega (arith, gives)
    where
      positive : (s : ℕ) → size ≤ s * count → 0 < size → 0 < s
      positive zero covers h = omega arith
      positive (suc s) covers h = omega arith

  accepted :
      (t : ℕ)
      → 0 < t
      → expected_slice_count size t ≡ count
      → slice_size_for_count size count ≡ ok (div_ceil size count)
  unfolding slice_size_for_count
  accepted t pos_t gives =
      let some_bytes = (counted_pos size t (omega (arith, gives))).0 in
      let wide : size * 1 ≤ size * t = mul-le-mul_left size pos_t in
      let within : expected_slice_count size t ≤ size =
        (expected_slice_count-le_iff size t pos_t size).1 (omega (arith, wide)) in
      let not_empty : (size == 0) ≡ false = ground arith in
      let exact : (expected_slice_count size (div_ceil size count) == count) ≡ true =
        (==_iff _ count).1 (found_size t pos_t gives) in
      rw (not_empty, le→ltb size count (omega (arith, within, gives)), exact) refl

  gives_count :
      (s : ℕ)
      → slice_size_for_count size count ≡ ok s
      → (0 < s) × (expected_slice_count size s ≡ count)
  unfolding slice_size_for_count
  gives_count s run =
      let (_, r1) = reject_if-eq-ok (size == 0) _ _ run in
      let (_, r2) = reject_if-eq-ok (ltb size count) _ _ r1 in
      let (fits, made) =
        reject_if-eq-ok (not (expected_slice_count size (div_ceil size count) == count)) _ _ r2 in
      let exact : expected_slice_count size (div_ceil size count) ≡ count = ground (arith, fits) in
      let gives : expected_slice_count size s ≡ count =
        ap (expected_slice_count size) (sym (ok_injective made)) ∙ exact in
      ((counted_pos size s (omega (arith, gives))).1, gives)

  -- For a positive count, a slice size is found exactly when some positive size gives that count of
  -- slices, so that the last refusal is never wrong.
  pub slice_size_for_count_iff :
      ((s : ℕ) × (slice_size_for_count size count ≡ ok s))
      ↔ ((t : ℕ) × (0 < t) × (expected_slice_count size t ≡ count))
  slice_size_for_count_iff = (
    λ (s, run). (s, (gives_count s run).0, (gives_count s run).1),
    λ (t, pos_t, gives). (div_ceil size count, accepted t pos_t gives),
  )
