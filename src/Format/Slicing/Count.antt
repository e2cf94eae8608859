-- ===== src/Format/Slicing/Count.antt =====
-- The slice count is the ceiling of size / target, and slices of that target cover the size.
use native.Mathlib.Nat.{mul-le-mul_right, div-mul-le_self}
use native.Mathlib.Decide.{dec_le}
use cake_splitter.Prelude.{ℕ, ◌+◌, ◌-◌, ◌*◌, ◌/◌, ◌≤◌, ◌<◌, ◌≡◌, ◌↔◌, arith, ◌⊎◌, inl, inr}
use cake_splitter.Format.Slicing.{expected_slice_count}

-- with a test that passes, the count is one more than a quotient
count_cases :
    (size target : ℕ)
    → 0 < target
    → ((size ≡ 0) × (expected_slice_count size target ≡ 0))
      ⊎ ((0 < size) × (expected_slice_count size target ≡ 1 + (size - 1) / target))
unfolding expected_slice_count
count_cases size target h = ground arith

module _ (size target : ℕ) (pos : 0 < target) where
  -- the count slices reach the end of the source
  pub size-le-count : size ≤ expected_slice_count size target * target
  unfolding expected_slice_count
  size-le-count = grind arith

  -- every counted slice starts before the end of the source
  pub start-lt-size : (i : ℕ) → i < expected_slice_count size target → i * target < size
  start-lt-size i h = elim (count_cases size target pos) [
    | inl (_, none) ↦ absurd (omega arith)
    | inr (some_bytes, count) ↦
        let below : i * target ≤ (size - 1) / target * target =
          mul-le-mul_right target (omega arith) in
        let quotient : (size - 1) / target * target ≤ size - 1 =
          div-mul-le_self (size - 1) target in
        omega arith
  ]

  -- no fewer slices hold the source
  expected_slice_count-least : (n : ℕ) → size ≤ n * target → expected_slice_count size target ≤ n
  expected_slice_count-least n h = elim (count_cases size target pos) [
    | inl (_, none) ↦ omega arith
    | inr (some_bytes, count) ↦ elim (dec_le n ((size - 1) / target)) [
      | yes few ↦
          let below : n * target ≤ (size - 1) / target * target = mul-le-mul_right target few in
          let quotient : (size - 1) / target * target ≤ size - 1 =
            div-mul-le_self (size - 1) target in
          absurd (omega arith)
      | no many ↦ omega arith
    ]
  ]

  -- The count is the ceiling: n slices of `target` bytes hold `size` bytes exactly when n is at least
  -- the count, for a positive target.
  pub expected_slice_count-le_iff :
      (n : ℕ) → (expected_slice_count size target ≤ n) ↔ (size ≤ n * target)
  expected_slice_count-le_iff n = (holds, expected_slice_count-least n)
    where
      holds : expected_slice_count size target ≤ n → size ≤ n * target
      holds few =
          let most : expected_slice_count size target * target ≤ n * target =
            mul-le-mul_right target few in
          omega (arith, size-le-count)
