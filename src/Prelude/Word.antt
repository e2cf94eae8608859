-- ===== src/Prelude/Word.antt =====
-- `u64` arithmetic that is checked or that saturates. (`a.saturating_sub(b)` is `a - b` on ℕ.)
use Prim.Native.Nat.{ℕ, ◌+◌, ◌-◌, ◌*◌}
use mathlib.Core.Option.{Option, none, some}
use cake_splitter.Prelude.Compare.{leb, if◌then◌else◌}

abbrev pub max_u64 : ℕ
max_u64 = 18446744073709551615

abbrev pub checked_add : ℕ → ℕ → Option ℕ
checked_add a b = if leb (a + b) max_u64 then some (a + b) else none

abbrev pub checked_mul : ℕ → ℕ → Option ℕ
checked_mul a b = if leb (a * b) max_u64 then some (a * b) else none

abbrev pub checked_sub : ℕ → ℕ → Option ℕ
checked_sub a b = if leb b a then some (a - b) else none

abbrev pub saturating_add : ℕ → ℕ → ℕ
saturating_add a b = if leb (a + b) max_u64 then a + b else max_u64
