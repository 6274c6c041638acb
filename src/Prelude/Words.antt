-- ===== src/Prelude/Words.antt =====
-- `u64` arithmetic, which wraps in a release build, and ranges.
use Prim.Native.Nat.{ℕ, zero, suc, ◌+◌, ◌-◌, ◌%◌, ◌^◌}
use mathlib.Core.List.{List, [], ◌∷◌}

-- `x + 1`
abbrev pub add_one : ℕ → ℕ
add_one x = (x + 1) % 2 ^ 64

unfoldable pub count_from : ℕ → ℕ → List ℕ
count_from low zero = []
count_from low (suc n) = low ∷ count_from (suc low) n

-- `low..=high`
unfoldable pub range_inclusive : ℕ → ℕ → List ℕ
range_inclusive low high = count_from low (suc high - low)
