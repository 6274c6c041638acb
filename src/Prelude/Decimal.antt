-- ===== src/Prelude/Decimal.antt =====
-- `format!("{}", n)` of an unsigned integer, and that distinct numbers print differently.
use Prim.Native.Nat.{ℕ, zero, suc, ◌+◌, ◌-◌, ◌*◌, ◌/◌, ◌%◌, ◌<◌}
use mathlib.Core.Path.{◌≡◌, sym, ap, ◌∙◌}
use mathlib.Core.List.{[], ◌∷◌, ◌++◌, foldl, foldl-append}
use native.Mathlib.Omega.{arith}
use mathlib.Core.Logic.{inl, inr}
use robustmq_geek.Prelude.Tests.{ltb, ◌==◌, Bool-cases, if◌then◌else◌}
use robustmq_geek.Prelude.ByteStrings.{Text, eq_bytes, eq_bytes_iff, AllAscii, append-AllAscii}

-- On fuel; a number has at most as many digits as its successor counts.
decimal_fuel : ℕ → ℕ → Text
decimal_fuel zero n = []
decimal_fuel (suc f) n =
    let rest = decimal_fuel f (n / 10) ++ (n % 10 + 48) ∷ [] in
    if ltb n 10 then (n + 48) ∷ [] else rest

unfoldable pub decimal : ℕ → Text
unfolding decimal_fuel
decimal n = decimal_fuel (suc n) n

-- The number that a text of digits denotes.
decimal_value : Text → ℕ
decimal_value = foldl (λ acc c. acc * 10 + (c - 48)) 0

decimal_value-decimal_fuel : (f n : ℕ) → n < f → decimal_value (decimal_fuel f n) ≡ n
unfolding decimal_value decimal_fuel
decimal_value-decimal_fuel zero n h = elim h [ ]
decimal_value-decimal_fuel (suc f) n h = elim (Bool-cases (ltb n 10)) [
  | inl small ↦ rw small (omega arith)
  | inr large ↦
      rw (large, foldl-append, decimal_value-decimal_fuel f (n / 10) (ground arith)) (omega arith)
]

decimal_value-decimal : (n : ℕ) → decimal_value (decimal n) ≡ n
unfolding decimal
decimal_value-decimal n = decimal_value-decimal_fuel (suc n) n (omega arith)

pub decimal-injective : (m n : ℕ) → decimal m ≡ decimal n → m ≡ n
decimal-injective m n p =
    sym (decimal_value-decimal m) ∙ ap decimal_value p ∙ decimal_value-decimal n

pub eq_bytes-decimal : (m n : ℕ) → eq_bytes (decimal m) (decimal n) ≡ (m == n)
eq_bytes-decimal m n = elim (Bool-cases (m == n)) [
  | inl e ↦ rw e ((eq_bytes_iff (decimal m) (decimal n)).1 (ap decimal (ground arith)))
  | inr e ↦ ground (arith, eq_bytes_iff (decimal m) (decimal n), decimal-injective m n)
]

decimal_fuel-AllAscii : (f n : ℕ) → AllAscii (decimal_fuel f n)
unfolding decimal_fuel
decimal_fuel-AllAscii zero n = tt
decimal_fuel-AllAscii (suc f) n = elim (Bool-cases (ltb n 10)) [
  | inl small ↦ rw small (ground arith, tt)
  | inr large ↦ rw large (
      append-AllAscii (decimal_fuel f (n / 10)) ((n % 10 + 48) ∷ [])
        (decimal_fuel-AllAscii f (n / 10)) (omega arith, tt))
]

pub decimal-AllAscii : (n : ℕ) → AllAscii (decimal n)
unfolding decimal
decimal-AllAscii n = decimal_fuel-AllAscii (suc n) n
