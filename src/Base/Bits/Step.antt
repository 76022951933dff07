-- ===== src/Base/Bits/Step.antt =====
-- The lowest binary digit of `|` and `&`. The native operations mean a recursion on digits whose
-- fuel is their first argument; here the fuel goes.
use Prim.Native.Nat.{ℕ, zero, suc, ◌+◌, ◌*◌, ◌/◌, ◌%◌, ◌≤◌, min, max, bit_and, bit_or}
use Prim.Native.Nat.{digits, bit_and-bitwise, bit_or-bitwise}
use mathlib.Core.Path.{◌≡◌, refl}
use native.Mathlib.Omega.{arith}

module _ (rest : ℕ → ℕ) (op : ℕ → ℕ → ℕ) where
  abbrev with_fuel : ℕ → ℕ → ℕ → ℕ
  with_fuel fuel a b = digits rest op fuel a b

  -- Fuel above the first argument is never used.
  with_fuel_slack :
      (less more a b : ℕ) → a ≤ less → less ≤ more → with_fuel more a b ≡ with_fuel less a b
  with_fuel_slack less more zero b p q = both_zero less more
    where
      both_zero : (l m : ℕ) → with_fuel m 0 b ≡ with_fuel l 0 b
      both_zero zero zero = refl
      both_zero zero (suc m) = refl
      both_zero (suc l) zero = refl
      both_zero (suc l) (suc m) = refl
  with_fuel_slack zero more (suc a) b p q = absurd (omega arith)
  with_fuel_slack (suc less) zero (suc a) b p q = absurd (omega arith)
  with_fuel_slack (suc less) (suc more) (suc a) b p q =
      omega (arith, with_fuel_slack less more (suc a / 2) (b / 2) (omega arith) (omega arith))

  -- The digits above the lowest are those of the halves.
  with_fuel_halves :
      (a b : ℕ)
      → with_fuel (suc a) (suc a) b
        ≡ with_fuel (suc a / 2) (suc a / 2) (b / 2) * 2 + op (suc a % 2) (b % 2)
  with_fuel_halves a b =
      omega (arith, with_fuel_slack (suc a / 2) a (suc a / 2) (b / 2) (omega arith) (omega arith))

pub bit_and_step : (a b : ℕ) → bit_and a b ≡ bit_and (a / 2) (b / 2) * 2 + min (a % 2) (b % 2)
bit_and_step zero b = omega (arith, bit_and-bitwise 0 b, bit_and-bitwise 0 (b / 2))
bit_and_step (suc a) b = omega (
  arith,
  with_fuel_halves (λ _. 0) min a b,
  bit_and-bitwise (suc a) b,
  bit_and-bitwise (suc a / 2) (b / 2),
)

pub bit_or_step : (a b : ℕ) → bit_or a b ≡ bit_or (a / 2) (b / 2) * 2 + max (a % 2) (b % 2)
bit_or_step zero b = omega (arith, bit_or-bitwise 0 b, bit_or-bitwise 0 (b / 2))
bit_or_step (suc a) b = omega (
  arith,
  with_fuel_halves (λ d. d) max a b,
  bit_or-bitwise (suc a) b,
  bit_or-bitwise (suc a / 2) (b / 2),
)
