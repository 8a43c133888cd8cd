-- ===== src/Base/Int/Decimal.antt =====
-- Printed numbers can be read back, so distinct numbers print differently.
use Prim.Native.Nat.{ℕ, zero, suc, ◌+◌, ◌-◌, ◌*◌, ◌/◌, ◌<◌}
use mathlib.Core.Path.{◌≡◌, sym, ap, ◌∙◌}
use mathlib.Core.Logic.{inl, inr}
use mathlib.Core.List.{[], ◌∷◌}
use native.Mathlib.Omega.{arith}
use cross_device_manager.Base.Tests.{ltb, Bool-cases}
use cross_device_manager.Base.Strings.{Text}
use cross_device_manager.Base.Int.{decimal_loop, decimal}

-- The number that a text of digits stands for, after `acc`.
pub value : ℕ → Text → ℕ
value acc [] = acc
value acc (c ∷ s) = value (acc * 10 + (c - b'0')) s

value-decimal_loop :
    (fuel n : ℕ) (rest : Text) → n < fuel → value 0 (decimal_loop fuel n rest) ≡ value n rest
unfolding decimal_loop value
value-decimal_loop zero n rest h = elim h [ ]
value-decimal_loop (suc fuel) n rest h = elim (Bool-cases (ltb n 10)) [
  | inl small ↦ rw small (ap (λ (k : ℕ). value k rest) (omega arith))
  | inr large ↦ rw large (
      value-decimal_loop fuel (n / 10) _ (ground arith)
      ∙ ap (λ (k : ℕ). value k rest) (omega arith))
]

pub value-decimal : (n : ℕ) → value 0 (decimal n) ≡ n
unfolding decimal value
value-decimal n = value-decimal_loop (suc n) n [] (omega arith)

pub decimal-injective : (m n : ℕ) → decimal m ≡ decimal n → m ≡ n
decimal-injective m n e = sym (value-decimal m) ∙ (ap (value 0) e ∙ value-decimal n)
