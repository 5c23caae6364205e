-- ===== src/Common/Decimal.antt =====
-- Numbers in decimal, as `%d` prints them.
use Prim.Native.Nat.{ℕ, zero, suc, ◌+◌, ◌-◌, ◌*◌, ◌/◌, ◌%◌, ◌<◌}
use mathlib.Core.Path.{◌≡◌, ap, ◌∙◌}
use mathlib.Core.List.{List, [], ◌∷◌}
use mathlib.Core.Logic.{inl, inr}
use native.Mathlib.Omega.{arith}
use muduo_pro.Common.Tests.{ltb, if◌then◌else◌, Bool-cases, ltb_false→le}

-- The digits of `n` in front of `acc`, by at most so many divisions.
unfoldable pub decimal_onto : ℕ → ℕ → List ℕ → List ℕ
decimal_onto zero n acc = acc
decimal_onto (suc fuel) n acc =
    let more = decimal_onto fuel (n / 10) ((b'0' + n % 10) ∷ acc) in
    if ltb n 10 then (b'0' + n) ∷ acc else more

unfoldable pub decimal : ℕ → List ℕ
unfolding decimal_onto
decimal n = decimal_onto (n + 1) n []

-- The number that digits stand for, behind those that `acc` stands for.
unfoldable pub value_onto : ℕ → List ℕ → ℕ
value_onto acc [] = acc
value_onto acc (c ∷ cs) = value_onto (acc * 10 + (c - b'0')) cs

value-decimal_onto :
    (fuel n : ℕ) (acc : List ℕ)
    → n < fuel
    → value_onto 0 (decimal_onto fuel n acc) ≡ value_onto n acc
unfolding decimal_onto value_onto
value-decimal_onto zero n acc h = absurd (omega arith)
value-decimal_onto (suc fuel) n acc h = elim (Bool-cases (ltb n 10)) [
  | inl small ↦ rw small (ap (λ m. value_onto m acc) (e₁ n))
  | inr big ↦ rw big (
      value-decimal_onto fuel (n / 10) ((b'0' + n % 10) ∷ acc)
        (omega (arith, ltb_false→le n 10 big))
      ∙ ap (λ m. value_onto m acc) (e₂ n))
]
  where
    e₁ : (m : ℕ) → 0 * 10 + (b'0' + m - b'0') ≡ m
    e₁ m = omega arith

    e₂ : (m : ℕ) → m / 10 * 10 + (b'0' + m % 10 - b'0') ≡ m
    e₂ m = omega arith

-- A number that is printed is read back.
pub value-decimal : (n : ℕ) → value_onto 0 (decimal n) ≡ n
unfolding decimal value_onto
value-decimal n = value-decimal_onto (n + 1) n [] (omega arith)
