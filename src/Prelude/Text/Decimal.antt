-- ===== src/Prelude/Text/Decimal.antt =====
-- Decimal digits say their number.
use Prim.Native.Nat.{ℕ, zero, suc, ◌+◌, ◌-◌, ◌*◌, ◌/◌, ◌%◌, ◌<◌}
use mathlib.Core.Path.{◌≡◌, ap, sym, ◌∙◌}
use mathlib.Core.Logic.{inl, inr}
use mathlib.Core.List.{[], ◌∷◌}
use native.Mathlib.Omega.{arith}
use quicframe.Prelude.Tests.{ltb, Bool-cases}
use quicframe.Prelude.Text.{Text, digits, decimal}

-- The number that digits continue.
value_from : ℕ → Text → ℕ
value_from n [] = n
value_from n (d ∷ ds) = value_from (n * 10 + (d - b'0')) ds

value_from-digits :
    (fuel n : ℕ) (out : Text) → n < fuel → value_from 0 (digits fuel n out) ≡ value_from n out
unfolding digits value_from
value_from-digits zero n out h = elim h [ ]
value_from-digits (suc fuel) n out h = elim (Bool-cases (ltb n 10)) [
  | inl small ↦ rw small (ap (λ k. value_from k out) (omega arith))
  | inr large ↦ rw large (
      value_from-digits fuel (n / 10) ((b'0' + n % 10) ∷ out) (ground (arith, large))
      ∙ ap (λ k. value_from k out) (omega arith))
]

value_from-decimal : (n : ℕ) → value_from 0 (decimal n) ≡ n
unfolding decimal value_from
value_from-decimal n = value_from-digits (suc n) n [] (omega arith)

-- Different numbers have different digits.
pub decimal_injective : (a b : ℕ) → decimal a ≡ decimal b → a ≡ b
decimal_injective a b h = sym (value_from-decimal a) ∙ (ap (value_from 0) h ∙ value_from-decimal b)
