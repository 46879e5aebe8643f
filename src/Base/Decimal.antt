-- ===== src/Base/Decimal.antt =====
-- Decimal numerals: the specification that printers and readers of numbers are held to.
use Prim.Native.Nat.{ℕ, zero, suc, ◌+◌, ◌*◌, ◌/◌, ◌%◌, ◌<◌}
use mathlib.Core.Path.{◌≡◌, subst}
use mathlib.Core.Logic.{inl, inr}
use mathlib.Core.List.{[], ◌∷◌, ◌++◌}
use native.Mathlib.Omega.{arith}
use cpp_template.Base.Tests.{ltb, if◌then◌else◌, Bytes, Bool-cases}

-- The digits of `n`, the highest first, for `n` below the fuel.
unfoldable pub decimal_fuel : ℕ → ℕ → Bytes
decimal_fuel zero n = []
decimal_fuel (suc f) n =
    let front = decimal_fuel f (n / 10) in
    if ltb n 10 then (b'0' + n) ∷ [] else front ++ (b'0' + n % 10) ∷ []

unfoldable pub decimal : ℕ → Bytes
unfolding decimal_fuel
decimal n = decimal_fuel (suc n) n

-- A rule for all numerals: from what holds of the digits in front to what holds with one more.
pub decimal_induction {κ} :
    (P : ℕ → Bytes → Type κ)
    → ((n : ℕ) → n < 10 → P n ((b'0' + n) ∷ []))
    → ((n d : ℕ) (front : Bytes)
        → 0 < n
        → d < 10
        → P n front
        → P (n * 10 + d) (front ++ (b'0' + d) ∷ []))
    → (f n : ℕ) → n < f
    → P n (decimal_fuel f n)
unfolding decimal_fuel
decimal_induction P one more zero n h = absurd (omega arith)
decimal_induction P one more (suc f) n h = elim (Bool-cases (ltb n 10)) [
  | inl small ↦ rw small (one n (ground arith))
  | inr big ↦ rw big (
      subst (λ m. P m (decimal_fuel f (n / 10) ++ (b'0' + n % 10) ∷ [])) (split n)
        (more (n / 10) (n % 10) (decimal_fuel f (n / 10)) (ground arith) (omega arith)
          (decimal_induction P one more f (n / 10) (ground arith))))
]
  where
    split : (n : ℕ) → n / 10 * 10 + n % 10 ≡ n
    split n = omega arith
