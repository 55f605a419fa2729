-- ===== src/Common/Bits/Step.antt =====
-- One equation for the lowest digit of each native bit operation. Natively they unfold to
-- `bitwise`, which spends fuel on every digit.
use Prim.Native.Nat.{
  ℕ, zero, suc, ◌+◌, ◌-◌, ◌*◌, ◌/◌, ◌%◌, ◌≤◌, ◌<◌, min, max, digits, bitwise, differ, bit_and,
  bit_or, bit_xor, bit_and-bitwise, bit_or-bitwise, bit_xor-bitwise,
}
use mathlib.Core.Path.{◌≡◌, refl, ◌∙◌, ap}
use native.Mathlib.Nat.{le_refl}
use native.Mathlib.Omega.{arith}

module _ (rest : ℕ → ℕ) (op : ℕ → ℕ → ℕ) where
  -- Once the fuel covers the number, one more unit changes nothing.
  spare_unit : (fuel x y : ℕ) → x ≤ fuel → digits rest op (suc fuel) x y ≡ digits rest op fuel x y
  spare_unit zero zero y enough = refl
  spare_unit zero (suc x) y enough = absurd (omega arith)
  spare_unit (suc fuel) zero y enough = refl
  spare_unit (suc fuel) (suc x) y enough = rw (spare_unit fuel (suc x / 2) (y / 2) (omega arith))

  spare : (k fuel x y : ℕ) → x ≤ fuel → digits rest op (k + fuel) x y ≡ digits rest op fuel x y
  spare zero fuel x y enough =
      let same : 0 + fuel ≡ fuel = omega arith in ap (λ u. digits rest op u x y) same
  spare (suc k) fuel x y enough =
      let same : suc k + fuel ≡ suc (k + fuel) = omega arith in
      ap (λ u. digits rest op u x y) same
      ∙ spare_unit (k + fuel) x y (omega arith)
      ∙ spare k fuel x y enough

  lowest :
      (x y : ℕ)
      → bitwise rest op (suc x) y ≡ 2 * bitwise rest op (suc x / 2) (y / 2) + op (suc x % 2) (y % 2)
  lowest x y =
      let k : ℕ = x - suc x / 2 in
      let total : k + suc x / 2 ≡ x = omega arith in
      omega (
        arith,
        ap (λ fuel. digits rest op fuel (suc x / 2) (y / 2)) total,
        spare k (suc x / 2) (suc x / 2) (y / 2) (le_refl _),
      )

pub bit_or_step : (x y : ℕ) → bit_or x y ≡ bit_or (x / 2) (y / 2) * 2 + max (x % 2) (y % 2)
bit_or_step zero y = simp bit_or-bitwise (omega arith)
bit_or_step (suc x) y =
    let low = lowest (λ d. d) max x y in simp bit_or-bitwise (omega (arith, low))

pub bit_and_step : (x y : ℕ) → bit_and x y ≡ bit_and (x / 2) (y / 2) * 2 + min (x % 2) (y % 2)
bit_and_step zero y = simp bit_and-bitwise (omega arith)
bit_and_step (suc x) y =
    let low = lowest (λ d. 0) min x y in simp bit_and-bitwise (omega (arith, low))

differ-sum : (d e : ℕ) → d < 2 → e < 2 → differ d e ≡ (d + e) % 2
differ-sum zero e p q = omega arith
differ-sum (suc zero) zero p q = refl
differ-sum (suc zero) (suc zero) p q = refl
differ-sum (suc zero) (suc (suc e)) p q = absurd (omega arith)
differ-sum (suc (suc d)) e p q = absurd (omega arith)

-- The sum of the digits modulo 2.
pub bit_xor_step : (x y : ℕ) → bit_xor x y ≡ bit_xor (x / 2) (y / 2) * 2 + (x % 2 + y % 2) % 2
bit_xor_step zero y = simp bit_xor-bitwise (omega arith)
bit_xor_step (suc x) y =
    let low = lowest (λ d. d) differ x y in
    let sum = differ-sum (suc x % 2) (y % 2) (omega arith) (omega arith) in
    rw (← sum) (simp bit_xor-bitwise (omega (arith, low)))
