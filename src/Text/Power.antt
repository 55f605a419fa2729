-- ===== src/Text/Power.antt =====
-- util.go: what `pow` computes.
use native.Mathlib.Nat.{
  add-mul, mul_comm, mul_assoc, pow-zero, pow-suc, mod-add-div, add-mul-mod_self_left, mod-mod,
}
use mogusocket.Common.{
  ℕ, zero, suc, ◌+◌, ◌*◌, ◌/◌, ◌%◌, ◌^◌, ◌≤◌, ◌≡◌, refl, sym, ap, ◌∙◌, inl, inr, arith, bit_and,
  ltb, ◌==◌, Bool-cases,
}
use mogusocket.Common.Bits.{bit_and_mask}
use mogusocket.Common.Words.{u64}
use mogusocket.Text.Numbers.{pow_loop, pow}

mod_mul : (x y m : ℕ) → (x % m * y) % m ≡ (x * y) % m
mod_mul x y m =
    let spread : x * y ≡ x % m * y + m * (x / m * y) =
      ap (λ (t : ℕ). t * y) (sym (mod-add-div x m))
      ∙ add-mul (x % m) (m * (x / m)) y
      ∙ ap (λ (t : ℕ). x % m * y + t) (mul_assoc m (x / m) y) in
    sym (ap (λ (t : ℕ). t % m) spread ∙ add-mul-mod_self_left (x % m * y) m (x / m * y))

pub mul_mod : (x y m : ℕ) → (x * (y % m)) % m ≡ (x * y) % m
mul_mod x y m =
    ap (λ (t : ℕ). t % m) (mul_comm x (y % m))
    ∙ mod_mul y x m
    ∙ ap (λ (t : ℕ). t % m) (mul_comm y x)

mod_power : (a n m : ℕ) → (a % m) ^ n % m ≡ a ^ n % m
mod_power a zero m = ap (λ (t : ℕ). t % m) (pow-zero (a % m) ∙ sym (pow-zero a))
mod_power a (suc n) m =
    ap (λ (t : ℕ). t % m) (pow-suc (a % m) n)
    ∙ mul_mod ((a % m) ^ n) a m
    ∙ sym (mod_mul ((a % m) ^ n) a m)
    ∙ ap (λ (t : ℕ). (t * a) % m) (mod_power a n m)
    ∙ mod_mul (a ^ n) a m
    ∙ ap (λ (t : ℕ). t % m) (sym (pow-suc a n))

double_power : (a h : ℕ) → a ^ (h + h) ≡ (a * a) ^ h
double_power a zero = pow-zero a ∙ sym (pow-zero (a * a))
double_power a (suc h) =
    let twice : suc h + suc h ≡ suc (suc (h + h)) = omega arith in
    ap (λ (i : ℕ). a ^ i) twice
    ∙ pow-suc a (suc (h + h))
    ∙ ap (λ (t : ℕ). t * a) (pow-suc a (h + h) ∙ ap (λ (t : ℕ). t * a) (double_power a h))
    ∙ mul_assoc ((a * a) ^ h) a a
    ∙ sym (pow-suc (a * a) h)

-- One round of squaring.
square_round : (p a h : ℕ) → u64 (p * u64 (a * a) ^ h) ≡ u64 (p * (a * a) ^ h)
square_round p a h =
    sym (mul_mod p (u64 (a * a) ^ h) (2 ^ 64))
    ∙ ap (λ (t : ℕ). u64 (p * t)) (mod_power (a * a) h (2 ^ 64))
    ∙ mul_mod p ((a * a) ^ h) (2 ^ 64)

low_bit : (b : ℕ) → bit_and b 1 ≡ b % 2
low_bit b = bit_and_mask 1 b

exhausted : (a b p : ℕ) → b ≡ 0 → u64 p ≡ p → p ≡ u64 (p * a ^ b)
exhausted a b p stop small =
    sym small
    ∙ ap u64 (sym (ap (λ (i : ℕ). p * i) (ap (λ (i : ℕ). a ^ i) stop ∙ pow-zero a) ∙ one_right p))
  where
    one_right : (x : ℕ) → x * 1 ≡ x
    one_right x = omega arith

even_power : (a b : ℕ) → b % 2 ≡ 0 → a ^ b ≡ (a * a) ^ (b / 2)
even_power a b even =
    let halves : b ≡ b / 2 + b / 2 = omega arith in
    ap (λ (i : ℕ). a ^ i) halves ∙ double_power a (b / 2)

odd_power : (a b : ℕ) → b % 2 ≡ 1 → a ^ b ≡ (a * a) ^ (b / 2) * a
odd_power a b odd =
    let halves : b ≡ suc (b / 2 + b / 2) = omega arith in
    ap (λ (i : ℕ). a ^ i) halves
    ∙ pow-suc a (b / 2 + b / 2)
    ∙ ap (λ (t : ℕ). t * a) (double_power a (b / 2))

odd_round : (a b p : ℕ) → b % 2 ≡ 1 → u64 (u64 (p * a) * u64 (a * a) ^ (b / 2)) ≡ u64 (p * a ^ b)
odd_round a b p odd =
    square_round (u64 (p * a)) a (b / 2)
    ∙ mod_mul (p * a) ((a * a) ^ (b / 2)) (2 ^ 64)
    ∙ ap u64 (
        mul_assoc p a ((a * a) ^ (b / 2))
        ∙ ap (λ (t : ℕ). p * t) (mul_comm a ((a * a) ^ (b / 2)) ∙ sym (odd_power a b odd)))

even_round : (a b p : ℕ) → b % 2 ≡ 0 → u64 (p * u64 (a * a) ^ (b / 2)) ≡ u64 (p * a ^ b)
even_round a b p even =
    square_round p a (b / 2) ∙ ap (λ (t : ℕ). u64 (p * t)) (sym (even_power a b even))

pow_loop-power : (left a b p : ℕ) → b ≤ left → u64 p ≡ p → pow_loop left a b p ≡ u64 (p * a ^ b)
unfolding pow_loop
pow_loop-power zero a b p enough small = exhausted a b p (omega arith) small
pow_loop-power (suc left) a b p enough small = elim (Bool-cases (ltb 0 b)) [
  | inr done ↦ rw done (exhausted a b p (ground (arith, done)) small)
  | inl more ↦ elim (Bool-cases (bit_and b 1 == 0)) [
    | inl even ↦
        let low : b % 2 ≡ 0 = ground (arith, even, low_bit b) in
        rw (more, even)
          (pow_loop-power left (u64 (a * a)) (b / 2) p (omega arith) small ∙ even_round a b p low)
    | inr odd ↦
        let low : b % 2 ≡ 1 = ground (arith, odd, low_bit b) in
        rw (more, odd)
          (pow_loop-power left (u64 (a * a)) (b / 2) (u64 (p * a)) (omega arith)
              (mod-mod (p * a) (2 ^ 64))
            ∙ odd_round a b p low)
  ]
]

-- pow computes the power, with the wrap-around of 64 bits.
pub pow-power : (a b : ℕ) → pow a b ≡ u64 (a ^ b)
unfolding pow
pow-power a b = pow_loop-power b a b 1 (omega arith) refl ∙ ap u64 (omega arith)
