-- ===== src/Common/Bits.antt =====
-- Laws of the native bit operations: one step on the lowest digit, and fields of bits.
mod Step
pub use Step.{bit_and_step, bit_or_step, bit_xor_step}
use Prim.Native.Nat.{ℕ, zero, suc, ◌+◌, ◌*◌, ◌/◌, ◌%◌, ◌^◌, ◌-◌, ◌<◌, bit_and, bit_or, bit_xor}
use mathlib.Core.Path.{◌≡◌, refl, ap}
use mathlib.Core.Bool.{Bool, true, ◌&&◌}
use mathlib.Core.WellFounded
use native.Mathlib.Nat.{pow-suc, one-le-pow}
use native.Mathlib.Omega.{arith}
use mogusocket.Common.Order.{lt_wf}
use mogusocket.Common.Tests.{◌==◌, ==_iff}

-- Induction on binary digits.
halving {ℓ} : (P : ℕ → Type ℓ) → P 0 → ((n : ℕ) → P (suc n / 2) → P (suc n)) → (x : ℕ) → P x
halving P base double x = WellFounded.induction lt_wf {C = P} x descend
  where
    descend : (n : ℕ) → ((m : ℕ) → m < n → P m) → P n
    descend zero below = base
    descend (suc n) below = double n (below (suc n / 2) (omega arith))

pub bit_or-zero : (x : ℕ) → bit_or x 0 ≡ x
bit_or-zero =
    halving (λ x. bit_or x 0 ≡ x) refl (λ n half. omega (arith, bit_or_step (suc n) 0, half))

pub bit_and-zero : (x : ℕ) → bit_and x 0 ≡ 0
bit_and-zero =
    halving (λ x. bit_and x 0 ≡ 0) refl (λ n half. omega (arith, bit_and_step (suc n) 0, half))

pub bit_xor-zero : (x : ℕ) → bit_xor x 0 ≡ x
bit_xor-zero =
    halving (λ x. bit_xor x 0 ≡ x) refl (λ n half. omega (arith, bit_xor_step (suc n) 0, half))

bit_xor-half : (a b : ℕ) → bit_xor a b / 2 ≡ bit_xor (a / 2) (b / 2)
bit_xor-half a b = omega (arith, bit_xor_step a b)

-- `x ^ k ^ k` is `x`.
pub bit_xor-bit_xor : (a k : ℕ) → bit_xor (bit_xor a k) k ≡ a
bit_xor-bit_xor a k =
    WellFounded.induction lt_wf {C = λ n. (b : ℕ) → bit_xor (bit_xor b n) n ≡ b} k step a
  where
    step :
        (n : ℕ)
        → ((m : ℕ) → m < n → (b : ℕ) → bit_xor (bit_xor b m) m ≡ b)
        → (b : ℕ) → bit_xor (bit_xor b n) n ≡ b
    step zero ih b = rw (bit_xor-zero b) (bit_xor-zero b)
    step (suc n) ih b = ground (
      arith,
      bit_xor_step b (suc n),
      bit_xor-half b (suc n),
      bit_xor_step (bit_xor b (suc n)) (suc n),
      ih (suc n / 2) (omega arith) (b / 2),
    )

shift_again : (high w : ℕ) → high * 2 ^ suc w ≡ 2 * (high * 2 ^ w)
shift_again high w = omega (arith, ap (λ (t : ℕ). high * t) (pow-suc 2 w))

-- A shifted number and a low one have no digit in common.
pub bit_or_fields : (w high low : ℕ) → low < 2 ^ w → bit_or (high * 2 ^ w) low ≡ high * 2 ^ w + low
bit_or_fields zero high low fits = ground (arith, bit_or-zero high)
bit_or_fields (suc w) high low fits = ground (
  arith,
  bit_or_step (high * 2 ^ suc w) low,
  shift_again high w,
  bit_or_fields w high (low / 2) (omega arith),
)

bit_and_fields : (w high low : ℕ) → low < 2 ^ w → bit_and (high * 2 ^ w + low) (2 ^ w - 1) ≡ low
bit_and_fields zero high low fits = ground (arith, bit_and-zero (high * 2 ^ 0 + low))
bit_and_fields (suc w) high low fits = ground (
  arith,
  bit_and_step (high * 2 ^ suc w + low) (2 ^ suc w - 1),
  shift_again high w,
  pow-suc 2 w,
  bit_and_fields w high (low / 2) (omega arith),
)

-- `& (2 ^ w - 1)` keeps the low digits.
pub bit_and_mask : (w a : ℕ) → bit_and a (2 ^ w - 1) ≡ a % 2 ^ w
bit_and_mask w a = ground (arith, one-le-pow w 2, bit_and_fields w (a / 2 ^ w) (a % 2 ^ w))

-- Exclusive or works on the two parts of a number separately.
pub bit_xor_fields :
    (k q r p s : ℕ)
    → r < 2 ^ k
    → s < 2 ^ k
    → bit_xor (q * 2 ^ k + r) (p * 2 ^ k + s) ≡ bit_xor q p * 2 ^ k + bit_xor r s
bit_xor_fields zero q r p s h g =
    let r0 : r ≡ 0 = omega arith in
    let s0 : s ≡ 0 = omega arith in
    let qe : q * 1 + 0 ≡ q = omega arith in
    let pe : p * 1 + 0 ≡ p = omega arith in rw (r0, s0) (rw (qe, pe) (omega arith))
bit_xor_fields (suc k) q r p s h g = ground (
  arith,
  bit_xor_step (q * 2 ^ suc k + r) (p * 2 ^ suc k + s),
  bit_xor_step r s,
  shift_again q k,
  shift_again p k,
  shift_again (bit_xor q p) k,
  bit_xor_fields k q (r / 2) p (s / 2) (omega (arith, pow-suc 2 k)) (omega (arith, pow-suc 2 k)),
)

pub bit_xor-lt : (k a b : ℕ) → a < 2 ^ k → b < 2 ^ k → bit_xor a b < 2 ^ k
bit_xor-lt zero a b h g =
    let a0 : a ≡ 0 = omega arith in let b0 : b ≡ 0 = omega arith in rw (a0, b0) (omega arith)
bit_xor-lt (suc k) a b h g = omega (
  arith,
  bit_xor_step a b,
  pow-suc 2 k,
  bit_xor-lt k (a / 2) (b / 2) (omega (arith, pow-suc 2 k)) (omega (arith, pow-suc 2 k)),
)

-- A test of every number below a bound, by evaluation.
unfoldable pub all_below : ℕ → (ℕ → Bool) → Bool
all_below zero test = true
all_below (suc bound) test = test bound && all_below bound test

pub all_below_sound :
    (bound : ℕ) (test : ℕ → Bool) (i : ℕ) → all_below bound test ≡ true → i < bound → test i ≡ true
unfolding all_below
all_below_sound zero test i passed inside = absurd (omega arith)
all_below_sound (suc bound) test i passed inside = ground (arith, all_below_sound bound test i)

-- Two functions that agree on a table agree below its size.
pub agree :
    (n : ℕ) (f g : ℕ → ℕ) → all_below n (λ i. f i == g i) ≡ true → (x : ℕ) → x < n → f x ≡ g x
agree n f g t x h = (==_iff (f x) (g x)).0 (all_below_sound n (λ i. f i == g i) x t h)
