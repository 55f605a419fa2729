-- ===== src/Text/Decimal.antt =====
-- util.go: the number that `asciiToInt` reads.
use native.Mathlib.Nat.{add-mul, mul_assoc, pow-suc, mod-add-mod, add-mod-mod, mod-mod, add_assoc}
use mogusocket.Common.{
  ℕ, suc, ◌+◌, ◌-◌, ◌*◌, ◌/◌, ◌%◌, ◌^◌, ◌≤◌, ◌≡◌, refl, sym, ap, ◌∙◌, some, [], ◌∷◌, arith, bit_and,
  ◌==◌, Bytes, All, length, true,
}
use mogusocket.Common.Bits.{agree, all_below}
use mogusocket.Common.Words.{u64, to_i64}
use mogusocket.Text.Numbers.{add_digits, ascii_to_int, pow}
use mogusocket.Text.Power.{mul_mod, pow-power}

-- The bytes `0` to `9`.
abbrev pub IsDigit : ℕ → Type 0
IsDigit c = (0x30 ≤ c) × (c ≤ 0x39)

-- The number that decimal digits write, behind the digits of `acc`.
abbrev pub decimal : ℕ → Bytes → ℕ
decimal acc [] = acc
decimal acc (c ∷ bts) = decimal (acc * 10 + (c - 0x30)) bts

low_half : (c : ℕ) → IsDigit c → bit_and c 0xf ≡ c - 0x30
unfolding all_below
low_half c (least, most) =
    let low : bit_and c 0xf ≡ c % 16 =
      agree 256 (λ i. bit_and i 0xf) (λ i. i % 16) refl c (omega arith) in
    low ∙ omega arith

tagged : (c : ℕ) → IsDigit c → (bit_and c 0xf0 == 0x30) ≡ true
unfolding all_below
tagged c (least, most) =
    let high : bit_and c 0xf0 ≡ c / 16 * 16 =
      agree 256 (λ i. bit_and i 0xf0) (λ i. i / 16 * 16) refl c (omega arith) in
    ground (arith, high)

abbrev value : Bytes → ℕ
value [] = 0
value (c ∷ bts) = (c - 0x30) * 10 ^ length bts + value bts

decimal-value : (acc : ℕ) (bts : Bytes) → decimal acc bts ≡ acc * 10 ^ length bts + value bts
decimal-value acc [] = omega arith
decimal-value acc (c ∷ bts) =
    decimal-value (acc * 10 + (c - 0x30)) bts
    ∙ ap (λ (t : ℕ). t + value bts) (add-mul (acc * 10) (c - 0x30) (10 ^ length bts))
    ∙ add_assoc (acc * 10 * 10 ^ length bts) ((c - 0x30) * 10 ^ length bts) (value bts)
    ∙ ap (λ (t : ℕ). t + value (c ∷ bts))
        (mul_assoc acc 10 (10 ^ length bts) ∙ ap (λ (t : ℕ). acc * t) (ten (length bts)))
  where
    ten : (k : ℕ) → 10 * 10 ^ k ≡ 10 ^ suc k
    ten k = omega (arith, pow-suc 10 k)

digit_round : (ret d k v : ℕ) → u64 (u64 (ret + d * pow 10 k) + v) ≡ u64 (ret + (d * 10 ^ k + v))
digit_round ret d k v =
    mod-add-mod (ret + d * pow 10 k) (2 ^ 64) v
    ∙ sym (mod-add-mod (ret + d * pow 10 k) (2 ^ 64) v)
    ∙ ap (λ (t : ℕ). u64 (t + v))
        (sym (add-mod-mod ret (d * pow 10 k) (2 ^ 64))
          ∙ ap (λ (t : ℕ). u64 (ret + t))
              (ap (λ (t : ℕ). u64 (d * t)) (pow-power 10 k) ∙ mul_mod d (10 ^ k) (2 ^ 64))
          ∙ add-mod-mod ret (d * 10 ^ k) (2 ^ 64))
    ∙ mod-add-mod (ret + d * 10 ^ k) (2 ^ 64) v
    ∙ ap u64 (add_assoc ret (d * 10 ^ k) v)

add_digits-value :
    (ret : ℕ) (bts : Bytes)
    → All IsDigit bts
    → u64 ret ≡ ret
    → add_digits ret bts ≡ some (u64 (ret + value bts))
unfolding add_digits
add_digits-value ret [] digits small = ap some (sym small ∙ ap u64 (omega arith))
add_digits-value ret (c ∷ bts) (digit, digits) small =
    let ret' = u64 (ret + bit_and c 0xf * pow 10 (length bts)) in
    rw (tagged c digit) (
      add_digits-value ret' bts digits
        (mod-mod (ret + bit_and c 0xf * pow 10 (length bts)) (2 ^ 64))
      ∙ ap some (
          digit_round ret (bit_and c 0xf) (length bts) (value bts)
          ∙ ap (λ (d : ℕ). u64 (ret + (d * 10 ^ length bts + value bts))) (low_half c digit)))

-- asciiToInt reads the number that one or more decimal digits write, wrapped to 64 bits.
pub ascii_to_int-decimal :
    (c : ℕ) (bts : Bytes)
    → All IsDigit (c ∷ bts)
    → ascii_to_int (c ∷ bts) ≡ some (to_i64 (u64 (decimal 0 (c ∷ bts))))
unfolding ascii_to_int
ascii_to_int-decimal c bts digits =
    let read = add_digits-value 0 (c ∷ bts) digits refl in
    let same : 0 + value (c ∷ bts) ≡ decimal 0 (c ∷ bts) =
      sym (decimal-value 0 (c ∷ bts) ∙ omega arith) in
    rw (ascii_to_int, read) (ap (λ (t : ℕ). some (to_i64 (u64 t))) same)
