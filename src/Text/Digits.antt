-- ===== src/Text/Digits.antt =====
-- util.go: which bytes `asciiToInt` takes for a number.
use mogusocket.Common.{
  ℕ, ◌+◌, ◌*◌, ◌/◌, ◌≤◌, ◌≡◌, ◌≢◌, ◌↔◌, refl, bit_and, none, [], ◌∷◌, arith, Bytes, All, length,
}
use mogusocket.Common.Bits.{agree, all_below}
use mogusocket.Common.Words.{AreBytes, IsByte, u64}
use mogusocket.Text.Numbers.{add_digits, ascii_to_int, pow}

-- The bytes `0` to `9`, and `:` to `?` behind them.
abbrev pub IsDigitLike : ℕ → Type 0
IsDigitLike c = (0x30 ≤ c) × (c ≤ 0x3f)

pub high_half : (c : ℕ) → IsByte c → bit_and c 0xf0 ≡ c / 16 * 16
unfolding all_below
high_half c byte = agree 256 (λ i. bit_and i 0xf0) (λ i. i / 16 * 16) refl c byte

add_digits-IsDigitLike :
    (bts : Bytes) (ret : ℕ) → AreBytes bts → (add_digits ret bts ≢ none) ↔ All IsDigitLike bts
unfolding add_digits
add_digits-IsDigitLike [] ret bytes = ground arith
add_digits-IsDigitLike (c ∷ bts) ret (byte, bytes) =
    let rest = add_digits-IsDigitLike bts (u64 (ret + bit_and c 0xf * pow 10 (length bts))) bytes in
    ground (arith, high_half c byte, rest)

-- asciiToInt succeeds exactly on the texts that are not empty and have bytes from 0x30 to 0x3f only,
-- the six bytes behind the digit 9 included.
pub ascii_to_int-IsDigitLike :
    (bts : Bytes) → AreBytes bts → (ascii_to_int bts ≢ none) ↔ ((bts ≢ []) × All IsDigitLike bts)
unfolding ascii_to_int
ascii_to_int-IsDigitLike [] bytes = ground arith
ascii_to_int-IsDigitLike (c ∷ bts) bytes = ground (arith, add_digits-IsDigitLike (c ∷ bts) 0 bytes)
