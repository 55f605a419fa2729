-- ===== src/Codec/Bits.antt =====
-- The bit operations of the codec, in plain arithmetic.
use mogusocket.Common.{ℕ, ◌+◌, ◌*◌, ◌/◌, ◌%◌, ◌^◌, ◌<◌, ◌≡◌, refl, bit_and, bit_or}
use mogusocket.Common.Bits.{agree, all_below, bit_or_fields, bit_and_mask}

pub low_nibble : (b : ℕ) → bit_and b 0x0f ≡ b % 16
low_nibble b = bit_and_mask 4 b

pub low_seven : (b : ℕ) → bit_and b 0x7f ≡ b % 128
low_seven b = bit_and_mask 7 b

pub top_bit : (b : ℕ) → b < 256 → bit_and b 0x80 ≡ b / 128 * 128
unfolding all_below
top_bit b h = agree 256 (λ b. bit_and b 0x80) (λ b. b / 128 * 128) refl b h

pub rsv_bits_of : (b : ℕ) → b < 256 → bit_and b 0x70 ≡ b / 16 % 8 * 16
unfolding all_below
rsv_bits_of b h = agree 256 (λ b. bit_and b 0x70) (λ b. b / 16 % 8 * 16) refl b h

pub set_top_bit : (b : ℕ) → b < 128 → bit_or b 0x80 ≡ b + 128
unfolding all_below
set_top_bit b h = agree 128 (λ b. bit_or b 0x80) (λ b. b + 128) refl b h

pub head_bits : (q op : ℕ) → op < 16 → bit_or (q * 2 ^ 4) op ≡ q * 16 + op
head_bits q op h = bit_or_fields 4 q op h
