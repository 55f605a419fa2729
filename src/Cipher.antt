-- ===== src/Cipher.antt =====
-- cipher.go: the masking of payloads. A slice is a list of bytes; `Cipher` works in place, so the
-- function returns what the slice holds afterwards.
pub mod Loops
pub mod Equivalence
use mogusocket.Common.{
  ℕ, zero, suc, ◌+◌, ◌-◌, ◌*◌, ◌/◌, ◌%◌, ◌^◌, bit_or, bit_xor, [], ◌∷◌, ◌++◌, Bytes, length, get_or,
  set, take, drop, ltb, if◌then◌else◌,
}
use mogusocket.Common.Words.{IsByte, u64, get_le, put_le}

-- `[4]byte`
pub record Mask : Type 0 where
  pub b0 : ℕ
  pub b1 : ℕ
  pub b2 : ℕ
  pub b3 : ℕ

abbrev pub IsMask : Mask → Type 0
IsMask m = IsByte m.b0 × IsByte m.b1 × IsByte m.b2 × IsByte m.b3

-- `mask[:]`
abbrev pub mask_bytes : Mask → Bytes
mask_bytes m = m.b0 ∷ m.b1 ∷ m.b2 ∷ m.b3 ∷ []

-- `mask[i]`
abbrev pub mask_at : Mask → ℕ → ℕ
mask_at m i = get_or (mask_bytes m) i 0

-- `remain`
abbrev remain : ℕ → ℕ
remain mpos = get_or (0 ∷ 3 ∷ 2 ∷ 1 ∷ []) mpos 0

-- `for ; i < end; i++ { payload[i] ^= mask[(pos+i)%4] }`, with the rounds left first.
unfoldable pub xor_bytes : ℕ → ℕ → ℕ → Mask → Bytes → Bytes
xor_bytes zero i pos m payload = payload
xor_bytes (suc left) i pos m payload =
    xor_bytes left (i + 1) pos m
      (set payload i (bit_xor (get_or payload i 0) (mask_at m ((pos + i) % 4))))

-- A write through the slice `payload[j : j+len(bs)]`.
abbrev pub put_at : Bytes → ℕ → Bytes → Bytes
put_at payload j bs = take j payload ++ (bs ++ drop (j + length bs) payload)

-- The main loop, over words of 8 bytes from `ln` on, with the rounds left first.
unfoldable pub xor_words : ℕ → ℕ → ℕ → ℕ → Bytes → Bytes
xor_words zero i ln m2 payload = payload
xor_words (suc left) i ln m2 payload =
    let j = ln + i * 2 ^ 3 in
    let p = bit_xor (get_le (take 8 (drop j payload))) m2 in
    xor_words left (i + 1) ln m2 (put_at payload j (put_le 8 p))

-- `m2 = uint64(m)<<32 | uint64(m)`
unfoldable pub double_mask : Mask → ℕ
double_mask mask = let m = get_le (mask_bytes mask) in bit_or (u64 (m * 2 ^ 32)) m

unfoldable pub cipher : Bytes → Mask → ℕ → Bytes
cipher payload mask offset =
    let n = length payload in
    let mpos = offset % 4 in
    let ln = remain mpos in
    let rn = (n - ln) % 8 in
    let left = xor_bytes ln 0 mpos mask payload in
    let both = xor_bytes rn (n - rn) mpos mask left in
    if ltb n 8
    then xor_bytes n 0 offset mask payload
    else xor_words ((n - ln - rn) / 2 ^ 3) 0 ln (double_mask mask) both
