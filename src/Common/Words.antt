-- ===== src/Common/Words.antt =====
-- Bytes, fixed-width words, and their big- and little-endian forms (package encoding/binary).
use mathlib.Core.Path.{◌≡◌, refl, ap, ap₂, ◌∙◌}
use mathlib.Core.Bool.{Bool, true}
use mathlib.Core.List.{[], ◌∷◌}
use native.Mathlib.Omega.{arith}
use Prim.Native.Nat.{ℕ, zero, suc, ◌+◌, ◌-◌, ◌*◌, ◌/◌, ◌%◌, ◌^◌, ◌<◌, bit_xor}
use mogusocket.Common.Tests.{ltb, leb, if◌then◌else◌}
use mogusocket.Common.Lists.{Bytes, length, All}
use mogusocket.Common.Bits.{bit_xor_fields, bit_xor-lt}

abbrev pub IsByte : ℕ → Type 0
IsByte b = b < 256

abbrev pub AreBytes : Bytes → Type 0
AreBytes = All IsByte

abbrev pub u8 : ℕ → ℕ
u8 n = n % 2 ^ 8

abbrev pub u16 : ℕ → ℕ
u16 n = n % 2 ^ 16

abbrev pub u32 : ℕ → ℕ
u32 n = n % 2 ^ 32

abbrev pub u64 : ℕ → ℕ
u64 n = n % 2 ^ 64

-- An int64: `negsuc n` is -(n + 1).
pub data ℤ : Type 0 where
  pos : ℕ → ℤ
  negsuc : ℕ → ℤ

-- `a <= n` and `a < n` for a number `n` that is not negative.
abbrev pub le_ℤ : ℤ → ℕ → Bool
le_ℤ (pos a) n = leb a n
le_ℤ (negsuc a) n = true

abbrev pub lt_ℤ : ℤ → ℕ → Bool
lt_ℤ (pos a) n = ltb a n
lt_ℤ (negsuc a) n = true

-- The conversion to a w-bit unsigned integer keeps the low bits of the two's complement.
abbrev pub to_u : ℕ → ℤ → ℕ
to_u w (pos a) = a % 2 ^ w
to_u w (negsuc a) = 2 ^ w - 1 - a % 2 ^ w

-- `int64(n)` of a uint64.
abbrev pub to_i64 : ℕ → ℤ
to_i64 n = if ltb n (2 ^ 63) then pos n else negsuc (2 ^ 64 - 1 - n)

-- PutUint16, PutUint64: the `k` low bytes of `v`, the highest first.
unfoldable pub put_be : ℕ → ℕ → Bytes
put_be zero v = []
put_be (suc k) v = (v / 256 ^ k % 256) ∷ put_be k v

-- Uint16, Uint64 on a slice of that length, behind the bytes already read.
unfoldable pub be_from : ℕ → Bytes → ℕ
be_from acc [] = acc
be_from acc (b ∷ bs) = be_from (acc * 256 + b) bs

unfoldable pub get_be : Bytes → ℕ
unfolding be_from
get_be = be_from 0

-- PutUint64 and Uint32, Uint64, the lowest byte first.
unfoldable pub put_le : ℕ → ℕ → Bytes
put_le zero v = []
put_le (suc k) v = (v % 256) ∷ put_le k (v / 256)

unfoldable pub get_le : Bytes → ℕ
get_le [] = 0
get_le (b ∷ bs) = get_le bs * 2 ^ 8 + b

pub length-put_be : (k v : ℕ) → length (put_be k v) ≡ k
unfolding put_be
length-put_be zero v = refl
length-put_be (suc k) v = ap suc (length-put_be k v)

pub length-put_le : (k v : ℕ) → length (put_le k v) ≡ k
unfolding put_le
length-put_le zero v = refl
length-put_le (suc k) v = ap suc (length-put_le k (v / 256))

pub put_be-AreBytes : (k v : ℕ) → AreBytes (put_be k v)
unfolding put_be
put_be-AreBytes zero v = tt
put_be-AreBytes (suc k) v = (omega arith, put_be-AreBytes k v)

pub get_be-put_be_two : (v : ℕ) → v < 2 ^ 16 → get_be (put_be 2 v) ≡ v
unfolding get_be put_be
get_be-put_be_two v h = omega arith

pub get_be-put_be_eight : (v : ℕ) → v < 2 ^ 64 → get_be (put_be 8 v) ≡ v
unfolding get_be put_be
get_be-put_be_eight v h = omega arith

-- Byte by byte.
unfoldable pub zip_xor : Bytes → Bytes → Bytes
zip_xor (x ∷ xs) (k ∷ ks) = bit_xor x k ∷ zip_xor xs ks
zip_xor [] _ = []
zip_xor (x ∷ xs) [] = x ∷ xs

-- An exclusive or of two words is one of their bytes.
pub put_le-bit_xor :
    (xs ks : Bytes)
    → AreBytes xs
    → AreBytes ks
    → length xs ≡ length ks
    → put_le (length xs) (bit_xor (get_le xs) (get_le ks)) ≡ zip_xor xs ks
unfolding put_le get_le zip_xor
put_le-bit_xor [] [] hx hk e = refl
put_le-bit_xor [] (k ∷ ks) hx hk e = absurd (omega arith)
put_le-bit_xor (x ∷ xs) [] hx hk e = absurd (omega arith)
put_le-bit_xor (x ∷ xs) (k ∷ ks) hx hk e =
    rw (bit_xor_fields 8 (get_le xs) x (get_le ks) k hx.0 hk.0) (
      ap₂ ◌∷◌ (omega (arith, bit_xor-lt 8 x k hx.0 hk.0)) (
        ap (put_le (length xs)) (omega (arith, bit_xor-lt 8 x k hx.0 hk.0))
        ∙ put_le-bit_xor xs ks hx.1 hk.1 (omega arith)))
