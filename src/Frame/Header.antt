-- ===== src/Frame/Header.antt =====
-- frame.go: operation codes, the RSV bits, `Header` and `Frame`.
use mogusocket.Common.{
  ℕ, Bool, false, not, ◌&&◌, ◌||◌, bit_and, bit_or, Bytes, ◌==◌, leb, if◌then◌else◌,
}
use mogusocket.Common.Words.{ℤ, pos}
use mogusocket.Cipher.{Mask}

abbrev pub max_control_frame_payload_size : ℕ
max_control_frame_payload_size = 125

abbrev pub op_continuation : ℕ
op_continuation = 0x0

abbrev pub op_text : ℕ
op_text = 0x1

abbrev pub op_binary : ℕ
op_binary = 0x2

abbrev pub op_close : ℕ
op_close = 0x8

abbrev pub op_ping : ℕ
op_ping = 0x9

abbrev pub op_pong : ℕ
op_pong = 0xa

unfoldable pub is_control : ℕ → Bool
is_control c = not (bit_and c 0x8 == 0)

unfoldable pub is_data : ℕ → Bool
is_data c = bit_and c 0x8 == 0

unfoldable pub is_reserved : ℕ → Bool
is_reserved c = (leb 0x3 c && leb c 0x7) || (leb 0xb c && leb c 0xf)

-- write.go numbers the bits of a byte from the highest one.
abbrev pub bit5 : ℕ
bit5 = 0x04

abbrev pub bit6 : ℕ
bit6 = 0x02

abbrev pub bit7 : ℕ
bit7 = 0x01

unfoldable pub rsv_of_bits : Bool → Bool → Bool → ℕ
rsv_of_bits r1 r2 r3 =
    let a : ℕ = if r1 then bit_or 0 bit5 else 0 in
    let b : ℕ = if r2 then bit_or a bit6 else a in if r3 then bit_or b bit7 else b

unfoldable pub rsv_bits : ℕ → Bool × Bool × Bool
rsv_bits rsv =
    (not (bit_and rsv bit5 == 0), not (bit_and rsv bit6 == 0), not (bit_and rsv bit7 == 0))

-- `Length` is an int64.
pub record Header : Type 0 where
  pub fin : Bool
  pub rsv : ℕ
  pub op_code : ℕ
  pub masked : Bool
  pub mask : Mask
  pub len : ℤ

unfoldable pub rsv1 : Header → Bool
rsv1 h = not (bit_and h.rsv bit5 == 0)

unfoldable pub rsv2 : Header → Bool
rsv2 h = not (bit_and h.rsv bit6 == 0)

unfoldable pub rsv3 : Header → Bool
rsv3 h = not (bit_and h.rsv bit7 == 0)

pub record Frame : Type 0 where
  pub header : Header
  pub payload : Bytes

abbrev pub zero_mask : Mask
zero_mask = record { b0 = 0; b1 = 0; b2 = 0; b3 = 0 }

-- Go's zero value of `Header`.
abbrev pub zero_header : Header
zero_header = record {
  fin = false;
  rsv = 0;
  op_code = 0;
  masked = false;
  mask = zero_mask;
  len = pos 0;
}
