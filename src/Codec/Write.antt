-- ===== src/Codec/Write.antt =====
-- write.go, and the functions of frame.go that compile a frame.
use mogusocket.Common.{
  ℕ, ◌+◌, ◌-◌, ◌*◌, ◌^◌, Option, none, some, [], ◌∷◌, ◌++◌, bit_or, Bytes, if◌then◌else◌,
}
use mogusocket.Common.Words.{ℤ, pos, negsuc, le_ℤ, lt_ℤ, to_u, u8, put_be}
use mogusocket.Cipher.{mask_bytes}
use mogusocket.Errors.{Error, header_length_unexpected}
use mogusocket.Stream.{Sink, write, written, fresh}
use mogusocket.Frame.Header.{Header, Frame}

abbrev pub bit0 : ℕ
bit0 = 0x80

abbrev pub len7 : ℕ
len7 = 125

abbrev pub len16 : ℕ
len16 = 2 ^ 16 - 1

abbrev pub len64 : ℕ
len64 = 2 ^ 63 - 1

-- `negsuc 0` is -1, for a length above the int64s.
unfoldable pub header_size : Header → ℤ
header_size h =
    let mask_len : ℕ = if h.masked then 4 else 0 in
    if lt_ℤ h.len 126
    then pos (2 + mask_len)
    else if le_ℤ h.len len16
    then pos (4 + mask_len)
    else if le_ℤ h.len len64
    then pos (10 + mask_len)
    else negsuc 0

-- `bts[0]`
unfoldable pub first_byte : Header → ℕ
first_byte h = bit_or (bit_or (if h.fin then bit_or 0 bit0 else 0) (u8 (h.rsv * 2 ^ 4))) h.op_code

-- The `switch` on the length: `bts[1]` without the mask bit, and `bts[2:n]`.
unfoldable pub length_bytes : ℤ → Option (ℕ × Bytes)
length_bytes len =
    if le_ℤ len len7
    then some (to_u 8 len, [])
    else if le_ℤ len len16
    then some (126, put_be 2 (to_u 16 len))
    else if le_ℤ len len64
    then some (127, put_be 8 (to_u 64 len))
    else none

-- `bts[:n]`, or `none` for `ErrHeaderLengthUnexpected`.
unfoldable pub header_bytes : Header → Option Bytes
header_bytes h = elim (length_bytes h.len) [
  | none ↦ none
  | some (b1, ext) ↦ some (
      if h.masked
      then first_byte h ∷ bit_or b1 bit0 ∷ (ext ++ mask_bytes h.mask)
      else first_byte h ∷ b1 ∷ ext)
]

unfoldable pub write_header : Header → Sink → Option Error × Sink
write_header h w = elim (header_bytes h) [
  | none ↦ (some header_length_unexpected, w)
  | some bts ↦ write bts w
]

abbrev pub then_write : Bytes → Option Error × Sink → Option Error × Sink
then_write p (none, w) = write p w
then_write p (some e, w) = (some e, w)

unfoldable pub write_frame : Frame → Sink → Option Error × Sink
write_frame f w = then_write f.payload (write_header f.header w)

-- A bytes.Buffer accepts every write.
unfoldable pub compile_frame : Frame → Bytes × Option Error
compile_frame f = let (err, buf) = write_frame f fresh in (written buf, err)

abbrev pub or_panic : Bytes × Option Error → Option Bytes
or_panic (bts, none) = some bts
or_panic (bts, some e) = none

-- `none` is the panic.
unfoldable pub must_compile_frame : Frame → Option Bytes
must_compile_frame f = or_panic (compile_frame f)
