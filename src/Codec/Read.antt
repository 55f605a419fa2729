-- ===== src/Codec/Read.antt =====
-- read.go: `ReadHeader` and `ReadFrame`.
use mogusocket.Common.{
  ℕ, ◌+◌, ◌/◌, ◌^◌, not, Option, none, some, ◌-◌, ◌++◌, replicate, [], bit_and, Bytes, length,
  get_or, take, drop, ◌==◌, ltb, if◌then◌else◌,
}
use mogusocket.Common.Words.{ℤ, pos, negsuc, to_i64, get_be}
use mogusocket.Cipher.{Mask}
use mogusocket.Errors.{Error, header_length_msb, header_length_unexpected}
use mogusocket.Stream.{Source, read_full}
use mogusocket.Frame.Header.{Header, Frame, zero_header}
use mogusocket.Codec.Write.{bit0}

-- `copy(h.Mask[:], bts)`
abbrev pub copy_mask : Mask → Bytes → Mask
copy_mask m bts = record {
  b0 = get_or bts 0 m.b0;
  b1 = get_or bts 1 m.b1;
  b2 = get_or bts 2 m.b2;
  b3 = get_or bts 3 m.b3;
}

-- The fields that the first two bytes give.
unfoldable pub read_head : ℕ → ℕ → Header
read_head b0 b1 = record zero_header {
  fin = not (bit_and b0 bit0 == 0);
  rsv = bit_and b0 0x70 / 2 ^ 4;
  op_code = bit_and b0 0x0f;
  masked = not (bit_and b1 bit0 == 0);
}

unfoldable pub with_mask : Header → Bytes → Header
with_mask h bts = if h.masked then record h { mask = copy_mask h.mask bts } else h

-- The second `switch` and what follows, on the `extra` bytes.
unfoldable pub read_extra : Header → ℕ → Bytes → Header × Option Error
unfolding with_mask
read_extra h len bts =
    if len == 126
    then (with_mask (record h { len = pos (get_be (take 2 bts)) }) (drop 2 bts), none)
    else if len == 127
    then (if not (bit_and (get_or bts 0 0) 0x80 == 0)
        then (h, some header_length_msb)
        else (with_mask (record h { len = to_i64 (get_be (take 8 bts)) }) (drop 8 bts), none))
    else (with_mask h bts, none)

-- The second read: the bytes read, its error, the reader.
abbrev pub after_extra : Header → ℕ → Bytes × Option Error × Source → Header × Option Error × Source
after_extra h len (bts, none, r) = let (h', err) = read_extra h len bts in (h', err, r)
after_extra h len (bts, some e, r) = (h, some e, r)

-- The first `switch` on the length field `len`, with the header so far.
unfoldable pub read_sized : Header → ℕ → Source → Header × Option Error × Source
read_sized h len r =
    let extra : ℕ = if h.masked then 4 else 0 in
    if ltb len 126
    then (let h' = record h { len = pos len } in
        if extra == 0 then (h', none, r) else after_extra h' len (read_full extra r))
    else if len == 126
    then after_extra h len (read_full (extra + 2) r)
    else if len == 127
    then after_extra h len (read_full (extra + 8) r)
    else (h, some header_length_unexpected, r)

-- Behind the first read, with `bts[0]` and `bts[1]`.
unfoldable pub read_rest : ℕ → ℕ → Source → Header × Option Error × Source
read_rest b0 b1 r = read_sized (read_head b0 b1) (bit_and b1 0x7f) r

abbrev pub after_head : Bytes × Option Error × Source → Header × Option Error × Source
after_head (bts, none, r) = read_rest (get_or bts 0 0) (get_or bts 1 0) r
after_head (bts, some e, r) = (zero_header, some e, r)

-- The header, the error (`none` is nil) and the reader afterwards.
unfoldable pub read_header : Source → Header × Option Error × Source
read_header r = after_head (read_full 2 r)

-- The slice has `n` bytes from the start; those that were not read are zero.
abbrev pub with_payload : Header → ℕ → Bytes × Option Error × Source → Frame × Option Error × Source
with_payload h n (bts, err, r) =
    (record { header = h; payload = bts ++ replicate (n - length bts) 0 }, err, r)

abbrev pub read_payload : Header → ℤ → Source → Frame × Option Error × Source
read_payload h (pos n) r =
    if ltb 0 n
    then with_payload h n (read_full n r)
    else (record { header = h; payload = [] }, none, r)
read_payload h (negsuc n) r = (record { header = h; payload = [] }, none, r)

abbrev pub after_header : Header × Option Error × Source → Frame × Option Error × Source
after_header (h, none, r) = read_payload h h.len r
after_header (h, some e, r) = (record { header = h; payload = [] }, some e, r)

unfoldable pub read_frame : Source → Frame × Option Error × Source
read_frame r = after_header (read_header r)

abbrev pub frame_or_panic : Frame × Option Error × Source → Option (Frame × Source)
frame_or_panic (f, none, r) = some (f, r)
frame_or_panic (f, some e, r) = none

-- `none` is the panic.
unfoldable pub must_read_frame : Source → Option (Frame × Source)
must_read_frame r = frame_or_panic (read_frame r)
