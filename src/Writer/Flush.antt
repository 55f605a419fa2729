-- ===== src/Writer/Flush.antt =====
-- msutil/writer.go: sending what is buffered.
use mogusocket.Common.{
  ℕ, ◌+◌, ◌-◌, Bool, true, false, not, ◌&&◌, ◌||◌, Option, none, some, List, [], ◌∷◌, Bytes, length,
  take, drop, ltb, leb, ◌==◌, if◌then◌else◌,
}
use mogusocket.Common.Words.{pos, negsuc}
use mogusocket.Cipher.{cipher, put_at}
use mogusocket.Errors.{Error, not_empty}
use mogusocket.Stream.{write}
use mogusocket.Frame.Header.{Header, Frame, zero_header, op_continuation}
use mogusocket.Frame.Build.{new_mask, mask_frame_in_place}
use mogusocket.Check.{client_side}
use mogusocket.Codec.Write.{header_bytes, header_size, write_frame}
use mogusocket.Writer.Result.{Result, ok, panic, ◌>>=◌}
use mogusocket.Writer.Buffer.{Writer, SendExtension}

-- `opCode()`
unfoldable pub op_code_of : Writer → ℕ
op_code_of w = if ltb 0 w.fseq then op_continuation else w.op

-- The loop over the extensions, with its early return.
unfoldable pub set_bits : List SendExtension → Header → Header × Option Error
set_bits [] h = (h, none)
set_bits (x ∷ xs) h =
    let (h', e) = x h in
    let rest = set_bits xs h' in elim e [ none ↦ rest | some e' ↦ (h', some e') ]

abbrev pub is_nil : Option Error → Bool
is_nil none = true
is_nil (some e) = false

-- The payload in the buffer, `w.buf[:w.n]`.
abbrev pub pending : Writer → Bytes
pending w = take w.n (drop w.offset w.raw)

-- The client's part: a fresh mask, and the payload ciphered where it stands.
unfoldable pub mask_pending : Header → Writer → Header × Writer
mask_pending h w =
    if client_side w.state
    then (let m = new_mask (w.random w.draws) in
        (
          record h { masked = true; mask = m },
          record w { raw = put_at w.raw w.offset (cipher (pending w) m 0); draws = w.draws + 1 },
        ))
    else (h, w)

-- The header goes in front of the payload, at `raw[skip:offset]`, and both leave in one call.
abbrev pub send_at : Bytes → ℕ → Writer → Result (Option Error × Writer)
send_at bts skip w =
    let raw' = put_at w.raw skip bts in
    let (e, d) = write (take (w.offset + w.n - skip) (drop skip raw')) w.dest in
    ok (e, record w { raw = raw'; dest = d })

-- The header must be as long as `HeaderSize` says and fit the space, or the code panics.
unfoldable pub send_pending : Header × Writer → Result (Option Error × Writer)
send_pending (h, w) = elim (header_size h) [
  | negsuc k ↦ panic
  | pos k ↦ elim (header_bytes h) [
    | none ↦ panic
    | some bts ↦ if leb k w.offset && length bts == k then send_at bts (w.offset - k) w else panic
  ]
]

abbrev pub with_bits : Writer → Header × Option Error → Result (Option Error × Writer)
with_bits w (h, some e) = ok (some e, w)
with_bits w (h, none) = send_pending (mask_pending h w)

-- `flushFragment`
unfoldable pub flush_frame : Bool → Writer → Result (Option Error × Writer)
flush_frame fin w = with_bits w (
    set_bits w.extensions
      (record zero_header { op_code = op_code_of w; fin = fin; len = pos (length (pending w)) }))

unfoldable pub flush : Writer → Result (Option Error × Writer)
flush w =
    let sent = flush_frame true w >>= λ (e, v).
    ok (e, record v { err = e; n = 0; dirty = false; fseq = 0 }) in
    if (not w.dirty && w.n == 0) || not (is_nil w.err) then ok (w.err, w) else sent

unfoldable pub flush_fragment : Writer → Result (Option Error × Writer)
flush_fragment w =
    let sent =
      flush_frame false w >>= λ (e, v). ok (e, record v { err = e; n = 0; fseq = w.fseq + 1 }) in
    if w.n == 0 || not (is_nil w.err) then ok (w.err, w) else sent

-- The frame of `WriteThrough` behind its header.
abbrev pub through_frame : Header → Bytes → Writer → Frame × Writer
through_frame h p w =
    let f : Frame = record { header = h; payload = p } in
    if client_side w.state
    then ((mask_frame_in_place (w.random w.draws) f).0, record w { draws = w.draws + 1 })
    else (f, w)

abbrev pub send_through : Bytes → Frame × Writer → ℕ × Option Error × Writer
send_through p (f, w) =
    let (e, d) = write_frame f w.dest in
    (
      (if is_nil e then length p else 0),
      e,
      record w { dest = d; err = e; dirty = true; fseq = w.fseq + 1 },
    )

abbrev pub through_bits : Bytes → Writer → Header × Option Error → ℕ × Option Error × Writer
through_bits p w (h, some e) = (0, some e, w)
through_bits p w (h, none) = send_through p (through_frame h p w)

-- `WriteThrough`; the error of an extension is returned and not kept in `err`.
unfoldable pub write_through : Bytes → Writer → ℕ × Option Error × Writer
write_through p w =
    if not (is_nil w.err)
    then (0, w.err, w)
    else if not (w.n == 0)
    then (0, some not_empty, w)
    else through_bits p w (
        set_bits w.extensions
          (record zero_header { op_code = op_code_of w; fin = false; len = pos (length p) }))
