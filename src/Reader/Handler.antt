-- ===== src/Reader/Handler.antt =====
-- msutil/handler.go: `ControlHandler`, which answers control frames.
use mogusocket.Common.{
  ℕ, ◌+◌, Bool, true, not, ◌&&◌, Option, none, some, List, [], ◌∷◌, Bytes, length, take, ◌==◌,
  if◌then◌else◌,
}
use mogusocket.Cipher.{Mask, cipher}
use mogusocket.Errors.{Error, ProtocolError, protocol, closed, not_control_frame}
use mogusocket.Stream.{Source, Sink, read_full}
use mogusocket.Frame.Header.{Header, zero_header, op_close, op_ping, op_pong}
use mogusocket.Frame.Status.{status_protocol_error, status_no_status_rcvd}
use mogusocket.Frame.Build.{
  new_close_frame, new_close_frame_body, mask_frame_in_place, parse_close_frame_data,
}
use mogusocket.Check.{server_side, client_side, check_close_frame_data}
use mogusocket.Codec.Write.{write_header, write_frame}
use mogusocket.Writer.Result.{Result, ok, panic, ◌>>=◌}
use mogusocket.Writer.Buffer.{header_size_of, plus_ℤ}
use mogusocket.Writer.Control.{
  ControlWriter, new_control_writer_buffer, control_write, control_flush,
}
use mogusocket.Reader.Body.{copy_error}

pub record ControlHandler : Type 0 where
  pub src : Source
  pub dst : Sink
  pub state : ℕ
  pub disable_src_ciphering : Bool

-- The chunks of a source as a CipherReader hands them out.
unfoldable pub cipher_chunks : Mask → ℕ → List Bytes → List Bytes
cipher_chunks m p [] = []
cipher_chunks m p (c ∷ cs) = cipher c m p ∷ cipher_chunks m (p + length c) cs

-- `r`, the source or a CipherReader over it.
unfoldable pub unmasked : Header → ControlHandler → Source
unfolding cipher_chunks
unmasked h c =
    if server_side c.state && not c.disable_src_ciphering
    then record c.src { chunks = cipher_chunks h.mask 0 c.src.chunks }
    else c.src

-- The answer to an empty frame: a header, masked with zeros on the client's side.
unfoldable pub empty_header : ℕ → ℕ → Header
empty_header state op = record zero_header { fin = true; op_code = op; masked = client_side state }

abbrev pub ended : Error → ControlWriter → Option Error × ControlWriter
ended last w = (copy_error last, w)

abbrev pub next_write :
    (ControlWriter → Result (Option Error × ControlWriter))
    → ℕ × Option Error × ControlWriter
    → Result (Option Error × ControlWriter)
next_write more (n, none, w) = more w
next_write more (n, some e, w) = ok (some e, w)

-- The loop of io.Copy(w, r); nothing is written for an empty read.
unfoldable pub copy_chunks :
    ℕ → List Bytes → Error → ControlWriter → Result (Option Error × ControlWriter)
copy_chunks fuel [] last w = ok (ended last w)
copy_chunks fuel (c ∷ cs) last w =
    let skip = copy_chunks fuel cs last w in
    let go = control_write fuel c w >>= next_write (copy_chunks fuel cs last) in
    if length c == 0 then skip else go

abbrev pub flushed : Option Error × ControlWriter → Result (Option Error × ControlWriter)
flushed (none, w) = control_flush w
flushed (some e, w) = ok (some e, w)

-- The error and what the connection has taken.
abbrev pub answered : Option Error × ControlWriter → Result (Option Error × Sink)
answered (e, w) = ok (e, w.w.dest)

-- `random` are the numbers of rand.Uint32; `get_len` is pbytes.GetLen of the pool, which hands out a
-- slice of the given length with any contents; `fuel` bounds the rounds of each Write.
module _ (random : ℕ → ℕ) (get_len : ℕ → Bytes) (fuel : ℕ) where
  unfoldable pub handle_ping : ℕ → Header → ControlHandler → Result (Option Error × Sink)
  unfolding copy_chunks unmasked
  handle_ping len h c =
      let p = get_len (plus_ℤ len (header_size_of c.state len)) in
      let r = unmasked h c in
      let reply : Result (Option Error × Sink) = (do
        w ← new_control_writer_buffer random c.dst c.state op_pong p
        ew ← copy_chunks fuel r.chunks r.last w
        fw ← flushed ew
        answered fw) in
      if len == 0 then ok (write_header (empty_header c.state op_pong) c.dst) else reply

  -- A pong is read and dropped.
  unfoldable pub handle_pong : ℕ → ControlHandler → Option Error × Source
  handle_pong len c =
      if len == 0 then (none, c.src) else (copy_error c.src.last, record c.src { chunks = [] })

  -- `message` is the `Error()` of a protocol error. The code masks the payload in place and drops
  -- the frame that MaskFrameInPlace returns, so the header stays unmasked.
  unfoldable pub close_with_protocol_error : Bytes → ControlHandler → Result (Option Error × Sink)
  close_with_protocol_error message c = elim (new_close_frame_body status_protocol_error message) [
    | none ↦ panic
    | some body ↦
        (let f = new_close_frame body in
          let masked_payload = (mask_frame_in_place (random 0) f).1 in
          ok (
            write_frame (if client_side c.state then record f { payload = masked_payload } else f)
              c.dst))
  ]

  abbrev pub then_closed : ℕ → Bytes → Option Error × Sink → Option Error × Sink
  then_closed code reason (none, d) = (some (closed code reason), d)
  then_closed code reason (some e, d) = (some e, d)

  abbrev pub write_code : Bytes → ControlWriter → Result (Option Error × ControlWriter)
  write_code subp w = control_write fuel (take 2 subp) w >>= next_write (λ v. control_flush v)

  -- The answer to a close frame with the payload `subp`, by a writer over the bytes `p`.
  unfoldable pub answer_close :
      (Bytes → Bool)
      → (ProtocolError → Bytes)
      → Bytes
      → Bytes
      → ControlHandler
      → Result (Option Error × Sink)
  unfolding close_with_protocol_error
  answer_close valid_string message subp p c =
      let (code, reason) = parse_close_frame_data subp in
      let reply : Result (Option Error × Sink) = (do
        w ← new_control_writer_buffer random c.dst c.state op_close p
        ew ← write_code subp w
        ed ← answered ew
        ok (then_closed code reason ed)) in
      elim (check_close_frame_data valid_string code reason) [
        | some e ↦
            close_with_protocol_error (message e) c >>= λ (sent, d). ok (some (protocol e), d)
        | none ↦ reply
      ]

  abbrev pub after_payload :
      (Bytes → Bool)
      → (ProtocolError → Bytes)
      → Bytes
      → ControlHandler
      → Bytes × Option Error × Source
      → Result (Option Error × Sink)
  after_payload valid_string message p c (subp, some e, r) = ok (some e, c.dst)
  after_payload valid_string message p c (subp, none, r) =
      answer_close valid_string message subp p c

  unfoldable pub handle_close :
      (Bytes → Bool)
      → (ProtocolError → Bytes)
      → ℕ
      → Header
      → ControlHandler
      → Result (Option Error × Sink)
  unfolding answer_close unmasked
  handle_close valid_string message len h c =
      let p = get_len (plus_ℤ len (header_size_of c.state len)) in
      if len == 0
      then ok (
          then_closed status_no_status_rcvd [] (write_header (empty_header c.state op_close) c.dst))
      else after_payload valid_string message p c (read_full len (unmasked h c))

  -- `Handle`; a header that ReadHeader returned has no negative length.
  unfoldable pub handle :
      (Bytes → Bool)
      → (ProtocolError → Bytes)
      → ℕ
      → Header
      → ControlHandler
      → Result (Option Error × Sink)
  unfolding handle_ping handle_pong handle_close
  handle valid_string message len h c =
      if h.op_code == op_ping
      then handle_ping len h c
      else if h.op_code == op_pong
      then ok ((handle_pong len c).0, c.dst)
      else if h.op_code == op_close
      then handle_close valid_string message len h c
      else ok (some not_control_frame, c.dst)
