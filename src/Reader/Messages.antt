-- ===== src/Reader/Messages.antt =====
-- msutil/reader.go: `Reader` with `NextFrame`, `Read` and `Discard`.
use mogusocket.Common.{
  ℕ, zero, suc, Bool, true, false, not, ◌&&◌, ◌||◌, Option, none, some, List, [], ◌∷◌, Bytes, ltb,
  ◌==◌, if◌then◌else◌,
}
use mogusocket.Common.Words.{ℤ, pos, negsuc, le_ℤ}
use mogusocket.Errors.{
  Error, eof, unexpected_eof, protocol, no_frame_advance, frame_too_large, invalid_utf8,
}
use mogusocket.Stream.{Source}
use mogusocket.Frame.Header.{Header, op_continuation, op_text, is_control}
use mogusocket.Check.{
  check_header, fragmented, state_set, state_clear, state_fragmented, state_server_side,
  state_client_side,
}
use mogusocket.Codec.Read.{read_header}
use mogusocket.Utf8.Reader.{new_utf8_reader, valid, accepted_bytes}
use mogusocket.Writer.Result.{Result, ok, stuck, ◌>>=◌}
use mogusocket.Reader.Body.{Body, body_read, drain}

-- `UnsetBits` of an extension (extenstion.go).
abbrev pub RecvExtension : Type 0
RecvExtension = Header → Header × Option Error

-- `FrameHandlerFunc`; `S` is what the callbacks of the application work on.
abbrev pub FrameHandlerFunc : Type 0 → Type 0
FrameHandlerFunc S = Header → Body → S → Option Error × Body × S

-- `body.source` is `Source`; `has_frame` tells whether `frame` is nil. A MaxFrameSize of 0 is none.
pub record Reader (S : Type 0) : Type 0 where
  pub body : Body
  pub state : ℕ
  pub skip_header_check : Bool
  pub check_utf8 : Bool
  pub extensions : List RecvExtension
  pub max_frame_size : ℕ
  pub on_continuation : Option (FrameHandlerFunc S)
  pub on_intermediate : Option (FrameHandlerFunc S)
  pub op_code : ℕ
  pub has_frame : Bool
  pub store : S

-- ReadHeader returns no negative length.
abbrev pub limit : ℤ → ℕ
limit (pos n) = n
limit (negsuc n) = 0

-- `raw`, and the CipherReader of a masked frame.
unfoldable pub frame_body : Header → Body → Body
frame_body hdr b = record b {
  left = limit hdr.len;
  ciphered = if hdr.masked then some (hdr.mask, 0) else none;
  checking = false;
}

-- The loop over the extensions, with its early return.
unfoldable pub unset_bits : List RecvExtension → Header → Header × Option Error
unset_bits [] h = (h, none)
unset_bits (x ∷ xs) h =
    let (h', e) = x h in
    let rest = unset_bits xs h' in elim e [ none ↦ rest | some e' ↦ (h', some e') ]

module _ {S : Type 0} where
  unfoldable pub new_reader : Source → ℕ → S → Reader S
  new_reader src s store = record {
    body = record {
      source = src;
      left = 0;
      ciphered = none;
      checking = false;
      utf8 = new_utf8_reader src;
    };
    state = s;
    skip_header_check = false;
    check_utf8 = false;
    extensions = [];
    max_frame_size = 0;
    on_continuation = none;
    on_intermediate = none;
    op_code = 0;
    has_frame = false;
    store = store;
  }

  unfoldable pub new_client_side_reader : Source → S → Reader S
  unfolding new_reader
  new_client_side_reader src store = new_reader src state_client_side store

  unfoldable pub new_server_side_reader : Source → S → Reader S
  unfolding new_reader
  new_server_side_reader src store = new_reader src state_server_side store

  -- The utf8 reader keeps its state.
  unfoldable pub reset_fragment : Reader S → Reader S
  reset_fragment r = record r {
    body = record r.body { left = 0; ciphered = none; checking = false };
    has_frame = false;
  }

  unfoldable pub reset_message : Reader S → Reader S
  reset_message r = record r {
    body = record r.body {
      left = 0;
      ciphered = none;
      checking = false;
      utf8 = new_utf8_reader r.body.source;
    };
    has_frame = false;
    op_code = 0;
  }

  -- The errors of `NextFrame` before a frame is set up.
  unfoldable pub header_error : Header → Option Error → Reader S → Option Error
  header_error hdr (some eof) r = some (if fragmented r.state then unexpected_eof else eof)
  header_error hdr (some e) r = some e
  header_error hdr none r =
      let refused : Option Error =
        if r.skip_header_check
        then none
        else elim (check_header hdr r.state) [ none ↦ none | some e ↦ some (protocol e) ] in
      elim refused [
        | some e ↦ some e
        | none ↦
            if ltb 0 r.max_frame_size && not (le_ℤ hdr.len r.max_frame_size)
            then some frame_too_large
            else none
      ]

  abbrev pub called : Reader S → Option Error × Body × S → Option Error × Reader S
  called r (err, b, store) = (err, record r { body = b; store = store })

  abbrev pub call : Option (FrameHandlerFunc S) → Header → Reader S → Option Error × Reader S
  call none hdr r = (none, r)
  call (some cb) hdr r = called r (cb hdr r.body r.store)

  abbrev pub drained : Reader S → Option Error × Body → Option Error × Reader S
  drained r (err, b) = (err, record r { body = b })

  -- A control frame between the fragments of a message.
  abbrev pub finish_intermediate : Option Error × Reader S → Option Error × Reader S
  finish_intermediate (none, r) = drained r (drain r.body)
  finish_intermediate (some e, r) = (some e, r)

  unfoldable pub intermediate : Header → Reader S → Option Error × Reader S
  intermediate hdr r = finish_intermediate (call r.on_intermediate hdr r)

  abbrev pub advance : Header → Option Error × Reader S → Option Error × Reader S
  advance hdr (err, r) = (
    err,
    record r {
      state =
          if hdr.fin
          then state_clear r.state state_fragmented
          else state_set r.state state_fragmented;
    },
  )

  -- A frame that carries a part of a message.
  unfoldable pub begin_frame : Header → Reader S → Option Error × Reader S
  begin_frame hdr r =
      let check =
        r.check_utf8 && (hdr.op_code == op_text || (fragmented r.state && r.op_code == op_text)) in
      let r' = record r { has_frame = true; body = record r.body { checking = check } } in
      advance hdr
        (if hdr.op_code == op_continuation then call r'.on_continuation hdr r' else (none, r'))

  unfoldable pub dispatch : Header → Reader S → Option Error × Reader S
  unfolding intermediate begin_frame
  dispatch hdr r =
      if fragmented r.state && is_control hdr.op_code
      then intermediate hdr r
      else if fragmented r.state
      then begin_frame hdr r
      else begin_frame hdr (record r { op_code = hdr.op_code })

  abbrev pub with_bits : Reader S → Header × Option Error → Header × Option Error × Reader S
  with_bits r (hdr, some e) = (hdr, some e, r)
  with_bits r (hdr, none) = let (err, r') = dispatch hdr r in (hdr, err, r')

  abbrev pub with_header :
      Reader S → Header × Option Error × Source → Header × Option Error × Reader S
  with_header r (hdr, err, src) =
      let r' = record r { body = record r.body { source = src } } in
      elim (header_error hdr err r') [
        | some e ↦ (hdr, some e, r')
        | none ↦
            with_bits (record r' { body = frame_body hdr r'.body }) (unset_bits r'.extensions hdr)
      ]

  unfoldable pub next_frame : Reader S → Header × Option Error × Reader S
  next_frame r = with_header r (read_header r.body.source)

  -- `Read` after `r.frame.Read(p)` came to the end of the frame.
  unfoldable pub at_end : ℕ → Bytes → Reader S → ℕ × Bytes × Option Error × Reader S
  unfolding reset_fragment reset_message
  at_end n bs r =
      if not (r.body.left == 0)
      then (n, bs, some unexpected_eof, r)
      else if fragmented r.state
      then (n, bs, none, reset_fragment r)
      else if r.check_utf8 && not (valid r.body.utf8)
      then (accepted_bytes r.body.utf8, bs, some invalid_utf8, r)
      else (n, bs, some eof, reset_message r)

  abbrev pub after_body :
      Reader S → ℕ × Bytes × Option Error × Body → ℕ × Bytes × Option Error × Reader S
  after_body r (n, bs, none, b) =
      let r' = record r { body = b } in
      let ended = at_end n bs r' in if b.left == 0 then ended else (n, bs, none, r')
  after_body r (n, bs, some eof, b) = at_end n bs (record r { body = b })
  after_body r (n, bs, some e, b) = (n, bs, some e, record r { body = b })

  abbrev pub after_next : ℕ → Header × Option Error × Reader S → ℕ × Bytes × Option Error × Reader S
  after_next n (hdr, some e, r) = (0, [], some e, r)
  after_next n (hdr, none, r) =
      let got = after_body r (body_read n r.body) in if r.has_frame then got else (0, [], none, r)

  -- `Read(p)` with len(p) = n.
  unfoldable pub read_message : ℕ → Reader S → ℕ × Bytes × Option Error × Reader S
  read_message n r =
      let here = after_body r (body_read n r.body) in
      let next = after_next n (next_frame r) in
      if r.has_frame
      then here
      else if fragmented r.state
      then next
      else (0, [], some no_frame_advance, r)

  -- The loop of `Discard` in at most `fuel` rounds, without the `reset` behind it.
  unfoldable pub discard_loop : ℕ → Reader S → Result (Option Error × Reader S)
  discard_loop zero r = stuck
  discard_loop (suc fuel) r =
      let (err, b) = drain r.body in
      let r' = record r { body = b } in
      let (hdr, err', r'') = next_frame r' in
      let rest = discard_loop fuel r'' in
      elim err [
        | some e ↦ ok (some e, r')
        | none ↦
            if not (fragmented r'.state)
            then ok (none, r')
            else elim err' [ some e ↦ ok (some e, r'') | none ↦ rest ]
      ]

  unfoldable pub discard : ℕ → Reader S → Result (Option Error × Reader S)
  unfolding discard_loop reset_message
  discard fuel r = discard_loop fuel r >>= λ (err, r'). ok (err, reset_message r')

  unfoldable pub next_reader : Source → ℕ → S → Header × Option Error × Reader S
  unfolding new_reader
  next_reader src s store = next_frame (new_reader src s store)
