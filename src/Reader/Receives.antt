-- ===== src/Reader/Receives.antt =====
-- msutil/helper.go: `ReadMessage` on what `WriteMessage` writes.
use mogusocket.Common.{
  ℕ, ◌+◌, ◌≤◌, ◌<◌, ◌≡◌, inl, inr, refl, sym, ap, ◌∙◌, Bool, true, false, Option, none, some, List,
  [], ◌∷◌, ◌++◌, append_assoc, arith, Bytes, append-nil, length, length-append, Bool-cases, ==_iff,
  ◌==◌, if◌then◌else◌,
}
use mogusocket.Common.Words.{AreBytes}
use mogusocket.Cipher.{Mask, IsMask}
use mogusocket.Errors.{Error}
use mogusocket.Stream.{Source, Sink, content, written}
use mogusocket.Frame.Header.{Header, Frame, op_continuation, op_text}
use mogusocket.Check.{
  check_header, fragmented, state_clear, state_fragmented, state_client_side, state_server_side,
}
use mogusocket.Codec.Write.{write_frame}
use mogusocket.Codec.Read.{read_header}
use mogusocket.Codec.RoundTrip.{Encoding, header-Encoding}
use mogusocket.Codec.Frames.{IsWireFrame, write_frame-Encoding}
use mogusocket.Codec.Pieces.{read_header-pieces}
use mogusocket.Utf8.Machine.{start}
use mogusocket.Utf8.Run.{run, run-encode_all}
use mogusocket.Utf8.Scalars.{IsUtf8}
use mogusocket.Writer.Result.{Result, ok, ◌>>=◌}
use mogusocket.Reader.Messages.{Reader, read_message, next_frame, frame_body, limit}
use mogusocket.Reader.Helpers.{Message}
use mogusocket.Reader.ReadMessage.{message_reader, after_first, with_payload, receive_message}
use mogusocket.Reader.Partway.{length-IsPartway, IsCipher, deciphered, weight}
use mogusocket.Reader.Payloads.{IsReading}
use mogusocket.Reader.Loops.{full_loop}
use mogusocket.Reader.Opening.{IsHelper, opened, next_frame-opened}
use mogusocket.Reader.Whole.{full_loop-Fills}

abbrev ciphering : Header → Option (Mask × ℕ)
ciphering h = if h.masked then some (h.mask, 0) else none

-- The frame `f` carries the whole message `p` to the side with the state `st`.
pub record IsWhole (f : Frame) (p : Bytes) (st : ℕ) : Type 0 where
  pub wire : IsWireFrame f
  pub accepted : check_header f.header st ≡ none
  pub final : f.header.fin ≡ true
  pub fresh : (f.header.op_code == op_continuation) ≡ false
  pub means : deciphered (ciphering f.header) f.payload ≡ p
  pub wire_bytes : AreBytes f.payload
  pub bytes : AreBytes p
  pub text : f.header.op_code ≡ op_text → IsUtf8 p
  pub between : fragmented st ≡ false
  pub stays : fragmented (state_clear st state_fragmented) ≡ false

-- `ReadMessage` has returned one message, and `rest` is what follows on the connection.
pub record Receives (m : List Message) (msg : Message) (rest : Bytes)
    (x : Result (List Message × Option Error × Source)) : Type 0 where
  pub after : Source
  pub result : x ≡ ok (m ++ msg ∷ [], none, after)
  pub remains : content after ≡ rest

ciphers : (h : Header) → IsMask h.mask → IsCipher (ciphering h)
ciphers h m = go h.masked
  where
    go : (c : Bool) → IsCipher (if c then some (h.mask, 0) else none)
    go true = m
    go false = tt

pub run-IsUtf8_start : (p : Bytes) → IsUtf8 p → run start p ≡ start
run-IsUtf8_start p u = ap (run start) (sym u.encodes) ∙ run-encode_all u.scalars u.are_scalars

text_checks :
    (op : ℕ) (p : Bytes)
    → (op ≡ op_text → IsUtf8 p)
    → run start (if op == op_text then p ++ [] else []) ≡ start
unfolding run
text_checks op p text = elim (Bool-cases (op == op_text)) [
  | inl e ↦ rw (e, append-nil p) (run-IsUtf8_start p (text ((==_iff op op_text).0 e)))
  | inr e ↦ rw e refl
]

pub opened-IsReading :
    {S : Type 0} (f : Frame) (p rest : Bytes) (st : ℕ) (after : Source) (r : Reader S)
    → IsWhole f p st
    → content after ≡ f.payload ++ rest
    → r.body.utf8.state ≡ 0
    → IsReading (opened f.header after r) p [] rest
unfolding frame_body
opened-IsReading f p rest st after r w arrives clean = record {
  wire = f.payload;
  partway = record {
    arrives = arrives;
    counted = ap limit w.wire.counted;
    means = w.means;
    ciphers = ciphers f.header w.wire.wire.mask_is;
    wire_bytes = w.wire_bytes;
    bytes = w.bytes;
    state = start;
    state_is = clean;
    valid_from = text_checks f.header.op_code p w.text;
  };
  in_frame = refl;
  continues = λ e. refl;
}

one_frame :
    (room : ℕ → ℕ) (fuel : ℕ) (h : Header) (r : Reader (Result (List Message)))
    → h.fin ≡ true
    → after_first room fuel (h, none, r)
      ≡ (full_loop read_message fuel (limit h.len) [] r >>= with_payload room fuel h.op_code)
one_frame room fuel h r final = rw final refl

pub with_payload-ok :
    (room : ℕ → ℕ) (fuel op : ℕ) (p : Bytes) (m : List Message) (r : Reader (Result (List Message)))
    → r.store ≡ ok m
    → with_payload room fuel op (p, none, r)
      ≡ ok (m ++ record { op_code = op; payload = p } ∷ [], none, r.body.source)
with_payload-ok room fuel op p m r kept =
    ap (λ x. x >>= λ ms. ok (ms ++ record { op_code = op; payload = p } ∷ [], none, r.body.source))
      kept

pub receive_message-frame :
    (room : ℕ → ℕ) (fuel st : ℕ) (f : Frame) (p rest : Bytes) (m : List Message)
    (src after : Source)
    → IsWhole f p st
    → read_header src ≡ (f.header, none, after)
    → content after ≡ f.payload ++ rest
    → weight after < fuel
    → Receives m
        (record { op_code = f.header.op_code; payload = p })
        rest
        (receive_message room fuel src st m)
unfolding receive_message message_reader mogusocket.Reader.Messages.new_reader
    mogusocket.Utf8.Reader.new_utf8_reader frame_body
receive_message-frame room fuel st f p rest m src after w reads arrives enough =
    let r = message_reader room fuel src st m in
    let helper : IsHelper r = record {
      checks = refl;
      plain = refl;
      no_limit = refl;
      texts = refl;
      silent = refl;
    } in
    let r' = opened f.header after r in
    let first : next_frame r ≡ (f.header, none, r') =
      next_frame-opened f.header after r helper reads w.accepted w.between w.fresh in
    let still : fragmented r'.state ≡ false =
      ap
        (λ (c : Bool). fragmented (
          if c
          then state_clear st state_fragmented
          else mogusocket.Check.state_set st state_fragmented))
        w.final
      ∙ w.stays in
    let s = opened-IsReading f p rest st after r w arrives refl in
    let counted : limit f.header.len ≡ 0 + length p =
      omega (arith, s.partway.counted, length-IsPartway r'.body s.wire p [] rest s.partway) in
    let fills = full_loop-Fills fuel (limit f.header.len) [] p rest r' s still counted enough in
    record {
      after = fills.after.body.source;
      result =
          ap (after_first room fuel) first
          ∙ one_frame room fuel f.header r' w.final
          ∙ ap (λ x. x >>= with_payload room fuel f.header.op_code) fills.result
          ∙ with_payload-ok room fuel f.header.op_code p m fills.after fills.same_store;
      remains = fills.arrives;
    }

-- `ReadHeader` on the bytes of a frame, which leaves the payload and no more to read than before.
pub read_header-frame :
    (f : Frame) (e : Encoding f.header) (src : Source) (rest : Bytes)
    → content src ≡ (e.bytes ++ f.payload) ++ rest
    → (after : Source) × (read_header src ≡ (f.header, none, after))
      × (content after ≡ f.payload ++ rest)
      × (weight after + length e.bytes ≤ weight src)
read_header-frame f e src rest c =
    let c' = c ∙ append_assoc e.bytes f.payload rest in
    let d = e.decodes src (f.payload ++ rest) c' in
    (
      d.after,
      d.result,
      d.remains,
      omega (
        arith,
        ap (λ x. length x.2.chunks) d.result,
        read_header-pieces src,
        ap length c',
        ap length d.remains,
        length-append e.bytes (f.payload ++ rest),
      ),
    )

-- A frame on its way: what `WriteFrame` sends of it, `ReadMessage` returns as one message.
pub receive_message-write_frame :
    (st : ℕ) (f : Frame) (p : Bytes) (w : Sink)
    → IsWhole f p st
    → (write_frame f w).0 ≡ none
    → (bts : Bytes) × (written (write_frame f w).1 ≡ written w ++ bts)
      × ((room : ℕ → ℕ) (fuel : ℕ) (m : List Message) (src : Source) (rest : Bytes)
          → content src ≡ bts ++ rest
          → weight src < fuel
          → Receives m
              (record { op_code = f.header.op_code; payload = p })
              rest
              (receive_message room fuel src st m))
receive_message-write_frame st f p w whole sent =
    let e = header-Encoding f.header whole.wire.wire in
    (
      e.bytes ++ f.payload,
      write_frame-Encoding f w e sent,
      λ room fuel m src rest c enough.
          let (after, reads, arrives, lighter) = read_header-frame f e src rest c in
          receive_message-frame room fuel st f p rest m src after whole reads arrives
            (omega (arith, enough, lighter)),
    )
