-- ===== src/Codec/Frames.antt =====
-- Headers and frames through a writer and a reader.
use mogusocket.Common.{
  ℕ, ◌-◌, ◌≡◌, refl, sym, ap, ◌∙◌, Option, none, some, [], ◌∷◌, ◌++◌, append-nil, append_assoc,
  arith, Bytes, length, replicate,
}
use mogusocket.Common.Words.{ℤ, pos}
use mogusocket.Errors.{Error}
use mogusocket.Stream.{Source, content, Sink, write, written}
use mogusocket.Stream.Laws.{read_full-Reads, write_ok}
use mogusocket.Frame.Header.{Header, Frame}
use mogusocket.Codec.Write.{header_bytes, header_size, write_header, write_frame, then_write}
use mogusocket.Codec.Read.{read_header, read_frame, after_header, read_payload}
use mogusocket.Codec.Extra.{IsWire, Decodes}
use mogusocket.Codec.RoundTrip.{Encoding, header-Encoding}

write_header_lem :
    (h : Header) (bts : Bytes) (s : Sink)
    → header_bytes h ≡ some bts
    → write_header h s ≡ write bts s
unfolding write_header
write_header_lem h bts s e = rw (e, write_header)

-- For a header with an RSV below 8, an opcode below 16, a length from 0 to below 2^63 and a mask of
-- four bytes, all zero where the header is not masked: what `WriteHeader` sends without an error is
-- `HeaderSize` bytes, which `ReadHeader` reads back as the same header, whatever follows and however
-- the reader cuts the bytes.
pub read_header-write_header :
    (h : Header) (s : Sink)
    → IsWire h
    → (write_header h s).0 ≡ none
    → (bts : Bytes) × (written (write_header h s).1 ≡ written s ++ bts)
      × (header_size h ≡ pos (length bts))
      × ((r : Source) (rest : Bytes) → content r ≡ bts ++ rest → Decodes h rest r (read_header r))
read_header-write_header h s w sent =
    let e = header-Encoding h w in
    let same = write_header_lem h e.bytes s e.encodes in
    (
      e.bytes,
      ap (λ (x : Option Error × Sink). written x.1) same
          ∙ write_ok e.bytes s (sym (ap (λ (x : Option Error × Sink). x.0) same) ∙ sent),
      e.sizes,
      e.decodes,
    )

-- A frame whose header the wire can carry and states the length of its payload.
pub record IsWireFrame (f : Frame) : Type 0 where
  pub wire : IsWire f.header
  pub counted : f.header.len ≡ pos (length f.payload)

-- `x` is a successful read of the frame `f`, and `rest` is still to come.
pub record DecodesFrame (f : Frame) (rest : Bytes) (r : Source) (x : Frame × Option Error × Source)
    : Type 0 where
  pub after : Source
  pub result : x ≡ (f, none, after)
  pub remains : content after ≡ rest
  pub same_last : after.last ≡ r.last

replicate_none : (n : ℕ) → replicate {A = ℕ} (n - n) 0 ≡ []
replicate_none n = let e : n - n ≡ 0 = omega arith in rw e

read_payload-DecodesFrame :
    (f : Frame) (r : Source) (rest : Bytes)
    → content r ≡ f.payload ++ rest
    → DecodesFrame f rest r (read_payload f.header (pos (length f.payload)) r)
read_payload-DecodesFrame f r rest e = go f.payload refl
  where
    go :
        (p : Bytes)
        → f.payload ≡ p
        → DecodesFrame f rest r (read_payload f.header (pos (length f.payload)) r)
    go [] z = record {
      after = r;
      result = ground (arith, z);
      remains = e ∙ ap (λ (t : Bytes). t ++ rest) z;
      same_last = refl;
    }
    go (b ∷ bs) z =
        let d = read_full-Reads (length f.payload) r f.payload rest e refl in
        record {
          after = d.after;
          result =
              ground (arith, z, d.result, replicate_none (length f.payload), append-nil f.payload);
          remains = d.remains;
          same_last = d.same_last;
        }

read_frame-Encoding :
    (f : Frame) (w : IsWireFrame f) (e : Encoding f.header) (r : Source) (rest : Bytes)
    → content r ≡ e.bytes ++ (f.payload ++ rest)
    → DecodesFrame f rest r (read_frame r)
unfolding read_frame
read_frame-Encoding f w e r rest c =
    let d = e.decodes r (f.payload ++ rest) c in
    let p = read_payload-DecodesFrame f d.after rest d.remains in
    record {
      after = p.after;
      result =
          ap after_header d.result
          ∙ ap (λ (n : ℤ). read_payload f.header n d.after) w.counted
          ∙ p.result;
      remains = p.remains;
      same_last = p.same_last ∙ d.same_last;
    }

then_write_ok :
    (p : Bytes) (x : Option Error × Sink)
    → (then_write p x).0 ≡ none
    → (x.0 ≡ none) × (written (then_write p x).1 ≡ written x.1 ++ p)
then_write_ok p (none, s) h = (refl, write_ok p s h)
then_write_ok p (some e, s) h = cc

-- What `WriteFrame` has sent without an error is the header and the payload.
pub write_frame-Encoding :
    (f : Frame) (s : Sink) (e : Encoding f.header)
    → (write_frame f s).0 ≡ none
    → written (write_frame f s).1 ≡ written s ++ (e.bytes ++ f.payload)
unfolding write_frame
write_frame-Encoding f s e sent =
    let (head_sent, all_sent) = then_write_ok f.payload (write_header f.header s) sent in
    let same = write_header_lem f.header e.bytes s e.encodes in
    let head_bytes =
      write_ok e.bytes s (sym (ap (λ (x : Option Error × Sink). x.0) same) ∙ head_sent) in
    all_sent
    ∙ ap (λ (x : Option Error × Sink). written x.1 ++ f.payload) same
    ∙ ap (λ (t : Bytes). t ++ f.payload) head_bytes
    ∙ append_assoc (written s) e.bytes f.payload

-- For a frame with an RSV below 8, an opcode below 16, a mask of four bytes that are zero where the
-- frame is not masked, and a length below 2^63 that is the length of its payload: what `WriteFrame`
-- sends without an error, `ReadFrame` reads back as the same frame, whatever bytes follow and however
-- the reader cuts them.
pub read_frame-write_frame :
    (f : Frame) (s : Sink)
    → IsWireFrame f
    → (write_frame f s).0 ≡ none
    → (bts : Bytes) × (written (write_frame f s).1 ≡ written s ++ bts)
      × ((r : Source) (rest : Bytes)
          → content r ≡ bts ++ rest
          → DecodesFrame f rest r (read_frame r))
read_frame-write_frame f s w sent =
    let e = header-Encoding f.header w.wire in
    (
      e.bytes ++ f.payload,
      write_frame-Encoding f s e sent,
      λ r rest c. read_frame-Encoding f w e r rest (c ∙ append_assoc e.bytes f.payload rest),
    )
