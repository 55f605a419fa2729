-- ===== src/Writer/Progress.antt =====
-- msutil/writer.go: a server's writer in the middle of a message.
use mogusocket.Common.{
  ℕ, zero, suc, ◌+◌, ◌-◌, ◌≤◌, ◌<◌, ◌^◌, ◌≡◌, refl, sym, ap, ◌∙◌, Bool, false, Option, none, List,
  [], ◌∷◌, ◌++◌, arith, Bytes, length, take, drop, ltb, length-append, if◌then◌else◌, length-take,
  length-drop, take_all, drop-append_left,
}
use mogusocket.Common.Words.{pos}
use mogusocket.Cipher.{put_at}
use mogusocket.Errors.{Error}
use mogusocket.Stream.{Sink, written, flatten}
use mogusocket.Stream.Laws.{take-length-append}
use mogusocket.Check.{client_side}
use mogusocket.Codec.Write.{header_bytes, header_size}
use mogusocket.Frame.Header.{op_continuation}
use mogusocket.Writer.Result.{ok}
use mogusocket.Writer.Buffer.{Writer, reserve, header_size_of}
use mogusocket.Writer.Flush.{pending, op_code_of, flush_frame}
use mogusocket.Writer.Laws.{Fits, reserve-Fits}
use mogusocket.Writer.Sending.{flush_frame-sent_once, flush_header, take_both}
use mogusocket.Writer.Fragments.{
  op_at, fragment_header, AreFragments, Heading, fragment-Heading, write_accepts,
}

-- A server's writer without extensions and without an error, over a writer that accepts everything.
pub record IsPlain (w : Writer) : Type 0 where
  pub server : client_side w.state ≡ false
  pub plain : w.extensions ≡ []
  pub flushes : w.no_flush ≡ false
  pub works : w.err ≡ none
  pub always : w.dest.plan ≡ []
  pub small_op : w.op < 16
  pub reserved : w.offset ≡ reserve w.state (length w.raw)
  pub room : w.offset + w.n ≤ length w.raw
  pub small : length w.raw < 2 ^ 63

-- Behind the bytes `before`, the frames with the payloads `sent` of one message are on the wire, and
-- they and what the buffer holds are the bytes `given`.
pub record IsWriting (before : Bytes) (op : ℕ) (sent : List Bytes) (given : Bytes) (w : Writer)
    : Type 0 where
  pub is_plain : IsPlain w
  pub same_op : w.op ≡ op
  pub count : w.fseq ≡ length sent
  pub frames : Bytes
  pub on_wire : written w.dest ≡ before ++ frames
  pub are_frames : AreFragments op 0 sent frames
  pub kept : flatten sent ++ pending w ≡ given

drop-take_sum : (xs : Bytes) (k n : ℕ) → drop k (take (k + n) xs) ≡ take n (drop k xs)
drop-take_sum xs zero n = ap (λ (i : ℕ). take i xs) (omega arith)
drop-take_sum [] (suc k) n =
    let left : take {A = ℕ} (suc k + n) [] ≡ [] = take_all (suc k + n) [] (omega arith) in
    let right : take {A = ℕ} n [] ≡ [] = take_all n [] (omega arith) in rw (left, right) refl
drop-take_sum (x ∷ xs) (suc k) n =
    let sum : suc k + n ≡ suc (k + n) = omega arith in rw sum (drop-take_sum xs k n)

-- Bytes put behind the first `n` of the buffer.
pub take-drop-put_at :
    (raw bs : Bytes) (offset n : ℕ)
    → offset + n + length bs ≤ length raw
    → take (n + length bs) (drop offset (put_at raw (offset + n) bs))
      ≡ take n (drop offset raw) ++ bs
take-drop-put_at raw bs offset n room =
    let rest = bs ++ drop (offset + n + length bs) raw in
    let filled : length (take (offset + n) raw) ≡ offset + n =
      omega (arith, length-take (offset + n) raw) in
    let front : length (take n (drop offset raw)) ≡ n =
      omega (arith, length-take n (drop offset raw), length-drop offset raw) in
    ap (take (n + length bs)) (
      drop-append_left offset (take (offset + n) raw) rest (omega (arith, filled))
      ∙ ap (λ (t : Bytes). t ++ rest) (drop-take_sum raw offset n))
    ∙ take_both (take n (drop offset raw)) rest n (length bs) (sym front)
    ∙ ap (λ (t : Bytes). take n (drop offset raw) ++ t)
        (take-length-append bs (drop (offset + n + length bs) raw))

pub length-put_at :
    (raw bs : Bytes) (j : ℕ) → j + length bs ≤ length raw → length (put_at raw j bs) ≡ length raw
length-put_at raw bs j room = omega (
  arith,
  length-append (take j raw) (bs ++ drop (j + length bs) raw),
  length-append bs (drop (j + length bs) raw),
  length-take j raw,
  length-drop (j + length bs) raw,
)

op_code_of-op_at : (w : Writer) → op_code_of w ≡ op_at w.op w.fseq
unfolding op_code_of
op_code_of-op_at w = by_index w.fseq
  where
    by_index : (i : ℕ) → (if ltb 0 i then op_continuation else w.op) ≡ op_at w.op i
    by_index zero = refl
    by_index (suc i) = ground arith

header_size_of-fragment_header :
    (state op i : ℕ) (fin : Bool) (c : Bytes)
    → client_side state ≡ false
    → header_size_of state (length c) ≡ header_size (fragment_header op i fin c)
unfolding header_size_of header_size
header_size_of-fragment_header state op i fin c server = rw server refl

-- What is left of the writer once the header `bts` and the payload have been sent.
abbrev pub laid : Bytes → Writer → Writer
laid bts w = record w {
  raw = put_at w.raw (w.offset - length bts) bts;
  dest = record { calls = w.dest.calls ++ (bts ++ pending w) ∷ []; plan = [] };
}

module _ (before : Bytes) (op : ℕ) (sent : List Bytes) (given : Bytes) (w : Writer)
    (s : IsWriting before op sent given w) where
  pub op_code_of-IsWriting : op_code_of w ≡ op_at op (length sent)
  op_code_of-IsWriting = op_code_of-op_at w ∙ rw (s.same_op, s.count) refl

  length-pending : length (pending w) ≡ w.n
  length-pending =
      let room = s.is_plain.room in
      omega (arith, length-take w.n (drop w.offset w.raw), length-drop w.offset w.raw)

  pub pending-Heading : (fin : Bool) → Heading op (length sent) fin (pending w)
  pending-Heading fin =
      let room = s.is_plain.room in
      let small = s.is_plain.small in
      fragment-Heading op (length sent) fin (pending w) (rw s.same_op at s.is_plain.small_op)
        (omega (arith, length-pending))

  pub Heading-reserve : (fin : Bool) → length (pending-Heading fin).bytes ≤ w.offset
  Heading-reserve fin =
      let p = s.is_plain in
      let room = p.room in
      let e : header_size_of w.state w.n ≡ pos (length (pending-Heading fin).bytes) =
        ap (header_size_of w.state) (sym length-pending)
        ∙ header_size_of-fragment_header w.state op (length sent) fin (pending w) p.server
        ∙ (pending-Heading fin).sizes in
      let fits : Fits (header_size_of w.state w.n) w.offset =
        rw p.reserved (reserve-Fits w.state (length w.raw) w.n (rw p.reserved at room) p.small) in
      rw e at fits

  pub flush_frame-laid :
      (fin : Bool) → flush_frame fin w ≡ ok (none, laid (pending-Heading fin).bytes w)
  flush_frame-laid fin =
      let h = pending-Heading fin in
      let p = s.is_plain in
      let room = p.room in
      let same : flush_header fin w ≡ fragment_header op (length sent) fin (pending w) =
        ap (λ (c : ℕ). record (fragment_header op (length sent) fin (pending w)) { op_code = c })
          op_code_of-IsWriting in
      flush_frame-sent_once fin w h.bytes p.plain p.server (ap header_bytes same ∙ h.encodes)
        (ap header_size same ∙ h.sizes) (Heading-reserve fin) (omega arith)
      ∙ ap
          (λ (r : Option Error × Sink).
            ok (
              r.0,
              record w { raw = put_at w.raw (w.offset - length h.bytes) h.bytes; dest = r.1 },
            ))
          (write_accepts (h.bytes ++ pending w) w.dest p.always)
