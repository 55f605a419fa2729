-- ===== src/Writer/Rounds.antt =====
-- msutil/writer.go: the rounds of `Write` on a server's writer in the middle of a message.
use mogusocket.Common.{
  ℕ, ◌+◌, ◌-◌, ◌<◌, ◌^◌, ◌≡◌, refl, sym, ap, ◌∙◌, Bool, true, false, Option, none, some, List, [],
  ◌∷◌, ◌++◌, append-nil, append_assoc, arith, Bytes, length, take, drop, ◌==◌, length-append,
  if◌then◌else◌,
}
use mogusocket.Cipher.{put_at}
use mogusocket.Errors.{Error}
use mogusocket.Stream.{Sink, written, flatten}
use mogusocket.Stream.Laws.{flatten-snoc}
use mogusocket.Check.{client_side}
use mogusocket.Codec.Write.{header_bytes, write_frame, then_write}
use mogusocket.Frame.Header.{Header, Frame}
use mogusocket.Writer.Result.{ok}
use mogusocket.Writer.Buffer.{Writer, reserve}
use mogusocket.Writer.Flush.{
  pending, flush_frame, flush_fragment, write_through, set_bits, send_through, through_frame,
  through_bits, is_nil,
}
use mogusocket.Writer.Laws.{through_header}
use mogusocket.Writer.Fragments.{
  fragment_header, AreFragments-snoc, Heading, fragment-Heading, write_accepts, write_frame-put,
}
use mogusocket.Writer.Progress.{
  IsPlain, IsWriting, laid, op_code_of-IsWriting, pending-Heading, flush_frame-laid,
  Heading-reserve, length-put_at,
}

-- The writer after a fragment from its buffer.
abbrev pub emptied : Bytes → Writer → Writer
emptied bts w = record (laid bts w) { err = none; n = 0; fseq = w.fseq + 1 }

-- The writer after a fragment past its buffer.
abbrev pub passed : Bytes → Bytes → Writer → Writer
passed bts p w = record w {
  dest = record { calls = (w.dest.calls ++ bts ∷ []) ++ p ∷ []; plan = [] };
  err = none;
  dirty = true;
  fseq = w.fseq + 1;
}

-- `WriteThrough` behind the write of its frame.
abbrev sent_by : Bytes → Writer → Option Error × Sink → ℕ × Option Error × Writer
sent_by p w (e, d) = (
  (if is_nil e then length p else 0),
  e,
  record w { dest = d; err = e; dirty = true; fseq = w.fseq + 1 },
)

flush_fragment_sends :
    (w v : Writer)
    → (w.n == 0) ≡ false
    → is_nil w.err ≡ true
    → flush_frame false w ≡ ok (none, v)
    → flush_fragment w ≡ ok (none, record v { err = none; n = 0; fseq = w.fseq + 1 })
unfolding flush_fragment
flush_fragment_sends w v some_left works sends = rw (some_left, works, sends) refl

write_through_open :
    (p : Bytes) (w : Writer)
    → (w.n == 0) ≡ true
    → is_nil w.err ≡ true
    → write_through p w ≡ through_bits p w (set_bits w.extensions (through_header p w))
unfolding write_through
write_through_open p w empty works = rw (empty, works) refl

through_frame-server :
    (h : Header) (p : Bytes) (w : Writer)
    → client_side w.state ≡ false
    → through_frame h p w ≡ (record { header = h; payload = p }, w)
through_frame-server h p w server = rw (through_frame, server) refl

through_bits-plain :
    (p : Bytes) (w : Writer)
    → w.extensions ≡ []
    → through_bits p w (set_bits w.extensions (through_header p w))
      ≡ send_through p (through_frame (through_header p w) p w)
unfolding set_bits
through_bits-plain p w plain = ap (λ xs. through_bits p w (set_bits xs (through_header p w))) plain

write_frame-accepts :
    (f : Frame) (bts : Bytes) (s : Sink)
    → s.plan ≡ []
    → header_bytes f.header ≡ some bts
    → write_frame f s
      ≡ (none, record { calls = (s.calls ++ bts ∷ []) ++ f.payload ∷ []; plan = [] })
write_frame-accepts f bts s always encodes =
    write_frame-put f bts s encodes
    ∙ ap (then_write f.payload) (write_accepts bts s always)
    ∙ write_accepts f.payload (record { calls = s.calls ++ bts ∷ []; plan = [] }) refl

module _ (before : Bytes) (op : ℕ) (sent : List Bytes) (given : Bytes) (w : Writer)
    (s : IsWriting before op sent given w) where
  pub laid-IsPlain :
      (fin : Bool) → IsPlain (emptied (pending-Heading before op sent given w s fin).bytes w)
  laid-IsPlain fin =
      let p = s.is_plain in
      let room = p.room in
      let bts = (pending-Heading before op sent given w s fin).bytes in
      let fits = Heading-reserve before op sent given w s fin in
      let same : length (put_at w.raw (w.offset - length bts) bts) ≡ length w.raw =
        length-put_at w.raw bts (w.offset - length bts) (omega (arith, fits)) in
      record {
        server = p.server;
        plain = p.plain;
        flushes = p.flushes;
        works = refl;
        always = refl;
        small_op = p.small_op;
        reserved = p.reserved ∙ ap (reserve w.state) (sym same);
        room = omega (arith, same);
        small = rw same p.small;
      }

  pub laid-wire :
      (fin : Bool)
      → written (laid (pending-Heading before op sent given w s fin).bytes w).dest
        ≡ before
          ++ (s.frames ++ ((pending-Heading before op sent given w s fin).bytes ++ pending w))
  laid-wire fin =
      let bts = (pending-Heading before op sent given w s fin).bytes in
      flatten-snoc w.dest.calls (bts ++ pending w)
      ∙ ap (λ (t : Bytes). t ++ (bts ++ pending w)) s.on_wire
      ∙ append_assoc before s.frames (bts ++ pending w)

  pub flush_fragment-emptied :
      (w.n == 0) ≡ false
      → flush_fragment w
        ≡ ok (none, emptied (pending-Heading before op sent given w s false).bytes w)
  flush_fragment-emptied some_left =
      flush_fragment_sends w (laid (pending-Heading before op sent given w s false).bytes w)
        some_left (ap is_nil s.is_plain.works) (flush_frame-laid before op sent given w s false)

  pub emptied-IsWriting :
      IsWriting before op
        (sent ++ pending w ∷ [])
        given
        (emptied (pending-Heading before op sent given w s false).bytes w)
  emptied-IsWriting =
      let h = pending-Heading before op sent given w s false in
      record {
        is_plain = laid-IsPlain false;
        same_op = s.same_op;
        count = omega (arith, s.count, length-append sent (pending w ∷ []));
        frames = s.frames ++ (h.bytes ++ pending w);
        on_wire = laid-wire false;
        are_frames =
            AreFragments-snoc op sent (pending w) s.frames (h.bytes ++ pending w) s.are_frames
              h.compiles;
        kept = rw (flatten-snoc, append-nil) s.kept;
      }

  module _ (p : Bytes) (empty : w.n ≡ 0) (small : length p < 2 ^ 63) where
    pub through-Heading : Heading op (length sent) false p
    through-Heading =
        fragment-Heading op (length sent) false p (rw s.same_op at s.is_plain.small_op) small

    pub write_through-passed :
        write_through p w ≡ (length p, none, passed through-Heading.bytes p w)
    write_through-passed =
        let plain = s.is_plain in
        let same : through_header p w ≡ fragment_header op (length sent) false p =
          ap (λ (c : ℕ). record (fragment_header op (length sent) false p) { op_code = c })
            (op_code_of-IsWriting before op sent given w s) in
        write_through_open p w (rw empty refl) (ap is_nil plain.works)
        ∙ through_bits-plain p w plain.plain
        ∙ ap (send_through p) (through_frame-server (through_header p w) p w plain.server)
        ∙ ap (sent_by p w) (
            write_frame-accepts (record { header = through_header p w; payload = p })
              through-Heading.bytes w.dest plain.always
              (ap header_bytes same ∙ through-Heading.encodes))

    pub passed-IsWriting :
        IsWriting before op (sent ++ p ∷ []) (given ++ p) (passed through-Heading.bytes p w)
    passed-IsWriting =
        let plain = s.is_plain in
        let bts = through-Heading.bytes in
        let held : pending w ≡ [] = ap (λ (i : ℕ). take i (drop w.offset w.raw)) empty in
        record {
          is_plain = record {
            server = plain.server;
            plain = plain.plain;
            flushes = plain.flushes;
            works = refl;
            always = refl;
            small_op = plain.small_op;
            reserved = plain.reserved;
            room = plain.room;
            small = plain.small;
          };
          same_op = s.same_op;
          count = omega (arith, s.count, length-append sent (p ∷ []));
          frames = s.frames ++ (bts ++ p);
          on_wire =
              flatten-snoc (w.dest.calls ++ bts ∷ []) p
              ∙ ap (λ (t : Bytes). t ++ p)
                  (flatten-snoc w.dest.calls bts ∙ ap (λ (t : Bytes). t ++ bts) s.on_wire)
              ∙ rw (append_assoc, append_assoc) refl;
          are_frames =
              AreFragments-snoc op sent p s.frames (bts ++ p) s.are_frames through-Heading.compiles;
          kept =
              ap (λ (t : Bytes). flatten (sent ++ p ∷ []) ++ t) held
              ∙ append-nil (flatten (sent ++ p ∷ []))
              ∙ flatten-snoc sent p
              ∙ ap (λ (t : Bytes). t ++ p)
                  (sym (append-nil (flatten sent))
                    ∙ ap (λ (t : Bytes). flatten sent ++ t) (sym held)
                    ∙ s.kept);
        }
