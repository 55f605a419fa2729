-- ===== src/Writer/Message.antt =====
-- msutil/writer.go: `Write` and `Flush` of a server's writer send one message.
use mogusocket.Common.{
  ℕ, suc, ◌+◌, ◌<◌, ◌^◌, ◌≡◌, refl, sym, ap, true, false, none, List, [], ◌++◌, append-nil, arith,
  Bytes, length, take, drop,
}
use mogusocket.Stream.{Sink, written, flatten}
use mogusocket.Writer.Result.{ok}
use mogusocket.Writer.Buffer.{Writer}
use mogusocket.Writer.Flush.{pending, flush, flush_frame, is_nil}
use mogusocket.Writer.Write.{write_loop, write_bytes}
use mogusocket.Writer.Fragments.{AreFragments, IsFragment}
use mogusocket.Writer.Progress.{IsPlain, IsWriting, laid, pending-Heading, flush_frame-laid}
use mogusocket.Writer.Rounds.{laid-IsPlain, laid-wire}
use mogusocket.Writer.Copy.{Wrote, Wrote-same}
use mogusocket.Writer.Loop.{write_loop-IsWriting}

dirtied-IsPlain : (w : Writer) → IsPlain w → IsPlain (record w { dirty = true })
dirtied-IsPlain w p = record {
  server = p.server;
  plain = p.plain;
  flushes = p.flushes;
  works = p.works;
  always = p.always;
  small_op = p.small_op;
  reserved = p.reserved;
  room = p.room;
  small = p.small;
}

dirtied-IsWriting :
    (before : Bytes) (op : ℕ) (sent : List Bytes) (given : Bytes) (w : Writer)
    → IsWriting before op sent given w
    → IsWriting before op sent given (record w { dirty = true })
dirtied-IsWriting before op sent given w s = record {
  is_plain = dirtied-IsPlain w s.is_plain;
  same_op = s.same_op;
  count = s.count;
  frames = s.frames;
  on_wire = s.on_wire;
  are_frames = s.are_frames;
  kept = s.kept;
}

-- Write on a server's writer without extensions, in the middle of a message over a writer that accepts
-- everything, takes all its bytes, of which there are less than 2^63, in at most three rounds and
-- returns no error; the frames on the wire and the buffer then hold these bytes behind the earlier ones.
pub write_bytes-IsWriting :
    (before : Bytes) (op : ℕ) (sent : List Bytes) (given : Bytes) (w : Writer) (fuel : ℕ)
    (p : Bytes)
    → IsWriting before op sent given w
    → length p < 2 ^ 63
    → Wrote before op (given ++ p) (length p) (write_bytes (suc (suc (suc fuel))) p w)
unfolding write_bytes
write_bytes-IsWriting before op sent given w fuel p s small =
    let v : Writer = record w { dirty = true } in
    Wrote-same before op (given ++ p) (given ++ p) (0 + length p) (length p)
      (write_loop (suc (suc (suc fuel))) 0 p v) (write_bytes (suc (suc (suc fuel))) p w) refl
      (omega arith) refl
      (write_loop-IsWriting before op sent given v fuel 0 p
        (dirtied-IsWriting before op sent given w s) refl small)

-- One message is on the wire behind `before`: frames with the opcode first, then continuations, the
-- last of them final, whose payloads together are `given`.
pub record IsMessage (before : Bytes) (op : ℕ) (given : Bytes) (d : Sink) : Type 0 where
  pub parts : List Bytes
  pub tail : Bytes
  pub frames : Bytes
  pub last : Bytes
  pub on_wire : written d ≡ before ++ (frames ++ last)
  pub are_frames : AreFragments op 0 parts frames
  pub is_final : IsFragment op (length parts) true tail last
  pub whole : flatten parts ++ tail ≡ given

-- The writer after a flush.
abbrev pub flushed : Bytes → Writer → Writer
flushed bts w = record (laid bts w) { err = none; n = 0; dirty = false; fseq = 0 }

-- A writer with an empty buffer between two messages.
pub again-IsWriting :
    (w : Writer) (op : ℕ)
    → IsPlain w
    → w.op ≡ op
    → w.fseq ≡ 0
    → w.n ≡ 0
    → IsWriting (written w.dest) op [] [] w
again-IsWriting w op plain same_op first empty = record {
  is_plain = plain;
  same_op = same_op;
  count = first;
  frames = [];
  on_wire = sym (append-nil (written w.dest));
  are_frames = refl;
  kept = ap (λ (i : ℕ). take i (drop w.offset w.raw)) empty;
}

flushed-IsPlain :
    (before : Bytes) (op : ℕ) (sent : List Bytes) (given : Bytes) (w : Writer)
    (s : IsWriting before op sent given w)
    → IsPlain (flushed (pending-Heading before op sent given w s true).bytes w)
flushed-IsPlain before op sent given w s =
    let p = laid-IsPlain before op sent given w s true in
    record {
      server = p.server;
      plain = p.plain;
      flushes = p.flushes;
      works = p.works;
      always = p.always;
      small_op = p.small_op;
      reserved = p.reserved;
      room = p.room;
      small = p.small;
    }

flush_sends :
    (w v : Writer)
    → w.dirty ≡ true
    → is_nil w.err ≡ true
    → flush_frame true w ≡ ok (none, v)
    → flush w ≡ ok (none, record v { err = none; n = 0; dirty = false; fseq = 0 })
unfolding flush
flush_sends w v is_dirty works sends = rw (sends, is_dirty, works) refl

-- Flush on such a writer that has been written to returns no error and ends the message: all the bytes
-- given since the last one are on the wire, in frames of which only the last is final, and the writer
-- is ready for another message.
pub flush-IsMessage :
    (before : Bytes) (op : ℕ) (sent : List Bytes) (given : Bytes) (w : Writer)
    → IsWriting before op sent given w
    → w.dirty ≡ true
    → (after : Writer) × (flush w ≡ ok (none, after))
      × IsMessage before op given after.dest
      × IsWriting (written after.dest) op [] [] after
flush-IsMessage before op sent given w s is_dirty =
    let h = pending-Heading before op sent given w s true in
    (
      flushed h.bytes w,
      flush_sends w (laid h.bytes w) is_dirty (ap is_nil s.is_plain.works)
          (flush_frame-laid before op sent given w s true),
      record {
        parts = sent;
        tail = pending w;
        frames = s.frames;
        last = h.bytes ++ pending w;
        on_wire = laid-wire before op sent given w s true;
        are_frames = s.are_frames;
        is_final = h.compiles;
        whole = s.kept;
      },
      again-IsWriting (flushed h.bytes w) op (flushed-IsPlain before op sent given w s) s.same_op
          refl refl,
    )
