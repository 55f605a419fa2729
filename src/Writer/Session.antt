-- ===== src/Writer/Session.antt =====
-- msutil/writer.go: a server's writer from its constructor to the end of a message.
use mogusocket.Common.{
  ℕ, ◌<◌, ◌^◌, ◌≡◌, refl, true, false, none, List, [], ◌∷◌, ◌++◌, append-nil, append_assoc, arith,
  Bytes, length, leb, All,
}
use mogusocket.Stream.{Sink, written, flatten}
use mogusocket.Check.{client_side}
use mogusocket.Writer.Result.{ok}
use mogusocket.Writer.Buffer.{Writer, reserve, new_writer_buffer, init_buf}
use mogusocket.Writer.Flush.{flush}
use mogusocket.Writer.Write.{write_bytes}
use mogusocket.Writer.Progress.{IsPlain, IsWriting}
use mogusocket.Writer.Message.{write_bytes-IsWriting, flush-IsMessage, again-IsWriting, IsMessage}

-- The writes of the payloads, one after the other, each of them whole and without an error.
abbrev pub AreWritten : List Bytes → Writer → Writer → Type 0
AreWritten [] w v = v ≡ w
AreWritten (p ∷ ps) w v =
    (u : Writer) × (write_bytes 3 p w ≡ ok (length p, none, u)) × AreWritten ps u v

AreWritten-IsWriting :
    (before : Bytes) (op : ℕ) (sent : List Bytes) (given : Bytes) (w : Writer) (ps : List Bytes)
    → IsWriting before op sent given w
    → w.dirty ≡ true
    → All (λ (p : Bytes). length p < 2 ^ 63) ps
    → (sent' : List Bytes) × (v : Writer) × AreWritten ps w v
      × IsWriting before op sent' (given ++ flatten ps) v
      × (v.dirty ≡ true)
AreWritten-IsWriting before op sent given w [] s is_dirty small =
    (sent, w, refl, rw (append-nil given) s, is_dirty)
AreWritten-IsWriting before op sent given w (p ∷ ps) s is_dirty (small, smalls) =
    let one = write_bytes-IsWriting before op sent given w 0 p s small in
    let (sent', v, writes, writing, v_dirty) =
      AreWritten-IsWriting before op one.sent (given ++ p) one.after ps one.writing one.is_dirty
        smalls in
    (
      sent',
      v,
      (one.after, one.result, writes),
      rw (← append_assoc given p (flatten ps)) writing,
      v_dirty,
    )

-- A new writer is ready for a message.
pub new_writer_buffer-IsWriting :
    (random : ℕ → ℕ) (dest : Sink) (state op : ℕ) (buf : Bytes)
    → client_side state ≡ false
    → dest.plan ≡ []
    → op < 16
    → reserve state (length buf) < length buf
    → length buf < 2 ^ 63
    → (w : Writer) × (new_writer_buffer random dest state op buf ≡ ok w)
      × IsWriting (written dest) op [] [] w
unfolding new_writer_buffer init_buf
new_writer_buffer-IsWriting random dest state op buf server always small_op room small =
    let no_panic : leb (length buf) (reserve state (length buf)) ≡ false = ground (arith, room) in
    let w : Writer = record {
      dest = dest;
      op = op;
      state = state;
      extensions = [];
      no_flush = false;
      raw = buf;
      offset = reserve state (length buf);
      n = 0;
      dirty = false;
      fseq = 0;
      err = none;
      random = random;
      draws = 0;
    } in
    let plain : IsPlain w = record {
      server = server;
      plain = refl;
      flushes = refl;
      works = refl;
      always = always;
      small_op = small_op;
      reserved = refl;
      room = omega (arith, room);
      small = small;
    } in
    (w, rw no_panic refl, again-IsWriting w op plain refl refl refl)

-- A server's writer over a buffer that is longer than the space it reserves, less than 2^63 bytes, for
-- an opcode below 16 and over a writer that accepts everything, takes every list of one or more
-- payloads, each of less than 2^63 bytes, in calls of Write of at most three rounds, and the Flush
-- behind them makes of them one message on the wire.
pub new_writer_buffer-IsMessage :
    (random : ℕ → ℕ) (dest : Sink) (state op : ℕ) (buf p : Bytes) (ps : List Bytes)
    → client_side state ≡ false
    → dest.plan ≡ []
    → op < 16
    → reserve state (length buf) < length buf
    → length buf < 2 ^ 63
    → All (λ (q : Bytes). length q < 2 ^ 63) (p ∷ ps)
    → (w : Writer) × (v : Writer) × (after : Writer) × (new_writer_buffer random dest state op buf
        ≡ ok w)
      × AreWritten (p ∷ ps) w v
      × (flush v ≡ ok (none, after))
      × IsMessage (written dest) op (flatten (p ∷ ps)) after.dest
new_writer_buffer-IsMessage random dest state op buf p ps server always small_op room small
      (first, others) =
    let (w, made, s) =
      new_writer_buffer-IsWriting random dest state op buf server always small_op room small in
    let one = write_bytes-IsWriting (written dest) op [] [] w 0 p s first in
    let (sent, v, writes, writing, is_dirty) =
      AreWritten-IsWriting (written dest) op one.sent p one.after ps one.writing one.is_dirty
        others in
    let (after, flushes, message, again) =
      flush-IsMessage (written dest) op sent (p ++ flatten ps) v writing is_dirty in
    (w, v, after, made, (one.after, one.result, writes), flushes, message)
