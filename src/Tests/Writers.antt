-- ===== src/Tests/Writers.antt =====
-- A server's writer and its messages.
use mogusocket.Common.{◌≡◌, refl, true, false, none, [], ◌∷◌, arith, replicate}
use mogusocket.Stream.{fresh, written}
use mogusocket.Check.{state_server_side, client_side}
use mogusocket.Writer.Result.{ok}
use mogusocket.Writer.Buffer.{Writer, reserve, new_writer_buffer}
use mogusocket.Writer.Flush.{flush}
use mogusocket.Writer.Write.{write_bytes}
use mogusocket.Writer.Progress.{IsWriting}
use mogusocket.Writer.Copy.{Wrote}
use mogusocket.Writer.Message.{write_bytes-IsWriting, flush-IsMessage, IsMessage}
use mogusocket.Writer.Session.{AreWritten, new_writer_buffer-IsMessage}

-- A server's writer with two bytes of a message in its buffer.
abbrev half_full : Writer
half_full = record {
  dest = fresh;
  op = 1;
  state = state_server_side;
  extensions = [];
  no_flush = false;
  raw = 0 ∷ 0 ∷ 7 ∷ 8 ∷ 0 ∷ [];
  offset = 2;
  n = 2;
  dirty = true;
  fseq = 0;
  err = none;
  random = λ i. i;
  draws = 0;
}

half_full-IsWriting : IsWriting [] 1 [] (7 ∷ 8 ∷ []) half_full
unfolding client_side reserve
half_full-IsWriting = record {
  is_plain = record {
    server = refl;
    plain = refl;
    flushes = refl;
    works = refl;
    always = refl;
    small_op = omega arith;
    reserved = refl;
    room = omega arith;
    small = omega arith;
  };
  same_op = refl;
  count = refl;
  frames = [];
  on_wire = refl;
  are_frames = refl;
  kept = refl;
}

write_bytes-IsWriting_example :
    Wrote [] 1 (7 ∷ 8 ∷ 1 ∷ 2 ∷ 3 ∷ []) 3 (write_bytes 3 (1 ∷ 2 ∷ 3 ∷ []) half_full)
write_bytes-IsWriting_example =
    write_bytes-IsWriting [] 1 [] (7 ∷ 8 ∷ []) half_full 0 (1 ∷ 2 ∷ 3 ∷ []) half_full-IsWriting
      (omega arith)

flush-IsMessage_example :
    (after : Writer) × (flush half_full ≡ ok (none, after))
    × IsMessage [] 1 (7 ∷ 8 ∷ []) after.dest
    × IsWriting (written after.dest) 1 [] [] after
flush-IsMessage_example = flush-IsMessage [] 1 [] (7 ∷ 8 ∷ []) half_full half_full-IsWriting refl

new_writer_buffer-IsMessage_example :
    (w : Writer) × (v : Writer) × (after : Writer) × (new_writer_buffer
        (λ i. i)
        fresh
        state_server_side
        2
        (replicate 4 0)
      ≡ ok w)
    × AreWritten ((1 ∷ 2 ∷ 3 ∷ []) ∷ (4 ∷ []) ∷ []) w v
    × (flush v ≡ ok (none, after))
    × IsMessage [] 2 (1 ∷ 2 ∷ 3 ∷ 4 ∷ []) after.dest
unfolding client_side reserve
new_writer_buffer-IsMessage_example =
    new_writer_buffer-IsMessage (λ i. i) fresh state_server_side 2 (replicate 4 0) (1 ∷ 2 ∷ 3 ∷ [])
      ((4 ∷ []) ∷ []) refl refl (omega arith) (omega arith) (omega arith)
      (omega arith, (omega arith, tt))
