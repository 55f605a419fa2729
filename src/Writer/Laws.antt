-- ===== src/Writer/Laws.antt =====
-- msutil/writer.go: the space for the header, and the error of a writer.
use mogusocket.Common.{
  ℕ, zero, suc, ◌+◌, ◌≤◌, ◌<◌, ◌^◌, ◌≡◌, refl, ap, true, false, none, some, arith, Bytes, length,
  ltb,
}
use mogusocket.Common.Words.{ℤ, pos, negsuc}
use mogusocket.Errors.{Error}
use mogusocket.Stream.{Sink}
use mogusocket.Codec.Write.{header_size}
use mogusocket.Writer.Result.{ok, stuck}
use mogusocket.Writer.Buffer.{Writer, reserve, header_size_of, init_buf, reset, available}
use mogusocket.Frame.Header.{Header, zero_header}
use mogusocket.Writer.Flush.{flush, is_nil, set_bits, op_code_of, write_through}
use mogusocket.Writer.Write.{write_bytes, write_loop, write_rest, write_round}

-- The header of a payload fits before it.
abbrev pub Fits : ℤ → ℕ → Type 0
Fits (pos k) space = k ≤ space
Fits (negsuc k) space = true ≡ false

-- The space that `reserve` leaves for the header in a buffer of `size` bytes holds the header of
-- every payload that fits behind it.
pub reserve-Fits :
    (state size n : ℕ)
    → reserve state size + n ≤ size
    → size < 2 ^ 63
    → Fits (header_size_of state n) (reserve state size)
unfolding reserve header_size_of header_size
reserve-Fits state size n room small = ground arith

-- A writer keeps its error over Reset: Write and Flush return it at once and send nothing.
pub write_bytes-reset :
    (dest : Sink) (state op : ℕ) (w v : Writer) (e : Error)
    → reset dest state op w ≡ ok v
    → w.err ≡ some e
    → (v.dest ≡ dest)
      × (flush v ≡ ok (some e, v))
      × ((fuel : ℕ) (p : Bytes)
          → write_bytes (suc fuel) p v ≡ ok (0, some e, record v { dirty = true }))
unfolding reset init_buf write_bytes write_loop write_rest flush
write_bytes-reset dest state op w v e done failed = ground arith

-- The header that WriteThrough offers to the extensions.
abbrev pub through_header : Bytes → Writer → Header
through_header p w = record zero_header {
  op_code = op_code_of w;
  fin = false;
  len = pos (length p);
}

-- What a Writer is when an extension refuses a message that does not fit its empty buffer.
pub record IsRefused (p : Bytes) (w : Writer) : Type 0 where
  pub changed : Header
  pub reason : Error
  pub refused : set_bits w.extensions (through_header p w) ≡ (changed, some reason)
  pub flushes : w.no_flush ≡ false
  pub empty : w.n ≡ 0
  pub works : w.err ≡ none
  pub long : available w < length p

write_round-IsRefused : (p : Bytes) (w : Writer) → IsRefused p w → write_round p w ≡ ok (0, w)
unfolding write_round write_through set_bits op_code_of
write_round-IsRefused p w r = rw (r.flushes, r.empty, r.works, r.refused) refl

write_loop-IsRefused :
    (fuel n : ℕ) (p : Bytes) (w : Writer) → IsRefused p w → write_loop fuel n p w ≡ stuck
unfolding write_loop
write_loop-IsRefused zero n p w r = refl
write_loop-IsRefused (suc fuel) n p w r =
    let rest = write_loop-IsRefused fuel (n + 0) p w r in
    let long : ltb (available w) (length p) ≡ true = ground (arith, r.long) in
    let works : is_nil w.err ≡ true = ap is_nil r.works in
    rw (write_round-IsRefused p w r, long, works) rest

-- Write never ends when an extension refuses a message that does not fit the empty buffer: whatever
-- the number of rounds, they are used up.
pub write_bytes-IsRefused :
    (fuel : ℕ) (p : Bytes) (w : Writer) → IsRefused p w → write_bytes fuel p w ≡ stuck
unfolding write_bytes available op_code_of
write_bytes-IsRefused fuel p w r =
    write_loop-IsRefused fuel 0 p (record w { dirty = true })
      (record {
        changed = r.changed;
        reason = r.reason;
        refused = r.refused;
        flushes = r.flushes;
        empty = r.empty;
        works = r.works;
        long = r.long;
      })
