-- ===== src/Writer/Write.antt =====
-- msutil/writer.go: `Write`.
use mogusocket.Common.{
  ℕ, zero, suc, ◌+◌, ◌&&◌, true, Option, Bytes, length, take, drop, ltb, ◌==◌, if◌then◌else◌,
}
use mogusocket.Cipher.{put_at}
use mogusocket.Frame.Build.{min_int}
use mogusocket.Errors.{Error}
use mogusocket.Writer.Result.{Result, ok, stuck, ◌>>=◌}
use mogusocket.Writer.Buffer.{Writer, available, grow}
use mogusocket.Writer.Flush.{flush_fragment, write_through, is_nil}

-- `nn = copy(w.buf[w.n:], p); w.n += nn`
unfoldable pub copy_in : Bytes → Writer → ℕ × Writer
copy_in p w =
    let nn = min_int (available w) (length p) in
    (nn, record w { raw = put_at w.raw (w.offset + w.n) (take nn p); n = w.n + nn })

-- One round of the loop: the bytes taken from `p` and the writer.
unfoldable pub write_round : Bytes → Writer → Result (ℕ × Writer)
write_round p w =
    if w.no_flush
    then (grow (length p) w >>= λ v. ok (0, v))
    else if w.n == 0
    then (let (nn, e, v) = write_through p w in ok (nn, v))
    else (let (nn, v) = copy_in p w in flush_fragment v >>= λ (e, u). ok (nn, u))

-- Behind the loop.
unfoldable pub write_rest : ℕ → Bytes → Writer → ℕ × Option Error × Writer
write_rest n p w =
    if is_nil w.err then (let (nn, v) = copy_in p w in (n + nn, v.err, v)) else (n, w.err, w)

-- The loop, with its rounds left and the bytes written so far.
unfoldable pub write_loop : ℕ → ℕ → Bytes → Writer → Result (ℕ × Option Error × Writer)
write_loop zero n p w = stuck
write_loop (suc fuel) n p w =
    let again = write_round p w >>= λ (nn, v). write_loop fuel (n + nn) (drop nn p) v in
    if ltb (available w) (length p) && is_nil w.err then again else ok (write_rest n p w)

-- `Write(p)` in at most `fuel` rounds.
unfoldable pub write_bytes : ℕ → Bytes → Writer → Result (ℕ × Option Error × Writer)
write_bytes fuel p w = write_loop fuel 0 p (record w { dirty = true })
