-- ===== src/Writer/ReadFrom.antt =====
-- msutil/writer.go: `ReadFrom`, `GetWriter` and `PutWriter`.
use mogusocket.Common.{
  ℕ, zero, suc, ◌+◌, ◌||◌, not, true, Option, none, some, Bytes, length, ◌==◌, if◌then◌else◌,
}
use mogusocket.Cipher.{put_at}
use mogusocket.Errors.{Error, eof, no_progress}
use mogusocket.Stream.{Source, Sink, read}
use mogusocket.Writer.Result.{Result, ok, stuck, ◌>>=◌}
use mogusocket.Writer.Buffer.{
  Writer, available, buffered, grow, reset, size, new_writer_buffer_size,
}
use mogusocket.Writer.Flush.{flush_fragment, is_nil}

abbrev pub max_empty_reads : ℕ
max_empty_reads = 100

-- The loop over empty reads, with the reads left; `none` where all were empty.
unfoldable pub some_read : ℕ → ℕ → Source → Option (Bytes × Option Error × Source)
some_read zero room src = none
some_read (suc left) room src =
    let (bs, err, src') = read room src in
    let again = some_read left room src' in
    if not (length bs == 0) || not (is_nil err) then some (bs, err, src') else again

-- `src.Read(w.buf[w.n:])` and `w.n += nn`
abbrev pub taken_in : Bytes → Writer → Writer
taken_in bs w = record w { raw = put_at w.raw (w.offset + w.n) bs; n = w.n + length bs }

-- Behind the loop: an end of the source is no error.
abbrev pub read_in : ℕ → Option Error → Source → Writer → ℕ × Option Error × Source × Writer
read_in n none src w = (n, none, src, w)
read_in n (some eof) src w = (n, none, src, record w { dirty = true })
read_in n (some e) src w = (n, some e, src, w)

abbrev pub next_read :
    (ℕ → Source → Writer → Result (ℕ × Option Error × Source × Writer))
    → ℕ
    → Source
    → Writer
    → Option (Bytes × Option Error × Source)
    → Result (ℕ × Option Error × Source × Writer)
next_read again n src w none = ok (n, some no_progress, src, w)
next_read again n src w (some (bs, none, src')) = again (n + length bs) src' (taken_in bs w)
next_read again n src w (some (bs, some e, src')) =
    ok (read_in (n + length bs) (some e) src' (taken_in bs w))

-- A full buffer is flushed, or grown.
abbrev pub next_space :
    (ℕ → Source → Writer → Result (ℕ × Option Error × Source × Writer))
    → ℕ
    → Source
    → Option Error × Writer
    → Result (ℕ × Option Error × Source × Writer)
next_space again n src (none, w) = again n src w
next_space again n src (some e, w) = ok (read_in n (some e) src w)

abbrev pub make_space : Writer → Result (Option Error × Writer)
make_space w = if w.no_flush then (grow (buffered w) w >>= λ v. ok (none, v)) else flush_fragment w

-- The loop of `ReadFrom`, with its rounds left and the bytes read so far.
unfoldable pub read_from_loop :
    ℕ → ℕ → Source → Writer → Result (ℕ × Option Error × Source × Writer)
read_from_loop zero n src w = stuck
read_from_loop (suc fuel) n src w =
    let full = make_space w >>= next_space (read_from_loop fuel) n src in
    let some_space =
      next_read (read_from_loop fuel) n src w (some_read max_empty_reads (available w) src) in
    if available w == 0 then full else some_space

-- `ReadFrom(src)` in at most `fuel` rounds.
unfoldable pub read_from : ℕ → Source → Writer → Result (ℕ × Option Error × Source × Writer)
unfolding read_from_loop
read_from fuel src w = read_from_loop fuel 0 src w

-- What the pool of package pool gave for `n`: a Writer or none, and the size it stands for.
unfoldable pub get_writer : (ℕ → ℕ) → Option Writer × ℕ → Sink → ℕ → ℕ → Result Writer
unfolding reset new_writer_buffer_size
get_writer random (some w, m) dest state op = reset dest state op w
get_writer random (none, m) dest state op = new_writer_buffer_size random dest state op m

-- The writer and the size that go back to the pool; `nowhere` is the nil destination.
unfoldable pub put_writer : Sink → Writer → Result (Writer × ℕ)
unfolding reset
put_writer nowhere w = reset nowhere 0 0 w >>= λ v. ok (v, size v)
