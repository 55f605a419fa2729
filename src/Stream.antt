-- ===== src/Stream.antt =====
-- Package io, as far as the library uses it: a reader that hands out its bytes in pieces, and a
-- writer that records every call and may fail at any of them.
pub mod Laws
use mogusocket.Common.{
  ℕ, ◌+◌, ◌-◌, Bool, Option, none, some, List, [], ◌∷◌, ◌++◌, Bytes, length, take, drop, ltb, leb,
  if◌then◌else◌,
}
use mogusocket.Errors.{Error, eof, unexpected_eof}

-- An io.Reader: one call of Read returns bytes of one piece at most, and `last` once all are read.
pub record Source : Type 0 where
  pub chunks : List Bytes
  pub last : Error

-- All the bytes that are still to come.
abbrev pub flatten : List Bytes → Bytes
flatten [] = []
flatten (c ∷ cs) = c ++ flatten cs

abbrev pub content : Source → Bytes
content s = flatten s.chunks

-- `n, err := r.Read(p)` with len(p) = n: the bytes, the error, the reader afterwards.
pub read_chunk : ℕ → List Bytes → Error → Bytes × Option Error × Source
read_chunk n [] last = ([], some last, record { chunks = []; last = last })
read_chunk n (c ∷ cs) last = (
  take n c,
  none,
  record { chunks = if ltb n (length c) then drop n c ∷ cs else cs; last = last },
)

unfoldable pub read : ℕ → Source → Bytes × Option Error × Source
unfolding read_chunk
read n s = read_chunk n s.chunks s.last

-- The error of io.ReadFull when the reader stopped early.
abbrev pub short_read : Bytes → Error → Error
short_read [] e = e
short_read (b ∷ bs) eof = unexpected_eof
short_read (b ∷ bs) e = e

-- The loop of io.ReadFull over a buffer of length `n`, with what it has read so far.
pub fill : ℕ → Bytes → List Bytes → Error → Bytes × Option Error × Source
fill n acc [] last = (
  acc,
  (if leb n (length acc) then none else some (short_read acc last)),
  record { chunks = []; last = last },
)
fill n acc (c ∷ cs) last =
    let need = n - length acc in
    let more = fill n (acc ++ c) cs last in
    if leb n (length acc)
    then (acc, none, record { chunks = c ∷ cs; last = last })
    else if ltb need (length c)
    then (acc ++ take need c, none, record { chunks = drop need c ∷ cs; last = last })
    else more

unfoldable pub read_full : ℕ → Source → Bytes × Option Error × Source
unfolding fill
read_full n s = fill n [] s.chunks s.last

-- What a writer does with one call: it takes all, or it fails after the first `n` bytes.
pub data Outcome : Type 0 where
  accepts : Outcome
  fails : ℕ → Error → Outcome

-- An io.Writer: the bytes of each call so far, and what it will do; at the end of the plan it accepts.
pub record Sink : Type 0 where
  pub calls : List Bytes
  pub plan : List Outcome

pub write_plan : Bytes → List Bytes → List Outcome → Option Error × Sink
write_plan p calls [] = (none, record { calls = calls ++ p ∷ []; plan = [] })
write_plan p calls (accepts ∷ os) = (none, record { calls = calls ++ p ∷ []; plan = os })
write_plan p calls (fails n e ∷ os) = (some e, record { calls = calls ++ take n p ∷ []; plan = os })

-- `_, err := w.Write(p)`
unfoldable pub write : Bytes → Sink → Option Error × Sink
unfolding write_plan
write p s = write_plan p s.calls s.plan

abbrev pub next_piece : (Sink → Option Error × Sink) → Option Error × Sink → Option Error × Sink
next_piece again (none, s) = again s
next_piece again (some e, s) = (some e, s)

-- Several calls of Write, up to the first that fails.
unfoldable pub write_all : List Bytes → Sink → Option Error × Sink
write_all [] s = (none, s)
write_all (p ∷ ps) s = next_piece (write_all ps) (write p s)

-- All the bytes that have arrived.
abbrev pub written : Sink → Bytes
written s = flatten s.calls

abbrev pub fresh : Sink
fresh = record { calls = []; plan = [] }
