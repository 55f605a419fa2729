-- ===== src/Text/ReadLine.antt =====
-- util.go: `readLine` over a bufio.Reader. The reader is the bytes that are still to come, the size
-- of its buffer, and the error behind the bytes; how the bytes come in pieces does not show in the
-- results of ReadSlice.
use mogusocket.Common.{
  ℕ, zero, suc, ◌-◌, ◌&&◌, Option, none, some, [], ◌∷◌, ◌++◌, Bytes, length, take, get_or, ltb,
  ◌==◌, if◌then◌else◌,
}
use mogusocket.Errors.{Error}
use mogusocket.Writer.Result.{Result, ok, stuck}

-- How ReadSlice ends: at the delimiter, with ErrBufferFull, or with the reader's error.
pub data SliceEnd : Type 0 where
  found full failed : SliceEnd

abbrev pub cons_slice : ℕ → Bytes × SliceEnd × Bytes → Bytes × SliceEnd × Bytes
cons_slice b (bts, end, rest) = (b ∷ bts, end, rest)

-- `br.ReadSlice('\n')` with `room` left in the buffer.
unfoldable pub read_slice : ℕ → Bytes → Bytes × SliceEnd × Bytes
read_slice zero pending = ([], full, pending)
read_slice (suc room) [] = ([], failed, [])
read_slice (suc room) (b ∷ pending) =
    let more = cons_slice b (read_slice room pending) in
    if b == 0x0a then (b ∷ [], found, pending) else more

-- Cut '\n' or '\r\n'.
unfoldable pub cut_newline : Bytes → Bytes
cut_newline line =
    let n = length line in
    if ltb 1 n && get_or line (n - 2) 0 == 0x0d then take (n - 2) line else take (n - 1) line

-- The loop, with its rounds left and the bytes copied so far.
unfoldable pub read_line_loop :
    ℕ → ℕ → Error → Bytes → Bytes → Result (Bytes × Option Error × Bytes)
read_line_loop zero size last line pending = stuck
read_line_loop (suc fuel) size last line pending =
    let (bts, end, rest) = read_slice size pending in
    let again = read_line_loop fuel size last (line ++ bts) rest in
    elim end [
      | full ↦ again
      | found ↦ ok (cut_newline (line ++ bts), none, rest)
      | failed ↦ ok (line ++ bts, some last, rest)
    ]

-- Every round but the last takes a byte at least.
unfoldable pub read_line : ℕ → Error → Bytes → Result (Bytes × Option Error × Bytes)
unfolding read_line_loop
read_line size last pending = read_line_loop (suc (length pending)) size last [] pending
