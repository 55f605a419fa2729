-- ===== src/Reader/Loops.antt =====
-- The loops of package io over a reader of msutil: io.ReadFull, io.ReadAll and the reads of io.Copy.
-- `read k r` is a call of Read with a buffer of `k` bytes, as `body_read` and `read_message` are.
use mogusocket.Common.{
  ℕ, zero, suc, ◌-◌, Option, none, some, List, [], ◌∷◌, ◌++◌, Bytes, length, take, leb,
  if◌then◌else◌,
}
use mogusocket.Errors.{Error}
use mogusocket.Stream.{short_read}
use mogusocket.Writer.Result.{Result, ok, stuck, ◌>>=◌}
use mogusocket.Reader.Body.{copy_error}

-- The buffer of io.Copy.
abbrev pub copy_buffer : ℕ
copy_buffer = 32768

module _ {R : Type 0} (read : ℕ → R → ℕ × Bytes × Option Error × R) where
  -- The error of io.ReadFull behind its loop.
  abbrev pub full_error : ℕ → Bytes → Error → Option Error
  full_error want acc e = if leb want (length acc) then none else some (short_read acc e)

  abbrev pub full_step :
      (Bytes → R → Result (Bytes × Option Error × R))
      → ℕ
      → Bytes
      → ℕ × Bytes × Option Error × R
      → Result (Bytes × Option Error × R)
  full_step again want acc (n, bs, none, r) = again (acc ++ take n bs) r
  full_step again want acc (n, bs, some e, r) =
      ok (acc ++ take n bs, full_error want (acc ++ take n bs) e, r)

  -- io.ReadFull of `want` bytes, `acc` of them read already, in at most `fuel` reads.
  unfoldable pub full_loop : ℕ → ℕ → Bytes → R → Result (Bytes × Option Error × R)
  full_loop zero want acc r = stuck
  full_loop (suc fuel) want acc r =
      let step = full_step (full_loop fuel want) want acc (read (want - length acc) r) in
      if leb want (length acc) then ok (acc, none, r) else step

  abbrev pub all_step :
      (Bytes → R → Result (Bytes × Option Error × R))
      → Bytes
      → ℕ × Bytes × Option Error × R
      → Result (Bytes × Option Error × R)
  all_step again acc (n, bs, none, r) = again (acc ++ take n bs) r
  all_step again acc (n, bs, some e, r) = ok (acc ++ take n bs, copy_error e, r)

  -- io.ReadAll, and ReadFrom of a bytes.Buffer: read until EOF, which is no error. `room` is the free
  -- space of the slice that holds a number of bytes, which these functions keep above 0.
  unfoldable pub all_loop : (ℕ → ℕ) → ℕ → Bytes → R → Result (Bytes × Option Error × R)
  all_loop room zero acc r = stuck
  all_loop room (suc fuel) acc r = all_step (all_loop room fuel) acc (read (room (length acc)) r)

  abbrev pub piece_first : Bytes → List Bytes × Error × R → Result (List Bytes × Error × R)
  piece_first c (cs, e, r) = ok (c ∷ cs, e, r)

  abbrev pub piece_step :
      (R → Result (List Bytes × Error × R))
      → ℕ × Bytes × Option Error × R
      → Result (List Bytes × Error × R)
  piece_step again (n, bs, none, r) = again r >>= piece_first (take n bs)
  piece_step again (n, bs, some e, r) = ok (take n bs ∷ [], e, r)

  -- The reads of io.Copy up to the first error, which is returned.
  unfoldable pub pieces_loop : ℕ → R → Result (List Bytes × Error × R)
  pieces_loop zero r = stuck
  pieces_loop (suc fuel) r = piece_step (pieces_loop fuel) (read copy_buffer r)
