-- ===== src/Writer/Loop.antt =====
-- msutil/writer.go: the loop of `Write` on a server's writer.
use mogusocket.Common.{
  ℕ, suc, ◌+◌, ◌<◌, ◌^◌, ◌≡◌, refl, ap, ◌∙◌, true, false, none, List, [], ◌∷◌, ◌++◌, append-nil,
  append_assoc, arith, inl, inr, Bytes, length, take, drop, leb, ◌==◌, length-drop, drop_all,
  take-append-drop, Bool-cases,
}
use mogusocket.Writer.Buffer.{Writer, available}
use mogusocket.Writer.Flush.{pending}
use mogusocket.Writer.Write.{write_loop}
use mogusocket.Writer.Progress.{IsWriting, pending-Heading}
use mogusocket.Writer.Rounds.{
  emptied, passed, flush_fragment-emptied, emptied-IsWriting, through-Heading, write_through-passed,
  passed-IsWriting,
}
use mogusocket.Writer.Copy.{
  copied, copy_in-copied, min_int_left, write_loop_step, write_round_through, write_round_fill,
  Wrote, Wrote-same, copied-IsWriting, write_loop_fits, long_test,
}

-- What does not fit the empty buffer is sent past it.
write_loop-passed :
    (before : Bytes) (op : ℕ) (sent : List Bytes) (given : Bytes) (w : Writer) (fuel n : ℕ)
    (p : Bytes)
    → IsWriting before op sent given w
    → w.n ≡ 0
    → available w < length p
    → length p < 2 ^ 63
    → Wrote before op (given ++ p) (n + length p) (write_loop (suc (suc fuel)) n p w)
write_loop-passed before op sent given w fuel n p s empty long small =
    let h = through-Heading before op sent given w s p empty small in
    let after = passed-IsWriting before op sent given w s p empty small in
    let round =
      write_round_through (length p) none p w (passed h.bytes p w) s.is_plain.flushes
        (rw empty refl) (write_through-passed before op sent given w s p empty small) in
    let step =
      write_loop_step (suc fuel) n (length p) p w (passed h.bytes p w)
        (long_test before op sent given w s p long) round in
    let nothing = drop_all (length p) p (omega arith) in
    let rest =
      write_loop_fits before op (sent ++ p ∷ []) (given ++ p) (passed h.bytes p w) after fuel
        (n + length p) [] refl (omega arith) in
    Wrote-same before op ((given ++ p) ++ []) (given ++ p) (n + length p + 0) (n + length p)
      (write_loop (suc fuel) (n + length p) [] (passed h.bytes p w))
      (write_loop (suc (suc fuel)) n p w) (append-nil (given ++ p)) (omega arith)
      (step
        ∙ ap (λ (t : Bytes). write_loop (suc fuel) (n + length p) t (passed h.bytes p w)) nothing)
      rest

-- The loop on an empty buffer.
write_loop-empty :
    (before : Bytes) (op : ℕ) (sent : List Bytes) (given : Bytes) (w : Writer) (fuel n : ℕ)
    (p : Bytes)
    → IsWriting before op sent given w
    → w.n ≡ 0
    → w.dirty ≡ true
    → length p < 2 ^ 63
    → Wrote before op (given ++ p) (n + length p) (write_loop (suc (suc fuel)) n p w)
write_loop-empty before op sent given w fuel n p s empty is_dirty small =
    elim (Bool-cases (leb (length p) (available w))) [
      | inl fits ↦
          write_loop_fits before op sent given w s (suc fuel) n p is_dirty (ground (arith, fits))
      | inr long ↦
          write_loop-passed before op sent given w fuel n p s empty (ground (arith, long)) small
    ]

-- A buffer that is not empty is filled and sent.
pub write_loop-emptied :
    (before : Bytes) (op : ℕ) (sent : List Bytes) (given : Bytes) (w : Writer) (fuel n : ℕ)
    (p : Bytes)
    → IsWriting before op sent given w
    → (w.n == 0) ≡ false
    → w.dirty ≡ true
    → available w < length p
    → length p < 2 ^ 63
    → Wrote before op (given ++ p) (n + length p) (write_loop (suc (suc (suc fuel))) n p w)
write_loop-emptied before op sent given w fuel n p s some_left is_dirty long small =
    let k = available w in
    let v = copied k p w in
    let full = copied-IsWriting before op sent given w s k p (omega arith) (omega arith) in
    let bts = (pending-Heading before op sent (given ++ take k p) v full false).bytes in
    let u = emptied bts v in
    let still : (w.n + k == 0) ≡ false = ground arith in
    let after = emptied-IsWriting before op sent (given ++ take k p) v full in
    let round =
      write_round_fill k none p w v u s.is_plain.flushes some_left
        (copy_in-copied k p w (min_int_left (available w) (length p) (omega arith)))
        (flush_fragment-emptied before op sent (given ++ take k p) v full still) in
    let step =
      write_loop_step (suc (suc fuel)) n k p w u (long_test before op sent given w s p long)
        round in
    let left = length-drop k p in
    let rest =
      write_loop-empty before op (sent ++ pending v ∷ []) (given ++ take k p) u fuel (n + k)
        (drop k p) after refl is_dirty (omega (arith, left)) in
    Wrote-same before op ((given ++ take k p) ++ drop k p) (given ++ p) (n + k + length (drop k p))
      (n + length p) (write_loop (suc (suc fuel)) (n + k) (drop k p) u)
      (write_loop (suc (suc (suc fuel))) n p w)
      (append_assoc given (take k p) (drop k p)
        ∙ ap (λ (t : Bytes). given ++ t) (take-append-drop k p))
      (omega (arith, left)) step rest

-- The loop in any case.
pub write_loop-IsWriting :
    (before : Bytes) (op : ℕ) (sent : List Bytes) (given : Bytes) (w : Writer) (fuel n : ℕ)
    (p : Bytes)
    → IsWriting before op sent given w
    → w.dirty ≡ true
    → length p < 2 ^ 63
    → Wrote before op (given ++ p) (n + length p) (write_loop (suc (suc (suc fuel))) n p w)
write_loop-IsWriting before op sent given w fuel n p s is_dirty small =
    elim (Bool-cases (leb (length p) (available w))) [
      | inl fits ↦
          write_loop_fits before op sent given w s (suc (suc fuel)) n p is_dirty
            (ground (arith, fits))
      | inr long ↦ elim (Bool-cases (w.n == 0)) [
        | inl empty ↦
            write_loop-empty before op sent given w (suc fuel) n p s (ground (arith, empty))
              is_dirty small
        | inr some_left ↦
            write_loop-emptied before op sent given w fuel n p s some_left is_dirty
              (ground (arith, long)) small
      ]
    ]
