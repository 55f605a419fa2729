-- ===== src/Stream/Laws.antt =====
-- What the callers of io.ReadFull and Write rely on: only the bytes count, not the pieces.
use mogusocket.Common.{
  ℕ, ◌+◌, ◌-◌, ◌≤◌, ◌<◌, ◌≡◌, refl, sym, ap, ◌∙◌, Option, none, some, List, [], ◌∷◌, ◌++◌,
  append-nil, append_assoc, arith, inl, inr, Bytes, length, take, drop, ltb, leb, Bool-cases,
  length-append, length-drop, drop-append_left, take-append_left, take-append-drop,
}
use mogusocket.Errors.{Error}
use mogusocket.Stream.{
  Source, flatten, content, short_read, fill, read_full, Sink, Outcome, accepts, fails, write_plan,
  write, written, write_all, next_piece,
}

-- `read_full` returned the bytes `xs`, and the bytes `ys` are still to come.
pub record Reads (n : ℕ) (s : Source) (xs ys : Bytes) : Type 0 where
  pub after : Source
  pub result : read_full n s ≡ (xs, none, after)
  pub remains : content after ≡ ys
  pub same_last : after.last ≡ s.last

record Fills (n : ℕ) (acc : Bytes) (cs : List Bytes) (last : Error) (xs ys : Bytes) : Type 0 where
  after : Source
  result : fill n acc cs last ≡ (xs, none, after)
  remains : content after ≡ ys
  same_last : after.last ≡ last

pub take-length-append : (xs ys : Bytes) → take (length xs) (xs ++ ys) ≡ xs
take-length-append [] ys = refl
take-length-append (x ∷ xs) ys = ap (◌∷◌ x) (take-length-append xs ys)

pub drop-length-append : (xs ys : Bytes) → drop (length xs) (xs ++ ys) ≡ ys
drop-length-append [] ys = refl
drop-length-append (x ∷ xs) ys = drop-length-append xs ys

pub list_nil : (ws : Bytes) → length ws ≡ 0 → ws ≡ []
list_nil [] h = refl
list_nil (w ∷ ws) h = absurd (omega arith)

-- `acc` and `ws` together are the bytes asked for.
fill-Fills :
    (n : ℕ) (acc ws ys : Bytes) (cs : List Bytes) (last : Error)
    → flatten cs ≡ ws ++ ys
    → length acc + length ws ≡ n
    → Fills n acc cs last (acc ++ ws) ys
unfolding fill
fill-Fills n acc [] ys [] last e hn = record {
  after = record { chunks = []; last = last };
  result = rw append-nil (ground arith);
  remains = e;
  same_last = refl;
}
fill-Fills n acc (w ∷ ws) ys [] last e hn = cc
fill-Fills n acc ws ys (c ∷ cs) last e hn =
    let need = n - length acc in
    let same : length ws ≡ need = omega arith in
    elim (Bool-cases (leb n (length acc))) [
      | inl full ↦
          let empty = list_nil ws (ground arith) in
          record {
            after = record { chunks = c ∷ cs; last = last };
            result = rw (empty, append-nil, full);
            remains = e ∙ rw empty;
            same_last = refl;
          }
      | inr more ↦ elim (Bool-cases (ltb need (length c))) [
        | inl inside ↦
            let fits : length ws ≤ length c = ground arith in
            let front : take need c ≡ ws = rw (← same) (
              sym (take-append_left (length ws) c (flatten cs) fits)
              ∙ ap (take (length ws)) e
              ∙ take-length-append ws ys) in
            let back : drop need c ++ flatten cs ≡ ys = rw (← same) (
              sym (drop-append_left (length ws) c (flatten cs) fits)
              ∙ ap (drop (length ws)) e
              ∙ drop-length-append ws ys) in
            record {
              after = record { chunks = drop need c ∷ cs; last = last };
              result = rw (more, inside, front);
              remains = back;
              same_last = refl;
            }
        | inr outside ↦
            let fits : length c ≤ length ws = ground arith in
            let us = drop (length c) ws in
            let front : c ≡ take (length c) ws =
              sym (take-length-append c (flatten cs))
              ∙ ap (take (length c)) e
              ∙ take-append_left (length c) ws ys fits in
            let back : flatten cs ≡ us ++ ys =
              sym (drop-length-append c (flatten cs))
              ∙ ap (drop (length c)) e
              ∙ drop-append_left (length c) ws ys fits in
            let whole : (acc ++ c) ++ us ≡ acc ++ ws =
              append_assoc acc c us
              ∙ ap (◌++◌ acc)
                  (ap (λ (t : Bytes). t ++ us) front ∙ take-append-drop (length c) ws) in
            let rest =
              fill-Fills n (acc ++ c) us ys cs last back
                (omega (arith, length-append acc c, length-drop (length c) ws)) in
            record {
              after = rest.after;
              result = rw (← whole) (rw (more, outside) rest.result);
              remains = rest.remains;
              same_last = rest.same_last;
            }
      ]
    ]

-- A reader that still holds `xs` and `ys` gives exactly `xs`, however its bytes are cut in pieces.
pub read_full-Reads :
    (n : ℕ) (s : Source) (xs ys : Bytes) → content s ≡ xs ++ ys → length xs ≡ n → Reads n s xs ys
unfolding read_full
read_full-Reads n s xs ys e hn =
    let f = fill-Fills n [] xs ys s.chunks s.last e (omega arith) in
    record { after = f.after; result = f.result; remains = f.remains; same_last = f.same_last }

fill_short :
    (n : ℕ) (acc : Bytes) (cs : List Bytes) (last : Error)
    → length acc + length (flatten cs) < n
    → fill n acc cs last ≡ (
      acc ++ flatten cs,
      some (short_read (acc ++ flatten cs) last),
      record { chunks = []; last = last },
    )
unfolding fill
fill_short n acc [] last h = rw append-nil (ground arith)
fill_short n acc (c ∷ cs) last h =
    let sum = length-append c (flatten cs) in
    rw (← append_assoc acc c (flatten cs))
      (ground (arith, sum, length-append acc c, fill_short n (acc ++ c) cs last))

-- A reader with fewer bytes gives them all, and the error says whether there were any.
pub read_full_short :
    (n : ℕ) (s : Source)
    → length (content s) < n
    → read_full n s
      ≡ (content s, some (short_read (content s) s.last), record { chunks = []; last = s.last })
unfolding read_full
read_full_short n s h = fill_short n [] s.chunks s.last (omega arith)

pub flatten-snoc : (cs : List Bytes) (p : Bytes) → flatten (cs ++ p ∷ []) ≡ flatten cs ++ p
flatten-snoc [] p = append-nil p
flatten-snoc (c ∷ cs) p = rw (flatten-snoc cs p, append_assoc)

-- A call of Write that returns no error has appended its bytes.
pub write_ok :
    (p : Bytes) (s : Sink) → (write p s).0 ≡ none → written (write p s).1 ≡ written s ++ p
unfolding write
write_ok p s h = plan_ok p s.calls s.plan h
  where
    plan_ok :
        (p : Bytes) (calls : List Bytes) (os : List Outcome)
        → (write_plan p calls os).0 ≡ none
        → written (write_plan p calls os).1 ≡ flatten calls ++ p
    plan_ok p calls [] h = flatten-snoc calls p
    plan_ok p calls (accepts ∷ os) h = flatten-snoc calls p
    plan_ok p calls (fails n e ∷ os) h = cc

fill-pieces :
    (n : ℕ) (acc : Bytes) (cs : List Bytes) (last : Error)
    → length (fill n acc cs last).2.chunks ≤ length cs
unfolding fill
fill-pieces n acc [] last = omega arith
fill-pieces n acc (c ∷ cs) last = ground (arith, fill-pieces n (acc ++ c) cs last)

-- io.ReadFull never adds a piece.
pub read_full-pieces : (n : ℕ) (r : Source) → length (read_full n r).2.chunks ≤ length r.chunks
unfolding read_full
read_full-pieces n r = fill-pieces n [] r.chunks r.last

next_piece_ok :
    (again : Sink → Option Error × Sink) (x : Option Error × Sink)
    → (next_piece again x).0 ≡ none
    → (x.0 ≡ none) × ((again x.1).0 ≡ none) × ((next_piece again x).1 ≡ (again x.1).1)
next_piece_ok again (none, s) h = (refl, h, refl)
next_piece_ok again (some e, s) h = cc

-- What several calls of Write have sent without an error.
pub write_all_ok :
    (ps : List Bytes) (s : Sink)
    → (write_all ps s).0 ≡ none
    → written (write_all ps s).1 ≡ written s ++ flatten ps
unfolding write_all
write_all_ok [] s h = sym (append-nil (written s))
write_all_ok (p ∷ ps) s h =
    let (first, others, same) = next_piece_ok (write_all ps) (write p s) h in
    ap written same
    ∙ write_all_ok ps (write p s).1 others
    ∙ ap (λ (t : Bytes). t ++ flatten ps) (write_ok p s first)
    ∙ append_assoc (written s) p (flatten ps)
