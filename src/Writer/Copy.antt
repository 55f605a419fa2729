-- ===== src/Writer/Copy.antt =====
-- msutil/writer.go: one round of `Write`, and what it puts in the buffer.
use mogusocket.Common.{
  ℕ, suc, ◌+◌, ◌≤◌, ◌<◌, ◌≡◌, refl, sym, ap, subst, ◌∙◌, ◌&&◌, true, false, Option, none, List,
  ◌++◌, append_assoc, arith, Bytes, length, take, drop, ltb, ◌==◌, length-take, take_all,
}
use mogusocket.Cipher.{put_at}
use mogusocket.Errors.{Error}
use mogusocket.Stream.{flatten}
use mogusocket.Frame.Build.{min_int}
use mogusocket.Writer.Result.{Result, ok}
use mogusocket.Writer.Buffer.{Writer, reserve, available}
use mogusocket.Writer.Flush.{pending, flush_fragment, write_through, is_nil}
use mogusocket.Writer.Write.{copy_in, write_round, write_rest, write_loop}
use mogusocket.Writer.Progress.{IsWriting, length-put_at, take-drop-put_at}

-- The writer with the first `k` bytes of `p` in its buffer.
abbrev pub copied : ℕ → Bytes → Writer → Writer
copied k p w = record w { raw = put_at w.raw (w.offset + w.n) (take k p); n = w.n + k }

pub copy_in-copied :
    (k : ℕ) (p : Bytes) (w : Writer)
    → min_int (available w) (length p) ≡ k
    → copy_in p w ≡ (k, copied k p w)
unfolding copy_in
copy_in-copied k p w e = rw e refl

pub min_int_left : (a b : ℕ) → a ≤ b → min_int a b ≡ a
unfolding min_int
min_int_left a b h = ground arith

min_int_right : (a b : ℕ) → b ≤ a → min_int a b ≡ b
unfolding min_int
min_int_right a b h = ground arith

write_loop_stop :
    (fuel n k : ℕ) (p : Bytes) (w v : Writer)
    → (ltb (available w) (length p) && is_nil w.err) ≡ false
    → is_nil w.err ≡ true
    → copy_in p w ≡ (k, v)
    → write_loop (suc fuel) n p w ≡ ok (n + k, v.err, v)
unfolding write_loop write_rest
write_loop_stop fuel n k p w v fits works put = rw (fits, works, put) refl

pub write_loop_step :
    (fuel n k : ℕ) (p : Bytes) (w v : Writer)
    → (ltb (available w) (length p) && is_nil w.err) ≡ true
    → write_round p w ≡ ok (k, v)
    → write_loop (suc fuel) n p w ≡ write_loop fuel (n + k) (drop k p) v
unfolding write_loop
write_loop_step fuel n k p w v long round = rw (long, round) refl

pub write_round_through :
    (k : ℕ) (e : Option Error) (p : Bytes) (w v : Writer)
    → w.no_flush ≡ false
    → (w.n == 0) ≡ true
    → write_through p w ≡ (k, e, v)
    → write_round p w ≡ ok (k, v)
unfolding write_round
write_round_through k e p w v flushes empty sends = rw (sends, flushes, empty) refl

pub write_round_fill :
    (k : ℕ) (e : Option Error) (p : Bytes) (w v u : Writer)
    → w.no_flush ≡ false
    → (w.n == 0) ≡ false
    → copy_in p w ≡ (k, v)
    → flush_fragment v ≡ ok (e, u)
    → write_round p w ≡ ok (k, u)
unfolding write_round
write_round_fill k e p w v u flushes some_left put sends = rw (put, sends, flushes, some_left) refl

-- How a call of the loop ends: all is written, and the invariant holds.
pub record Wrote (before : Bytes) (op : ℕ) (given : Bytes) (total : ℕ)
    (r : Result (ℕ × Option Error × Writer)) : Type 0 where
  pub sent : List Bytes
  pub after : Writer
  pub result : r ≡ ok (total, none, after)
  pub writing : IsWriting before op sent given after
  pub is_dirty : after.dirty ≡ true

pub Wrote-same :
    (before : Bytes) (op : ℕ) (given given' : Bytes) (total total' : ℕ)
    (r r' : Result (ℕ × Option Error × Writer))
    → given ≡ given'
    → total ≡ total'
    → r' ≡ r
    → Wrote before op given total r
    → Wrote before op given' total' r'
Wrote-same before op given given' total total' r r' e f g w =
    let a = subst (λ (t : Bytes). Wrote before op t total r) e w in
    let b = subst (λ (t : ℕ). Wrote before op given' t r) f a in
    subst (λ t. Wrote before op given' total' t) (sym g) b

module _ (before : Bytes) (op : ℕ) (sent : List Bytes) (given : Bytes) (w : Writer)
    (s : IsWriting before op sent given w) where
  pub copied-IsWriting :
      (k : ℕ) (p : Bytes)
      → k ≤ length p
      → k ≤ available w
      → IsWriting before op sent (given ++ take k p) (copied k p w)
  unfolding available
  copied-IsWriting k p fits free =
      let plain = s.is_plain in
      let room = plain.room in
      let size : length (take k p) ≡ k = omega (arith, length-take k p) in
      let same : length (put_at w.raw (w.offset + w.n) (take k p)) ≡ length w.raw =
        length-put_at w.raw (take k p) (w.offset + w.n) (omega (arith, size)) in
      let held : pending (copied k p w) ≡ pending w ++ take k p =
        ap (λ (i : ℕ). take (w.n + i) (drop w.offset (put_at w.raw (w.offset + w.n) (take k p))))
          (sym size)
        ∙ take-drop-put_at w.raw (take k p) w.offset w.n (omega (arith, size)) in
      record {
        is_plain = record {
          server = plain.server;
          plain = plain.plain;
          flushes = plain.flushes;
          works = plain.works;
          always = plain.always;
          small_op = plain.small_op;
          reserved = plain.reserved ∙ ap (reserve w.state) (sym same);
          room = omega (arith, same);
          small = rw same plain.small;
        };
        same_op = s.same_op;
        count = s.count;
        frames = s.frames;
        on_wire = s.on_wire;
        are_frames = s.are_frames;
        kept =
            ap (λ (t : Bytes). flatten sent ++ t) held
            ∙ sym (append_assoc (flatten sent) (pending w) (take k p))
            ∙ ap (λ (t : Bytes). t ++ take k p) s.kept;
      }

  -- What fits goes into the buffer.
  pub write_loop_fits :
      (fuel n : ℕ) (p : Bytes)
      → w.dirty ≡ true
      → length p ≤ available w
      → Wrote before op (given ++ p) (n + length p) (write_loop (suc fuel) n p w)
  write_loop_fits fuel n p is_dirty fits =
      let works = ap is_nil s.is_plain.works in
      let enough : (ltb (available w) (length p) && is_nil w.err) ≡ false = ground (arith, fits) in
      let put = copy_in-copied (length p) p w (min_int_right (available w) (length p) fits) in
      let whole = take_all (length p) p (omega arith) in
      record {
        sent = sent;
        after = copied (length p) p w;
        result =
            write_loop_stop fuel n (length p) p w (copied (length p) p w) enough works put
            ∙ ap (λ (e : Option Error). ok (n + length p, e, copied (length p) p w))
                s.is_plain.works;
        writing =
            subst (λ (t : Bytes). IsWriting before op sent (given ++ t) (copied (length p) p w))
              whole (copied-IsWriting (length p) p (omega arith) fits);
        is_dirty = is_dirty;
      }

  pub long_test :
      (p : Bytes) → available w < length p → (ltb (available w) (length p) && is_nil w.err) ≡ true
  long_test p long = let works = ap is_nil s.is_plain.works in ground (arith, long, works)
