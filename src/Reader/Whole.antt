-- ===== src/Reader/Whole.antt =====
-- msutil/helper.go: `ReadMessage` reads what `WriteMessage` writes.
use mogusocket.Common.{
  ℕ, zero, suc, ◌+◌, ◌-◌, ◌≤◌, ◌<◌, ◌≡◌, refl, sym, ap, ◌∙◌, inl, inr, true, false, none, some, [],
  ◌∷◌, ◌++◌, append_assoc, append-nil, arith, Bytes, length, take, leb, length-append, take_all,
}
use mogusocket.Errors.{eof}
use mogusocket.Stream.{content}
use mogusocket.Check.{fragmented}
use mogusocket.Writer.Result.{ok}
use mogusocket.Reader.Messages.{Reader, reset_message, read_message}
use mogusocket.Reader.Partway.{length-IsPartway, weight}
use mogusocket.Stream.Laws.{list_nil}
use mogusocket.Reader.Payloads.{IsReading, read_message-Delivers}
use mogusocket.Reader.Loops.{full_loop, full_step}

module _ {S : Type 0} where
  full_loop_done :
      (fuel want : ℕ) (acc : Bytes) (r : Reader S)
      → want ≤ length acc
      → full_loop read_message (suc fuel) want acc r ≡ ok (acc, none, r)
  unfolding full_loop
  full_loop_done fuel want acc r done =
      let e : leb want (length acc) ≡ true = ground arith in rw e refl

  full_loop_more :
      (fuel want n : ℕ) (acc bs : Bytes) (r r' : Reader S)
      → length acc < want
      → read_message (want - length acc) r ≡ (n, bs, none, r')
      → full_loop read_message (suc fuel) want acc r
        ≡ full_loop read_message fuel want (acc ++ take n bs) r'
  unfolding full_loop
  full_loop_more fuel want n acc bs r r' more e =
      let test : leb want (length acc) ≡ false = ground arith in
      rw test (ap (full_step read_message (full_loop read_message fuel want) want acc) e)

  full_loop_last :
      (fuel want n : ℕ) (acc bs : Bytes) (r r' : Reader S)
      → length acc < want
      → want ≤ length (acc ++ take n bs)
      → read_message (want - length acc) r ≡ (n, bs, some eof, r')
      → full_loop read_message (suc fuel) want acc r ≡ ok (acc ++ take n bs, none, r')
  unfolding full_loop
  full_loop_last fuel want n acc bs r r' more enough e =
      let test : leb want (length acc) ≡ false = ground arith in
      let full : leb want (length (acc ++ take n bs)) ≡ true = ground arith in
      rw test
        (ap (full_step read_message (full_loop read_message fuel want) want acc) e ∙ rw full refl)

  -- io.ReadFull has read the rest of a payload.
  pub record Fills (fuel want : ℕ) (acc zs rest : Bytes) (r : Reader S) : Type 0 where
    pub after : Reader S
    pub result : full_loop read_message fuel want acc r ≡ ok (acc ++ zs, none, after)
    pub arrives : content after.body.source ≡ rest
    pub same_store : after.store ≡ r.store

  pub full_loop-Fills :
      (fuel want : ℕ) (acc zs rest : Bytes) (r : Reader S)
      → IsReading r zs [] rest
      → fragmented r.state ≡ false
      → want ≡ length acc + length zs
      → weight r.body.source < fuel
      → Fills fuel want acc zs rest r
  unfolding reset_message
  full_loop-Fills zero want acc zs rest r s whole counted enough = absurd (omega arith)
  full_loop-Fills (suc fuel) want acc [] rest r s whole counted enough = record {
    after = r;
    result =
        full_loop_done fuel want acc r (omega arith)
        ∙ ap (λ (t : Bytes). ok (t, none, r)) (sym (append-nil acc));
    arrives =
        s.partway.arrives
        ∙ ap (λ (t : Bytes). t ++ rest)
            (list_nil s.wire (omega (arith, length-IsPartway r.body s.wire [] [] rest s.partway)));
    same_store = refl;
  }
  full_loop-Fills (suc fuel) want acc (z ∷ zs) rest r s whole counted enough =
      let d =
        read_message-Delivers (want - length acc) r (z ∷ zs) [] rest s (omega arith)
          (omega arith) in
      let joined : (acc ++ d.front) ++ d.back ≡ acc ++ z ∷ zs =
        append_assoc acc d.front d.back ∙ ap (λ (t : Bytes). acc ++ t) (sym d.split) in
      let lengths = ap length d.split in
      let sum = length-append d.front d.back in
      let sum' = length-append acc d.front in
      let all : take (length d.front) d.front ≡ d.front =
        take_all (length d.front) d.front (omega arith) in
      elim d.outcome [
        | inl within ↦
            let rest_of =
              full_loop-Fills fuel want (acc ++ d.front) d.back rest
                (record r { body = within.body }) within.reading whole (omega arith)
                (omega (arith, within.lighter)) in
            record {
              after = rest_of.after;
              result =
                  full_loop_more fuel want (length d.front) acc d.front r
                    (record r { body = within.body }) (omega arith) within.result
                  ∙ ap
                      (λ (t : Bytes).
                        full_loop read_message fuel want (acc ++ t)
                          (record r { body = within.body }))
                      all
                  ∙ rest_of.result
                  ∙ ap (λ (t : Bytes). ok (t, none, rest_of.after)) joined;
              arrives = rest_of.arrives;
              same_store = rest_of.same_store;
            }
        | inr (no_back, last) ↦
            let r' : Reader S = reset_message (record r { body = last.body }) in
            let front : d.front ≡ z ∷ zs =
              sym (append-nil d.front)
              ∙ ap (λ (t : Bytes). d.front ++ t) (sym no_back)
              ∙ sym d.split in
            let taken = all ∙ front in
            let ends : read_message (want - length acc) r
                ≡ (length d.front, d.front, some eof, r') =
              last.result ∙ rw whole refl in
            record {
              after = r';
              result =
                  full_loop_last fuel want (length d.front) acc d.front r r' (omega arith)
                    (omega
                      (arith, ap length taken, length-append acc (take (length d.front) d.front)))
                    ends
                  ∙ ap (λ (t : Bytes). ok (acc ++ t, none, r')) taken;
              arrives = last.between.arrives;
              same_store = refl;
            }
      ]
