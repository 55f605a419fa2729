-- ===== src/Reader/Passing.antt =====
-- msutil/reader.go: io.ReadAll through a frame that is not the last one of its message.
use mogusocket.Common.{
  ℕ, zero, suc, ◌+◌, ◌<◌, ◌≡◌, refl, sym, ap, ◌∙◌, inl, inr, Bool, true, none, [], ◌∷◌, ◌++◌,
  append_assoc, append-nil, arith, Bytes, length, take, take_all, if◌then◌else◌,
}
use mogusocket.Stream.{content}
use mogusocket.Stream.Laws.{list_nil}
use mogusocket.Check.{fragmented}
use mogusocket.Utf8.Run.{run}
use mogusocket.Reader.Body.{Body}
use mogusocket.Reader.Messages.{Reader, reset_fragment, read_message}
use mogusocket.Reader.Loops.{all_loop}
use mogusocket.Reader.Partway.{length-IsPartway, weight}
use mogusocket.Reader.Payloads.{IsReading, IsBetween, read_message-Delivers, at_end-closing}
use mogusocket.Reader.Collected.{body_read-Ends, read_at_end, all_loop_more}

module _ {S : Type 0} where
  -- The loop has taken the rest of a frame and goes on behind it.
  pub record Passes (room : ℕ → ℕ) (fuel : ℕ) (acc zs more rest : Bytes) (r : Reader S)
      : Type 0 where
    pub body : Body
    pub left : ℕ
    pub result :
        all_loop read_message room fuel acc r
        ≡ all_loop read_message room left (acc ++ zs) (reset_fragment (record r { body = body }))
    pub between : IsBetween body more rest
    pub same_checking : body.checking ≡ r.body.checking
    pub enough : weight body.source < left

  pub all_loop-Passes :
      (room : ℕ → ℕ) (fuel : ℕ) (acc zs more rest : Bytes) (r : Reader S)
      → ((n : ℕ) → 0 < room n)
      → IsReading r zs more rest
      → fragmented r.state ≡ true
      → weight r.body.source + 1 < fuel
      → Passes room fuel acc zs more rest r
  unfolding reset_fragment
  all_loop-Passes room zero acc zs more rest r space s partial enough = absurd (omega arith)
  all_loop-Passes room (suc fuel) acc [] more rest r space s partial enough =
      let no_wire : length s.wire ≡ 0 =
        omega (arith, length-IsPartway r.body s.wire [] more rest s.partway) in
      let ended : r.body.left ≡ 0 = s.partway.counted ∙ no_wire in
      let t = body_read-Ends (room (length acc)) r.body ended s.partway.ciphers in
      let r' = record r { body = t.after } in
      let reads : read_message (room (length acc)) r ≡ (0, [], none, reset_fragment r') =
        read_at_end (room (length acc)) r t.after s.in_frame t.result
        ∙ at_end-closing 0 [] r' (ground (arith, ended, t.same_left)) (λ last. cc)
        ∙ rw partial refl in
      record {
        body = t.after;
        left = fuel;
        result = all_loop_more room fuel 0 acc [] r (reset_fragment r') reads;
        between = record {
          arrives =
              ap content t.same_source
              ∙ s.partway.arrives
              ∙ ap (λ (x : Bytes). x ++ rest) (list_nil s.wire no_wire);
          state = s.partway.state;
          state_is = t.same_state ∙ s.partway.state_is;
          valid_from =
              ap (λ (c : Bool). run s.partway.state (if c then more else [])) t.same_checking
              ∙ s.partway.valid_from;
        };
        same_checking = t.same_checking;
        enough = omega (arith, ap weight t.same_source);
      }
  all_loop-Passes room (suc fuel) acc (z ∷ zs) more rest r space s partial enough =
      let d =
        read_message-Delivers (room (length acc)) r (z ∷ zs) more rest s (space (length acc))
          (omega arith) in
      let joined : (acc ++ d.front) ++ d.back ≡ acc ++ z ∷ zs =
        append_assoc acc d.front d.back ∙ ap (λ (t : Bytes). acc ++ t) (sym d.split) in
      let all : take (length d.front) d.front ≡ d.front =
        take_all (length d.front) d.front (omega arith) in
      elim d.outcome [
        | inl within ↦
            let r' : Reader S = record r { body = within.body } in
            let p =
              all_loop-Passes room fuel (acc ++ d.front) d.back more rest r' space within.reading
                partial (omega (arith, within.lighter)) in
            record {
              body = p.body;
              left = p.left;
              result =
                  all_loop_more room fuel (length d.front) acc d.front r r' within.result
                  ∙ ap (λ (t : Bytes). all_loop read_message room fuel (acc ++ t) r') all
                  ∙ p.result
                  ∙ ap
                      (λ (t : Bytes).
                        all_loop read_message room p.left t
                          (reset_fragment (record r { body = p.body })))
                      joined;
              between = p.between;
              same_checking = p.same_checking ∙ within.same_checking;
              enough = p.enough;
            }
        | inr (no_back, last) ↦
            let r' : Reader S = reset_fragment (record r { body = last.body }) in
            let front : d.front ≡ z ∷ zs =
              sym (append-nil d.front)
              ∙ ap (λ (t : Bytes). d.front ++ t) (sym no_back)
              ∙ sym d.split in
            record {
              body = last.body;
              left = fuel;
              result =
                  all_loop_more room fuel (length d.front) acc d.front r r'
                    (last.result ∙ rw partial refl)
                  ∙ ap (λ (t : Bytes). all_loop read_message room fuel (acc ++ t) r') (all ∙ front);
              between = last.between;
              same_checking = last.same_checking;
              enough = omega (arith, last.lighter);
            }
      ]
