-- ===== src/Reader/Collected.antt =====
-- msutil/helper.go: io.ReadAll on the payload of a message in one frame.
use mogusocket.Common.{
  ℕ, zero, suc, ◌+◌, ◌<◌, ◌≡◌, refl, sym, ap, ◌∙◌, inl, inr, Bool, true, false, Option, none, some,
  [], ◌∷◌, ◌++◌, append_assoc, append-nil, arith, Bytes, length, take, take_all, Bool-cases, ==_iff,
  if◌then◌else◌,
}
use mogusocket.Cipher.{Mask, cipher}
use mogusocket.Cipher.Equivalence.{length-cipher}
use mogusocket.Errors.{Error, eof}
use mogusocket.Stream.{content}
use mogusocket.Stream.Laws.{list_nil}
use mogusocket.Check.{fragmented}
use mogusocket.Utf8.Machine.{State, number, start}
use mogusocket.Utf8.Run.{run}
use mogusocket.Utf8.Reader.{Utf8Reader, scan, valid}
use mogusocket.Writer.Result.{ok}
use mogusocket.Reader.Body.{Body, limited_read, decipher, body_read, check_text, unchecked}
use mogusocket.Reader.Messages.{Reader, reset_message, at_end, read_message}
use mogusocket.Reader.Loops.{all_loop, all_step}
use mogusocket.Reader.Partway.{IsCipher, length-IsPartway, weight}
use mogusocket.Reader.Payloads.{IsReading, at_end-closing, read_message-Delivers}

-- A read at the end of a frame.
pub record Ends (k : ℕ) (b : Body) : Type 0 where
  pub after : Body
  pub result : body_read k b ≡ (0, [], some eof, after)
  pub same_source : after.source ≡ b.source
  pub same_left : after.left ≡ b.left
  pub same_state : after.utf8.state ≡ b.utf8.state
  pub same_checking : after.checking ≡ b.checking

abbrev past : Option (Mask × ℕ) → Option (Mask × ℕ)
past none = none
past (some mp) = some (mp.0, mp.1 + 0)

abbrev ended_body : Body → Body
ended_body b = record b { ciphered = past b.ciphered }

decipher_end :
    (b : Body) (c : Option (Mask × ℕ))
    → IsCipher c
    → decipher ([], some eof, record b { ciphered = c })
      ≡ ([], some eof, record b { ciphered = past c })
unfolding decipher
decipher_end b none m = refl
decipher_end b (some mp) m =
    ap (λ (bs : Bytes). (bs, some eof, record b { ciphered = past (some mp) }))
      (list_nil (cipher [] mp.0 mp.1) (length-cipher [] mp.0 mp.1 tt m))

limited_read_end : (k : ℕ) (b : Body) → b.left ≡ 0 → limited_read k b ≡ ([], some eof, b)
unfolding limited_read
limited_read_end k b ended = ground (arith, ended)

checked : Body → Bytes × Option Error × Body → ℕ × Bytes × Option Error × Body
checked b got = if b.checking then check_text got else unchecked got

pub body_read-Ends : (k : ℕ) (b : Body) → b.left ≡ 0 → IsCipher b.ciphered → Ends k b
unfolding body_read scan checked
body_read-Ends k b ended m =
    let e : body_read k b ≡ checked b ([], some eof, ended_body b) =
      ap (λ x. checked b (decipher x)) (limited_read_end k b ended)
      ∙ ap (checked b) (decipher_end b b.ciphered m) in
    elim (Bool-cases b.checking) [
      | inl text ↦ record {
        after = record (ended_body b) { utf8 = record b.utf8 { accepted = 0 } };
        result = e ∙ rw text refl;
        same_source = refl;
        same_left = refl;
        same_state = refl;
        same_checking = refl;
      }
      | inr other ↦ record {
        after = ended_body b;
        result = e ∙ rw other refl;
        same_source = refl;
        same_left = refl;
        same_state = refl;
        same_checking = refl;
      }
    ]

valid_at_end :
    (c : Bool) (t : State) (u : Utf8Reader)
    → u.state ≡ number t
    → run t (if c then [] else []) ≡ start
    → valid u ≡ true
unfolding valid run
valid_at_end true t u e h = (==_iff u.state 0).1 (e ∙ ap number h)
valid_at_end false t u e h = (==_iff u.state 0).1 (e ∙ ap number h)

module _ {S : Type 0} where
  -- A read at the end of the last frame of a message.
  record Finishes (k : ℕ) (r : Reader S) (rest : Bytes) : Type 0 where
    after : Reader S
    result : read_message k r ≡ (0, [], some eof, after)
    arrives : content after.body.source ≡ rest
    same_store : after.store ≡ r.store

  pub read_at_end :
      (k : ℕ) (r : Reader S) (b : Body)
      → r.has_frame ≡ true
      → body_read k r.body ≡ (0, [], some eof, b)
      → read_message k r ≡ at_end 0 [] (record r { body = b })
  unfolding read_message
  read_at_end k r b frame e = rw (e, frame) refl

  read_message-Finishes :
      (k : ℕ) (r : Reader S) (rest : Bytes)
      → IsReading r [] [] rest
      → fragmented r.state ≡ false
      → Finishes k r rest
  unfolding reset_message
  read_message-Finishes k r rest s whole =
      let no_wire : length s.wire ≡ 0 =
        omega (arith, length-IsPartway r.body s.wire [] [] rest s.partway) in
      let ended : r.body.left ≡ 0 = s.partway.counted ∙ no_wire in
      let t = body_read-Ends k r.body ended s.partway.ciphers in
      let r' = record r { body = t.after } in
      let text : run s.partway.state (if r.body.checking then [] else []) ≡ start =
        s.partway.valid_from in
      let good =
        valid_at_end r.body.checking s.partway.state r'.body.utf8
          (t.same_state ∙ s.partway.state_is) text in
      record {
        after = reset_message r';
        result =
            read_at_end k r t.after s.in_frame t.result
            ∙ at_end-closing 0 [] r' (ground (arith, ended, t.same_left)) (λ last. good)
            ∙ rw whole refl;
        arrives =
            ap content t.same_source
            ∙ s.partway.arrives
            ∙ ap (λ (x : Bytes). x ++ rest) (list_nil s.wire no_wire);
        same_store = refl;
      }

  pub all_loop_more :
      (room : ℕ → ℕ) (fuel n : ℕ) (acc bs : Bytes) (r r' : Reader S)
      → read_message (room (length acc)) r ≡ (n, bs, none, r')
      → all_loop read_message room (suc fuel) acc r
        ≡ all_loop read_message room fuel (acc ++ take n bs) r'
  unfolding all_loop
  all_loop_more room fuel n acc bs r r' e =
      ap (all_step read_message (all_loop read_message room fuel) acc) e

  all_loop_last :
      (room : ℕ → ℕ) (fuel n : ℕ) (acc bs : Bytes) (r r' : Reader S)
      → read_message (room (length acc)) r ≡ (n, bs, some eof, r')
      → all_loop read_message room (suc fuel) acc r ≡ ok (acc ++ take n bs, none, r')
  unfolding all_loop
  all_loop_last room fuel n acc bs r r' e =
      ap (all_step read_message (all_loop read_message room fuel) acc) e

  -- io.ReadAll has read the rest of a payload.
  pub record Collects (room : ℕ → ℕ) (fuel : ℕ) (acc zs rest : Bytes) (r : Reader S) : Type 0 where
    pub after : Reader S
    pub result : all_loop read_message room fuel acc r ≡ ok (acc ++ zs, none, after)
    pub arrives : content after.body.source ≡ rest
    pub same_store : after.store ≡ r.store

  pub all_loop-Collects :
      (room : ℕ → ℕ) (fuel : ℕ) (acc zs rest : Bytes) (r : Reader S)
      → ((n : ℕ) → 0 < room n)
      → IsReading r zs [] rest
      → fragmented r.state ≡ false
      → weight r.body.source < fuel
      → Collects room fuel acc zs rest r
  unfolding reset_message
  all_loop-Collects room zero acc zs rest r space s whole enough = absurd (omega arith)
  all_loop-Collects room (suc fuel) acc [] rest r space s whole enough =
      let t = read_message-Finishes (room (length acc)) r rest s whole in
      record {
        after = t.after;
        result = all_loop_last room fuel 0 acc [] r t.after t.result;
        arrives = t.arrives;
        same_store = t.same_store;
      }
  all_loop-Collects room (suc fuel) acc (z ∷ zs) rest r space s whole enough =
      let d =
        read_message-Delivers (room (length acc)) r (z ∷ zs) [] rest s (space (length acc))
          (omega arith) in
      let joined : (acc ++ d.front) ++ d.back ≡ acc ++ z ∷ zs =
        append_assoc acc d.front d.back ∙ ap (λ (t : Bytes). acc ++ t) (sym d.split) in
      let all : take (length d.front) d.front ≡ d.front =
        take_all (length d.front) d.front (omega arith) in
      elim d.outcome [
        | inl within ↦
            let rest_of =
              all_loop-Collects room fuel (acc ++ d.front) d.back rest
                (record r { body = within.body }) space within.reading whole
                (omega (arith, within.lighter)) in
            record {
              after = rest_of.after;
              result =
                  all_loop_more room fuel (length d.front) acc d.front r
                    (record r { body = within.body }) within.result
                  ∙ ap
                      (λ (t : Bytes).
                        all_loop read_message room fuel (acc ++ t)
                          (record r { body = within.body }))
                      all
                  ∙ rest_of.result
                  ∙ ap (λ (t : Bytes). ok (t, none, rest_of.after)) joined;
              arrives = rest_of.arrives;
              same_store = rest_of.same_store;
            }
        | inr (no_back, last) ↦
            let r' : Reader S = reset_message (record r { body = last.body }) in
            let front : d.front ≡ z ∷ zs =
              sym (append-nil d.front)
              ∙ ap (λ (t : Bytes). d.front ++ t) (sym no_back)
              ∙ sym d.split in
            let ends : read_message (room (length acc)) r
                ≡ (length d.front, d.front, some eof, r') =
              last.result ∙ rw whole refl in
            record {
              after = r';
              result =
                  all_loop_last room fuel (length d.front) acc d.front r r' ends
                  ∙ ap (λ (t : Bytes). ok (acc ++ t, none, r')) (all ∙ front);
              arrives = last.between.arrives;
              same_store = refl;
            }
      ]
