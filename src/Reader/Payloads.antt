-- ===== src/Reader/Payloads.antt =====
-- msutil/reader.go: `Read` within a frame of which the source has all the bytes.
use mogusocket.Common.{
  ℕ, ◌≤◌, ◌<◌, ◌≡◌, ◌⊎◌, refl, sym, ap, ◌∙◌, inl, inr, ◌&&◌, Bool, true, false, Option, none, some,
  [], ◌++◌, arith, Bytes, length, ◌==◌, Bool-cases, ==_iff, if◌then◌else◌,
}
use mogusocket.Errors.{Error, eof}
use mogusocket.Stream.{content}
use mogusocket.Check.{fragmented}
use mogusocket.Utf8.Machine.{State, number, start}
use mogusocket.Utf8.Run.{run}
use mogusocket.Utf8.Reader.{valid}
use mogusocket.Reader.Body.{Body, body_read}
use mogusocket.Reader.Messages.{Reader, reset_fragment, reset_message, at_end, read_message}
use mogusocket.Reader.Partway.{IsPartway, length-IsPartway, weight}
use mogusocket.Reader.Pieces.{body_read-Progress}
use mogusocket.Stream.Laws.{list_nil}

-- The state of the text behind a frame.
pub record IsBetween (b : Body) (more rest : Bytes) : Type 0 where
  pub arrives : content b.source ≡ rest
  pub state : State
  pub state_is : b.utf8.state ≡ number state
  pub valid_from : run state (if b.checking then more else []) ≡ start

IsPartway-IsBetween :
    (b : Body) (ys zs more rest : Bytes)
    → IsPartway b ys zs more rest
    → b.left ≡ 0
    → (zs ≡ []) × IsBetween b more rest
IsPartway-IsBetween b ys zs more rest p ended =
    let no_wire : ys ≡ [] = list_nil ys (sym p.counted ∙ ended) in
    let no_text : zs ≡ [] =
      list_nil zs (length-IsPartway b ys zs more rest p ∙ sym p.counted ∙ ended) in
    (
      no_text,
      record {
        arrives = p.arrives ∙ ap (λ (t : Bytes). t ++ rest) no_wire;
        state = p.state;
        state_is = p.state_is;
        valid_from =
            sym (ap (λ (t : Bytes). run p.state (if b.checking then t ++ more else [])) no_text)
            ∙ p.valid_from;
      },
    )

IsBetween-valid :
    (b : Body) (more rest : Bytes) → IsBetween b more rest → more ≡ [] → valid b.utf8 ≡ true
unfolding valid run
IsBetween-valid b more rest s last =
    let here : s.state ≡ start =
      sym (nothing b.checking)
      ∙ sym (ap (λ (t : Bytes). run s.state (if b.checking then t else [])) last)
      ∙ s.valid_from in
    (==_iff b.utf8.state 0).1 (s.state_is ∙ ap number here)
  where
    nothing : (c : Bool) → run s.state (if c then [] else []) ≡ s.state
    nothing true = refl
    nothing false = refl

and_false : (b : Bool) → (b && false) ≡ false
and_false b = ground arith

module _ {S : Type 0} where
  -- The payload of the frame that is still to be read is `zs`.
  pub record IsReading (r : Reader S) (zs more rest : Bytes) : Type 0 where
    pub wire : Bytes
    pub partway : IsPartway r.body wire zs more rest
    pub in_frame : r.has_frame ≡ true
    pub continues : fragmented r.state ≡ false → more ≡ []

  -- What Read returns at the end of a frame.
  abbrev pub closing : Reader S → Option Error × Reader S
  closing r = if fragmented r.state then (none, reset_fragment r) else (some eof, reset_message r)

  read_within :
      (k n : ℕ) (r : Reader S) (bs : Bytes) (b : Body)
      → r.has_frame ≡ true
      → body_read k r.body ≡ (n, bs, none, b)
      → (b.left == 0) ≡ false
      → read_message k r ≡ (n, bs, none, record r { body = b })
  unfolding read_message
  read_within k n r bs b frame e some_left = rw (e, some_left, frame) refl

  read_last :
      (k n : ℕ) (r : Reader S) (bs : Bytes) (b : Body)
      → r.has_frame ≡ true
      → body_read k r.body ≡ (n, bs, none, b)
      → (b.left == 0) ≡ true
      → read_message k r ≡ at_end n bs (record r { body = b })
  unfolding read_message
  read_last k n r bs b frame e ended = rw (e, ended, frame) refl

  pub at_end-closing :
      (n : ℕ) (bs : Bytes) (r : Reader S)
      → (r.body.left == 0) ≡ true
      → (fragmented r.state ≡ false → valid r.body.utf8 ≡ true)
      → at_end n bs r ≡ (n, bs, (closing r).0, (closing r).1)
  unfolding at_end
  at_end-closing n bs r ended good = elim (Bool-cases (fragmented r.state)) [
    | inl more ↦ rw (ended, more) refl
    | inr last ↦ rw (ended, last, good last, and_false r.check_utf8) refl
  ]

  -- The read stopped within the frame.
  pub record IsWithin (k : ℕ) (r : Reader S) (front back more rest : Bytes) : Type 0 where
    pub body : Body
    pub result : read_message k r ≡ (length front, front, none, record r { body = body })
    pub reading : IsReading (record r { body = body }) back more rest
    pub same_checking : body.checking ≡ r.body.checking
    pub lighter : weight body.source < weight r.body.source

  -- The read came to the end of the frame.
  pub record IsAtEnd (k : ℕ) (r : Reader S) (front more rest : Bytes) : Type 0 where
    pub body : Body
    pub result : read_message k r ≡ (
      length front,
      front,
      (closing (record r { body = body })).0,
      (closing (record r { body = body })).1,
    )
    pub between : IsBetween body more rest
    pub same_checking : body.checking ≡ r.body.checking
    pub lighter : weight body.source < weight r.body.source

  pub record Delivers (k : ℕ) (r : Reader S) (zs more rest : Bytes) : Type 0 where
    pub front : Bytes
    pub back : Bytes
    pub split : zs ≡ front ++ back
    pub small : length front ≤ k
    pub outcome : IsWithin k r front back more rest ⊎ ((back ≡ []) × IsAtEnd k r front more rest)

  -- A read with a buffer that is not empty, where the payload is not at its end.
  pub read_message-Delivers :
      (k : ℕ) (r : Reader S) (zs more rest : Bytes)
      → IsReading r zs more rest
      → 0 < k
      → 0 < length zs
      → Delivers k r zs more rest
  read_message-Delivers k r zs more rest s some_room some_left =
      let p =
        body_read-Progress k r.body s.wire zs more rest s.partway some_room (
          omega
            (arith, s.partway.counted, length-IsPartway r.body s.wire zs more rest s.partway)) in
      elim (Bool-cases (p.after.left == 0)) [
        | inr within ↦ record {
          front = p.front;
          back = p.back;
          split = p.split;
          small = p.small;
          outcome = inl (record {
            body = p.after;
            result = read_within k (length p.front) r p.front p.after s.in_frame p.result within;
            reading = record {
              wire = p.wire;
              partway = p.partway;
              in_frame = s.in_frame;
              continues = s.continues;
            };
            same_checking = p.same_checking;
            lighter = p.lighter;
          });
        }
        | inl ended ↦
            let (no_back, between) =
              IsPartway-IsBetween p.after p.wire p.back more rest p.partway
                (ground (arith, ended)) in
            record {
              front = p.front;
              back = p.back;
              split = p.split;
              small = p.small;
              outcome = inr (
                no_back,
                record {
                  body = p.after;
                  result =
                      read_last k (length p.front) r p.front p.after s.in_frame p.result ended
                      ∙ at_end-closing (length p.front) p.front (record r { body = p.after }) ended
                          (λ last. IsBetween-valid p.after more rest between (s.continues last));
                  between = between;
                  same_checking = p.same_checking;
                  lighter = p.lighter;
                },
              );
            }
      ]
