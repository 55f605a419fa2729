-- ===== src/Reader/Assembly.antt =====
-- msutil/helper.go: `ReadMessage` of a client puts the frames of a message together.
use mogusocket.Common.{
  ℕ, suc, ◌+◌, ◌<◌, ◌^◌, ◌≡◌, refl, sym, ap, subst, ◌∙◌, Bool, true, false, none, List, [], ◌∷◌,
  ◌++◌, append_assoc, append-nil, arith, Bytes, length, ◌==◌, length-append, if◌then◌else◌,
}
use mogusocket.Common.Words.{AreBytes}
use mogusocket.Stream.{content, flatten}
use mogusocket.Frame.Header.{op_text}
use mogusocket.Check.{check_header, fragmented, state_set, state_clear, state_is}
use mogusocket.Utf8.Run.{run}
use mogusocket.Writer.Fragments.{fragment_header, IsFragment, AreFragments}
use mogusocket.Reader.Messages.{Reader, next_frame, reset_fragment, frame_body}
use mogusocket.Writer.Result.{ok}
use mogusocket.Reader.Body.{Body}
use mogusocket.Reader.Payloads.{IsBetween}
use mogusocket.Reader.Partway.{weight}
use mogusocket.Reader.Opening.{IsHelper, continued, advanced, next_frame-continued}
use mogusocket.Reader.Collected.{Collects, all_loop-Collects}
use mogusocket.Reader.Passing.{all_loop-Passes}
use mogusocket.Reader.Fragmented.{
  client_within, Heads, IsFragment-Heads, passes_continuation, IsAwaiting, all_loop-next,
  continued-IsReading,
}

pub bytes_split : (xs ys : Bytes) → AreBytes (xs ++ ys) → AreBytes xs × AreBytes ys
bytes_split [] ys h = (tt, h)
bytes_split (x ∷ xs) ys (b, h) = let (front, back) = bytes_split xs ys h in ((b, front), back)

module _ {S : Type 0} where
  -- Behind the header of the frame with the index `suc i`.
  next_frame-fragment :
      (r : Reader S) (op i : ℕ) (fin : Bool) (c more rest wire : Bytes)
      → IsAwaiting r op more wire
      → (h : Heads (fragment_header op (suc i) fin c) c rest r.body.source)
      → next_frame r ≡ (
        fragment_header op (suc i) fin c,
        none,
        continued (fragment_header op (suc i) fin c) h.after r,
      )
  unfolding fragmented state_is
  next_frame-fragment r op i fin c more rest wire a h =
      let hdr = fragment_header op (suc i) fin c in
      next_frame-continued hdr h.after r a.helper h.reads
        (ap (check_header hdr) a.within ∙ passes_continuation hdr refl refl refl)
        (ap fragmented a.within ∙ refl) refl

  -- Behind a frame that is not the last one.
  pub IsAwaiting-reset :
      (r : Reader S) (op : ℕ) (body : Body) (more rest : Bytes)
      → IsHelper r
      → r.state ≡ client_within
      → r.op_code ≡ op
      → IsBetween body more rest
      → body.checking ≡ (op == op_text)
      → IsAwaiting (reset_fragment (record r { body = body })) op more rest
  unfolding reset_fragment
  IsAwaiting-reset r op body more rest helper within same_op between checks = record {
    helper = record {
      checks = helper.checks;
      plain = helper.plain;
      no_limit = helper.no_limit;
      texts = helper.texts;
      silent = helper.silent;
    };
    within = within;
    no_frame = refl;
    same_op = same_op;
    arrives = between.arrives;
    state = between.state;
    state_is = between.state_is;
    valid_from =
        ap (λ (c : Bool). run between.state (if c then more else [])) (sym checks)
        ∙ between.valid_from;
  }

  -- The loop takes all the frames that are left of a message.
  pub all_loop-fragments :
      (room : ℕ → ℕ) (fuel op i : ℕ) (parts : List Bytes) (tail frames last rest acc : Bytes)
      (r : Reader S)
      → ((n : ℕ) → 0 < room n)
      → op < 16
      → IsAwaiting r op (flatten parts ++ tail) ((frames ++ last) ++ rest)
      → AreFragments op (suc i) parts frames
      → IsFragment op (suc i + length parts) true tail last
      → AreBytes (flatten parts ++ tail)
      → length (flatten parts ++ tail) < 2 ^ 63
      → weight r.body.source < fuel
      → Collects room fuel acc (flatten parts ++ tail) rest r
  unfolding state_clear state_set state_is fragmented frame_body reset_fragment
  all_loop-fragments room fuel op i [] tail frames last rest acc r space small a sent final bytes
        fits enough =
      let same : suc i + 0 ≡ suc i = omega arith in
      let final' = subst (λ (k : ℕ). IsFragment op k true tail last) same final in
      let arrives = a.arrives ∙ ap (λ (t : Bytes). (t ++ last) ++ rest) sent in
      let h =
        IsFragment-Heads op (suc i) true tail last rest r.body.source small fits final' arrives in
      let hdr = fragment_header op (suc i) true tail in
      let r' = continued hdr h.after r in
      let a' =
        subst (λ (t : Bytes). IsAwaiting r op t ((frames ++ last) ++ rest)) (sym (append-nil tail))
          a in
      let reading =
        continued-IsReading r op i true tail [] rest ((frames ++ last) ++ rest) h.after a' bytes
          h.arrives (λ e. refl) in
      let c =
        all_loop-Collects room fuel acc tail rest r' space reading
          (ap (λ (s : ℕ). fragmented (advanced hdr s)) a.within ∙ refl)
          (omega (arith, h.lighter)) in
      record {
        after = c.after;
        result =
            all_loop-next room fuel acc hdr r r' (omega arith) a.no_frame
              (ap fragmented a.within ∙ refl)
              (next_frame-fragment r op i true tail tail rest ((frames ++ last) ++ rest) a h) refl
            ∙ c.result;
        arrives = c.arrives;
        same_store = c.same_store;
      }
  all_loop-fragments room fuel op i (c ∷ cs) tail frames last rest acc r space small a
        (front, back, first, split, sent) final bytes fits enough =
      let more = flatten cs ++ tail in
      let behind = (back ++ last) ++ rest in
      let wire = (frames ++ last) ++ rest in
      let joined : (c ++ flatten cs) ++ tail ≡ c ++ more = append_assoc c (flatten cs) tail in
      let arrives : content r.body.source ≡ front ++ behind =
        a.arrives
        ∙ ap (λ (t : Bytes). (t ++ last) ++ rest) split
        ∙ ap (λ (t : Bytes). t ++ rest) (append_assoc front back last)
        ∙ append_assoc front (back ++ last) rest in
      let all_bytes = bytes_split c more (subst AreBytes joined bytes) in
      let sizes = ap length joined in
      let sum = length-append c more in
      let h =
        IsFragment-Heads op (suc i) false c front behind r.body.source small (omega arith) first
          arrives in
      let hdr = fragment_header op (suc i) false c in
      let r' = continued hdr h.after r in
      let a' = subst (λ (t : Bytes). IsAwaiting r op t wire) joined a in
      let reading =
        continued-IsReading r op i false c more behind wire h.after a' (all_bytes.0) h.arrives
          (λ e. cc) in
      let within : r'.state ≡ client_within = ap (advanced hdr) a.within ∙ refl in
      let p =
        all_loop-Passes room fuel acc c more behind r' space reading (ap fragmented within ∙ refl)
          (omega (arith, h.lighter)) in
      let helper : IsHelper r' = record {
        checks = a.helper.checks;
        plain = a.helper.plain;
        no_limit = a.helper.no_limit;
        texts = a.helper.texts;
        silent = a.helper.silent;
      } in
      let r'' = reset_fragment (record r' { body = p.body }) in
      let index : suc i + suc (length cs) ≡ suc (suc i) + length cs = omega arith in
      let final' = subst (λ (k : ℕ). IsFragment op k true tail last) index final in
      let awaiting =
        IsAwaiting-reset r' op p.body more behind helper within a.same_op p.between
          (p.same_checking ∙ ap (λ (o : ℕ). o == op_text) a.same_op) in
      let rest_of =
        all_loop-fragments room p.left op (suc i) cs tail back last rest (acc ++ c) r'' space small
          awaiting sent final' (all_bytes.1) (omega arith) p.enough in
      record {
        after = rest_of.after;
        result =
            all_loop-next room fuel acc hdr r r' (omega arith) a.no_frame
              (ap fragmented a.within ∙ refl)
              (next_frame-fragment r op i false c (c ++ more) behind wire a' h) refl
            ∙ p.result
            ∙ rest_of.result
            ∙ ap (λ (t : Bytes). ok (t, none, rest_of.after))
                (append_assoc acc c more ∙ ap (λ (t : Bytes). acc ++ t) (sym joined));
        arrives = rest_of.arrives;
        same_store = rest_of.same_store;
      }
