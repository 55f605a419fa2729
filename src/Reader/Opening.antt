-- ===== src/Reader/Opening.antt =====
-- msutil/reader.go: `NextFrame` on a data frame that the source holds.
use mogusocket.Common.{
  ℕ, ◌≡◌, refl, ap, ◌∙◌, true, false, Option, none, List, [], arith, ◌==◌, if◌then◌else◌,
}
use mogusocket.Errors.{Error}
use mogusocket.Stream.{Source}
use mogusocket.Frame.Header.{Header, is_control, op_continuation, op_text}
use mogusocket.Check.{check_header, fragmented, state_set, state_clear, state_fragmented}
use mogusocket.Codec.Read.{read_header}
use mogusocket.Reader.Messages.{
  Reader, RecvExtension, frame_body, unset_bits, header_error, begin_frame, dispatch, with_header,
  with_bits, next_frame,
}

abbrev pub advanced : Header → ℕ → ℕ
advanced hdr state =
    if hdr.fin then state_clear state state_fragmented else state_set state state_fragmented

no_bits : (xs : List RecvExtension) (hdr : Header) → xs ≡ [] → unset_bits xs hdr ≡ (hdr, none)
unfolding unset_bits
no_bits xs hdr plain = ap (λ ys. unset_bits ys hdr) plain

module _ {S : Type 0} where
  -- A reader of the helpers: it checks headers and text, and nothing else is set.
  pub record IsHelper (r : Reader S) : Type 0 where
    pub checks : r.skip_header_check ≡ false
    pub plain : r.extensions ≡ []
    pub no_limit : r.max_frame_size ≡ 0
    pub texts : r.check_utf8 ≡ true
    pub silent : r.on_continuation ≡ none

  -- The reader behind the header of the first frame of a message.
  abbrev pub opened : Header → Source → Reader S → Reader S
  opened hdr after r = record r {
    op_code = hdr.op_code;
    has_frame = true;
    body = record (frame_body hdr (record r.body { source = after })) {
      checking = hdr.op_code == op_text;
    };
    state = advanced hdr r.state;
  }

  header_error-none :
      (hdr : Header) (r : Reader S)
      → IsHelper r
      → check_header hdr r.state ≡ none
      → header_error hdr none r ≡ none
  unfolding header_error
  header_error-none hdr r h passed = ground arith

  begin_frame-opened :
      (hdr : Header) (r : Reader S)
      → r.check_utf8 ≡ true
      → fragmented r.state ≡ false
      → (hdr.op_code == op_continuation) ≡ false
      → begin_frame hdr r ≡ (
        none,
        record r {
          has_frame = true;
          body = record r.body { checking = hdr.op_code == op_text };
          state = advanced hdr r.state;
        },
      )
  unfolding begin_frame
  begin_frame-opened hdr r texts first fresh = ground arith

  dispatch_first :
      (hdr : Header) (r : Reader S)
      → fragmented r.state ≡ false
      → dispatch hdr r ≡ begin_frame hdr (record r { op_code = hdr.op_code })
  unfolding dispatch
  dispatch_first hdr r first = ground arith

  -- The reader behind the readers of a frame.
  abbrev framed : Header → Source → Reader S → Reader S
  framed hdr after r = record r { body = frame_body hdr (record r.body { source = after }) }

  with_header-passed :
      (hdr : Header) (after : Source) (r : Reader S)
      → header_error hdr none (record r { body = record r.body { source = after } }) ≡ none
      → with_header r (hdr, none, after)
        ≡ with_bits (framed hdr after r) (unset_bits r.extensions hdr)
  with_header-passed hdr after r passed = rw (with_header, passed) refl

  abbrev with_error : Header → Option Error × Reader S → Header × Option Error × Reader S
  with_error hdr (err, r) = (hdr, err, r)

  dispatch-opened :
      (hdr : Header) (r : Reader S)
      → r.check_utf8 ≡ true
      → fragmented r.state ≡ false
      → (hdr.op_code == op_continuation) ≡ false
      → dispatch hdr r ≡ (
        none,
        record r {
          op_code = hdr.op_code;
          has_frame = true;
          body = record r.body { checking = hdr.op_code == op_text };
          state = advanced hdr r.state;
        },
      )
  dispatch-opened hdr r texts first fresh =
      dispatch_first hdr r first
      ∙ begin_frame-opened hdr (record r { op_code = hdr.op_code }) texts first fresh

  with_header-opened :
      (hdr : Header) (after : Source) (r : Reader S)
      → IsHelper r
      → check_header hdr r.state ≡ none
      → fragmented r.state ≡ false
      → (hdr.op_code == op_continuation) ≡ false
      → with_header r (hdr, none, after) ≡ (hdr, none, opened hdr after r)
  unfolding frame_body
  with_header-opened hdr after r h passed first fresh =
      let v : Reader S = record r { body = record r.body { source = after } } in
      let h' : IsHelper v = record {
        checks = h.checks;
        plain = h.plain;
        no_limit = h.no_limit;
        texts = h.texts;
        silent = h.silent;
      } in
      with_header-passed hdr after r (header_error-none hdr v h' passed)
      ∙ ap (with_bits (framed hdr after r)) (no_bits r.extensions hdr h.plain)
      ∙ ap (with_error hdr) (dispatch-opened hdr (framed hdr after r) h.texts first fresh)

  pub next_frame-opened :
      (hdr : Header) (after : Source) (r : Reader S)
      → IsHelper r
      → read_header r.body.source ≡ (hdr, none, after)
      → check_header hdr r.state ≡ none
      → fragmented r.state ≡ false
      → (hdr.op_code == op_continuation) ≡ false
      → next_frame r ≡ (hdr, none, opened hdr after r)
  unfolding next_frame
  next_frame-opened hdr after r h reads passed first fresh =
      ap (with_header r) reads ∙ with_header-opened hdr after r h passed first fresh

  -- The reader behind the header of a later frame of a message.
  abbrev pub continued : Header → Source → Reader S → Reader S
  continued hdr after r = record r {
    has_frame = true;
    body = record (frame_body hdr (record r.body { source = after })) {
      checking = r.op_code == op_text;
    };
    state = advanced hdr r.state;
  }

  dispatch-continued :
      (hdr : Header) (r : Reader S)
      → r.check_utf8 ≡ true
      → r.on_continuation ≡ none
      → fragmented r.state ≡ true
      → hdr.op_code ≡ op_continuation
      → dispatch hdr r ≡ (
        none,
        record r {
          has_frame = true;
          body = record r.body { checking = r.op_code == op_text };
          state = advanced hdr r.state;
        },
      )
  unfolding dispatch begin_frame is_control
  dispatch-continued hdr r texts silent more cont = rw (cont, more, texts, silent) refl

  pub next_frame-continued :
      (hdr : Header) (after : Source) (r : Reader S)
      → IsHelper r
      → read_header r.body.source ≡ (hdr, none, after)
      → check_header hdr r.state ≡ none
      → fragmented r.state ≡ true
      → hdr.op_code ≡ op_continuation
      → next_frame r ≡ (hdr, none, continued hdr after r)
  unfolding next_frame frame_body
  next_frame-continued hdr after r h reads passed more cont =
      let v : Reader S = record r { body = record r.body { source = after } } in
      let h' : IsHelper v = record {
        checks = h.checks;
        plain = h.plain;
        no_limit = h.no_limit;
        texts = h.texts;
        silent = h.silent;
      } in
      ap (with_header r) reads
      ∙ with_header-passed hdr after r (header_error-none hdr v h' passed)
      ∙ ap (with_bits (framed hdr after r)) (no_bits r.extensions hdr h.plain)
      ∙ ap (with_error hdr) (dispatch-continued hdr (framed hdr after r) h.texts h.silent more cont)
