-- ===== src/Handshake/Answered.antt =====
-- upgrader.go: the answer of an `Upgrade` that succeeds.
use mogusocket.Common.{
  ℕ, ◌≡◌, refl, sym, ap, ap₂, ◌⊎◌, inl, inr, ◌++◌, ◌∙◌, Option, none, some, arith, Bytes,
}
use mogusocket.Errors.{Error}
use mogusocket.Stream.{Sink, written, flatten}
use mogusocket.Stream.Laws.{write_all_ok}
use mogusocket.Writer.Result.{ok, ◌>>=◌}
use mogusocket.Text.Codes.{codes}
use mogusocket.Text.Select.{non_zero}
use mogusocket.Http.AnswerText.{answer_text, http_write_response_upgrade-answer_text}
use mogusocket.Handshake.Failure.{HandshakeHeader, HandshakeError}
use mogusocket.Handshake.Nonce.{init_accept_from_nonce, accept_size}
use mogusocket.Handshake.Options.{Httphead}
use mogusocket.Handshake.Server.{
  Outside, Upgrader, Progress, Handshake, handshake_of, handshake_header_bytes, response,
  accept_with, accept_upgrade, flushed_upgrade, answered, conclude, before_upgrade, send_answer,
  default_server_write_buffer_size,
}
use mogusocket.Handshake.Selected.{both_headers, handshake_header_bytes-both_headers}

module _ (hh : Httphead) (o : Outside) (u : Upgrader hh) where
  -- The accept value of RFC 6455.
  abbrev pub accept_value : Bytes → Bytes
  accept_value nonce = o.encode (o.sum (nonce ++ codes "258EAFA5-E914-47DA-95CA-C5AB0DC85B11"))

  -- What has arrived behind what was sent before: the answer with the accept value for the nonce, the
  -- protocol and the extensions of the handshake, the header of the Upgrader and the one that
  -- OnBeforeUpgrade returned.
  pub record IsAnswered (conn conn' : Sink) (hs : Handshake hh) (nonce : Bytes) : Type 0 where
    pub extra : Option HandshakeHeader
    pub called :
        ((u.on_before_upgrade ≡ none) × (extra ≡ none)) ⊎ (u.on_before_upgrade ≡ some (extra, none))
    pub sent :
        written conn'
        ≡ written conn
          ++ answer_text hh.write_options
              (accept_value nonce)
              hs.protocol
              hs.extensions
              (both_headers u.header extra)

module _ (hh : Httphead) (o : Outside) (u : Upgrader hh)
    (joins : (n : ℕ) (bs : Bytes) → flatten (o.pieces n bs) ≡ bs) where
  flushed-ok :
      (s : Progress hh) (x : Option Error × Sink) (hs : Handshake hh) (conn' : Sink)
      → answered hh o s (flushed_upgrade hh o x) ≡ ok (hs, none, conn')
      → (x ≡ (none, conn')) × (hs ≡ handshake_of hh s)
  flushed-ok s (none, conn) hs conn' h = ground arith
  flushed-ok s (some e, conn) hs conn' h = cc

  send_answer-written :
      (bytes : Bytes) (conn conn' : Sink)
      → send_answer hh o u bytes conn ≡ (none, conn')
      → written conn' ≡ written conn ++ bytes
  unfolding send_answer
  send_answer-written bytes conn conn' w =
      let size = non_zero u.write_buffer_size default_server_write_buffer_size in
      ap (λ (x : Option Error × Sink). written x.1) (sym w)
      ∙ write_all_ok (o.pieces size bytes) conn (ap (λ (x : Option Error × Sink). x.0) w)
      ∙ ap (λ (t : Bytes). written conn ++ t) (joins size bytes)

  init_accept_from_nonce-some :
      (nonce accept : Bytes)
      → init_accept_from_nonce o.sum o.encode accept_size nonce ≡ some accept
      → accept ≡ accept_value hh o u nonce
  unfolding init_accept_from_nonce
  init_accept_from_nonce-some nonce accept e = ground arith

  accept_with-IsAnswered :
      (extra : Option HandshakeHeader) (s : Progress hh) (conn conn' : Sink) (hs : Handshake hh)
      (a : Option Bytes)
      → ((u.on_before_upgrade ≡ none) × (extra ≡ none)) ⊎ (u.on_before_upgrade ≡ some (extra, none))
      → init_accept_from_nonce o.sum o.encode accept_size s.nonce ≡ a
      → (accept_with hh o u extra s conn a >>= answered hh o s) ≡ ok (hs, none, conn')
      → IsAnswered hh o u conn conn' hs s.nonce × (hs ≡ handshake_of hh s)
  accept_with-IsAnswered extra s conn conn' hs none called e h = cc
  accept_with-IsAnswered extra s conn conn' hs (some accept) called e h =
      let (sent, agreed) =
        flushed-ok s (send_answer hh o u (response hh o u extra s accept) conn) hs conn' h in
      (
        record {
          extra = extra;
          called = called;
          sent =
              send_answer-written (response hh o u extra s accept) conn conn' sent
              ∙ ap (λ (t : Bytes). written conn ++ t)
                  (http_write_response_upgrade-answer_text hh.write_options accept s.nonce s.chosen
                      s.accepted (handshake_header_bytes u.header extra)
                    ∙ ap₂ (λ (t v : Bytes). answer_text hh.write_options v s.chosen s.accepted t)
                        (handshake_header_bytes-both_headers u.header extra)
                        (init_accept_from_nonce-some s.nonce accept e))
              ∙ ap
                  (λ (x : Handshake hh).
                    written conn
                    ++ answer_text hh.write_options (accept_value hh o u s.nonce) x.protocol
                        x.extensions (both_headers u.header extra))
                  (sym agreed);
        },
        agreed,
      )

  before_upgrade-none :
      (x : Option (Option HandshakeHeader × Option HandshakeError)) (extra : Option HandshakeHeader)
      → before_upgrade hh o x ≡ (extra, none)
      → ((x ≡ none) × (extra ≡ none)) ⊎ (x ≡ some (extra, none))
  before_upgrade-none none extra e = inl (refl, sym (ap (λ y. y.0) e))
  before_upgrade-none (some r) extra e = inr (ap some e)

  pub conclude-IsAnswered :
      (s : Progress hh) (conn conn' : Sink) (hs : Handshake hh)
      (x : Option HandshakeHeader × Option HandshakeError)
      → before_upgrade hh o u.on_before_upgrade ≡ x
      → conclude hh o u s conn x ≡ ok (hs, none, conn')
      → IsAnswered hh o u conn conn' hs s.nonce × (hs ≡ handshake_of hh s)
  unfolding accept_upgrade
  conclude-IsAnswered s conn conn' hs (extra, some e) b h = cc
  conclude-IsAnswered s conn conn' hs (extra, none) b h =
      accept_with-IsAnswered extra s conn conn' hs
        (init_accept_from_nonce o.sum o.encode accept_size s.nonce)
        (before_upgrade-none u.on_before_upgrade extra b) refl h
