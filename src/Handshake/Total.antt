-- ===== src/Handshake/Total.antt =====
-- upgrader.go: `Upgrade` always returns; its panics are never reached.
use mogusocket.Common.{
  ℕ, zero, suc, ◌<◌, ◌≡◌, inl, inr, refl, sym, ap, subst, ◌∙◌, Bool, true, false, Option, none,
  some, List, [], ◌∷◌, ◌++◌, arith, Bytes, length, All, Bool-cases, replicate, if◌then◌else◌,
}
use mogusocket.Errors.{Error}
use mogusocket.Stream.{Sink}
use mogusocket.Writer.Result.{Result, ok, ◌>>=◌}
use mogusocket.Text.Codes.{codes}
use mogusocket.Text.Select.{same_bytes, non_zero}
use mogusocket.Text.LineLaws.{line_result, read_line-line_result, line_result-shorter}
use mogusocket.Http.Lines.{HttpRequestLine, http_parse_request_line}
use mogusocket.Handshake.Failure.{HandshakeHeader, HandshakeError, err_malformed_request}
use mogusocket.Handshake.Nonce.{init_accept_from_nonce, accept_size, nonce_size, magic}
use mogusocket.Handshake.Options.{Httphead}
use mogusocket.Handshake.Server.{
  Outside, Upgrader, Progress, HeadersEnd, aborted, finished, first_progress, check_request,
  header_line, after_header, after_line, read_headers, accept_with, accept_upgrade, answered,
  conclude, before_upgrade, with_seen, finish_upgrade, after_check, after_request,
  after_request_line, upgrade, handshake_of, default_server_read_buffer_size,
}
use mogusocket.Handshake.Seen.{check_seen_settles}
use mogusocket.Handshake.Steps.{same_bytes-eq, IsGood}
use mogusocket.Handshake.Sound.{read_headers-Read}
use mogusocket.Handshake.Headers.{last_key, Run-lt, Run-IsGood, Run-last_key}

-- A call that returns.
abbrev pub Returns : {A : Type 0} → Result A → Type 0
Returns {A} r = (a : A) × (r ≡ ok a)

module _ (hh : Httphead) (u : Upgrader hh) where
  after_header-Returns :
      (again : Progress hh → Bytes → Result (HeadersEnd hh)) (s : Progress hh) (rest : Bytes)
      (x : Option (Option HandshakeError × Progress hh))
      → ((s' : Progress hh) → Returns (again s' rest))
      → Returns (after_header hh again s rest x)
  after_header-Returns again s rest none ih = (finished none s rest, refl)
  after_header-Returns again s rest (some (none, s')) ih = ih s'
  after_header-Returns again s rest (some (some e, s')) ih = (finished (some e) s' rest, refl)

  after_line-Returns :
      (again : Progress hh → Bytes → Result (HeadersEnd hh)) (last : Error) (pending : Bytes)
      (s : Progress hh) (x : Bytes × Option Error × Bytes)
      → line_result last [] pending ≡ x
      → ((s' : Progress hh) (rest : Bytes) → length rest < length pending → Returns (again s' rest))
      → Returns (after_line hh u again s x)
  after_line-Returns again last pending s (line, some e, rest) eq ih = (aborted e s, refl)
  after_line-Returns again last pending s (line, none, rest) eq ih =
      after_header-Returns again s rest (header_line hh u line s)
        (λ s'. ih s' rest (line_result-shorter last pending line rest eq))

  pub read_headers-Returns :
      (fuel size : ℕ) (last : Error) (s : Progress hh) (pending : Bytes)
      → 0 < size
      → length pending < fuel
      → Returns (read_headers hh fuel size last u s pending)
  unfolding read_headers
  read_headers-Returns zero size last s pending room enough = absurd (omega arith)
  read_headers-Returns (suc fuel) size last s pending room enough =
      subst (λ r. Returns (r >>= after_line hh u (read_headers hh fuel size last u) s))
        (sym (read_line-line_result size last pending room))
        (after_line-Returns (read_headers hh fuel size last u) last pending s
          (line_result last [] pending) refl
          (λ s' rest shorter. read_headers-Returns fuel size last s' rest room (omega arith)))

  length-last_key :
      (nonce : Bytes) (kvs : List (Bytes × Bytes))
      → All (λ kv. IsGood hh kv.0 kv.1) kvs
      → length nonce ≡ 24
      → length (last_key nonce kvs) ≡ 24
  length-last_key nonce [] good h = h
  length-last_key nonce (kv ∷ kvs) (g, good) h =
      length-last_key (if same_bytes kv.0 (codes "Sec-Websocket-Key") then kv.1 else nonce) kvs good
        (elim (Bool-cases (same_bytes kv.0 (codes "Sec-Websocket-Key"))) [
          | inl here ↦ rw here (g.key (same_bytes-eq kv.0 _ here))
          | inr ne ↦ rw ne h
        ])

  module _ (o : Outside) where
    init_accept-some :
        (nonce : Bytes)
        → length nonce ≡ 24
        → (a : Bytes) × (init_accept_from_nonce o.sum o.encode accept_size nonce ≡ some a)
    unfolding init_accept_from_nonce
    init_accept-some nonce h = (o.encode (o.sum (nonce ++ magic)), rw h refl)

    conclude-Returns :
        (s : Progress hh) (conn : Sink) (x : Option HandshakeHeader × Option HandshakeError)
        → length s.nonce ≡ 24
        → Returns (conclude hh o u s conn x)
    unfolding accept_upgrade
    conclude-Returns s conn (extra, some e) h = (_, refl)
    conclude-Returns s conn (extra, none) h =
        let (a, e) = init_accept-some s.nonce h in
        subst (λ x. Returns (accept_with hh o u extra s conn x >>= answered hh o s)) (sym e)
          (_, refl)

    with_seen-Returns :
        (s : Progress hh) (conn : Sink) (e : Option HandshakeError)
        → length s.nonce ≡ 24
        → Returns (with_seen hh o u s conn e)
    with_seen-Returns s conn (some e) h = (_, refl)
    with_seen-Returns s conn none h =
        conclude-Returns s conn (before_upgrade hh o u.on_before_upgrade) h

    finish-Returns :
        (last : Error) (pending : Bytes) (conn : Sink) (size : ℕ) (r : HeadersEnd hh)
        → 0 < size
        → read_headers hh (suc (length pending)) size last u (first_progress hh) pending ≡ ok r
        → Returns (finish_upgrade hh o u conn r)
    unfolding finish_upgrade
    finish-Returns last pending conn size (aborted x s) room e = (_, refl)
    finish-Returns last pending conn size (finished (some x) s rest) room e = (_, refl)
    finish-Returns last pending conn size (finished none s rest) room e =
        let r =
          read_headers-Read hh u last rest s (suc (length pending)) size pending (first_progress hh)
            room e in
        let full : length s.nonce ≡ 24 =
          ap length (Run-last_key hh u r.run)
          ∙ length-last_key (replicate nonce_size 0) r.kvs (Run-IsGood hh u r.run) refl in
        let (x, settled) = check_seen_settles hh s.seen (Run-lt hh u r.run (omega arith)) in
        subst (λ c. Returns (c >>= with_seen hh o u s conn)) (sym settled)
          (with_seen-Returns s conn x full)

    after_check-Returns :
        (conn : Sink) (size : ℕ) (last : Error) (rest : Bytes) (e : Option HandshakeError)
        → 0 < size
        → Returns (after_check hh o u conn size last rest e)
    after_check-Returns conn size last rest (some e) room = (_, refl)
    after_check-Returns conn size last rest none room =
        let (r, e) =
          read_headers-Returns (suc (length rest)) size last (first_progress hh) rest room
            (omega arith) in
        subst (λ c. Returns (c >>= finish_upgrade hh o u conn)) (sym e)
          (finish-Returns last rest conn size r room e)

    after_request-Returns :
        (conn : Sink) (size : ℕ) (last : Error) (rest : Bytes) (x : HttpRequestLine × Bool)
        → 0 < size
        → Returns (after_request hh o u conn size last rest x)
    after_request-Returns conn size last rest (req, false) room = (_, refl)
    after_request-Returns conn size last rest (req, true) room =
        after_check-Returns conn size last rest (check_request hh u req) room

    after_line_Returns :
        (conn : Sink) (size : ℕ) (last : Error) (x : Bytes × Option Error × Bytes)
        → 0 < size
        → Returns (after_request_line hh o u conn size last x)
    after_line_Returns conn size last (line, some e, rest) room = (_, refl)
    after_line_Returns conn size last (line, none, rest) room =
        after_request-Returns conn size last rest (http_parse_request_line line) room

    -- Upgrade returns on every input: it neither runs out of rounds nor panics.
    pub upgrade-Returns :
        (pending : Bytes) (last : Error) (conn : Sink)
        → ((n : ℕ) → 0 < o.buffer_size n)
        → Returns (upgrade hh o u pending last conn)
    unfolding upgrade
    upgrade-Returns pending last conn room =
        let size = o.buffer_size (non_zero u.read_buffer_size default_server_read_buffer_size) in
        let some_room = room (non_zero u.read_buffer_size default_server_read_buffer_size) in
        subst (λ c. Returns (c >>= after_request_line hh o u conn size last))
          (sym (read_line-line_result size last pending some_room))
          (after_line_Returns conn size last (line_result last [] pending) some_room)

    -- A request line that cannot be parsed ends Upgrade with an error and no answer.
    pub upgrade-silent :
        (pending line rest : Bytes) (last : Error) (conn : Sink) (req : HttpRequestLine)
        → ((n : ℕ) → 0 < o.buffer_size n)
        → line_result last [] pending ≡ (line, none, rest)
        → http_parse_request_line line ≡ (req, false)
        → upgrade hh o u pending last conn
          ≡ ok (handshake_of hh (first_progress hh), some err_malformed_request, conn)
    unfolding upgrade
    upgrade-silent pending line rest last conn req room first malformed =
        let size = o.buffer_size (non_zero u.read_buffer_size default_server_read_buffer_size) in
        let some_room = room (non_zero u.read_buffer_size default_server_read_buffer_size) in
        ap (λ r. r >>= after_request_line hh o u conn size last)
          (read_line-line_result size last pending some_room ∙ ap ok first)
        ∙ ap (after_request hh o u conn size last rest) malformed
