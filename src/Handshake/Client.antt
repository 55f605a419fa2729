-- ===== src/Handshake/Client.antt =====
-- dialer.go: `Dialer.Upgrade`, the client's side of the handshake, and `hostport`.
use mogusocket.Common.{
  ℕ, zero, suc, ◌+◌, Bool, true, false, not, ◌||◌, bit_and, bit_or, Option, none, some, List, [],
  ◌∷◌, ◌++◌, Bytes, length, take, ltb, ◌-◌, ◌==◌, if◌then◌else◌,
}
use mogusocket.Common.Words.{le_ℤ, lt_ℤ}
use mogusocket.Errors.{Error}
use mogusocket.Stream.{Sink, write_all}
use mogusocket.Writer.Result.{Result, ok, panic, stuck, ◌>>=◌}
use mogusocket.Text.Codes.{codes}
use mogusocket.Text.Select.{same_bytes, non_zero}
use mogusocket.Text.Split.{index_byte}
use mogusocket.Text.ReadLine.{read_line}
use mogusocket.Http.Lines.{HttpResponseLine, http_parse_response_line, http_parse_header_line}
use mogusocket.Http.Requests.{http_write_upgrade_request}
use mogusocket.Handshake.Failure.{
  HandshakeHeader, HandshakeError, io, malformed_response, bad_sub_protocol, status_error,
  err_handshake_bad_protocol, err_handshake_bad_upgrade, err_handshake_bad_connection,
  err_handshake_bad_sec_accept,
}
use mogusocket.Handshake.Nonce.{init_nonce, check_accept_from_nonce}
use mogusocket.Handshake.Options.{Httphead, match_selected_extensions}
use mogusocket.Handshake.Server.{Outside, Handshake}

abbrev pub default_client_read_buffer_size : ℕ
default_client_read_buffer_size = 4096

abbrev pub default_client_write_buffer_size : ℕ
default_client_write_buffer_size = 4096

-- strings.LastIndexByte, one more than the index; 0 for -1.
unfoldable pub last_index_byte : ℕ → Bytes → ℕ → ℕ → ℕ
last_index_byte i [] c found_at = found_at
last_index_byte i (b ∷ bts) c found_at =
    last_index_byte (i + 1) bts c (if b == c then i + 1 else found_at)

-- The name and the address of a host; `colon` and `bracket` are one more than in the source.
unfoldable pub hostport : Bytes → Bytes → Bytes × Bytes
unfolding last_index_byte
hostport host default_port =
    let colon = last_index_byte 0 host 0x3a 0 in
    let bracket : ℕ = elim (index_byte host 0x5d) [ none ↦ 0 | some i ↦ i + 1 ] in
    if ltb bracket colon then (take (colon - 1) host, host) else (host, host ++ default_port)

-- `headerSeen...` of the client.
abbrev pub got_upgrade : ℕ
got_upgrade = 1

abbrev pub got_connection : ℕ
got_connection = 2

abbrev pub got_sec_accept : ℕ
got_sec_accept = 4

abbrev pub got_all : ℕ
got_all = 7

-- The loop over the wanted protocols.
unfoldable pub find_protocol : List Bytes → Bytes → Option Bytes
find_protocol [] v = none
find_protocol (want ∷ wanted) v =
    let rest = find_protocol wanted v in if same_bytes v want then some want else rest

module _ (hh : Httphead) where
  open hh use {Opt, equal_fold, write_options}

  pub record Dialer : Type 0 where
    pub read_buffer_size : ℕ
    pub write_buffer_size : ℕ
    pub protocols : List Bytes
    pub extensions : List Opt
    pub header : Option HandshakeHeader
    pub on_header : Option (Bytes → Bytes → Option HandshakeError)

  -- The variables of the loop over the headers.
  pub record Answer : Type 0 where
    pub seen : ℕ
    pub protocol : Bytes
    pub extensions : List Opt

  abbrev pub first_answer : Answer
  first_answer = record { seen = 0; protocol = []; extensions = [] }

  abbrev pub got : ℕ → Answer → Answer
  got bit s = record s { seen = bit_or s.seen bit }

  -- A protocol that an earlier header set is kept where this one is not wanted.
  unfoldable pub answered_protocol : Dialer → Bytes → Answer → Option HandshakeError × Answer
  answered_protocol d v s =
      let s' : Answer = elim (find_protocol d.protocols v) [
        | none ↦ s
        | some want ↦ record s { protocol = want }
      ] in
      (if length s'.protocol == 0 then some bad_sub_protocol else none, s')

  abbrev pub matched : Answer → List Opt × Option HandshakeError → Option HandshakeError × Answer
  matched s (xs, e) = (e, record s { extensions = xs })

  abbrev pub refused_header : Dialer → Bytes → Bytes → Option HandshakeError
  refused_header d k v = elim d.on_header [ none ↦ none | some f ↦ f k v ]

  module _ (o : Outside) where
    -- The `switch` on the canonical key.
    unfoldable pub answer_step :
        Dialer → Bytes → Bytes → Bytes → Answer → Result (Option HandshakeError × Answer)
    unfolding answered_protocol
    answer_step d nonce k v s =
        if same_bytes k (codes "Upgrade")
        then ok (
          (if same_bytes v (codes "websocket") || equal_fold v (codes "websocket")
              then none
              else some err_handshake_bad_upgrade),
          got got_upgrade s,
        )
        else if same_bytes k (codes "Connection")
        then ok (
          (if same_bytes v (codes "Upgrade") || equal_fold v (codes "Upgrade")
              then none
              else some err_handshake_bad_connection),
          got got_connection s,
        )
        else if same_bytes k (codes "Sec-Websocket-Accept")
        then elim (check_accept_from_nonce o.sum o.encode v nonce) [
          | none ↦ panic
          | some good ↦
              ok ((if good then none else some err_handshake_bad_sec_accept), got got_sec_accept s)
        ]
        else if same_bytes k (codes "Sec-Websocket-Protocol")
        then ok (answered_protocol d v s)
        else if same_bytes k (codes "Sec-Websocket-Extensions")
        then ok (matched s (match_selected_extensions hh v d.extensions s.extensions))
        else ok (refused_header d k v, s)

    -- One line of the headers; `none` at the blank line.
    unfoldable pub answer_line :
        Dialer → Bytes → Bytes → Answer → Option (Result (Option HandshakeError × Answer))
    unfolding answer_step
    answer_line d nonce line s =
        let parsed : Result (Option HandshakeError × Answer) = elim (http_parse_header_line line) [
          | none ↦ ok (some malformed_response, s)
          | some kv ↦ answer_step d nonce kv.0 kv.1 s
        ] in
        if length line == 0 then none else some parsed

    abbrev pub next_answer :
        (Answer → Result (Option HandshakeError × Answer))
        → Option HandshakeError × Answer
        → Result (Option HandshakeError × Answer)
    next_answer again (none, s) = again s
    next_answer again (some e, s) = ok (some e, s)

    abbrev pub after_answer_line :
        Dialer
        → Bytes
        → (Bytes → Answer → Result (Option HandshakeError × Answer))
        → Answer
        → Bytes × Option Error × Bytes
        → Result (Option HandshakeError × Answer)
    after_answer_line d nonce again s (line, some e, rest) = ok (some (io e), s)
    after_answer_line d nonce again s (line, none, rest) = elim (answer_line d nonce line s) [
      | none ↦ ok (none, s)
      | some r ↦ r >>= next_answer (again rest)
    ]

    -- The loop, with its rounds left; each reads a line.
    unfoldable pub read_answer :
        ℕ → ℕ → Error → Dialer → Bytes → Bytes → Answer → Result (Option HandshakeError × Answer)
    read_answer zero size last d nonce pending s = stuck
    read_answer (suc fuel) size last d nonce pending s =
        read_line size last pending
        >>= after_answer_line d nonce (read_answer fuel size last d nonce) s

    -- The first header that is missing.
    unfoldable pub check_got : ℕ → Result (Option HandshakeError)
    check_got seen =
        if seen == got_all
        then ok none
        else if bit_and seen got_upgrade == 0
        then ok (some err_handshake_bad_upgrade)
        else if bit_and seen got_connection == 0
        then ok (some err_handshake_bad_connection)
        else if bit_and seen got_sec_accept == 0
        then ok (some err_handshake_bad_sec_accept)
        else panic

    abbrev pub answer_of : Answer → Handshake hh
    answer_of s = record { protocol = s.protocol; extensions = s.extensions }

    unfoldable pub finish_answer :
        Option HandshakeError × Answer → Result (Option HandshakeError × Handshake hh)
    unfolding check_got
    finish_answer (some e, s) = ok (some e, answer_of s)
    finish_answer (none, s) = check_got s.seen >>= λ e. ok (e, answer_of s)

    -- The checks of the status line.
    unfoldable pub check_response : HttpResponseLine × Bool → Option HandshakeError
    check_response (resp, false) = some malformed_response
    check_response (resp, true) =
        if not (le_ℤ resp.major 1) || lt_ℤ resp.major 1 || lt_ℤ resp.minor 1
        then some err_handshake_bad_protocol
        else if not (le_ℤ resp.status 101) || lt_ℤ resp.status 101
        then some (status_error resp.status)
        else none

    abbrev pub after_status_line :
        Dialer
        → Bytes
        → ℕ
        → Error
        → Bytes × Option Error × Bytes
        → Result (Option HandshakeError × Handshake hh)
    after_status_line d nonce size last (line, some e, rest) =
        ok (some (io e), answer_of first_answer)
    after_status_line d nonce size last (line, none, rest) =
        let read =
          read_answer (suc (length rest)) size last d nonce rest first_answer >>= finish_answer in
        elim (check_response (http_parse_response_line line)) [
          | some e ↦ ok (some e, answer_of first_answer)
          | none ↦ read
        ]

    -- What the client sends for its nonce.
    unfoldable pub upgrade_request : Dialer → Bytes → Bytes → Bytes → Bytes
    upgrade_request d request_uri host nonce =
        http_write_upgrade_request write_options [] request_uri host nonce d.protocols d.extensions
          (elim d.header [ none ↦ none | some h ↦ some (h.0) ])

    -- The request through `bw`, and its Flush.
    unfoldable pub send_request : Dialer → Bytes → Sink → Option Error × Sink
    send_request d bytes conn =
        write_all (o.pieces (non_zero d.write_buffer_size default_client_write_buffer_size) bytes)
          conn

    -- The answer to the request, `pending` and then the error `last`.
    unfoldable pub read_response :
        Dialer → Bytes → Bytes → Error → Result (Option HandshakeError × Handshake hh)
    unfolding finish_answer
    read_response d nonce pending last =
        let size = o.buffer_size (non_zero d.read_buffer_size default_client_read_buffer_size) in
        read_line size last pending >>= after_status_line d nonce size last

    abbrev pub with_conn :
        Sink
        → Option HandshakeError × Handshake hh
        → Result (Handshake hh × Option HandshakeError × Sink)
    with_conn conn (e, hs) = ok (hs, e, conn)

    abbrev pub after_request_sent :
        Dialer
        → Bytes
        → Bytes
        → Error
        → Option Error × Sink
        → Result (Handshake hh × Option HandshakeError × Sink)
    after_request_sent d nonce pending last (some e, conn) =
        ok (answer_of first_answer, some (io e), conn)
    after_request_sent d nonce pending last (none, conn) =
        read_response d nonce pending last >>= with_conn conn

    -- `Upgrade(conn, u)`: `drawn` are the bytes of rand.Read, `request_uri` and `host` those of the
    -- URL.
    unfoldable pub client_upgrade :
        Dialer
        → Option Bytes
        → Bytes
        → Bytes
        → Bytes
        → Error
        → Sink
        → Result (Handshake hh × Option HandshakeError × Sink)
    unfolding upgrade_request send_request read_response
    client_upgrade d drawn request_uri host pending last conn = elim (init_nonce o.encode drawn) [
      | none ↦ panic
      | some nonce ↦
          after_request_sent d nonce pending last
            (send_request d (upgrade_request d request_uri host nonce) conn)
    ]
