-- ===== src/Handshake/Server.antt =====
-- upgrader.go: `Upgrader` and its `Upgrade`. The callbacks of the application are functions of their
-- arguments.
use mogusocket.Common.{
  ℕ, zero, suc, Bool, true, false, not, ◌||◌, bit_and, bit_or, Option, none, some, List, [], ◌++◌,
  Bytes, length, replicate, ◌==◌, if◌then◌else◌,
}
use mogusocket.Common.Words.{ℤ, le_ℤ, lt_ℤ}
use mogusocket.Errors.{Error}
use mogusocket.Stream.{Sink, write_all}
use mogusocket.Writer.Result.{Result, ok, panic, stuck, ◌>>=◌}
use mogusocket.Text.Codes.{codes}
use mogusocket.Text.Select.{same_bytes, non_zero}
use mogusocket.Text.ReadLine.{read_line}
use mogusocket.Http.Lines.{HttpRequestLine, http_parse_request_line, http_parse_header_line}
use mogusocket.Http.Requests.{http_write_response_upgrade, http_write_response_error}
use mogusocket.Handshake.Failure.{
  HandshakeHeader, HandshakeError, rejected, io, rejection_code, error_text,
  err_handshake_bad_protocol, err_handshake_bad_method, err_handshake_bad_host,
  err_handshake_bad_upgrade, err_handshake_bad_connection, err_handshake_bad_sec_key,
  err_handshake_bad_sec_version, err_malformed_request, err_handshake_upgrade_required,
}
use mogusocket.Handshake.Nonce.{init_accept_from_nonce, accept_size, nonce_size}
use mogusocket.Handshake.Options.{
  Httphead, bts_has_token, bts_select_protocol, negotiate_extensions,
}

-- What a handshake takes from other packages: crypto/sha1, base64, strconv, net/http, the texts of
-- errors, the size of the buffer that pbufio hands out to a reader for a wish, and the pieces in
-- which a bufio.Writer of pbufio for a wish passes on what it is given up to its Flush.
pub record Outside : Type 0 where
  pub sum : Bytes → Bytes
  pub encode : Bytes → Bytes
  pub itoa : ℕ → Bytes
  pub itoa_int : ℤ → Bytes
  pub status_name : ℕ → Bytes
  pub io_text : Error → Bytes
  pub buffer_size : ℕ → ℕ
  pub pieces : ℕ → Bytes → List Bytes

-- `headerSeen...`
abbrev pub seen_host : ℕ
seen_host = 1

abbrev pub seen_upgrade : ℕ
seen_upgrade = 2

abbrev pub seen_connection : ℕ
seen_connection = 4

abbrev pub seen_sec_version : ℕ
seen_sec_version = 8

abbrev pub seen_sec_key : ℕ
seen_sec_key = 16

abbrev pub seen_all : ℕ
seen_all = 31

abbrev pub default_server_read_buffer_size : ℕ
default_server_read_buffer_size = 4096

abbrev pub default_server_write_buffer_size : ℕ
default_server_write_buffer_size = 512

-- A `handshakeHeader` is the two headers; the second is not written where the first fails.
unfoldable pub handshake_header_bytes : Option HandshakeHeader → Option HandshakeHeader → Bytes
handshake_header_bytes none none = []
handshake_header_bytes none (some (bts, e)) = bts
handshake_header_bytes (some (bts, e)) none = bts
handshake_header_bytes (some (bts, some e)) (some h) = bts
handshake_header_bytes (some (bts, none)) (some (bts', e)) = bts ++ bts'

-- `if f != nil { err = f(x) }`
abbrev pub asked : Option (Bytes → Option HandshakeError) → Bytes → Option HandshakeError
asked none x = none
asked (some f) x = f x

module _ (hh : Httphead) where
  open hh use {Opt, select_options, equal_fold, write_options}

  pub record Upgrader : Type 0 where
    pub read_buffer_size : ℕ
    pub write_buffer_size : ℕ
    pub protocol : Option (Bytes → Bool)
    pub protocol_custom : Option (Bytes → Bytes × Bool)
    pub extension : Option (Opt → Bool)
    pub extension_custom : Option (Bytes → List Opt → List Opt × Bool)
    pub negotiate : Option (Opt → Opt × Option HandshakeError)
    pub header : Option HandshakeHeader
    pub on_request : Option (Bytes → Option HandshakeError)
    pub on_host : Option (Bytes → Option HandshakeError)
    pub on_header : Option (Bytes → Bytes → Option HandshakeError)
    pub on_before_upgrade : Option (Option HandshakeHeader × Option HandshakeError)

  -- The variables of the loop over the headers; `hs` is `chosen` and `accepted`.
  pub record Progress : Type 0 where
    pub seen : ℕ
    pub nonce : Bytes
    pub chosen : Bytes
    pub accepted : List Opt

  abbrev pub first_progress : Progress
  first_progress = record { seen = 0; nonce = replicate nonce_size 0; chosen = []; accepted = [] }

  abbrev pub mark : ℕ → Progress → Progress
  mark bit s = record s { seen = bit_or s.seen bit }

  -- The checks of the request line.
  unfoldable pub check_request : Upgrader → HttpRequestLine → Option HandshakeError
  check_request u req =
      if not (le_ℤ req.major 1) || lt_ℤ req.major 1 || lt_ℤ req.minor 1
      then some err_handshake_bad_protocol
      else if not (same_bytes req.method (codes "GET"))
      then some err_handshake_bad_method
      else asked u.on_request req.uri

  -- `Sec-WebSocket-Key`
  unfoldable pub key_header : Bytes → Progress → Option HandshakeError × Progress
  key_header v s =
      if length v == nonce_size
      then (none, record (mark seen_sec_key s) { nonce = v })
      else (some err_handshake_bad_sec_key, mark seen_sec_key s)

  abbrev pub chose : Progress → Bytes × Bool → Option HandshakeError × Progress
  chose s (protocol, true) = (none, record s { chosen = protocol })
  chose s (protocol, false) = (some err_malformed_request, record s { chosen = protocol })

  -- `Sec-WebSocket-Protocol`
  unfoldable pub protocol_header : Upgrader → Bytes → Progress → Option HandshakeError × Progress
  protocol_header u v s =
      let by_check : Option HandshakeError × Progress = elim u.protocol [
        | none ↦ (none, s)
        | some check ↦ chose s (bts_select_protocol hh v check)
      ] in
      let selected : Option HandshakeError × Progress = elim u.protocol_custom [
        | none ↦ by_check
        | some custom ↦ chose s (custom v)
      ] in
      if length s.chosen == 0 then selected else (none, s)

  abbrev pub negotiated :
      Progress → List Opt × Option HandshakeError → Option HandshakeError × Progress
  negotiated s (xs, e) = (e, record s { accepted = xs })

  abbrev pub extended_by : Progress → List Opt × Bool → Option HandshakeError × Progress
  extended_by s (xs, true) = (none, record s { accepted = xs })
  extended_by s (xs, false) = (some err_malformed_request, record s { accepted = xs })

  -- `Sec-WebSocket-Extensions`
  unfoldable pub extensions_header : Upgrader → Bytes → Progress → Option HandshakeError × Progress
  extensions_header u v s =
      let by_check : Option HandshakeError × Progress = elim u.extension [
        | none ↦ (none, s)
        | some check ↦ extended_by s (select_options v s.accepted check)
      ] in
      let deprecated : Option HandshakeError × Progress = elim u.extension_custom [
        | none ↦ by_check
        | some custom ↦ extended_by s (custom v s.accepted)
      ] in
      elim u.negotiate [
        | none ↦ deprecated
        | some f ↦ negotiated s (negotiate_extensions hh v s.accepted f)
      ]

  abbrev pub unknown_header : Upgrader → Bytes → Bytes → Option HandshakeError
  unknown_header u k v = elim u.on_header [ none ↦ none | some f ↦ f k v ]

  -- The `switch` on the canonical key.
  unfoldable pub header_step :
      Upgrader → Bytes → Bytes → Progress → Option HandshakeError × Progress
  unfolding key_header protocol_header extensions_header
  header_step u k v s =
      if same_bytes k (codes "Host")
      then (asked u.on_host v, mark seen_host s)
      else if same_bytes k (codes "Upgrade")
      then (
        (if same_bytes v (codes "websocket") || equal_fold v (codes "websocket")
            then none
            else some err_handshake_bad_upgrade),
        mark seen_upgrade s,
      )
      else if same_bytes k (codes "Connection")
      then (
        (if same_bytes v (codes "Upgrade") || bts_has_token hh v (codes "upgrade")
            then none
            else some err_handshake_bad_connection),
        mark seen_connection s,
      )
      else if same_bytes k (codes "Sec-Websocket-Version")
      then (
        (if same_bytes v (codes "13") then none else some err_handshake_upgrade_required),
        mark seen_sec_version s,
      )
      else if same_bytes k (codes "Sec-Websocket-Key")
      then key_header v s
      else if same_bytes k (codes "Sec-Websocket-Protocol")
      then protocol_header u v s
      else if same_bytes k (codes "Sec-Websocket-Extensions")
      then extensions_header u v s
      else (unknown_header u k v, s)

  abbrev pub parsed_header :
      Upgrader → Progress → Option (Bytes × Bytes) → Option HandshakeError × Progress
  parsed_header u s none = (some err_malformed_request, s)
  parsed_header u s (some (k, v)) = header_step u k v s

  -- One line of the headers; `none` at the blank line.
  unfoldable pub header_line :
      Upgrader → Bytes → Progress → Option (Option HandshakeError × Progress)
  header_line u line s =
      if length line == 0 then none else some (parsed_header u s (http_parse_header_line line))

  -- How the loop over the headers ends: the connection failed, or it was left with `err`.
  pub data HeadersEnd : Type 0 where
    aborted : Error → Progress → HeadersEnd
    finished : Option HandshakeError → Progress → Bytes → HeadersEnd

  abbrev pub after_header :
      (Progress → Bytes → Result HeadersEnd)
      → Progress
      → Bytes
      → Option (Option HandshakeError × Progress)
      → Result HeadersEnd
  after_header again s rest none = ok (finished none s rest)
  after_header again s rest (some (none, s')) = again s' rest
  after_header again s rest (some (some e, s')) = ok (finished (some e) s' rest)

  abbrev pub after_line :
      Upgrader
      → (Progress → Bytes → Result HeadersEnd)
      → Progress
      → Bytes × Option Error × Bytes
      → Result HeadersEnd
  after_line u again s (line, some e, rest) = ok (aborted e s)
  after_line u again s (line, none, rest) = after_header again s rest (header_line u line s)

  -- The loop, with its rounds left; each reads a line.
  unfoldable pub read_headers : ℕ → ℕ → Error → Upgrader → Progress → Bytes → Result HeadersEnd
  read_headers zero size last u s pending = stuck
  read_headers (suc fuel) size last u s pending =
      read_line size last pending >>= after_line u (read_headers fuel size last u) s

  -- The error for the first header that is missing; the panic of the inner switch is kept.
  unfoldable pub check_seen : ℕ → Result (Option HandshakeError)
  check_seen seen =
      if seen == seen_all
      then ok none
      else if bit_and seen seen_host == 0
      then ok (some err_handshake_bad_host)
      else if bit_and seen seen_upgrade == 0
      then ok (some err_handshake_bad_upgrade)
      else if bit_and seen seen_connection == 0
      then ok (some err_handshake_bad_connection)
      else if bit_and seen seen_sec_version == 0
      then ok (some err_handshake_bad_sec_version)
      else if bit_and seen seen_sec_key == 0
      then ok (some err_handshake_bad_sec_key)
      else panic

  pub record Handshake : Type 0 where
    pub protocol : Bytes
    pub extensions : List Opt

  abbrev pub handshake_of : Progress → Handshake
  handshake_of s = record { protocol = s.chosen; extensions = s.accepted }

  -- The second header, `extra` so far: a rejection brings its own.
  abbrev pub rejection_headers : Option HandshakeHeader → HandshakeError → Option HandshakeHeader
  rejection_headers extra (rejected r) = r.header
  rejection_headers extra e = extra

  module _ (o : Outside) where
    -- What is written to `bw`, and its Flush: an error of a Write stays with the writer.
    unfoldable pub send_answer : Upgrader → Bytes → Sink → Option Error × Sink
    send_answer u bytes conn =
        write_all (o.pieces (non_zero u.write_buffer_size default_server_write_buffer_size) bytes)
          conn

    -- The answer to an error; the error of Flush is dropped.
    unfoldable pub reject_upgrade : Upgrader → Option HandshakeHeader → HandshakeError → Sink → Sink
    unfolding send_answer
    reject_upgrade u extra e conn =
        (send_answer u
          (http_write_response_error o.itoa o.status_name []
            (some (error_text o.itoa_int o.io_text e)) (rejection_code e)
            (some (handshake_header_bytes u.header (rejection_headers extra e))))
          conn).1

    abbrev pub flushed_upgrade : Option Error × Sink → Option HandshakeError × Sink
    flushed_upgrade (none, conn) = (none, conn)
    flushed_upgrade (some e, conn) = (some (io e), conn)

    -- The bytes of the answer to a good handshake.
    abbrev pub response : Upgrader → Option HandshakeHeader → Progress → Bytes → Bytes
    response u extra s accept =
        http_write_response_upgrade write_options (λ nonce. accept) [] s.nonce s.chosen s.accepted
          (some (handshake_header_bytes u.header extra))

    -- The accept value panics for a nonce of another length.
    abbrev pub accept_with :
        Upgrader
        → Option HandshakeHeader
        → Progress
        → Sink
        → Option Bytes
        → Result (Option HandshakeError × Sink)
    accept_with u extra s conn none = panic
    accept_with u extra s conn (some accept) =
        ok (flushed_upgrade (send_answer u (response u extra s accept) conn))

    unfoldable pub accept_upgrade :
        Upgrader → Option HandshakeHeader → Progress → Sink → Result (Option HandshakeError × Sink)
    accept_upgrade u extra s conn =
        accept_with u extra s conn (init_accept_from_nonce o.sum o.encode accept_size s.nonce)

    abbrev pub answered :
        Progress → Option HandshakeError × Sink → Result (Handshake × Option HandshakeError × Sink)
    answered s (e, conn) = ok (handshake_of s, e, conn)

    -- Behind `OnBeforeUpgrade`.
    abbrev pub conclude :
        Upgrader
        → Progress
        → Sink
        → Option HandshakeHeader × Option HandshakeError
        → Result (Handshake × Option HandshakeError × Sink)
    conclude u s conn (extra, some e) = ok (handshake_of s, some e, reject_upgrade u extra e conn)
    conclude u s conn (extra, none) = accept_upgrade u extra s conn >>= answered s

    -- The callback's answer, if there is one.
    abbrev pub before_upgrade :
        Option (Option HandshakeHeader × Option HandshakeError)
        → Option HandshakeHeader × Option HandshakeError
    before_upgrade none = (none, none)
    before_upgrade (some r) = r

    -- `none` for the headers that were all seen.
    abbrev pub with_seen :
        Upgrader
        → Progress
        → Sink
        → Option HandshakeError
        → Result (Handshake × Option HandshakeError × Sink)
    with_seen u s conn (some e) = ok (handshake_of s, some e, reject_upgrade u none e conn)
    with_seen u s conn none = conclude u s conn (before_upgrade u.on_before_upgrade)

    -- Behind the loop.
    unfoldable pub finish_upgrade :
        Upgrader → Sink → HeadersEnd → Result (Handshake × Option HandshakeError × Sink)
    finish_upgrade u conn (aborted e s) = ok (handshake_of s, some (io e), conn)
    finish_upgrade u conn (finished (some e) s rest) =
        ok (handshake_of s, some e, reject_upgrade u none e conn)
    finish_upgrade u conn (finished none s rest) = check_seen s.seen >>= with_seen u s conn

    abbrev pub after_check :
        Upgrader
        → Sink
        → ℕ
        → Error
        → Bytes
        → Option HandshakeError
        → Result (Handshake × Option HandshakeError × Sink)
    after_check u conn size last rest (some e) =
        ok (handshake_of first_progress, some e, reject_upgrade u none e conn)
    after_check u conn size last rest none =
        read_headers (suc (length rest)) size last u first_progress rest >>= finish_upgrade u conn

    -- Behind the request line: `req` and whether it was parsed, and the bytes behind it.
    abbrev pub after_request :
        Upgrader
        → Sink
        → ℕ
        → Error
        → Bytes
        → HttpRequestLine × Bool
        → Result (Handshake × Option HandshakeError × Sink)
    after_request u conn size last rest (req, false) =
        ok (handshake_of first_progress, some err_malformed_request, conn)
    after_request u conn size last rest (req, true) =
        after_check u conn size last rest (check_request u req)

    abbrev pub after_request_line :
        Upgrader
        → Sink
        → ℕ
        → Error
        → Bytes × Option Error × Bytes
        → Result (Handshake × Option HandshakeError × Sink)
    after_request_line u conn size last (line, some e, rest) =
        ok (handshake_of first_progress, some (io e), conn)
    after_request_line u conn size last (line, none, rest) =
        after_request u conn size last rest (http_parse_request_line line)

    -- `Upgrade(conn)` on a connection with the bytes `pending`, then the error `last`.
    unfoldable pub upgrade :
        Upgrader → Bytes → Error → Sink → Result (Handshake × Option HandshakeError × Sink)
    unfolding finish_upgrade
    upgrade u pending last conn =
        let size = o.buffer_size (non_zero u.read_buffer_size default_server_read_buffer_size) in
        read_line size last pending >>= after_request_line u conn size last
