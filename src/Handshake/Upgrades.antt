-- ===== src/Handshake/Upgrades.antt =====
-- upgrader.go: which requests `Upgrade` accepts, and what it answers them.
use mogusocket.Common.{
  ℕ, suc, ◌<◌, ◌≡◌, refl, sym, ap, ap₂, subst, ◌∙◌, Bool, true, false, Option, none, some, List, [],
  arith, Bytes, length, All, replicate,
}
use mogusocket.Common.Words.{ℤ, pos, le_ℤ, lt_ℤ}
use mogusocket.Errors.{Error}
use mogusocket.Stream.{Sink, flatten}
use mogusocket.Writer.Result.{Result, ok, panic, stuck, ◌>>=◌}
use mogusocket.Text.Codes.{codes}
use mogusocket.Text.Select.{non_zero}
use mogusocket.Text.LineLaws.{line_result, read_line-line_result}
use mogusocket.Http.Lines.{HttpRequestLine, http_parse_request_line}
use mogusocket.Handshake.Failure.{HandshakeError}
use mogusocket.Handshake.Nonce.{nonce_size}
use mogusocket.Handshake.Options.{Httphead}
use mogusocket.Handshake.Server.{
  Outside, Upgrader, Progress, Handshake, HeadersEnd, aborted, finished, first_progress,
  handshake_of, check_request, check_seen, asked, read_headers, answered, before_upgrade, with_seen,
  finish_upgrade, after_check, after_request, after_request_line, upgrade,
  default_server_read_buffer_size,
}
use mogusocket.Handshake.Seen.{check_seen-all}
use mogusocket.Handshake.Steps.{same_bytes-eq, IsGood}
use mogusocket.Handshake.Sound.{Spelled, read_headers-Read}
use mogusocket.Handshake.Selected.{
  protocol_from, extensions_from, Run-protocol_from, Run-extensions_from,
}
use mogusocket.Handshake.Headers.{IsComplete, last_key, Run-IsGood, Run-last_key, Run-IsComplete}
use mogusocket.Handshake.Answered.{IsAnswered, conclude-IsAnswered}

module _ (hh : Httphead) (o : Outside) (u : Upgrader hh) where
  -- What the headers were, and what the answer was.
  pub record IsConcluded (last : Error) (pending : Bytes) (conn conn' : Sink) (hs : Handshake hh)
      : Type 0 where
    pub kvs : List (Bytes × Bytes)
    pub rest : Bytes
    pub spelled : Spelled last pending kvs rest
    pub complete : IsComplete kvs
    pub good : All (λ kv. IsGood hh kv.0 kv.1) kvs
    pub protocol_is : hs.protocol ≡ protocol_from hh u [] kvs
    pub extensions_are : hs.extensions ≡ extensions_from hh u [] kvs
    pub answered : IsAnswered hh o u conn conn' hs (last_key (replicate nonce_size 0) kvs)

  pub record IsUpgraded (pending : Bytes) (last : Error) (conn conn' : Sink) (hs : Handshake hh)
      : Type 0 where
    pub line : Bytes
    pub behind : Bytes
    pub minor : ℤ
    pub uri : Bytes
    pub first : line_result last [] pending ≡ (line, none, behind)
    pub request :
        http_parse_request_line line
        ≡ (record { method = codes "GET"; uri = uri; major = pos 1; minor = minor }, true)
    pub version : lt_ℤ minor 1 ≡ false
    pub allowed : asked u.on_request uri ≡ none
    pub concluded : IsConcluded last behind conn conn' hs

module _ (hh : Httphead) (o : Outside) (u : Upgrader hh)
    (joins : (n : ℕ) (bs : Bytes) → flatten (o.pieces n bs) ≡ bs) where
  with_seen-IsAnswered :
      (s : Progress hh) (conn conn' : Sink) (hs : Handshake hh) (r : Result (Option HandshakeError))
      → (r >>= with_seen hh o u s conn) ≡ ok (hs, none, conn')
      → (r ≡ ok none) × IsAnswered hh o u conn conn' hs s.nonce × (hs ≡ handshake_of hh s)
  with_seen-IsAnswered s conn conn' hs (ok none) h =
      let (answered, agreed) =
        conclude-IsAnswered hh o u joins s conn conn' hs (before_upgrade hh o u.on_before_upgrade)
          refl h in
      (refl, answered, agreed)
  with_seen-IsAnswered s conn conn' hs (ok (some e)) h = cc
  with_seen-IsAnswered s conn conn' hs panic h = cc
  with_seen-IsAnswered s conn conn' hs stuck h = cc

  finish-IsConcluded :
      (last : Error) (pending : Bytes) (conn conn' : Sink) (hs : Handshake hh) (size : ℕ)
      (r : Result (HeadersEnd hh))
      → 0 < size
      → read_headers hh (suc (length pending)) size last u (first_progress hh) pending ≡ r
      → (r >>= finish_upgrade hh o u conn) ≡ ok (hs, none, conn')
      → IsConcluded hh o u last pending conn conn' hs
  unfolding finish_upgrade
  finish-IsConcluded last pending conn conn' hs size panic room e h = cc
  finish-IsConcluded last pending conn conn' hs size stuck room e h = cc
  finish-IsConcluded last pending conn conn' hs size (ok (aborted x s)) room e h = cc
  finish-IsConcluded last pending conn conn' hs size (ok (finished (some x) s rest)) room e h = cc
  finish-IsConcluded last pending conn conn' hs size (ok (finished none s rest)) room e h =
      let (seen, answered, agreed) =
        with_seen-IsAnswered s conn conn' hs (check_seen hh s.seen) h in
      let r =
        read_headers-Read hh u last rest s (suc (length pending)) size pending (first_progress hh)
          room e in
      let nonce_is = Run-last_key hh u r.run in
      record {
        kvs = r.kvs;
        rest = rest;
        spelled = r.spelled;
        complete = Run-IsComplete hh u r.run refl (check_seen-all hh s.seen seen);
        good = Run-IsGood hh u r.run;
        protocol_is = ap (λ (x : Handshake hh). x.protocol) agreed ∙ Run-protocol_from hh u r.run;
        extensions_are =
            ap (λ (x : Handshake hh). x.extensions) agreed ∙ Run-extensions_from hh u r.run;
        answered = subst (IsAnswered hh o u conn conn' hs) nonce_is answered;
      }

  one : (z : ℤ) → le_ℤ z 1 ≡ true → lt_ℤ z 1 ≡ false → z ≡ pos 1
  one z p q = ground arith

  check_request-none :
      (req : HttpRequestLine)
      → check_request hh u req ≡ none
      → (req.method ≡ codes "GET")
        × (req.major ≡ pos 1)
        × (lt_ℤ req.minor 1 ≡ false)
        × (asked u.on_request req.uri ≡ none)
  unfolding check_request
  check_request-none req h = ground (arith, one req.major, same_bytes-eq req.method (codes "GET"))

  after_check-IsConcluded :
      (last : Error) (rest : Bytes) (conn conn' : Sink) (hs : Handshake hh) (size : ℕ)
      (e : Option HandshakeError)
      → 0 < size
      → after_check hh o u conn size last rest e ≡ ok (hs, none, conn')
      → (e ≡ none) × IsConcluded hh o u last rest conn conn' hs
  after_check-IsConcluded last rest conn conn' hs size (some e) room h = cc
  after_check-IsConcluded last rest conn conn' hs size none room h = (
    refl,
    finish-IsConcluded last rest conn conn' hs size
        (read_headers hh (suc (length rest)) size last u (first_progress hh) rest) room refl h,
  )

  after_request-IsUpgraded :
      (pending : Bytes) (last : Error) (line rest : Bytes) (conn conn' : Sink) (hs : Handshake hh)
      (size : ℕ) (x : HttpRequestLine × Bool)
      → 0 < size
      → line_result last [] pending ≡ (line, none, rest)
      → http_parse_request_line line ≡ x
      → after_request hh o u conn size last rest x ≡ ok (hs, none, conn')
      → IsUpgraded hh o u pending last conn conn' hs
  after_request-IsUpgraded pending last line rest conn conn' hs size (req, false) room e p h = cc
  after_request-IsUpgraded pending last line rest conn conn' hs size (req, true) room e p h =
      let (good, concluded) =
        after_check-IsConcluded last rest conn conn' hs size (check_request hh u req) room h in
      let (method, major, minor, allowed) = check_request-none req good in
      record {
        line = line;
        behind = rest;
        minor = req.minor;
        uri = req.uri;
        first = e;
        request = p ∙ ap₂ (λ m j. (record req { method = m; major = j }, true)) method major;
        version = minor;
        allowed = allowed;
        concluded = concluded;
      }

  after_line-IsUpgraded :
      (pending : Bytes) (last : Error) (conn conn' : Sink) (hs : Handshake hh) (size : ℕ)
      (x : Bytes × Option Error × Bytes)
      → 0 < size
      → line_result last [] pending ≡ x
      → after_request_line hh o u conn size last x ≡ ok (hs, none, conn')
      → IsUpgraded hh o u pending last conn conn' hs
  after_line-IsUpgraded pending last conn conn' hs size (line, some e, rest) room eq h = cc
  after_line-IsUpgraded pending last conn conn' hs size (line, none, rest) room eq h =
      after_request-IsUpgraded pending last line rest conn conn' hs size
        (http_parse_request_line line) room eq refl h

  -- Where Upgrade succeeds, the request is a GET of HTTP/1.1 or a later 1.x that the callback allows,
  -- the headers up to the blank line have good values and all five keys that a handshake needs, and
  -- the handshake has the protocol and the extensions that the callbacks select from these headers;
  -- behind what was sent before, there has arrived the answer with the accept value for the last key,
  -- this protocol and these extensions, the Upgrader's header and the one of OnBeforeUpgrade, whatever
  -- the pieces in which the bufio.Writer passes it on, if together they are what it was given.
  pub upgrade-IsUpgraded :
      (pending : Bytes) (last : Error) (conn conn' : Sink) (hs : Handshake hh)
      → ((n : ℕ) → 0 < o.buffer_size n)
      → upgrade hh o u pending last conn ≡ ok (hs, none, conn')
      → IsUpgraded hh o u pending last conn conn' hs
  unfolding upgrade
  upgrade-IsUpgraded pending last conn conn' hs room h =
      let size = o.buffer_size (non_zero u.read_buffer_size default_server_read_buffer_size) in
      let some_room = room (non_zero u.read_buffer_size default_server_read_buffer_size) in
      after_line-IsUpgraded pending last conn conn' hs size (line_result last [] pending) some_room
        refl
        (ap (λ r. r >>= after_request_line hh o u conn size last)
            (sym (read_line-line_result size last pending some_room))
          ∙ h)
