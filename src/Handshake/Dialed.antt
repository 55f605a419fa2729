-- ===== src/Handshake/Dialed.antt =====
-- dialer.go: which answers `Dialer.Upgrade` accepts.
use mogusocket.Common.{◌≡◌, true, false, Option, none, some, [], ◌++◌, Bytes}
use mogusocket.Common.Words.{pos, lt_ℤ}
use mogusocket.Errors.{Error}
use mogusocket.Stream.{Sink, written}
use mogusocket.Writer.Result.{Result}
use mogusocket.Text.LineLaws.{line_result}
use mogusocket.Http.Lines.{HttpResponseLine, http_parse_response_line}
use mogusocket.Handshake.Nonce.{init_nonce}
use mogusocket.Handshake.Options.{Httphead}
use mogusocket.Handshake.Server.{Outside, Handshake}
use mogusocket.Handshake.Client.{Dialer, upgrade_request}
use mogusocket.Handshake.Agreed.{IsAgreed}

module _ (hh : Httphead) (o : Outside) (d : Dialer hh) (nonce : Bytes) where
  pub record IsSwitched (last : Error) (pending : Bytes) (hs : Handshake hh) : Type 0 where
    pub line : Bytes
    pub behind : Bytes
    pub response : HttpResponseLine
    pub first : line_result last [] pending ≡ (line, none, behind)
    pub parsed : http_parse_response_line line ≡ (response, true)
    pub version : (response.major ≡ pos 1) × (lt_ℤ response.minor 1 ≡ false)
    pub status : response.status ≡ pos 101
    pub agreed : IsAgreed hh o d nonce last behind hs

module _ (hh : Httphead) (o : Outside) (d : Dialer hh) where
  -- The request has arrived as a whole, and the answer to its nonce is a good one.
  pub record IsDialed (drawn : Option Bytes) (uri host pending : Bytes) (last : Error)
      (conn conn' : Sink) (hs : Handshake hh) : Type 0 where
    pub nonce : Bytes
    pub drawn_is : init_nonce o.encode drawn ≡ some nonce
    pub sent : written conn' ≡ written conn ++ upgrade_request hh o d uri host nonce
    pub switched : IsSwitched hh o d nonce last pending hs
