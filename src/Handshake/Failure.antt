-- ===== src/Handshake/Failure.antt =====
-- errors.go, and the errors of a handshake in upgrader.go and dialer.go.
use mogusocket.Common.{ℕ, Option, none, some, List, [], ◌∷◌, ◌++◌, Bytes, ◌==◌, if◌then◌else◌}
use mogusocket.Common.Words.{ℤ}
use mogusocket.Errors.{Error}
use mogusocket.Text.Codes.{codes}

-- What a HandshakeHeader writes, and the error that its WriteTo returns.
abbrev pub HandshakeHeader : Type 0
HandshakeHeader = Bytes × Option Error

-- `code` 0 stands for none; `header` is nil or a header.
pub record ConnectionRejectedError : Type 0 where
  pub reason : Bytes
  pub code : ℕ
  pub header : Option HandshakeHeader

abbrev pub RejectOption : Type 0
RejectOption = ConnectionRejectedError → ConnectionRejectedError

unfoldable pub rejection_reason : Bytes → RejectOption
rejection_reason reason err = record err { reason = reason }

unfoldable pub rejection_status : ℕ → RejectOption
rejection_status code err = record err { code = code }

unfoldable pub rejection_header : HandshakeHeader → RejectOption
rejection_header h err = record err { header = some h }

-- The loop over the options.
unfoldable pub apply_options : List RejectOption → RejectOption
apply_options [] err = err
apply_options (opt ∷ options) err = apply_options options (opt err)

unfoldable pub reject_connection_error : List RejectOption → ConnectionRejectedError
unfolding apply_options
reject_connection_error options =
    apply_options options (record { reason = []; code = 0; header = none })

-- The errors of both sides. `rejected` is a `*ConnectionRejectedError`; `io` comes from the
-- connection; `other` is any error of a callback, by its text.
pub data HandshakeError : Type 0 where
  rejected : ConnectionRejectedError → HandshakeError
  io : Error → HandshakeError
  other : Bytes → HandshakeError
  malformed_response bad_sub_protocol bad_extensions : HandshakeError
  status_error : ℤ → HandshakeError

-- `%q` of a header's name.
abbrev pub quoted : Bytes → Bytes
quoted name = 0x22 ∷ (name ++ 0x22 ∷ [])

abbrev pub bad_header : Bytes → Bytes
bad_header name = codes "handshake error: bad " ++ quoted name ++ codes " header"

abbrev pub reject : ℕ → Bytes → HandshakeError
reject code reason =
    rejected (reject_connection_error (rejection_status code ∷ rejection_reason reason ∷ []))

abbrev pub err_handshake_bad_protocol : HandshakeError
err_handshake_bad_protocol = reject 505 (codes "handshake error: bad HTTP protocol version")

abbrev pub err_handshake_bad_method : HandshakeError
err_handshake_bad_method = reject 405 (codes "handshake error: bad HTTP request method")

abbrev pub err_handshake_bad_host : HandshakeError
err_handshake_bad_host = reject 400 (bad_header (codes "Host"))

abbrev pub err_handshake_bad_upgrade : HandshakeError
err_handshake_bad_upgrade = reject 400 (bad_header (codes "Upgrade"))

abbrev pub err_handshake_bad_connection : HandshakeError
err_handshake_bad_connection = reject 400 (bad_header (codes "Connection"))

abbrev pub err_handshake_bad_sec_accept : HandshakeError
err_handshake_bad_sec_accept = reject 400 (bad_header (codes "Sec-WebSocket-Accept"))

abbrev pub err_handshake_bad_sec_key : HandshakeError
err_handshake_bad_sec_key = reject 400 (bad_header (codes "Sec-WebSocket-Key"))

abbrev pub err_handshake_bad_sec_version : HandshakeError
err_handshake_bad_sec_version = reject 400 (bad_header (codes "Sec-WebSocket-Version"))

abbrev pub err_malformed_request : HandshakeError
err_malformed_request = reject 400 (codes "malformed HTTP request")

-- With the version that the server speaks, as a header.
abbrev pub err_handshake_upgrade_required : HandshakeError
err_handshake_upgrade_required = rejected (
    reject_connection_error (
      rejection_status 426
      ∷ rejection_header (codes "Sec-WebSocket-Version: 13" ++ 13 ∷ 10 ∷ [], none)
      ∷ rejection_reason (bad_header (codes "Sec-WebSocket-Version"))
      ∷ []))

-- `Error()`, with strconv.Itoa and the text of an error of the connection.
unfoldable pub error_text : (ℤ → Bytes) → (Error → Bytes) → HandshakeError → Bytes
error_text itoa io_text (rejected r) = r.reason
error_text itoa io_text (io e) = io_text e
error_text itoa io_text (other text) = text
error_text itoa io_text malformed_response = codes "malformed HTTP response"
error_text itoa io_text bad_sub_protocol =
    codes "unexpected protocol in " ++ quoted (codes "Sec-WebSocket-Protocol") ++ codes " header"
error_text itoa io_text bad_extensions =
    codes "unexpected extensions in " ++ quoted (codes "Sec-WebSocket-Protocol") ++ codes " header"
error_text itoa io_text (status_error s) = codes "unexpected HTTP response status: " ++ itoa s

-- The status that a rejection is answered with, 500 where the error has none.
unfoldable pub rejection_code : HandshakeError → ℕ
rejection_code (rejected r) = if r.code == 0 then 500 else r.code
rejection_code e = 500
