-- ===== src/Http/Requests.antt =====
-- http.go: the upgrade request, the answers, and the choice of extensions. What a bufio.Writer has
-- taken so far is a list of bytes; it keeps the error of a write until Flush, which is not modelled.
use mogusocket.Common.{
  ℕ, Bool, true, false, Option, none, some, List, [], ◌∷◌, ◌++◌, Bytes, length, ltb, ◌==◌,
  if◌then◌else◌,
}
use mogusocket.Text.Codes.{codes}

abbrev pub crlf : Bytes
crlf = 13 ∷ 10 ∷ []

abbrev pub colon_and_space : Bytes
colon_and_space = codes ": "

abbrev pub comma_and_space : Bytes
comma_and_space = codes ", "

abbrev pub text_head_upgrade : Bytes
text_head_upgrade =
    codes "HTTP/1.1 101 Switching Protocols"
    ++ crlf
    ++ codes "Upgrade: websocket"
    ++ crlf
    ++ codes "Connection: Upgrade"
    ++ crlf

unfoldable pub http_write_header_key : Bytes → Bytes → Bytes
http_write_header_key bw key = bw ++ key ++ colon_and_space

unfoldable pub http_write_header : Bytes → Bytes → Bytes → Bytes
unfolding http_write_header_key
http_write_header bw key value = http_write_header_key bw key ++ value ++ crlf

-- The loop over the protocols, with `i > 0` first.
unfoldable pub write_protocols : Bool → Bytes → List Bytes → Bytes
write_protocols later bw [] = bw
write_protocols later bw (p ∷ ps) =
    write_protocols true ((if later then bw ++ comma_and_space else bw) ++ p) ps

-- `request_uri` and `host` come from net/url, `write_options` from httphead; `header` is what the
-- caller's header writes, if there is one.
unfoldable pub http_write_upgrade_request {ℓ} :
    {O : Type ℓ}
    → (List O → Bytes)
    → Bytes
    → Bytes
    → Bytes
    → Bytes
    → List Bytes
    → List O
    → Option Bytes
    → Bytes
unfolding http_write_header http_write_header_key write_protocols
http_write_upgrade_request write_options bw request_uri host nonce protocols extensions header =
    let b0 = bw ++ codes "GET " ++ request_uri ++ codes " HTTP/1.1" ++ crlf in
    let b1 = http_write_header b0 (codes "Host") host in
    let b2 = http_write_header b1 (codes "Upgrade") (codes "websocket") in
    let b3 = http_write_header b2 (codes "Connection") (codes "Upgrade") in
    let b4 = http_write_header b3 (codes "Sec-WebSocket-Version") (codes "13") in
    let b5 = http_write_header b4 (codes "Sec-WebSocket-Key") nonce in
    let b6 =
      if ltb 0 (length protocols)
      then write_protocols false (http_write_header_key b5 (codes "Sec-WebSocket-Protocol"))
          protocols
        ++ crlf
      else b5 in
    let b7 =
      if ltb 0 (length extensions)
      then http_write_header_key b6 (codes "Sec-WebSocket-Extensions")
        ++ write_options extensions
        ++ crlf
      else b6 in
    let b8 : Bytes = elim header [ none ↦ b7 | some h ↦ b7 ++ h ] in b8 ++ crlf

-- `accept` is the value that nonce.go computes with SHA-1 and base64.
unfoldable pub http_write_response_upgrade {ℓ} :
    {O : Type ℓ}
    → (List O → Bytes)
    → (Bytes → Bytes)
    → Bytes
    → Bytes
    → Bytes
    → List O
    → Option Bytes
    → Bytes
unfolding http_write_header http_write_header_key
http_write_response_upgrade write_options accept bw nonce protocol extensions header =
    let b0 = bw ++ text_head_upgrade in
    let b1 = http_write_header_key b0 (codes "Sec-WebSocket-Accept") ++ accept nonce ++ crlf in
    let b2 =
      if length protocol == 0
      then b1
      else http_write_header b1 (codes "Sec-WebSocket-Protocol") protocol in
    let b3 =
      if ltb 0 (length extensions)
      then http_write_header_key b2 (codes "Sec-WebSocket-Extensions")
        ++ write_options extensions
        ++ crlf
      else b2 in
    let b4 : Bytes = elim header [ none ↦ b3 | some h ↦ b3 ++ h ] in b4 ++ crlf

-- `itoa` is strconv.Itoa, `status_name` is http.StatusText.
module _ (itoa : ℕ → Bytes) (status_name : ℕ → Bytes) where
  unfoldable pub write_status_text : Bytes → ℕ → Bytes
  write_status_text bw code =
      bw
      ++ codes "HTTP/1.1 "
      ++ itoa code
      ++ codes " "
      ++ status_name code
      ++ crlf
      ++ codes "Content-Type: text/plain; charset=utf-8"
      ++ crlf

  unfoldable pub write_error_text : Bytes → Bytes → Bytes
  write_error_text bw body =
      bw ++ codes "Content-Length: " ++ itoa (length body) ++ crlf ++ crlf ++ body

  -- An error is the text that it gives. The prepared texts of the code are those of the default
  -- cases, so the cases fall together.
  unfoldable pub http_write_response_error : Bytes → Option Bytes → ℕ → Option Bytes → Bytes
  unfolding write_status_text write_error_text
  http_write_response_error bw err code header =
      let b0 = write_status_text bw code in
      let b1 : Bytes = elim header [ none ↦ b0 | some h ↦ b0 ++ h ] in
      elim err [ none ↦ b1 ++ crlf | some body ↦ write_error_text b1 body ]
