-- ===== src/Http/AnswerText.antt =====
-- http.go: the text of an answer that accepts a handshake.
use mogusocket.Common.{
  ◌≡◌, some, List, [], ◌∷◌, ◌++◌, append_assoc, Bytes, ltb, length, true, arith, ℕ, ◌==◌, false,
}
use mogusocket.Text.Codes.{codes}
use mogusocket.Http.Requests.{
  http_write_response_upgrade, http_write_header, http_write_header_key, colon_and_space,
}

abbrev line : Bytes → Bytes
line text = text ++ 13 ∷ 10 ∷ []

-- The empty line.
abbrev end : Bytes
end = line []

abbrev protocol_key : Bytes
protocol_key = codes "Sec-WebSocket-Protocol: "

abbrev extensions_key : Bytes
extensions_key = codes "Sec-WebSocket-Extensions: "

-- The lines that every answer has.
abbrev accept_line : Bytes → Bytes
accept_line accept =
    line (codes "HTTP/1.1 101 Switching Protocols")
    ++ line (codes "Upgrade: websocket")
    ++ line (codes "Connection: Upgrade")
    ++ line (codes "Sec-WebSocket-Accept: " ++ accept)

module _ {ℓ} {O : Type ℓ} (write_options : List O → Bytes) where
  -- No header for an empty protocol or for no extensions.
  abbrev protocol_line : Bytes → Bytes
  protocol_line [] = []
  protocol_line (c ∷ p) = line (protocol_key ++ c ∷ p)

  abbrev extensions_line : List O → Bytes
  extensions_line [] = []
  extensions_line (x ∷ xs) = line (extensions_key ++ write_options (x ∷ xs))

  -- The lines of the answer, an empty one at the end.
  abbrev pub answer_text : Bytes → Bytes → List O → Bytes → Bytes
  answer_text accept protocol extensions headers =
      accept_line accept
      ++ (protocol_line protocol ++ (extensions_line extensions ++ (headers ++ end)))

  one_line :
      (b n k v e h : Bytes)
      → b ++ n ++ k ++ v ++ e ++ h ++ e ≡ b ++ ((n ++ k ++ v ++ e) ++ (h ++ e))
  one_line b n k v e h = simp (append_assoc)

  two_lines :
      (b n k v n' k' v' e h : Bytes)
      → b ++ n ++ k ++ v ++ e ++ n' ++ k' ++ v' ++ e ++ h ++ e
        ≡ b ++ ((n ++ k ++ v ++ e) ++ ((n' ++ k' ++ v' ++ e) ++ (h ++ e)))
  two_lines b n k v n' k' v' e h = simp (append_assoc)

  some_protocol : (c : ℕ) (p : Bytes) → (length (c ∷ p) == 0) ≡ false
  some_protocol c p = ground arith

  some_options : (x : O) (xs : List O) → ltb 0 (length (x ∷ xs)) ≡ true
  some_options x xs = ground arith

  pub http_write_response_upgrade-answer_text :
      (accept nonce protocol : Bytes) (extensions : List O) (headers : Bytes)
      → http_write_response_upgrade write_options
          (λ n. accept)
          []
          nonce
          protocol
          extensions
          (some headers)
        ≡ answer_text accept protocol extensions headers
  unfolding http_write_response_upgrade http_write_header http_write_header_key
  http_write_response_upgrade-answer_text accept nonce [] [] headers =
      append_assoc (accept_line accept) headers end
  http_write_response_upgrade-answer_text accept nonce (c ∷ p) [] headers = rw (some_protocol c p) (
      one_line (accept_line accept) (codes "Sec-WebSocket-Protocol") colon_and_space (c ∷ p) end
        headers)
  http_write_response_upgrade-answer_text accept nonce [] (x ∷ xs) headers =
      rw (some_options x xs) (
        one_line (accept_line accept) (codes "Sec-WebSocket-Extensions") colon_and_space
          (write_options (x ∷ xs)) end headers)
  http_write_response_upgrade-answer_text accept nonce (c ∷ p) (x ∷ xs) headers =
      rw (some_protocol c p, some_options x xs)
        (two_lines (accept_line accept) (codes "Sec-WebSocket-Protocol") colon_and_space (c ∷ p)
          (codes "Sec-WebSocket-Extensions") colon_and_space (write_options (x ∷ xs)) end headers)
