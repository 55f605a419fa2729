-- ===== src/Tests/Handshakes.antt =====
-- The opening handshake.
use mogusocket.Common.{
  suc, ◌≡◌, refl, true, false, none, some, [], ◌∷◌, ◌++◌, arith, Bytes, take, drop, length, ℕ, ap,
  ◌∙◌, append-nil, take-append-drop,
}
use mogusocket.Common.Words.{pos}
use mogusocket.Errors.{eof}
use mogusocket.Stream.{Sink, fresh, write, write_all, flatten}
use mogusocket.Writer.Result.{ok}
use mogusocket.Text.Codes.{codes}
use mogusocket.Text.Select.{same_bytes, non_zero}
use mogusocket.Text.ReadLine.{read_line, read_line_loop, read_slice, cut_newline}
use mogusocket.Text.LineLaws.{line_result, read_line-line_result}
use mogusocket.Handshake.Failure.{err_malformed_request}
use mogusocket.Handshake.Options.{Httphead}
use mogusocket.Handshake.Server.{
  Outside, Upgrader, Progress, response, upgrade, first_progress, handshake_of, check_request,
  read_headers, header_line, header_step, key_header, check_seen, finish_upgrade, accept_upgrade,
  send_answer,
}
use mogusocket.Http.Lines.{
  http_parse_request_line, http_parse_version, http_parse_header_line, parse_numbers,
}
use mogusocket.Text.Split.{bsplit3, index_byte, btrim, is_blank, trim_left, trim_right}
use mogusocket.Text.Keys.{canonicalize_header_key, canonical_from, canonical_byte}
use mogusocket.Handshake.Nonce.{init_accept_from_nonce}
use mogusocket.Handshake.Client.{Dialer, Answer, upgrade_request, client_upgrade}
use mogusocket.Handshake.Dials.{client_upgrade-Returns}
use mogusocket.Text.Numbers.{add_digits, ascii_to_int, pow, pow_loop}
use mogusocket.Handshake.Upgrades.{IsUpgraded, upgrade-IsUpgraded}
use mogusocket.Handshake.Total.{Returns, upgrade-Returns, upgrade-silent}

-- Options are names; scans find nothing; a bufio.Writer passes on its first buffer and the rest.
abbrev plain_head : Httphead
plain_head = record {
  Opt = Bytes;
  no_option = [];
  named = λ n. n;
  name_of = λ n. n;
  set_parameter = λ n k v. n;
  with_parameters = λ n m. n;
  size_of = λ n. length n;
  scan_options = λ S h f s. (s, true);
  scan_tokens = λ S h f s. (s, true);
  select_options = λ h xs check. (xs, true);
  write_options = λ xs. [];
  equal_fold = same_bytes;
}

abbrev plain_outside : Outside
plain_outside = record {
  sum = λ b. b;
  encode = λ b. take 28 b;
  itoa = λ n. codes "0";
  itoa_int = λ n. codes "0";
  status_name = λ n. codes "Status";
  io_text = λ e. codes "error";
  buffer_size = λ n. suc n;
  pieces = λ n bs. take n bs ∷ drop n bs ∷ [];
}

abbrev plain_upgrader : Upgrader plain_head
plain_upgrader = record {
  read_buffer_size = 0;
  write_buffer_size = 16;
  protocol = none;
  protocol_custom = none;
  extension = none;
  extension_custom = none;
  negotiate = none;
  header = none;
  on_request = none;
  on_host = none;
  on_header = none;
  on_before_upgrade = none;
}

abbrev line : Bytes → Bytes
line text = text ++ 13 ∷ 10 ∷ []

abbrev sample_nonce : Bytes
sample_nonce = codes "dGhlIHNhbXBsZSBub25jZQ=="

abbrev sample_request : Bytes
sample_request =
    line (codes "GET /chat HTTP/1.1")
    ++ (line (codes "Host: example.com")
        ++ (line (codes "upgrade: websocket")
            ++ (line (codes "Connection: Upgrade")
                ++ (line (codes "Sec-WebSocket-Version: 13")
                    ++ (line (codes "Sec-WebSocket-Key: dGhlIHNhbXBsZSBub25jZQ==") ++ line [])))))

abbrev sample_progress : Progress plain_head
sample_progress = record { seen = 31; nonce = sample_nonce; chosen = []; accepted = [] }

abbrev sample_response : Bytes
sample_response =
    response plain_head plain_outside plain_upgrader none sample_progress
      (take 28 (sample_nonce ++ codes "258EAFA5"))

abbrev sample_conn : Sink
sample_conn = record { calls = take 16 sample_response ∷ drop 16 sample_response ∷ []; plan = [] }

sample_joins : (n : ℕ) (bs : Bytes) → flatten (plain_outside.pieces n bs) ≡ bs
sample_joins n bs = ap (λ t. take n bs ++ t) (append-nil (drop n bs)) ∙ take-append-drop n bs

sample_upgrade :
    upgrade plain_head plain_outside plain_upgrader sample_request eof fresh
    ≡ ok (handshake_of plain_head sample_progress, none, sample_conn)
unfolding upgrade read_line read_line_loop read_slice cut_newline non_zero same_bytes
    http_parse_request_line http_parse_version http_parse_header_line parse_numbers bsplit3
    index_byte btrim is_blank trim_left trim_right check_request read_headers header_line
    header_step key_header check_seen finish_upgrade accept_upgrade send_answer write_all
    canonicalize_header_key canonical_from canonical_byte init_accept_from_nonce write add_digits
    ascii_to_int pow pow_loop
sample_upgrade = refl

upgrade-IsUpgraded_example :
    IsUpgraded plain_head plain_outside plain_upgrader sample_request eof fresh sample_conn
      (handshake_of plain_head sample_progress)
upgrade-IsUpgraded_example =
    upgrade-IsUpgraded plain_head plain_outside plain_upgrader sample_joins sample_request eof fresh
      sample_conn (handshake_of plain_head sample_progress) (λ n. omega arith) sample_upgrade

upgrade-Returns_example :
    Returns (upgrade plain_head plain_outside plain_upgrader (codes "GET / HTTP/1.1") eof fresh)
upgrade-Returns_example =
    upgrade-Returns plain_head plain_upgrader plain_outside (codes "GET / HTTP/1.1") eof fresh
      (λ n. omega arith)

-- No version.
sample_malformed :
    http_parse_request_line (codes "GET /")
    ≡ (record { method = codes "GET /"; uri = []; major = pos 0; minor = pos 0 }, false)
unfolding http_parse_request_line http_parse_version bsplit3 index_byte same_bytes
sample_malformed = refl

sample_malformed_line : line_result eof [] (line (codes "GET /")) ≡ (codes "GET /", none, [])
unfolding cut_newline
sample_malformed_line = refl

upgrade-silent_example :
    upgrade plain_head plain_outside plain_upgrader (line (codes "GET /")) eof fresh
    ≡ ok (handshake_of plain_head (first_progress plain_head), some err_malformed_request, fresh)
upgrade-silent_example =
    upgrade-silent plain_head plain_upgrader plain_outside (line (codes "GET /")) (codes "GET /") []
      eof fresh (record { method = codes "GET /"; uri = []; major = pos 0; minor = pos 0 })
      (λ n. omega arith) sample_malformed_line sample_malformed

read_line-line_result_example :
    read_line 16 eof (line (codes "a line that is longer than the buffer") ++ codes "rest")
    ≡ ok (line_result eof [] (line (codes "a line that is longer than the buffer") ++ codes "rest"))
read_line-line_result_example =
    read_line-line_result 16 eof
      (line (codes "a line that is longer than the buffer") ++ codes "rest") (omega arith)

abbrev plain_dialer : Dialer plain_head
plain_dialer = record {
  read_buffer_size = 0;
  write_buffer_size = 0;
  protocols = [];
  extensions = [];
  header = none;
  on_header = none;
}

abbrev sample_answer : Bytes
sample_answer =
    line (codes "HTTP/1.1 101 Switching Protocols")
    ++ (line (codes "Upgrade: websocket")
        ++ (line (codes "Connection: Upgrade")
            ++ (line (codes "Sec-WebSocket-Accept: dGhlIHNhbXBsZSBub25jZQ==258E") ++ line [])))

abbrev asked_conn : Sink
asked_conn = record {
  calls =
      upgrade_request plain_head plain_outside plain_dialer (codes "/") (codes "example.com")
        sample_nonce
      ∷ []
      ∷ [];
  plan = [];
}

abbrev agreed_answer : Answer plain_head
agreed_answer = record { seen = 7; protocol = []; extensions = [] }

client_upgrade-Returns_example : Returns (
    client_upgrade plain_head plain_outside plain_dialer
      (some sample_nonce)
      (codes "/")
      (codes "example.com")
      (codes "HTTP/1.1 200 OK")
      eof
      fresh)
client_upgrade-Returns_example =
    client_upgrade-Returns plain_head plain_outside plain_dialer sample_nonce (codes "/")
      (codes "example.com") (codes "HTTP/1.1 200 OK") eof fresh refl (λ n. omega arith)
