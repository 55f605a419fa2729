-- ===== src/Http/Lines.antt =====
-- http.go: parsing of request, response and header lines.
use mogusocket.Common.{
  ◌+◌, Bool, true, false, not, Option, none, some, Bytes, length, take, drop, ltb, if◌then◌else◌,
}
use mogusocket.Common.Words.{ℤ, pos}
use mogusocket.Text.Codes.{codes}
use mogusocket.Text.Select.{same_bytes}
use mogusocket.Text.Numbers.{ascii_to_int}
use mogusocket.Text.Split.{index_byte, bsplit3, btrim}
use mogusocket.Text.Keys.{canonicalize_header_key}

pub record HttpRequestLine : Type 0 where
  pub method : Bytes
  pub uri : Bytes
  pub major : ℤ
  pub minor : ℤ

pub record HttpResponseLine : Type 0 where
  pub major : ℤ
  pub minor : ℤ
  pub status : ℤ
  pub reason : Bytes

abbrev pub http_version_prefix : Bytes
http_version_prefix = codes "HTTP/"

abbrev pub http_version1_0 : Bytes
http_version1_0 = codes "HTTP/1.0"

abbrev pub http_version1_1 : Bytes
http_version1_1 = codes "HTTP/1.1"

-- The part behind the prefix: "major.minor".
unfoldable pub parse_numbers : Bytes → ℤ × ℤ × Bool
parse_numbers bts = elim (index_byte bts 0x2e) [
  | none ↦ (pos 0, pos 0, false)
  | some dot ↦ elim (ascii_to_int (take dot bts)) [
    | none ↦ (pos 0, pos 0, false)
    | some major ↦ elim (ascii_to_int (drop (dot + 1) bts)) [
      | none ↦ (major, pos 0, false)
      | some minor ↦ (major, minor, true)
    ]
  ]
]

unfoldable pub http_parse_version : Bytes → ℤ × ℤ × Bool
unfolding parse_numbers
http_parse_version bts =
    if same_bytes bts http_version1_0
    then (pos 1, pos 0, true)
    else if same_bytes bts http_version1_1
    then (pos 1, pos 1, true)
    else if ltb (length bts) 8
    then (pos 0, pos 0, false)
    else if not (same_bytes (take 5 bts) http_version_prefix)
    then (pos 0, pos 0, false)
    else parse_numbers (drop 5 bts)

-- `true` for nil, `false` for ErrMalformedRequest.
unfoldable pub http_parse_request_line : Bytes → HttpRequestLine × Bool
http_parse_request_line line =
    let (method, uri, proto) = bsplit3 line 0x20 in
    let (major, minor, ok) = http_parse_version proto in
    (record { method = method; uri = uri; major = major; minor = minor }, ok)

-- `false` for ErrMalformedResponse.
unfoldable pub http_parse_response_line : Bytes → HttpResponseLine × Bool
http_parse_response_line line =
    let (proto, status, reason) = bsplit3 line 0x20 in
    let (major, minor, ok) = http_parse_version proto in
    let resp : HttpResponseLine = record {
      major = major;
      minor = minor;
      status = pos 0;
      reason = reason;
    } in
    if ok
    then elim (ascii_to_int status) [
      | none ↦ (resp, false)
      | some n ↦ (record resp { status = n }, true)
    ]
    else (resp, false)

-- `none` where `ok` is false.
unfoldable pub http_parse_header_line : Bytes → Option (Bytes × Bytes)
http_parse_header_line line = elim (index_byte line 0x3a) [
  | none ↦ none
  | some colon ↦
      some (canonicalize_header_key (btrim (take colon line)), btrim (drop (colon + 1) line))
]
