-- ===== src/Utf8/Reader.antt =====
-- msutil/utf8.go: `UTF8Reader`, over a reader of package io.
pub mod Laws
use mogusocket.Common.{
  ℕ, zero, suc, ◌+◌, ◌≤◌, ◌≡◌, ◌↔◌, ◌≢◌, refl, sym, ap, subst, ◌∙◌, inl, inr, Bool, true, false,
  Option, none, some, [], ◌∷◌, ◌++◌, arith, Bytes, length, ◌==◌, if◌then◌else◌, All, append_assoc,
  Bool-cases, ==_iff,
}
use mogusocket.Common.Words.{AreBytes}
use mogusocket.Errors.{Error, invalid_utf8}
use mogusocket.Stream.{Source, read}
use mogusocket.Utf8.{decode, utf8_accept, utf8_reject}

pub record Utf8Reader : Type 0 where
  pub source : Source
  pub accepted : ℕ
  pub state : ℕ
  pub codep : ℕ

unfoldable pub new_utf8_reader : Source → Utf8Reader
new_utf8_reader r = record { source = r; accepted = 0; state = 0; codep = 0 }

-- `Reset` leaves `accepted` as it was.
unfoldable pub reset : Source → Utf8Reader → Utf8Reader
reset r u = record u { source = r; state = 0; codep = 0 }

-- How the loop of `Read` ends: at a bad byte, or behind the last byte.
pub data Scan : Type 0 where
  rejected : ℕ → Scan
  scanned : ℕ → ℕ → ℕ → Scan

-- The loop of `Read` from index `i` on, with `s`, `c` and `accepted`.
unfoldable pub scan : ℕ → ℕ → ℕ → ℕ → Bytes → Scan
scan s c i accepted [] = scanned s c accepted
scan s c i accepted (b ∷ bs) =
    let (c', s') = decode s c b in
    let rest = scan s' c' (i + 1) (if s' == utf8_accept then i + 1 else accepted) bs in
    if s' == utf8_reject then rejected accepted else rest

-- `n`, the bytes that now stand in `p`, the error and the reader.
abbrev pub after_scan :
    Bytes → Option Error → Utf8Reader → Scan → ℕ × Bytes × Option Error × Utf8Reader
after_scan bs err u (rejected a) = (a, bs, some invalid_utf8, record u { state = utf8_reject })
after_scan bs err u (scanned s c a) =
    (length bs, bs, err, record u { state = s; codep = c; accepted = a })

abbrev pub scan_read :
    Utf8Reader → Bytes × Option Error × Source → ℕ × Bytes × Option Error × Utf8Reader
scan_read u (bs, err, src) =
    after_scan bs err (record u { source = src }) (scan u.state u.codep 0 0 bs)

-- `Read(p)` with len(p) = n.
unfoldable pub utf8_read : ℕ → Utf8Reader → ℕ × Bytes × Option Error × Utf8Reader
utf8_read n u = scan_read u (read n u.source)

unfoldable pub valid : Utf8Reader → Bool
valid u = u.state == utf8_accept

-- `Accepted()`
unfoldable pub accepted_bytes : Utf8Reader → ℕ
accepted_bytes u = u.accepted
