-- ===== src/Utf8/Reader/Laws.antt =====
-- `UTF8Reader` over a whole session of reads.
use mogusocket.Common.{
  ℕ, ◌+◌, ◌≡◌, ◌↔◌, ◌≢◌, refl, sym, ap, ◌∙◌, inl, inr, true, Option, none, some, [], ◌∷◌, ◌++◌,
  arith, Bytes, ◌==◌, if◌then◌else◌, Bool-cases, ==_iff,
}
use mogusocket.Common.Words.{AreBytes}
use mogusocket.Errors.{Error, invalid_utf8}
use mogusocket.Stream.{Source, read}
use mogusocket.Utf8.{decode, utf8_accept}
use mogusocket.Utf8.Machine.{State, number, start, reject, next, decode-next}
use mogusocket.Utf8.Run.{decode_run, run, decode_run-run, run-reject}
use mogusocket.Utf8.Scalars.{IsUtf8}
use mogusocket.Utf8.Reader.{
  Utf8Reader, new_utf8_reader, Scan, rejected, scanned, scan, after_scan, scan_read, utf8_read,
  valid,
}
use mogusocket.Utf8.Validity.{decode_run-IsUtf8}

-- The reads of a reader, none of which returned an error, and all the bytes that they delivered.
pub data Session : Utf8Reader → Bytes → Utf8Reader → Type 0 where
  idle : {u : Utf8Reader} → Session u [] u
  more :
      {u v w : Utf8Reader} {p bs : Bytes} (n k : ℕ)
      → utf8_read n u ≡ (k, p, none, v)
      → Session v bs w
      → Session u (p ++ bs) w

-- A scan that ends behind the last byte has made the steps of the decoder.
pub scan-decode_run :
    (s c i a : ℕ) (bs : Bytes) (s' c' a' : ℕ)
    → scan s c i a bs ≡ scanned s' c' a'
    → decode_run s c bs ≡ (c', s')
unfolding scan decode_run
scan-decode_run s c i a [] s' c' a' h = ground arith
scan-decode_run s c i a (b ∷ bs) s' c' a' h =
    let (c1, s1) = decode s c b in
    scan-decode_run s1 c1 (i + 1) (if s1 == utf8_accept then i + 1 else a) bs s' c' a'
      (ground arith)

decode_run-append :
    (s c : ℕ) (xs ys : Bytes)
    → decode_run s c (xs ++ ys) ≡ (let (c', s') = decode_run s c xs in decode_run s' c' ys)
unfolding decode_run
decode_run-append s c [] ys = refl
decode_run-append s c (x ∷ xs) ys = let (c1, s1) = decode s c x in decode_run-append s1 c1 xs ys

-- A scan that stops at a bad byte leaves the machine where no byte leads out.
pub scan-rejected :
    (s : State) (c i a : ℕ) (bs : Bytes) (a' : ℕ)
    → AreBytes bs
    → scan (number s) c i a bs ≡ rejected a'
    → run s bs ≡ reject
unfolding scan run
scan-rejected s c i a [] a' hb h = cc
scan-rejected s c i a (b ∷ bs) a' hb h = elim (Bool-cases ((decode (number s) c b).1 == 12)) [
  | inl bad ↦
      let e : next s b ≡ reject = ground (arith, decode-next s c b hb.0) in rw e (run-reject bs)
  | inr good ↦
      let d = decode (number s) c b in
      scan-rejected (next s b) d.0 (i + 1) (if d.1 == utf8_accept then i + 1 else a) bs a' hb.1
        (ground (arith, decode-next s c b hb.0))
]

read_run :
    (n k : ℕ) (u v : Utf8Reader) (p : Bytes)
    → utf8_read n u ≡ (k, p, none, v)
    → decode_run u.state u.codep p ≡ (v.codep, v.state)
unfolding utf8_read
read_run n k u v p h = go (read n u.source) h
  where
    ended :
        (bs : Bytes) (err : Option Error) (src : Source) (x : Scan)
        → scan u.state u.codep 0 0 bs ≡ x
        → after_scan bs err (record u { source = src }) x ≡ (k, p, none, v)
        → decode_run u.state u.codep p ≡ (v.codep, v.state)
    ended bs err src (rejected a) e h = cc
    ended bs err src (scanned s c a) e h = cc (scan-decode_run u.state u.codep 0 0 bs s c a e)

    go :
        (x : Bytes × Option Error × Source)
        → scan_read u x ≡ (k, p, none, v)
        → decode_run u.state u.codep p ≡ (v.codep, v.state)
    go (bs, err, src) h = ended bs err src (scan u.state u.codep 0 0 bs) refl h

Session-decode_run :
    {u w : Utf8Reader} {bs : Bytes}
    → Session u bs w
    → decode_run u.state u.codep bs ≡ (w.codep, w.state)
Session-decode_run idle = unfold decode_run in refl
Session-decode_run (more {u} {v} {w} {p} {bs} n k e rest) =
    decode_run-append u.state u.codep p bs
    ∙ ap (λ (x : ℕ × ℕ). decode_run x.1 x.0 bs) (read_run n k u v p e)
    ∙ Session-decode_run rest

-- After reads without an error, `Valid` says whether all the bytes that they delivered are UTF-8.
pub valid-IsUtf8 :
    (src : Source) (bs : Bytes) (w : Utf8Reader)
    → Session (new_utf8_reader src) bs w
    → AreBytes bs
    → (valid w ≡ true) ↔ IsUtf8 bs
unfolding valid new_utf8_reader
valid-IsUtf8 src bs w t h =
    let e = Session-decode_run t in
    let whole = decode_run-IsUtf8 0 bs h in
    (
      λ v. whole.0 (ap (λ (x : ℕ × ℕ). x.1) e ∙ (==_iff w.state 0).0 v),
      λ u. (==_iff w.state 0).1 (sym (ap (λ (x : ℕ × ℕ). x.1) e) ∙ whole.1 u),
    )

number-injective : (s t : State) → number s ≡ number t → s ≡ t
number-injective s t e = ground arith

pub run-append : (s : State) (xs ys : Bytes) → run s (xs ++ ys) ≡ run (run s xs) ys
unfolding run
run-append s [] ys = refl
run-append s (x ∷ xs) ys = run-append (next s x) xs ys

AreBytes-append : (xs ys : Bytes) → AreBytes xs → AreBytes ys → AreBytes (xs ++ ys)
AreBytes-append [] ys hx hy = hy
AreBytes-append (x ∷ xs) ys hx hy = (hx.0, AreBytes-append xs ys hx.1 hy)

-- The bytes that the reader refused.
refused :
    (n k : ℕ) (u v : Utf8Reader) (p : Bytes)
    → (read n u.source).1 ≢ some invalid_utf8
    → utf8_read n u ≡ (k, p, some invalid_utf8, v)
    → (a : ℕ) × (scan u.state u.codep 0 0 p ≡ rejected a)
unfolding utf8_read
refused n k u v p own h = go (read n u.source) own h
  where
    ended :
        (bs : Bytes) (err : Option Error) (src : Source) (x : Scan)
        → err ≢ some invalid_utf8
        → scan u.state u.codep 0 0 bs ≡ x
        → after_scan bs err (record u { source = src }) x ≡ (k, p, some invalid_utf8, v)
        → (a : ℕ) × (scan u.state u.codep 0 0 p ≡ rejected a)
    ended bs err src (rejected a) own e h = (a, cc)
    ended bs err src (scanned s c a) own e h = absurd (own cc)

    go :
        (x : Bytes × Option Error × Source)
        → x.1 ≢ some invalid_utf8
        → scan_read u x ≡ (k, p, some invalid_utf8, v)
        → (a : ℕ) × (scan u.state u.codep 0 0 p ≡ rejected a)
    go (bs, err, src) own h = ended bs err src (scan u.state u.codep 0 0 bs) own refl h

-- When a read reports invalid UTF-8, no bytes that could still follow would make it valid.
pub utf8_read-refuses :
    (src : Source) (bs p ys : Bytes) (u v : Utf8Reader) (n k : ℕ)
    → Session (new_utf8_reader src) bs u
    → (read n u.source).1 ≢ some invalid_utf8
    → utf8_read n u ≡ (k, p, some invalid_utf8, v)
    → AreBytes bs
    → AreBytes p
    → AreBytes ys
    → ¬ IsUtf8 (bs ++ (p ++ ys))
unfolding new_utf8_reader
utf8_read-refuses src bs p ys u v n k t own h hb hp hy good =
    let (a, stop) = refused n k u v p own h in
    let here : number (run start bs) ≡ u.state =
      sym (decode_run-run start 0 bs hb) ∙ ap (λ (x : ℕ × ℕ). x.1) (Session-decode_run t) in
    let bad : run (run start bs) p ≡ reject =
      scan-rejected (run start bs) u.codep 0 0 p a hp (rw here stop) in
    let ends : run start (bs ++ (p ++ ys)) ≡ reject =
      run-append start bs (p ++ ys)
      ∙ run-append (run start bs) p ys
      ∙ ap (λ (x : State). run x ys) bad
      ∙ run-reject ys in
    let all = AreBytes-append bs (p ++ ys) hb (AreBytes-append p ys hp hy) in
    let zero_state : number (run start (bs ++ (p ++ ys))) ≡ 0 =
      sym (decode_run-run start 0 (bs ++ (p ++ ys)) all)
      ∙ (decode_run-IsUtf8 0 (bs ++ (p ++ ys)) all).1 good in
    cc (ends, zero_state)
