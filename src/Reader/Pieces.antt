-- ===== src/Reader/Pieces.antt =====
-- msutil/reader.go: one read of a frame's payload, of which the source has all the bytes.
use mogusocket.Common.{
  ℕ, ◌-◌, ◌≤◌, ◌<◌, ◌≡◌, refl, sym, ap, subst, ◌∙◌, inl, inr, Bool, true, false, Option, none, some,
  [], ◌++◌, append_assoc, arith, Bytes, length, ◌==◌, length-append, Bool-cases, if◌then◌else◌,
}
use mogusocket.Common.Words.{AreBytes}
use mogusocket.Cipher.{Mask}
use mogusocket.Stream.{Source, read}
use mogusocket.Frame.Build.{min_int}
use mogusocket.Utf8.Machine.{State, number, start, reject}
use mogusocket.Utf8.Run.{run, decode_run-run, run-reject}
use mogusocket.Utf8.Reader.{Utf8Reader, Scan, rejected, scanned, scan}
use mogusocket.Utf8.Reader.Laws.{scan-decode_run, scan-rejected, run-append}
use mogusocket.Reader.Body.{Body, limited_read, decipher, body_read}
use mogusocket.Reader.Laws.{bytes_behind}
use mogusocket.Reader.Laws.{bytes_before}
use mogusocket.Reader.Partway.{
  IsPartway, IsCipher, deciphered, weight, moved, deciphered-append, read-Takes, length-deciphered,
}

-- A scan of a part of a valid text goes through it.
scan-scanned :
    (s : State) (c : ℕ) (xs ys : Bytes)
    → AreBytes xs
    → run s (xs ++ ys) ≡ start
    → (s' : ℕ) × (c' : ℕ) × (a : ℕ) × (scan (number s) c 0 0 xs ≡ scanned s' c' a)
      × (s' ≡ number (run s xs))
scan-scanned s c xs ys bytes good = settle (scan (number s) c 0 0 xs) refl
  where
    settle :
        (x : Scan)
        → scan (number s) c 0 0 xs ≡ x
        → (s' : ℕ) × (c' : ℕ) × (a : ℕ) × (scan (number s) c 0 0 xs ≡ scanned s' c' a)
          × (s' ≡ number (run s xs))
    settle (rejected a) e =
        let bad = scan-rejected s c 0 0 xs a bytes e in
        let ends : run s (xs ++ ys) ≡ reject =
          run-append s xs ys ∙ ap (λ (t : State). run t ys) bad ∙ run-reject ys in
        cc (ends, good)
    settle (scanned s' c' a) e =
        let steps = scan-decode_run (number s) c 0 0 xs s' c' a e in
        (s', c', a, e, sym (ap (λ (x : ℕ × ℕ). x.1) steps) ∙ decode_run-run s c xs bytes)

limited_read-Takes :
    (k : ℕ) (b : Body) (front : Bytes) (after : Source)
    → (b.left == 0) ≡ false
    → read (min_int k b.left) b.source ≡ (front, none, after)
    → limited_read k b ≡ (front, none, record b { source = after; left = b.left - length front })
unfolding limited_read
limited_read-Takes k b front after some_left e = rw (e, some_left) refl

decipher_lem :
    (bs : Bytes) (b : Body) (c : Option (Mask × ℕ))
    → b.ciphered ≡ c
    → decipher (bs, none, b) ≡ (deciphered c bs, none, record b { ciphered = moved c (length bs) })
unfolding decipher
decipher_lem bs b none e = ground (arith, e)
decipher_lem bs b (some mp) e = ground (arith, e)

-- The read of a body, behind the read of the connection.
body_read_plain :
    (k : ℕ) (b b' : Body) (bs : Bytes)
    → decipher (limited_read k b) ≡ (bs, none, b')
    → b.checking ≡ false
    → body_read k b ≡ (length bs, bs, none, b')
unfolding body_read
body_read_plain k b b' bs e plain = rw (e, plain) refl

body_read_text :
    (k : ℕ) (b b' : Body) (bs : Bytes) (s c a : ℕ)
    → decipher (limited_read k b) ≡ (bs, none, b')
    → b.checking ≡ true
    → scan b'.utf8.state b'.utf8.codep 0 0 bs ≡ scanned s c a
    → body_read k b ≡ (
      length bs,
      bs,
      none,
      record b' { utf8 = record b'.utf8 { state = s; codep = c; accepted = a } },
    )
unfolding body_read
body_read_text k b b' bs s c a e checked good = rw (e, checked, good) refl

-- What one read of a body gives.
pub record Progress (k : ℕ) (b : Body) (zs more rest : Bytes) : Type 0 where
  pub front : Bytes
  pub back : Bytes
  pub wire : Bytes
  pub after : Body
  pub split : zs ≡ front ++ back
  pub result : body_read k b ≡ (length front, front, none, after)
  pub partway : IsPartway after wire back more rest
  pub lighter : weight after.source < weight b.source
  pub small : length front ≤ k
  pub same_checking : after.checking ≡ b.checking

moved-IsCipher : (c : Option (Mask × ℕ)) (n : ℕ) → IsCipher c → IsCipher (moved c n)
moved-IsCipher none n h = h
moved-IsCipher (some mp) n h = h

-- A read with a buffer that is not empty, of a payload that is not at its end.
pub body_read-Progress :
    (k : ℕ) (b : Body) (ys zs more rest : Bytes)
    → IsPartway b ys zs more rest
    → 0 < k
    → 0 < b.left
    → Progress k b zs more rest
unfolding min_int
body_read-Progress k b ys zs more rest p some_room some_left =
    let t =
      read-Takes (min_int k b.left) b.source.chunks b.source.last ys rest (ground arith)
        (ground (arith, p.counted)) p.arrives in
    let us = deciphered b.ciphered t.front in
    let vs = deciphered (moved b.ciphered (length t.front)) t.back in
    let whole_wire : AreBytes (t.front ++ t.back) = subst AreBytes t.split p.wire_bytes in
    let split : zs ≡ us ++ vs =
      sym p.means
      ∙ ap (deciphered b.ciphered) t.split
      ∙ deciphered-append b.ciphered t.front t.back whole_wire p.ciphers in
    let limited = limited_read-Takes k b t.front t.after (ground arith) t.result in
    let v : Body = record b {
      source = t.after;
      left = b.left - length t.front;
      ciphered = moved b.ciphered (length t.front);
    } in
    let got : decipher (limited_read k b) ≡ (us, none, v) =
      ap decipher limited
      ∙ decipher_lem t.front (record b { source = t.after; left = b.left - length t.front })
          b.ciphered refl in
    let same_length =
      length-deciphered b.ciphered t.front (bytes_before t.front t.back whole_wire) p.ciphers in
    let bytes : AreBytes (us ++ vs) = subst AreBytes split p.bytes in
    let partway : (u : Utf8Reader) (s' : State)
        → u.state ≡ number s'
        → run s' (if b.checking then vs ++ more else []) ≡ start
        → IsPartway (record v { utf8 = u }) t.back vs more rest =
      λ u s' e good. record {
        arrives = t.arrives;
        counted = omega (arith, p.counted, ap length t.split, length-append t.front t.back);
        means = refl;
        ciphers = moved-IsCipher b.ciphered (length t.front) p.ciphers;
        wire_bytes = bytes_behind t.front t.back whole_wire;
        bytes = bytes_behind us vs bytes;
        state = s';
        state_is = e;
        valid_from = good;
      } in
    elim (Bool-cases b.checking) [
      | inr plain ↦ record {
        front = us;
        back = vs;
        wire = t.back;
        after = v;
        split = split;
        result = body_read_plain k b v us got plain;
        partway = partway b.utf8 p.state p.state_is (
            ap (λ (c : Bool). run p.state (if c then vs ++ more else [])) plain
            ∙ sym (ap (λ (c : Bool). run p.state (if c then zs ++ more else [])) plain)
            ∙ p.valid_from);
        lighter = t.lighter;
        small = ground (arith, t.small, same_length);
        same_checking = refl;
      }
      | inl checked ↦
          let text : run p.state (us ++ (vs ++ more)) ≡ start =
            sym (ap (run p.state) (ap (λ (t : Bytes). t ++ more) split ∙ append_assoc us vs more))
            ∙ sym (ap (λ (c : Bool). run p.state (if c then zs ++ more else [])) checked)
            ∙ p.valid_from in
          let (s', c', a, scans, is) =
            scan-scanned p.state b.utf8.codep us (vs ++ more) (bytes_before us vs bytes) text in
          let u : Utf8Reader = record b.utf8 { state = s'; codep = c'; accepted = a } in
          record {
            front = us;
            back = vs;
            wire = t.back;
            after = record v { utf8 = u };
            split = split;
            result =
                body_read_text k b v us s' c' a got checked
                  (ap (λ (i : ℕ). scan i b.utf8.codep 0 0 us) p.state_is ∙ scans);
            partway = partway u (run p.state us) is (
                ap (λ (c : Bool). run (run p.state us) (if c then vs ++ more else [])) checked
                ∙ sym (run-append p.state us (vs ++ more))
                ∙ text);
            lighter = t.lighter;
            small = ground (arith, t.small, same_length);
            same_checking = refl;
          }
    ]
