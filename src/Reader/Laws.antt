-- ===== src/Reader/Laws.antt =====
-- msutil/cipher.go and msutil/handler.go: deciphering a payload piece by piece.
use mogusocket.Common.{
  ℕ, ◌+◌, ◌≡◌, refl, sym, ap, ◌∙◌, List, [], ◌∷◌, ◌++◌, arith, Bytes, length, ltb, take, drop,
  take_all, take-append-drop, append_assoc, length-append, subst, inl, inr, Bool-cases,
}
use mogusocket.Common.Words.{AreBytes}
use mogusocket.Cipher.{Mask, IsMask, cipher, xor_bytes}
use mogusocket.Cipher.Equivalence.{cipher-append, length-cipher}
use mogusocket.Errors.{Error}
use mogusocket.Stream.{flatten, content, read}
use mogusocket.Reader.Ciphers.{CipherReader, cipher_read}
use mogusocket.Reader.Handler.{cipher_chunks}

pub bytes_behind : (xs ys : Bytes) → AreBytes (xs ++ ys) → AreBytes ys
bytes_behind [] ys h = h
bytes_behind (x ∷ xs) ys (b, h) = bytes_behind xs ys h

pub bytes_before : (xs ys : Bytes) → AreBytes (xs ++ ys) → AreBytes xs
bytes_before [] ys h = tt
bytes_before (x ∷ xs) ys (b, h) = (b, bytes_before xs ys h)

-- The pieces of `cipher_chunks` together are all of the payload deciphered at once.
pub flatten-cipher_chunks :
    (m : Mask) (p : ℕ) (cs : List Bytes)
    → AreBytes (flatten cs)
    → IsMask m
    → flatten (cipher_chunks m p cs) ≡ cipher (flatten cs) m p
unfolding cipher_chunks cipher xor_bytes
flatten-cipher_chunks m p [] hb hm = refl
flatten-cipher_chunks m p (c ∷ cs) hb hm =
    ap (λ (t : Bytes). cipher c m p ++ t)
      (flatten-cipher_chunks m (p + length c) cs (bytes_behind c (flatten cs) hb) hm)
    ∙ sym (cipher-append c (flatten cs) m p hb hm)

-- Reads of a CipherReader one after another, with buffers of these sizes: all that they delivered, and
-- the reader behind them.
abbrev pub reads_of : List ℕ → CipherReader → Bytes × CipherReader
reads_of [] c = ([], c)
reads_of (n ∷ ns) c =
    let (bs, err, c') = cipher_read n c in let (more, c'') = reads_of ns c' in (bs ++ more, c'')

read-content :
    (n : ℕ) (cs : List Bytes) (last : Error)
    → flatten cs
      ≡ (read n (record { chunks = cs; last = last })).0
        ++ content (read n (record { chunks = cs; last = last })).2
unfolding read
read-content n [] last = refl
read-content n (c ∷ cs) last = elim (Bool-cases (ltb n (length c))) [
  | inl long ↦ rw long (
      ap (λ (t : Bytes). t ++ flatten cs) (sym (take-append-drop n c))
      ∙ append_assoc (take n c) (drop n c) (flatten cs))
  | inr short ↦
      rw short (ap (λ (t : Bytes). t ++ flatten cs) (sym (take_all n c (ground (arith, short)))))
]

-- However a CipherReader over bytes and a mask of four bytes is read, what the reads deliver, and
-- behind it the rest deciphered from the position that it then has, is all of the payload deciphered at once; the position is then further by
-- the number of bytes delivered.
pub reads_of-cipher :
    (ns : List ℕ) (c : CipherReader)
    → AreBytes (content c.r)
    → IsMask c.mask
    → let (bs, after) = reads_of ns c in
      (bs ++ cipher (content after.r) after.mask after.cursor
        ≡ cipher (content c.r) c.mask c.cursor)
      × (after.cursor ≡ c.cursor + length bs)
unfolding cipher_read
reads_of-cipher [] c bytes masks = (refl, omega arith)
reads_of-cipher (n ∷ ns) c bytes masks =
    let taken = (read n c.r).0 in
    let c' = (cipher_read n c).2 in
    let split : content c.r ≡ taken ++ content c'.r = read-content n c.r.chunks c.r.last in
    let bytes' = subst AreBytes split bytes in
    let (joined, moved) = reads_of-cipher ns c' (bytes_behind taken (content c'.r) bytes') masks in
    let front = cipher taken c.mask c.cursor in
    (
      append_assoc front (reads_of ns c').0 _
          ∙ ap (λ (t : Bytes). front ++ t) joined
          ∙ sym (cipher-append taken (content c'.r) c.mask c.cursor bytes' masks)
          ∙ ap (λ (t : Bytes). cipher t c.mask c.cursor) (sym split),
      omega (
        arith,
        moved,
        length-append front (reads_of ns c').0,
        length-cipher taken c.mask c.cursor (bytes_before taken (content c'.r) bytes') masks,
      ),
    )
