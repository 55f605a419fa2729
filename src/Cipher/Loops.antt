-- ===== src/Cipher/Loops.antt =====
-- Each loop of `Cipher` masks a segment of the payload and leaves the rest alone.
use mogusocket.Common.{
  ℕ, zero, suc, ◌+◌, ◌*◌, ◌%◌, ◌^◌, ◌<◌, bit_or, bit_xor, ◌≡◌, refl, sym, ap, ap₂, subst, ◌∙◌, [],
  ◌∷◌, ◌++◌, append_assoc, arith, Bytes, length, get_or, set, take, drop, length-append,
  length-take, length-drop, take-append-drop,
}
use mogusocket.Common.Bits.{bit_or_fields, bit_xor-lt, bit_xor-bit_xor}
use mogusocket.Common.Words.{AreBytes, u64, get_le, put_le, zip_xor, put_le-bit_xor, length-put_le}
use mogusocket.Cipher.{Mask, IsMask, mask_bytes, mask_at, xor_bytes, put_at, xor_words, double_mask}

-- Byte `i` of the list is masked by the byte `(k + i) % 4` of the mask.
pub mask_from : Mask → ℕ → Bytes → Bytes
mask_from m k [] = []
mask_from m k (x ∷ xs) = bit_xor x (mask_at m (k % 4)) ∷ mask_from m (k + 1) xs

pub mask_from-append :
    (m : Mask) (k : ℕ) (xs ys : Bytes)
    → mask_from m k (xs ++ ys) ≡ mask_from m k xs ++ mask_from m (k + length xs) ys
unfolding mask_from
mask_from-append m k [] ys = ap (λ (j : ℕ). mask_from m j ys) (omega arith)
mask_from-append m k (x ∷ xs) ys =
    ap (λ (t : Bytes). bit_xor x (mask_at m (k % 4)) ∷ t)
      (mask_from-append m (k + 1) xs ys
        ∙ ap (λ (j : ℕ). mask_from m (k + 1) xs ++ mask_from m j ys) (omega arith))

-- Only the position modulo 4 counts.
pub mask_from_mod :
    (m : Mask) (k j : ℕ) (xs : Bytes) → k % 4 ≡ j % 4 → mask_from m k xs ≡ mask_from m j xs
unfolding mask_from
mask_from_mod m k j [] e = refl
mask_from_mod m k j (x ∷ xs) e = rw (e, mask_from_mod m (k + 1) (j + 1) xs (omega arith))

pub length-mask_from : (m : Mask) (k : ℕ) (xs : Bytes) → length (mask_from m k xs) ≡ length xs
unfolding mask_from
length-mask_from m k [] = refl
length-mask_from m k (x ∷ xs) = ap suc (length-mask_from m (k + 1) xs)

mask_at-IsByte : (m : Mask) (i : ℕ) → IsMask m → mask_at m i < 256
mask_at-IsByte m zero h = h.0
mask_at-IsByte m (suc zero) h = h.1
mask_at-IsByte m (suc (suc zero)) h = h.2
mask_at-IsByte m (suc (suc (suc zero))) h = h.3
mask_at-IsByte m (suc (suc (suc (suc i)))) h = omega arith

pub mask_from-AreBytes :
    (m : Mask) (k : ℕ) (xs : Bytes) → IsMask m → AreBytes xs → AreBytes (mask_from m k xs)
unfolding mask_from
mask_from-AreBytes m k [] hm h = tt
mask_from-AreBytes m k (x ∷ xs) hm h =
    (bit_xor-lt 8 x _ h.0 (mask_at-IsByte m (k % 4) hm), mask_from-AreBytes m (k + 1) xs hm h.1)

pub mask_from-mask_from : (m : Mask) (k : ℕ) (xs : Bytes) → mask_from m k (mask_from m k xs) ≡ xs
unfolding mask_from
mask_from-mask_from m k [] = refl
mask_from-mask_from m k (x ∷ xs) =
    ap₂ ◌∷◌ (bit_xor-bit_xor x (mask_at m (k % 4))) (mask_from-mask_from m (k + 1) xs)

set-append :
    (ps : Bytes) (b v : ℕ) (rest : Bytes) → set (ps ++ (b ∷ rest)) (length ps) v ≡ ps ++ (v ∷ rest)
set-append [] b v rest = refl
set-append (p ∷ ps) b v rest = ap (◌∷◌ p) (set-append ps b v rest)

get_or-append : (ps : Bytes) (b d : ℕ) (rest : Bytes) → get_or (ps ++ (b ∷ rest)) (length ps) d ≡ b
get_or-append [] b d rest = refl
get_or-append (p ∷ ps) b d rest = get_or-append ps b d rest

drop-length : (ps rest : Bytes) → drop (length ps) (ps ++ rest) ≡ rest
drop-length [] rest = refl
drop-length (p ∷ ps) rest = drop-length ps rest

take-length : (ps rest : Bytes) → take (length ps) (ps ++ rest) ≡ ps
take-length [] rest = refl
take-length (p ∷ ps) rest = ap (◌∷◌ p) (take-length ps rest)

snoc-append : (ps : Bytes) (v : ℕ) (rest : Bytes) → (ps ++ (v ∷ [])) ++ rest ≡ ps ++ (v ∷ rest)
snoc-append ps v rest = append_assoc ps (v ∷ []) rest

xor_bytes-suc :
    (ps : Bytes) (b : ℕ) (rest : Bytes) (m : Mask) (pos n : ℕ)
    → let i = length ps in
      let v = bit_xor b (mask_at m ((pos + i) % 4)) in
      xor_bytes (suc n) i pos m (ps ++ (b ∷ rest))
      ≡ xor_bytes n (i + 1) pos m ((ps ++ (v ∷ [])) ++ rest)
unfolding xor_bytes
xor_bytes-suc ps b rest m pos n = rw (get_or-append, set-append, snoc-append)

-- The byte loop over a segment, with the bytes before it and behind it.
pub xor_bytes-segment :
    (ps bs cs : Bytes) (m : Mask) (pos i n : ℕ)
    → i ≡ length ps
    → n ≡ length bs
    → xor_bytes n i pos m (ps ++ (bs ++ cs)) ≡ ps ++ (mask_from m (pos + i) bs ++ cs)
unfolding xor_bytes mask_from
xor_bytes-segment ps [] cs m pos i n hi hn = rw hn
xor_bytes-segment ps (b ∷ bs) cs m pos i n hi hn =
    let v = bit_xor b (mask_at m ((pos + length ps) % 4)) in
    rw (hn, hi)
      (xor_bytes-suc ps b (bs ++ cs) m pos (length bs)
        ∙ xor_bytes-segment (ps ++ (v ∷ [])) bs cs m pos (length ps + 1) (length bs)
            (omega (arith, length-append ps (v ∷ []))) refl
        ∙ snoc-append ps v (mask_from m (pos + (length ps + 1)) bs ++ cs)
        ∙ ap (λ (k : ℕ). ps ++ (v ∷ mask_from m k bs ++ cs)) (omega arith))

put_at-append :
    (ps ws rest vs : Bytes)
    → length vs ≡ length ws
    → put_at (ps ++ (ws ++ rest)) (length ps) vs ≡ (ps ++ vs) ++ rest
put_at-append ps ws rest vs e =
    let dropped : drop (length ps + length vs) (ps ++ (ws ++ rest)) ≡ rest =
      rw (e, ← length-append ps ws, ← append_assoc ps ws rest) (drop-length (ps ++ ws) rest) in
    rw (take-length, dropped) (sym (append_assoc ps vs rest))

-- One word of the main loop.
xor_words-suc :
    (ps ws rest : Bytes) (ln i m2 n : ℕ)
    → ln + i * 2 ^ 3 ≡ length ps
    → length ws ≡ 8
    → xor_words (suc n) i ln m2 (ps ++ (ws ++ rest))
      ≡ xor_words n (i + 1) ln m2 ((ps ++ put_le 8 (bit_xor (get_le ws) m2)) ++ rest)
unfolding xor_words
xor_words-suc ps ws rest ln i m2 n hp hw =
    let taken : take 8 (drop (length ps) (ps ++ (ws ++ rest))) ≡ ws =
      rw drop-length (subst (λ k. take k (ws ++ rest) ≡ ws) hw (take-length ws rest)) in
    let stored =
      put_at-append ps ws rest (put_le 8 (bit_xor (get_le ws) m2))
        (length-put_le 8 (bit_xor (get_le ws) m2) ∙ sym hw) in
    rw hp (rw taken (rw stored))

pub double_mask_lem : (m : Mask) → IsMask m → double_mask m ≡ get_le (mask_bytes m ++ mask_bytes m)
unfolding double_mask get_le
double_mask_lem m h = shifted (get_le (mask_bytes m)) (omega arith) ∙ omega arith
  where
    shifted : (v : ℕ) → v < 2 ^ 32 → bit_or (u64 (v * 2 ^ 32)) v ≡ v * 2 ^ 32 + v
    shifted v p =
        let fits : u64 (v * 2 ^ 32) ≡ v * 2 ^ 32 = omega arith in rw fits (bit_or_fields 32 v v p)

-- Eight bytes from a position that is a multiple of 4.
word_mask :
    (m : Mask) (ws : Bytes)
    → IsMask m
    → AreBytes ws
    → length ws ≡ 8
    → put_le 8 (bit_xor (get_le ws) (double_mask m)) ≡ mask_from m 0 ws
word_mask m (w0 ∷ w1 ∷ w2 ∷ w3 ∷ w4 ∷ w5 ∷ w6 ∷ w7 ∷ []) hm hb e = rw (double_mask_lem m hm) (
    put_le-bit_xor (w0 ∷ w1 ∷ w2 ∷ w3 ∷ w4 ∷ w5 ∷ w6 ∷ w7 ∷ []) (mask_bytes m ++ mask_bytes m) hb
      (omega arith) refl
    ∙ unfold zip_xor mask_from in refl)
word_mask m _ hm hb e = absurd (omega arith)

pub All-take : (n : ℕ) (bs : Bytes) → AreBytes bs → AreBytes (take n bs)
All-take zero bs h = tt
All-take (suc n) [] h = tt
All-take (suc n) (b ∷ bs) h = (h.0, All-take n bs h.1)

pub All-drop : (n : ℕ) (bs : Bytes) → AreBytes bs → AreBytes (drop n bs)
All-drop zero bs h = h
All-drop (suc n) [] h = tt
All-drop (suc n) (b ∷ bs) h = All-drop n bs h.1

pub All-append : (xs ys : Bytes) → AreBytes (xs ++ ys) → AreBytes xs × AreBytes ys
All-append [] ys h = (tt, h)
All-append (x ∷ xs) ys h = ((h.0, (All-append xs ys h.1).0), (All-append xs ys h.1).1)

-- The word loop over a segment whose length is a multiple of 8.
pub xor_words-segment :
    (n : ℕ) (ps bs cs : Bytes) (m : Mask) (ln i : ℕ)
    → IsMask m
    → AreBytes bs
    → length bs ≡ 8 * n
    → ln + i * 2 ^ 3 ≡ length ps
    → xor_words n i ln (double_mask m) (ps ++ (bs ++ cs)) ≡ ps ++ (mask_from m 0 bs ++ cs)
xor_words-segment zero ps [] cs m ln i hm hb e hp = unfold xor_words mask_from in refl
xor_words-segment zero ps (b ∷ bs) cs m ln i hm hb e hp = absurd (omega arith)
xor_words-segment (suc n) ps bs cs m ln i hm hb e hp =
    let ws = take 8 bs in
    let us = drop 8 bs in
    let eight : length ws ≡ 8 = omega (arith, length-take 8 bs) in
    let whole : ws ++ us ≡ bs = take-append-drop 8 bs in
    let masked = mask_from m 0 ws in
    let spec : masked ++ mask_from m 0 us ≡ mask_from m 0 bs = sym (
      ap (mask_from m 0) (sym whole)
      ∙ mask_from-append m 0 ws us
      ∙ ap (λ (t : Bytes). masked ++ t) (mask_from_mod m (0 + length ws) 0 us (omega arith))) in
    let grown : ln + (i + 1) * 2 ^ 3 ≡ length (ps ++ masked) =
      omega (arith, length-append ps masked, length-mask_from m 0 ws) in
    ap (λ (t : Bytes). xor_words (suc n) i ln (double_mask m) (ps ++ (t ++ cs))) (sym whole)
    ∙ ap (λ (t : Bytes). xor_words (suc n) i ln (double_mask m) (ps ++ t)) (append_assoc ws us cs)
    ∙ xor_words-suc ps ws (us ++ cs) ln i (double_mask m) n hp eight
    ∙ ap (λ (t : Bytes). xor_words n (i + 1) ln (double_mask m) ((ps ++ t) ++ (us ++ cs)))
        (word_mask m ws hm (All-take 8 bs hb) eight)
    ∙ xor_words-segment n (ps ++ masked) us cs m ln (i + 1) hm (All-drop 8 bs hb)
        (omega (arith, length-drop 8 bs)) grown
    ∙ append_assoc ps masked (mask_from m 0 us ++ cs)
    ∙ ap (◌++◌ ps) (sym (append_assoc masked (mask_from m 0 us) cs) ∙ rw spec)
