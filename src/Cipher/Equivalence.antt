-- ===== src/Cipher/Equivalence.antt =====
-- `Cipher` against the masking algorithm of RFC 6455, section 5.3.
use mogusocket.Common.{
  ℕ, zero, suc, ◌+◌, ◌-◌, ◌*◌, ◌/◌, ◌%◌, ◌^◌, ◌≤◌, ◌<◌, ◌≡◌, refl, sym, ap, ◌∙◌, [], ◌++◌,
  append-nil, append_assoc, arith, ap₂, inl, inr, Bytes, length, take, drop, ltb, Bool-cases,
  length-append, length-take, length-drop, take-append-drop,
}
use mogusocket.Common.Words.{AreBytes}
use mogusocket.Cipher.{Mask, IsMask, remain, xor_bytes, xor_words, double_mask, cipher}
use mogusocket.Cipher.Loops.{
  mask_from, mask_from-append, mask_from_mod, length-mask_from, mask_from-mask_from,
  mask_from-AreBytes, xor_bytes-segment, xor_words-segment, All-take, All-drop, All-append,
}

-- `remain` leads to the next position that is a multiple of 4.
remain_cases : (r : ℕ) → r < 4 → ((r + remain r) % 4 ≡ 0) × (remain r < 4)
remain_cases zero h = (refl, omega arith)
remain_cases (suc zero) h = (refl, omega arith)
remain_cases (suc (suc zero)) h = (refl, omega arith)
remain_cases (suc (suc (suc zero))) h = (refl, omega arith)
remain_cases (suc (suc (suc (suc r)))) h = absurd (omega arith)

-- The three loops of the long case, on a payload in three parts.
three_loops :
    (ps bs cs : Bytes) (m : Mask) (offset w : ℕ)
    → IsMask m
    → AreBytes bs
    → length ps ≡ remain (offset % 4)
    → length bs ≡ 8 * w
    → xor_words w 0 (length ps) (double_mask m) (
        xor_bytes
          (length cs)
          (length ps + length bs)
          (offset % 4)
          m
          (xor_bytes (length ps) 0 (offset % 4) m (ps ++ (bs ++ cs))))
      ≡ mask_from m offset (ps ++ (bs ++ cs))
three_loops ps bs cs m offset w hm hb hp hw =
    let mpos = offset % 4 in
    let aligned = remain_cases mpos (omega arith) in
    let ps' = mask_from m offset ps in
    let cs' = mask_from m (offset + length ps + length bs) cs in
    let first : xor_bytes (length ps) 0 mpos m (ps ++ (bs ++ cs)) ≡ ps' ++ (bs ++ cs) =
      xor_bytes-segment [] ps (bs ++ cs) m mpos 0 (length ps) refl refl
      ∙ ap (λ (t : Bytes). t ++ (bs ++ cs)) (mask_from_mod m (mpos + 0) offset ps (omega arith)) in
    let here : length ps + length bs ≡ length (ps' ++ bs) =
      omega (arith, length-append ps' bs, length-mask_from m offset ps) in
    let second : xor_bytes (length cs) (length ps + length bs) mpos m (ps' ++ (bs ++ cs))
        ≡ ps' ++ (bs ++ cs') =
      ap (xor_bytes (length cs) (length ps + length bs) mpos m)
        (sym (append_assoc ps' bs cs) ∙ ap (λ (t : Bytes). (ps' ++ bs) ++ t) (sym (append-nil cs)))
      ∙ xor_bytes-segment (ps' ++ bs) cs [] m mpos (length ps + length bs) (length cs) here refl
      ∙ ap (λ (t : Bytes). (ps' ++ bs) ++ t)
          (append-nil _
            ∙ mask_from_mod m (mpos + (length ps + length bs)) (offset + length ps + length bs) cs
                (omega arith))
      ∙ append_assoc ps' bs cs' in
    let third : xor_words w 0 (length ps) (double_mask m) (ps' ++ (bs ++ cs'))
        ≡ ps' ++ (mask_from m 0 bs ++ cs') =
      xor_words-segment w ps' bs cs' m (length ps) 0 hm hb hw
        (omega (arith, length-mask_from m offset ps)) in
    let middle : mask_from m 0 bs ≡ mask_from m (offset + length ps) bs =
      mask_from_mod m 0 (offset + length ps) bs (omega arith) in
    ap
      (λ (t : Bytes).
        xor_words w 0 (length ps) (double_mask m)
          (xor_bytes (length cs) (length ps + length bs) mpos m t))
      first
    ∙ ap (xor_words w 0 (length ps) (double_mask m)) second
    ∙ third
    ∙ ap (λ (t : Bytes). ps' ++ (t ++ cs')) middle
    ∙ ap (◌++◌ ps') (sym (mask_from-append m (offset + length ps) bs cs))
    ∙ sym (mask_from-append m offset ps (bs ++ cs))

three_loops_at :
    (ps bs cs payload : Bytes) (m : Mask) (offset ln rn start w : ℕ)
    → IsMask m
    → AreBytes bs
    → ps ++ (bs ++ cs) ≡ payload
    → ln ≡ length ps
    → rn ≡ length cs
    → start ≡ length ps + length bs
    → length ps ≡ remain (offset % 4)
    → length bs ≡ 8 * w
    → xor_words w 0 ln
        (double_mask m)
        (xor_bytes rn start (offset % 4) m (xor_bytes ln 0 (offset % 4) m payload))
      ≡ mask_from m offset payload
three_loops_at ps bs cs payload m offset ln rn start w hm hb whole hl hr hs hp hw =
    rw (← whole, hl, hr, hs) (three_loops ps bs cs m offset w hm hb hp hw)

-- The long case on a whole payload.
long_case :
    (payload : Bytes) (m : Mask) (offset ln rn n w : ℕ)
    → IsMask m
    → AreBytes payload
    → n ≡ length payload
    → ln ≡ remain (offset % 4)
    → n ≡ ln + 8 * w + rn
    → xor_words w 0 ln
        (double_mask m)
        (xor_bytes rn (n - rn) (offset % 4) m (xor_bytes ln 0 (offset % 4) m payload))
      ≡ mask_from m offset payload
long_case payload m offset ln rn n w hm hb hn hl hw =
    let ps = take ln payload in
    let rest = drop ln payload in
    let bs = take (8 * w) rest in
    let cs = drop (8 * w) rest in
    let whole : ps ++ (bs ++ cs) ≡ payload =
      ap (◌++◌ ps) (take-append-drop (8 * w) rest) ∙ take-append-drop ln payload in
    let lp : length ps ≡ ln = omega (arith, length-take ln payload) in
    let lr : length rest ≡ n - ln = omega (arith, length-drop ln payload) in
    let lb : length bs ≡ 8 * w = omega (arith, length-take (8 * w) rest) in
    let lc : length cs ≡ rn = omega (arith, length-drop (8 * w) rest) in
    three_loops_at ps bs cs payload m offset ln rn (n - rn) w hm
      (All-take (8 * w) rest (All-drop ln payload hb)) whole (sym lp) (sym lc) (omega arith)
      (lp ∙ hl) lb

split :
    (n offset : ℕ)
    → 8 ≤ n
    → n
      ≡ remain (offset % 4)
        + 8 * ((n - remain (offset % 4) - (n - remain (offset % 4)) % 8) / 2 ^ 3)
        + (n - remain (offset % 4)) % 8
split n offset h = omega (arith, remain_cases (offset % 4) (omega arith))

-- `Cipher` is the byte-by-byte masking algorithm, at every length, offset and mask.
pub cipher-mask_from :
    (payload : Bytes) (m : Mask) (offset : ℕ)
    → AreBytes payload
    → IsMask m
    → cipher payload m offset ≡ mask_from m offset payload
unfolding cipher
cipher-mask_from payload m offset hb hm = elim (Bool-cases (ltb (length payload) 8)) [
  | inl short ↦ rw short (
      ap (xor_bytes (length payload) 0 offset m) (sym (append-nil payload))
      ∙ xor_bytes-segment [] payload [] m offset 0 (length payload) refl refl
      ∙ append-nil _
      ∙ mask_from_mod m (offset + 0) offset payload (omega arith))
  | inr long ↦ rw long (
      long_case payload m offset (remain (offset % 4)) _ (length payload) _ hm hb refl refl
        (split (length payload) offset (ground arith)))
]

-- Ciphering a chunk at a time, each at the offset where it starts, is ciphering the whole.
pub cipher-append :
    (xs ys : Bytes) (m : Mask) (offset : ℕ)
    → AreBytes (xs ++ ys)
    → IsMask m
    → cipher (xs ++ ys) m offset ≡ cipher xs m offset ++ cipher ys m (offset + length xs)
cipher-append xs ys m offset hb hm =
    cipher-mask_from (xs ++ ys) m offset hb hm
    ∙ mask_from-append m offset xs ys
    ∙ ap₂ ◌++◌ (sym (cipher-mask_from xs m offset (All-append xs ys hb).0 hm))
        (sym (cipher-mask_from ys m (offset + length xs) (All-append xs ys hb).1 hm))

-- Ciphering twice with the same mask and offset gives the payload back.
pub cipher-cipher :
    (payload : Bytes) (m : Mask) (offset : ℕ)
    → AreBytes payload
    → IsMask m
    → cipher (cipher payload m offset) m offset ≡ payload
cipher-cipher payload m offset hb hm = rw (cipher-mask_from payload m offset hb hm) (
    cipher-mask_from (mask_from m offset payload) m offset
      (mask_from-AreBytes m offset payload hm hb) hm
    ∙ mask_from-mask_from m offset payload)

pub length-cipher :
    (payload : Bytes) (m : Mask) (offset : ℕ)
    → AreBytes payload
    → IsMask m
    → length (cipher payload m offset) ≡ length payload
length-cipher payload m offset hb hm =
    rw (cipher-mask_from payload m offset hb hm) (length-mask_from m offset payload)

pub cipher-AreBytes :
    (payload : Bytes) (m : Mask) (offset : ℕ)
    → AreBytes payload
    → IsMask m
    → AreBytes (cipher payload m offset)
cipher-AreBytes payload m offset hb hm =
    rw (cipher-mask_from payload m offset hb hm) (mask_from-AreBytes m offset payload hm hb)
