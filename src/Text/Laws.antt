-- ===== src/Text/Laws.antt =====
-- util.go: what the functions on text do.
use mogusocket.Common.{
  ℕ, zero, suc, ◌+◌, ◌≡◌, ◌≢◌, ◌⊎◌, inl, inr, refl, sym, ap, ◌∙◌, Bool, false, ◌||◌, Option-cases,
  some, List, [], ◌∷◌, ◌++◌, arith, Bytes, length, take, drop, drop_all, take-append_left, take_all,
  All,
}
use mogusocket.Text.Select.{select_from_slice, scan_slice, fill_map, same_bytes}
use mogusocket.Text.Split.{index_byte, bsplit3}

fill_map-scan_slice :
    (accept : List Bytes) (mp : Bytes → Bool) (p : Bytes)
    → fill_map accept mp p ≡ (scan_slice accept p || mp p)
unfolding fill_map scan_slice
fill_map-scan_slice [] mp p = refl
fill_map-scan_slice (k ∷ accept) mp p =
    ground (arith, fill_map-scan_slice accept (λ q. same_bytes q k || mp q) p)

-- SelectFromSlice accepts the same texts through its map as by a search of the slice.
pub select_from_slice-scan_slice :
    (accept : List Bytes) (p : Bytes) → select_from_slice accept p ≡ scan_slice accept p
unfolding select_from_slice
select_from_slice-scan_slice accept p = ground (arith, fill_map-scan_slice accept (λ q. false) p)

pub drop-drop : {A : Type 0} → (m n : ℕ) (xs : List A) → drop n (drop m xs) ≡ drop (n + m) xs
drop-drop zero n xs = ap (λ (k : ℕ). drop k xs) (omega arith)
drop-drop (suc m) n [] = drop_all n [] (omega arith) ∙ sym (drop_all (n + suc m) [] (omega arith))
drop-drop (suc m) n (x ∷ xs) =
    let e : n + suc m ≡ suc (n + m) = omega arith in rw e (drop-drop m n xs)

index_byte_first : (b sep : ℕ) (bts : Bytes) → index_byte (b ∷ bts) sep ≡ some 0 → b ≡ sep
unfolding index_byte
index_byte_first b sep bts h = ground arith

index_byte_later :
    (b sep i : ℕ) (bts : Bytes)
    → index_byte (b ∷ bts) sep ≡ some (suc i)
    → (b ≢ sep) × (index_byte bts sep ≡ some i)
unfolding index_byte
index_byte_later b sep i bts h = ground arith

none_found : (sep i : ℕ) → index_byte [] sep ≢ some i
unfolding index_byte
none_found sep i = ground arith

-- `sep` stands behind the first `i` bytes and not among them.
index_byte-Split :
    (bts : Bytes) (sep i : ℕ)
    → index_byte bts sep ≡ some i
    → (take i bts ++ sep ∷ drop (suc i) bts ≡ bts) × All (λ b. b ≢ sep) (take i bts)
index_byte-Split [] sep i h = absurd (none_found sep i h)
index_byte-Split (b ∷ bts) sep zero h = rw (index_byte_first b sep bts h) (refl, tt)
index_byte-Split (b ∷ bts) sep (suc i) h =
    let (ne, rest) = index_byte_later b sep i bts h in
    let (joined, before) = index_byte-Split bts sep i rest in
    (ap (λ (t : Bytes). b ∷ t) joined, (ne, before))

-- The three parts, joined by the separator.
abbrev pub join3 : ℕ → Bytes × Bytes × Bytes → Bytes
join3 sep (b1, b2, b3) = b1 ++ sep ∷ (b2 ++ sep ∷ b3)

-- Either the line has fewer than two separators and comes back as the first part.
abbrev pub Unsplit : Bytes → Bytes × Bytes × Bytes → Type 0
Unsplit bts (b1, b2, b3) = (b1 ≡ bts) × (b2 ≡ []) × (b3 ≡ [])

-- Or it is cut at the first two separators.
abbrev pub CutTwice : Bytes → ℕ → Bytes × Bytes × Bytes → Type 0
CutTwice bts sep (b1, b2, b3) =
    (join3 sep (b1, b2, b3) ≡ bts) × All (λ b. b ≢ sep) b1 × All (λ b. b ≢ sep) b2

two_cuts :
    (bts : Bytes) (sep a b : ℕ)
    → index_byte bts sep ≡ some a
    → index_byte (drop (a + 1) bts) sep ≡ some b
    → CutTwice bts sep (take a bts, take b (drop (a + 1) bts), drop (b + (a + 1) + 1) bts)
two_cuts bts sep a b first second =
    let (outer, clear1) = index_byte-Split bts sep a first in
    let (inner, clear2) = index_byte-Split (drop (a + 1) bts) sep b second in
    let next : a + 1 ≡ suc a = omega arith in
    let tail : drop (suc b) (drop (a + 1) bts) ≡ drop (b + (a + 1) + 1) bts =
      drop-drop (a + 1) (suc b) bts ∙ ap (λ (k : ℕ). drop k bts) (omega arith) in
    let inner' : take b (drop (a + 1) bts) ++ sep ∷ drop (b + (a + 1) + 1) bts ≡ drop (suc a) bts =
      ap (λ (t : Bytes). take b (drop (a + 1) bts) ++ sep ∷ t) (sym tail)
      ∙ inner
      ∙ ap (λ (k : ℕ). drop k bts) next in
    (ap (λ (t : Bytes). take a bts ++ sep ∷ t) inner' ∙ outer, clear1, clear2)

-- bsplit3 cuts a line at its first two separators, or returns it whole where it has fewer.
pub bsplit3-CutTwice :
    (bts : Bytes) (sep : ℕ) → Unsplit bts (bsplit3 bts sep) ⊎ CutTwice bts sep (bsplit3 bts sep)
unfolding bsplit3
bsplit3-CutTwice bts sep = elim (Option-cases (index_byte bts sep)) [
  | inl e ↦ rw (bsplit3, e) (inl (refl, refl, refl))
  | inr (a, e) ↦ elim (Option-cases (index_byte (drop (a + 1) bts) sep)) [
    | inl e' ↦ rw (bsplit3, e, e') (inl (refl, refl, refl))
    | inr (b, e') ↦ rw (bsplit3, e, e') (inr (two_cuts bts sep a b e e'))
  ]
]

index_byte-append :
    (b1 b2 : Bytes) (sep : ℕ)
    → All (λ b. b ≢ sep) b1
    → index_byte (b1 ++ sep ∷ b2) sep ≡ some (length b1)
unfolding index_byte
index_byte-append [] b2 sep clear = ground arith
index_byte-append (b ∷ b1) b2 sep (ne, clear) = ground (arith, index_byte-append b1 b2 sep clear)

cut_back : (b1 b2 : Bytes) (sep : ℕ) → drop (length b1 + 1) (b1 ++ sep ∷ b2) ≡ b2
cut_back [] b2 sep = refl
cut_back (b ∷ b1) b2 sep =
    let e : suc (length b1) + 1 ≡ suc (length b1 + 1) = omega arith in rw e (cut_back b1 b2 sep)

take_back : (b1 b2 : Bytes) → take (length b1) (b1 ++ b2) ≡ b1
take_back b1 b2 = take-append_left (length b1) b1 b2 (omega arith) ∙ take_all _ b1 (omega arith)

-- Parts joined by a separator that the first two do not contain are split again.
pub bsplit3-join3 :
    (sep : ℕ) (b1 b2 b3 : Bytes)
    → All (λ b. b ≢ sep) b1
    → All (λ b. b ≢ sep) b2
    → bsplit3 (join3 sep (b1, b2, b3)) sep ≡ (b1, b2, b3)
unfolding bsplit3
bsplit3-join3 sep b1 b2 b3 clear1 clear2 =
    let rest = b2 ++ sep ∷ b3 in
    let all = b1 ++ sep ∷ rest in
    let back : drop (length b1 + 1) all ≡ rest = cut_back b1 rest sep in
    let first = index_byte-append b1 rest sep clear1 in
    let second = ap (λ (t : Bytes). index_byte t sep) back ∙ index_byte-append b2 b3 sep clear2 in
    let tail : drop (length b2 + (length b1 + 1) + 1) all ≡ b3 =
      ap (λ (k : ℕ). drop k all) (omega arith)
      ∙ sym (drop-drop (length b1 + 1) (length b2 + 1) all)
      ∙ ap (λ (t : Bytes). drop (length b2 + 1) t) back
      ∙ cut_back b2 b3 sep in
    rw (bsplit3, first, second, back, tail, take_back b1 (sep ∷ rest), take_back b2 (sep ∷ b3)) refl
