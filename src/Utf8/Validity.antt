-- ===== src/Utf8/Validity.antt =====
-- The decoder accepts exactly UTF-8.
use mogusocket.Common.{
  ℕ, zero, suc, ◌+◌, ◌-◌, ◌*◌, ◌≤◌, ◌<◌, ◌≡◌, ◌↔◌, refl, sym, ap, subst, ◌∙◌, inl, inr, [], ◌∷◌,
  ◌++◌, arith, Bytes, length,
}
use mogusocket.Common.Words.{AreBytes}
use mogusocket.Utf8.Run.{
  decode_run, run, decode_run-run, run-encode_all, Follows, Follows-one, Follows-two, Follows-e0,
  Follows-ed, Follows-f0, Follows-three, Follows-f4, lead,
}
use mogusocket.Utf8.Machine.{State, start, one, two, number}
use mogusocket.Utf8.Scalars.{IsScalar, encode, encode_all, IsUtf8}

IsUtf8-cons :
    (c : ℕ) (ws rest bs : Bytes)
    → IsScalar c
    → encode c ≡ ws
    → bs ≡ ws ++ rest
    → IsUtf8 rest
    → IsUtf8 bs
IsUtf8-cons c ws rest bs hc hw e u = record {
  scalars = c ∷ u.scalars;
  are_scalars = (hc, u.are_scalars);
  encodes = ap (λ (t : Bytes). t ++ encode_all u.scalars) hw ∙ ap (◌++◌ ws) u.encodes ∙ sym e;
}

two_bytes :
    (a : ℕ) (bs : Bytes)
    → 0xc2 ≤ a
    → a < 0xe0
    → (f : Follows 0x80 0xbf start bs) → IsUtf8 f.rest
    → IsUtf8 (a ∷ bs)
unfolding encode
two_bytes a bs lo hi f u =
    IsUtf8-cons ((a - 0xc0) * 64 + (f.byte - 0x80)) (a ∷ f.byte ∷ []) f.rest (a ∷ bs)
      (ground (arith, f.above, f.below)) (ground (arith, f.above, f.below)) (ap (◌∷◌ a) f.splits) u

three_bytes :
    (a b d : ℕ) (rest : Bytes)
    → 0xe0 ≤ a
    → a < 0xf0
    → 0x80 ≤ b
    → b ≤ 0xbf
    → (a ≡ 0xe0 → 0xa0 ≤ b)
    → (a ≡ 0xed → b ≤ 0x9f)
    → 0x80 ≤ d
    → d ≤ 0xbf
    → IsUtf8 rest
    → IsUtf8 (a ∷ b ∷ d ∷ rest)
unfolding encode
three_bytes a b d rest a0 a1 b0 b1 short surrogate d0 d1 u =
    IsUtf8-cons ((a - 0xe0) * 4096 + (b - 0x80) * 64 + (d - 0x80)) (a ∷ b ∷ d ∷ []) rest _
      (ground arith) (ground arith) refl u

four_bytes :
    (a b d e : ℕ) (rest : Bytes)
    → 0xf0 ≤ a
    → a ≤ 0xf4
    → 0x80 ≤ b
    → b ≤ 0xbf
    → (a ≡ 0xf0 → 0x90 ≤ b)
    → (a ≡ 0xf4 → b ≤ 0x8f)
    → 0x80 ≤ d
    → d ≤ 0xbf
    → 0x80 ≤ e
    → e ≤ 0xbf
    → IsUtf8 rest
    → IsUtf8 (a ∷ b ∷ d ∷ e ∷ rest)
unfolding encode
four_bytes a b d e rest a0 a1 b0 b1 short large d0 d1 e0 e1 u =
    IsUtf8-cons ((a - 0xf0) * 262144 + (b - 0x80) * 4096 + (d - 0x80) * 64 + (e - 0x80))
      (a ∷ b ∷ d ∷ e ∷ []) rest _ (ground arith) (ground arith) refl u

-- Two more bytes behind a first one in `lo` to `hi`.
abbrev Two : ℕ → ℕ → Bytes → Type 0
Two lo hi bs = (f : Follows lo hi one bs) × Follows 0x80 0xbf start f.rest

abbrev Three : ℕ → ℕ → Bytes → Type 0
Three lo hi bs = (f : Follows lo hi two bs) × Two 0x80 0xbf f.rest

and_one : {lo hi : ℕ} {bs : Bytes} → Follows lo hi one bs → Two lo hi bs
and_one f = (f, Follows-one f.rest f.accepts)

and_two : {lo hi : ℕ} {bs : Bytes} → Follows lo hi two bs → Three lo hi bs
and_two f = (f, and_one (Follows-two f.rest f.accepts))

length-Two : {lo hi : ℕ} {bs : Bytes} (t : Two lo hi bs) → length t.1.rest < length bs
length-Two (f, g) = omega (arith, ap length f.splits, ap length g.splits)

length-Three : {lo hi : ℕ} {bs : Bytes} (t : Three lo hi bs) → length t.1.1.rest < length bs
length-Three (f, (g, k)) = omega (arith, ap length f.splits, ap length g.splits, ap length k.splits)

module _ (lo hi a : ℕ) (low : 0x80 ≤ lo) (high : hi ≤ 0xbf) where
  rebuild_three :
      (bs : Bytes)
      → 0xe0 ≤ a
      → a < 0xf0
      → (a ≡ 0xe0 → 0xa0 ≤ lo)
      → (a ≡ 0xed → hi ≤ 0x9f)
      → (t : Two lo hi bs) → IsUtf8 t.1.rest
      → IsUtf8 (a ∷ bs)
  rebuild_three bs a0 a1 short surrogate (f, g) u =
      subst (λ l. IsUtf8 (a ∷ l)) (sym (f.splits ∙ ap (◌∷◌ f.byte) g.splits))
        (three_bytes a f.byte g.byte g.rest a0 a1 (omega (arith, f.above)) (omega (arith, f.below))
          (λ e. omega (arith, short e, f.above)) (λ e. omega (arith, surrogate e, f.below)) g.above
          g.below u)

  rebuild_four :
      (bs : Bytes)
      → 0xf0 ≤ a
      → a ≤ 0xf4
      → (a ≡ 0xf0 → 0x90 ≤ lo)
      → (a ≡ 0xf4 → hi ≤ 0x8f)
      → (t : Three lo hi bs) → IsUtf8 t.1.1.rest
      → IsUtf8 (a ∷ bs)
  rebuild_four bs a0 a1 short large (f, (g, k)) u =
      subst (λ l. IsUtf8 (a ∷ l))
        (sym (f.splits ∙ ap (◌∷◌ f.byte) (g.splits ∙ ap (◌∷◌ g.byte) k.splits)))
        (four_bytes a f.byte g.byte k.byte k.rest a0 a1 (omega (arith, f.above))
          (omega (arith, f.below)) (λ e. omega (arith, short e, f.above))
          (λ e. omega (arith, large e, f.below)) g.above g.below k.above k.below u)

-- The recursion is on a bound of the length, since a sequence takes up to four bytes.
run-IsUtf8 : (n : ℕ) (bs : Bytes) → length bs ≤ n → run start bs ≡ start → IsUtf8 bs
run-IsUtf8 n [] hn h = record { scalars = []; are_scalars = tt; encodes = refl }
run-IsUtf8 zero (a ∷ bs) hn h = absurd (omega arith)
run-IsUtf8 (suc n) (a ∷ bs) hn h = elim (lead a bs h) [
  | inl (a1, r) ↦
      IsUtf8-cons a (a ∷ []) bs (a ∷ bs) (ground arith) (unfold encode in ground arith) refl
        (run-IsUtf8 n bs (omega arith) r)
  | inr (inl (a0, a1, r)) ↦
      let f = Follows-one bs r in
      two_bytes a bs a0 a1 f (run-IsUtf8 n f.rest (omega (arith, ap length f.splits)) f.accepts)
  | inr (inr (inl (a0, r))) ↦
      let t = and_one (Follows-e0 bs r) in
      rebuild_three 0xa0 0xbf a (omega arith) (omega arith) bs (omega arith) (omega arith)
        (λ e. omega arith) (λ e. omega arith) t
        (run-IsUtf8 n t.1.rest (omega (arith, length-Two t)) t.1.accepts)
  | inr (inr (inr (inl (a0, r)))) ↦
      let t = and_one (Follows-ed bs r) in
      rebuild_three 0x80 0x9f a (omega arith) (omega arith) bs (omega arith) (omega arith)
        (λ e. omega arith) (λ e. omega arith) t
        (run-IsUtf8 n t.1.rest (omega (arith, length-Two t)) t.1.accepts)
  | inr (inr (inr (inr (inl (a0, a1, ne, r))))) ↦
      let t = and_one (Follows-two bs r) in
      rebuild_three 0x80 0xbf a (omega arith) (omega arith) bs (omega arith) (omega arith)
        (λ e. absurd (omega arith)) (λ e. absurd (ne e)) t
        (run-IsUtf8 n t.1.rest (omega (arith, length-Two t)) t.1.accepts)
  | inr (inr (inr (inr (inr (inl (a0, r)))))) ↦
      let t = and_two (Follows-f0 bs r) in
      rebuild_four 0x90 0xbf a (omega arith) (omega arith) bs (omega arith) (omega arith)
        (λ e. omega arith) (λ e. omega arith) t
        (run-IsUtf8 n t.1.1.rest (omega (arith, length-Three t)) t.1.1.accepts)
  | inr (inr (inr (inr (inr (inr (inl (a0, a1, r))))))) ↦
      let t = and_two (Follows-three bs r) in
      rebuild_four 0x80 0xbf a (omega arith) (omega arith) bs (omega arith) (omega arith)
        (λ e. absurd (omega arith)) (λ e. absurd (omega arith)) t
        (run-IsUtf8 n t.1.1.rest (omega (arith, length-Three t)) t.1.1.accepts)
  | inr (inr (inr (inr (inr (inr (inr (a0, r))))))) ↦
      let t = and_two (Follows-f4 bs r) in
      rebuild_four 0x80 0x8f a (omega arith) (omega arith) bs (omega arith) (omega arith)
        (λ e. omega arith) (λ e. omega arith) t
        (run-IsUtf8 n t.1.1.rest (omega (arith, length-Three t)) t.1.1.accepts)
]

number_start : (s : State) → number s ≡ 0 → s ≡ start
number_start s h = ground arith

-- The decoder, started in the accepting state, ends in it exactly on the encodings of scalar values.
pub decode_run-IsUtf8 :
    (codep : ℕ) (bs : Bytes) → AreBytes bs → ((decode_run 0 codep bs).1 ≡ 0) ↔ IsUtf8 bs
decode_run-IsUtf8 codep bs h = (
  λ e.
      run-IsUtf8 (length bs) bs (omega arith)
        (number_start (run start bs) (sym (decode_run-run start codep bs h) ∙ e)),
  λ u.
      decode_run-run start codep bs h
      ∙ ap number (ap (run start) (sym u.encodes) ∙ run-encode_all u.scalars u.are_scalars),
)
