-- ===== src/Utf8/Run.antt =====
-- Runs of the decoder, forwards over encoded scalar values and backwards from an accepted run.
use mogusocket.Common.{
  ℕ, ◌≤◌, ◌<◌, ◌≡◌, ◌≢◌, refl, ap, ◌∙◌, ◌⊎◌, List, [], ◌∷◌, ◌++◌, arith, Bytes, All,
}
use mogusocket.Common.Words.{AreBytes}
use mogusocket.Utf8.{decode}
use mogusocket.Utf8.Machine.{
  State, start, reject, one, two, after_e0, after_ed, after_f0, three, after_f4, number, within,
  next, decode-next,
}
use mogusocket.Utf8.Scalars.{IsScalar, encode, encode_all}

-- The loop of `Read` over some bytes, without its early return: the code point and the state.
unfoldable pub decode_run : ℕ → ℕ → Bytes → ℕ × ℕ
decode_run state codep [] = (codep, state)
decode_run state codep (b ∷ bs) = let (c, s) = decode state codep b in decode_run s c bs

unfoldable pub run : State → Bytes → State
run s [] = s
run s (b ∷ bs) = run (next s b) bs

pub decode_run-run :
    (s : State) (codep : ℕ) (bs : Bytes)
    → AreBytes bs
    → (decode_run (number s) codep bs).1 ≡ number (run s bs)
unfolding decode_run run
decode_run-run s codep [] h = refl
decode_run-run s codep (b ∷ bs) h =
    let (c, t) = decode (number s) codep b in
    ap (λ (n : ℕ). (decode_run n c bs).1) (decode-next s codep b h.0)
    ∙ decode_run-run (next s b) c bs h.1

pub run-reject : (bs : Bytes) → run reject bs ≡ reject
unfolding run next
run-reject [] = refl
run-reject (b ∷ bs) = run-reject bs

-- One scalar value takes the machine from the start back to the start.
run-encode : (c : ℕ) (bs : Bytes) → IsScalar c → run start (encode c ++ bs) ≡ run start bs
unfolding run next encode
run-encode c bs h = ground arith

pub run-encode_all : (cs : List ℕ) → All IsScalar cs → run start (encode_all cs) ≡ start
run-encode_all [] h = unfold run in refl
run-encode_all (c ∷ cs) h = run-encode c (encode_all cs) h.0 ∙ run-encode_all cs h.1

-- The bytes go on with one in a range, and the machine accepts what follows from state `t`.
pub record Follows (lo hi : ℕ) (t : State) (bs : Bytes) : Type 0 where
  pub byte : ℕ
  pub rest : Bytes
  pub splits : bs ≡ byte ∷ rest
  pub above : lo ≤ byte
  pub below : byte ≤ hi
  pub accepts : run t rest ≡ start

Follows-byte :
    (lo hi : ℕ) (t : State) (b : ℕ) (bs : Bytes)
    → run (within lo hi b t) bs ≡ start
    → Follows lo hi t (b ∷ bs)
Follows-byte lo hi t b bs h = record {
  byte = b;
  rest = bs;
  splits = refl;
  above = ground (arith, run-reject bs);
  below = ground (arith, run-reject bs);
  accepts = ground (arith, run-reject bs);
}

pub Follows-one : (bs : Bytes) → run one bs ≡ start → Follows 0x80 0xbf start bs
unfolding run next
Follows-one [] h = cc
Follows-one (b ∷ bs) h = Follows-byte _ _ _ b bs h

pub Follows-two : (bs : Bytes) → run two bs ≡ start → Follows 0x80 0xbf one bs
unfolding run next
Follows-two [] h = cc
Follows-two (b ∷ bs) h = Follows-byte _ _ _ b bs h

pub Follows-e0 : (bs : Bytes) → run after_e0 bs ≡ start → Follows 0xa0 0xbf one bs
unfolding run next
Follows-e0 [] h = cc
Follows-e0 (b ∷ bs) h = Follows-byte _ _ _ b bs h

pub Follows-ed : (bs : Bytes) → run after_ed bs ≡ start → Follows 0x80 0x9f one bs
unfolding run next
Follows-ed [] h = cc
Follows-ed (b ∷ bs) h = Follows-byte _ _ _ b bs h

pub Follows-f0 : (bs : Bytes) → run after_f0 bs ≡ start → Follows 0x90 0xbf two bs
unfolding run next
Follows-f0 [] h = cc
Follows-f0 (b ∷ bs) h = Follows-byte _ _ _ b bs h

pub Follows-three : (bs : Bytes) → run three bs ≡ start → Follows 0x80 0xbf two bs
unfolding run next
Follows-three [] h = cc
Follows-three (b ∷ bs) h = Follows-byte _ _ _ b bs h

pub Follows-f4 : (bs : Bytes) → run after_f4 bs ≡ start → Follows 0x80 0x8f two bs
unfolding run next
Follows-f4 [] h = cc
Follows-f4 (b ∷ bs) h = Follows-byte _ _ _ b bs h

-- What the first byte of a sequence may be.
abbrev pub Lead : ℕ → Bytes → Type 0
Lead a bs =
    ((a < 0x80) × (run start bs ≡ start))
    ⊎ ((0xc2 ≤ a) × (a < 0xe0) × (run one bs ≡ start))
    ⊎ ((a ≡ 0xe0) × (run after_e0 bs ≡ start))
    ⊎ ((a ≡ 0xed) × (run after_ed bs ≡ start))
    ⊎ ((0xe1 ≤ a) × (a < 0xf0) × (a ≢ 0xed) × (run two bs ≡ start))
    ⊎ ((a ≡ 0xf0) × (run after_f0 bs ≡ start))
    ⊎ ((0xf1 ≤ a) × (a < 0xf4) × (run three bs ≡ start))
    ⊎ ((a ≡ 0xf4) × (run after_f4 bs ≡ start))

pub lead : (a : ℕ) (bs : Bytes) → run start (a ∷ bs) ≡ start → Lead a bs
unfolding run next
lead a bs h = ground (arith, run-reject bs)
