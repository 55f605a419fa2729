-- ===== src/Writer/Fragments.antt =====
-- msutil/writer.go: the frames of one message on the wire.
use mogusocket.Common.{
  ℕ, zero, suc, ◌+◌, ◌<◌, ◌^◌, ◌≡◌, refl, sym, ap, subst, Bool, false, none, some, List, [], ◌∷◌,
  ◌++◌, append-nil, append_assoc, arith, Bytes, length,
}
use mogusocket.Common.Words.{pos}
use mogusocket.Stream.{Sink, write, write_plan, fresh}
use mogusocket.Frame.Header.{Header, Frame, zero_header, op_continuation}
use mogusocket.Codec.Write.{
  header_bytes, header_size, write_header, write_frame, compile_frame, then_write,
}
use mogusocket.Codec.RoundTrip.{header-Encoding}

-- The opcode of the frame with index `i` of a message.
abbrev pub op_at : ℕ → ℕ → ℕ
op_at op zero = op
op_at op (suc i) = op_continuation

abbrev pub fragment_header : ℕ → ℕ → Bool → Bytes → Header
fragment_header op i fin c = record zero_header {
  op_code = op_at op i;
  fin = fin;
  len = pos (length c);
}

-- The frame with index `i`, without a mask.
abbrev pub fragment : ℕ → ℕ → Bool → Bytes → Frame
fragment op i fin c = record { header = fragment_header op i fin c; payload = c }

-- `bts` is the encoding of this frame.
abbrev pub IsFragment : ℕ → ℕ → Bool → Bytes → Bytes → Type 0
IsFragment op i fin c bts = compile_frame (fragment op i fin c) ≡ (bts, none)

-- `bts` are the frames of the payloads, from the index `i` on, none of them the last of its message.
abbrev pub AreFragments : ℕ → ℕ → List Bytes → Bytes → Type 0
AreFragments op i [] bts = bts ≡ []
AreFragments op i (c ∷ cs) bts =
    (front : Bytes) × (rest : Bytes) × IsFragment op i false c front
    × (bts ≡ front ++ rest)
    × AreFragments op (suc i) cs rest

AreFragments-snoc_from :
    (op i : ℕ) (cs : List Bytes) (c bts last : Bytes)
    → AreFragments op i cs bts
    → IsFragment op (i + length cs) false c last
    → AreFragments op i (cs ++ c ∷ []) (bts ++ last)
AreFragments-snoc_from op i [] c bts last sent one =
    let here : i + 0 ≡ i = omega arith in
    (last, [], rw here at one, rw sent (sym (append-nil last)), refl)
AreFragments-snoc_from op i (x ∷ cs) c bts last (front, rest, first, whole, sent) one =
    let there : i + suc (length cs) ≡ suc i + length cs = omega arith in
    let tail = AreFragments-snoc_from op (suc i) cs c rest last sent (rw there at one) in
    (front, rest ++ last, first, rw whole (append_assoc front rest last), tail)

pub AreFragments-snoc :
    (op : ℕ) (cs : List Bytes) (c bts last : Bytes)
    → AreFragments op 0 cs bts
    → IsFragment op (length cs) false c last
    → AreFragments op 0 (cs ++ c ∷ []) (bts ++ last)
AreFragments-snoc op cs c bts last sent one =
    let start : length cs ≡ 0 + length cs = omega arith in
    AreFragments-snoc_from op 0 cs c bts last sent
      (subst (λ (i : ℕ). IsFragment op i false c last) start one)

-- What the code needs of a fragment: the bytes of its header.
pub record Heading (op i : ℕ) (fin : Bool) (c : Bytes) : Type 0 where
  pub bytes : Bytes
  pub encodes : header_bytes (fragment_header op i fin c) ≡ some bytes
  pub sizes : header_size (fragment_header op i fin c) ≡ pos (length bytes)
  pub compiles : IsFragment op i fin c (bytes ++ c)

write_header-put :
    (h : Header) (bts : Bytes) (s : Sink)
    → header_bytes h ≡ some bts
    → write_header h s ≡ write bts s
unfolding write_header
write_header-put h bts s encodes = rw (write_header, encodes) refl

pub write_frame-put :
    (f : Frame) (bts : Bytes) (s : Sink)
    → header_bytes f.header ≡ some bts
    → write_frame f s ≡ then_write f.payload (write bts s)
unfolding write_frame
write_frame-put f bts s encodes =
    ap (then_write f.payload) (write_header-put f.header bts s encodes)

pub compile_frame-append :
    (f : Frame) (bts : Bytes)
    → header_bytes f.header ≡ some bts
    → compile_frame f ≡ (bts ++ f.payload, none)
unfolding compile_frame write
compile_frame-append f bts encodes = rw (write_frame-put f bts fresh encodes, append-nil) refl

op_at-lt : (op i : ℕ) → op < 16 → op_at op i < 16
op_at-lt op zero small = small
op_at-lt op (suc i) small = omega arith

pub fragment-Heading :
    (op i : ℕ) (fin : Bool) (c : Bytes) → op < 16 → length c < 2 ^ 63 → Heading op i fin c
fragment-Heading op i fin c small fits =
    let e = header-Encoding (fragment_header op i fin c) (record {
      rsv_bits = omega arith;
      op_bits = op_at-lt op i small;
      size = length c;
      len_is = refl;
      fits = fits;
      mask_is = omega arith;
      plain = λ no_mask. refl;
    }) in
    record {
      bytes = e.bytes;
      encodes = e.encodes;
      sizes = e.sizes;
      compiles = compile_frame-append (fragment op i fin c) e.bytes e.encodes;
    }

-- A writer below that accepts everything.
pub write_accepts :
    (p : Bytes) (s : Sink)
    → s.plan ≡ []
    → write p s ≡ (none, record { calls = s.calls ++ p ∷ []; plan = [] })
unfolding write
write_accepts p s always = ap (write_plan p s.calls) always
