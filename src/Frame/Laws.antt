-- ===== src/Frame/Laws.antt =====
-- Operation codes, the RSV byte, close bodies and the masking of frames, in plain arithmetic.
use mogusocket.Common.{
  ℕ, suc, ◌+◌, ◌*◌, ◌/◌, ◌^◌, ◌≤◌, ◌<◌, ◌≡◌, ◌↔◌, inl, inr, refl, sym, ap, ◌∙◌, Bool, true, false,
  some, [], ◌++◌, append-nil, length-append, drop_all, arith, Bytes, length, take, drop, replicate,
  bit_and, ltb, Bool-cases, length-take, length-replicate, take_all,
}
use mogusocket.Common.Words.{AreBytes, put_be, get_be-put_be_two, length-put_be}
use mogusocket.Common.Bits.{agree, all_below}
use mogusocket.Cipher.{Mask, IsMask}
use mogusocket.Cipher.Equivalence.{cipher-cipher}
use mogusocket.Frame.Header.{Frame, is_control, rsv_of_bits, rsv_bits, zero_mask}
use mogusocket.Frame.Build.{
  new_close_frame_body, put_close_frame_body, parse_close_frame_data, mask_frame_with, unmask_frame,
  min_int,
}

bit_and-eight : (c : ℕ) → c < 16 → bit_and c 8 ≡ c / 8 * 8
unfolding all_below
bit_and-eight c h = agree 16 (λ c. bit_and c 8) (λ c. c / 8 * 8) refl c h

-- Of the 4-bit operation codes exactly those from 8 on are control codes.
pub is_control_iff : (c : ℕ) → c < 16 → (is_control c ≡ true) ↔ (8 ≤ c)
unfolding is_control
is_control_iff c h = ground (arith, bit_and-eight c h)

-- `RsvBits` and `Rsv` are inverse: on the bits, and on every value of the 3-bit field.
pub rsv_bits-rsv_of_bits : (r1 r2 r3 : Bool) → rsv_bits (rsv_of_bits r1 r2 r3) ≡ (r1, r2, r3)
unfolding rsv_bits rsv_of_bits
rsv_bits-rsv_of_bits true true true = refl
rsv_bits-rsv_of_bits true true false = refl
rsv_bits-rsv_of_bits true false true = refl
rsv_bits-rsv_of_bits true false false = refl
rsv_bits-rsv_of_bits false true true = refl
rsv_bits-rsv_of_bits false true false = refl
rsv_bits-rsv_of_bits false false true = refl
rsv_bits-rsv_of_bits false false false = refl

-- What is written over a fresh slice of just the size.
put_close_frame_body_lem :
    (n code : ℕ) (rs : Bytes)
    → n ≡ suc (suc (length rs))
    → put_close_frame_body (replicate n 0) code rs ≡ some (put_be 2 code ++ rs)
unfolding put_close_frame_body put_be
put_close_frame_body_lem n code rs e =
    let room : ltb (1 + length rs) (suc (suc (length {A = ℕ} (replicate (length rs) 0)))) ≡ true =
      ground (arith, length-replicate {A = ℕ} (length rs) 0) in
    let rest : drop (2 + length rs) (put_be 2 code ++ replicate (length rs) 0) ≡ [] =
      drop_all (2 + length rs) (put_be 2 code ++ replicate (length rs) 0)
        (omega (arith, length-replicate {A = ℕ} (length rs) 0)) in
    rw e (rw (room, rest, append-nil))

cropped : (rs : Bytes) → take (min_int 123 (length rs)) rs ≡ take 123 rs
unfolding min_int
cropped rs = elim (Bool-cases (ltb 123 (length rs))) [
  | inl long ↦ rw long
  | inr short ↦
      rw short (take_all (length rs) rs (omega arith) ∙ sym (take_all 123 rs (ground arith)))
]

new_close_frame_body_lem :
    (code : ℕ) (reason : Bytes)
    → new_close_frame_body code reason ≡ some (put_be 2 code ++ take 123 reason)
unfolding new_close_frame_body
new_close_frame_body_lem code reason =
    put_close_frame_body_lem (min_int (2 + length reason) 125) code
      (take (min_int 123 (length reason)) reason)
      (ground (arith, length-take (min_int 123 (length reason)) reason))
    ∙ ap (λ (t : Bytes). some (put_be 2 code ++ t)) (cropped reason)

parse_close_frame_data_lem :
    (code : ℕ) (rs : Bytes)
    → code < 2 ^ 16
    → parse_close_frame_data (put_be 2 code ++ rs) ≡ (code, rs)
unfolding parse_close_frame_data put_be
parse_close_frame_data_lem code rs h = ground (arith, get_be-put_be_two code h)

-- A close body is at most 125 bytes long, and the parser reads back its code and as much of the
-- reason as fits.
pub parse_close_frame_data-new_close_frame_body :
    (code : ℕ) (reason : Bytes)
    → code < 2 ^ 16
    → (body : Bytes) × (new_close_frame_body code reason ≡ some body)
      × (length body ≤ 125)
      × (parse_close_frame_data body ≡ (code, take 123 reason))
parse_close_frame_data-new_close_frame_body code reason h = (
  put_be 2 code ++ take 123 reason,
  new_close_frame_body_lem code reason,
  omega (
    arith,
    length-append (put_be 2 code) (take 123 reason),
    length-put_be 2 code,
    length-take 123 reason,
  ),
  parse_close_frame_data_lem code (take 123 reason) h,
)

-- Unmasking a masked frame gives the frame back, if it was not masked.
pub unmask_frame-mask_frame_with :
    (f : Frame) (m : Mask)
    → AreBytes f.payload
    → IsMask m
    → f.header.masked ≡ false
    → f.header.mask ≡ zero_mask
    → unmask_frame (mask_frame_with f m) ≡ f
unfolding unmask_frame mask_frame_with
unmask_frame-mask_frame_with f m hb hm e1 e2 = ground (arith, cipher-cipher f.payload m 0 hb hm)
