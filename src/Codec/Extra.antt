-- ===== src/Codec/Extra.antt =====
-- The pieces of a header, written and read back: its first byte, the extended length, the mask.
use mogusocket.Common.{
  ℕ, ◌+◌, ◌*◌, ◌/◌, ◌%◌, ◌^◌, ◌≤◌, ◌<◌, ◌≡◌, refl, sym, Bool, true, false, not, Option, none, [],
  ◌++◌, arith, Bytes, length, bit_and, bit_or, ◌==◌, if◌then◌else◌,
}
use mogusocket.Common.Bits.{agree, all_below}
use mogusocket.Common.Words.{pos, u8, put_be, get_be-put_be_two, get_be-put_be_eight}
use mogusocket.Cipher.{Mask, IsMask, mask_bytes}
use mogusocket.Errors.{Error}
use mogusocket.Stream.{Source, content, read_full}
use mogusocket.Stream.Laws.{read_full-Reads}
use mogusocket.Frame.Header.{Header, zero_mask}
use mogusocket.Codec.Write.{bit0, first_byte}
use mogusocket.Codec.Read.{read_head, with_mask, read_extra, after_extra}
use mogusocket.Codec.Bits.{low_nibble, top_bit, rsv_bits_of, head_bits}

-- A header that the wire can carry: fields in their ranges, and no mask where there is no mask bit.
pub record IsWire (h : Header) : Type 0 where
  pub rsv_bits : h.rsv < 8
  pub op_bits : h.op_code < 16
  pub size : ℕ
  pub len_is : h.len ≡ pos size
  pub fits : size < 2 ^ 63
  pub mask_is : IsMask h.mask
  pub plain : h.masked ≡ false → h.mask ≡ zero_mask

fin_rsv : (r : ℕ) → r < 8 → bit_or (bit_or 0 bit0) (u8 (r * 2 ^ 4)) ≡ (8 + r) * 2 ^ 4
unfolding all_below
fin_rsv r h = agree 8 (λ r. bit_or (bit_or 0 bit0) (u8 (r * 2 ^ 4))) (λ r. (8 + r) * 2 ^ 4) refl r h

only_rsv : (r : ℕ) → r < 8 → bit_or 0 (u8 (r * 2 ^ 4)) ≡ r * 2 ^ 4
unfolding all_below
only_rsv r h = agree 8 (λ r. bit_or 0 (u8 (r * 2 ^ 4))) (λ r. r * 2 ^ 4) refl r h

abbrev fin_bit : Bool → ℕ
fin_bit true = 8
fin_bit false = 0

first_byte_lem :
    (h : Header)
    → h.rsv < 8
    → h.op_code < 16
    → first_byte h ≡ (fin_bit h.fin + h.rsv) * 16 + h.op_code
unfolding first_byte
first_byte_lem h hr ho = ground (
  arith,
  fin_rsv h.rsv hr,
  only_rsv h.rsv hr,
  head_bits (8 + h.rsv) h.op_code ho,
  head_bits h.rsv h.op_code ho,
)

-- The head of a header, read back.
pub read_head-first_byte :
    (h : Header) (b1 : ℕ)
    → h.rsv < 8
    → h.op_code < 16
    → not (bit_and b1 bit0 == 0) ≡ h.masked
    → read_head (first_byte h) b1 ≡ record h { len = pos 0; mask = zero_mask }
unfolding read_head
read_head-first_byte h b1 hr ho hm = ground (
  arith,
  first_byte_lem h hr ho,
  low_nibble (first_byte h),
  top_bit (first_byte h),
  rsv_bits_of (first_byte h),
)

-- `x` is a successful read of `h`, and `rest` is still to come.
pub record Decodes (h : Header) (rest : Bytes) (r : Source) (x : Header × Option Error × Source)
    : Type 0 where
  pub after : Source
  pub result : x ≡ (h, none, after)
  pub remains : content after ≡ rest
  pub same_last : after.last ≡ r.last

pub after_extra-Decodes :
    (h0 h : Header) (len k : ℕ) (r : Source) (bts rest : Bytes)
    → content r ≡ bts ++ rest
    → k ≡ length bts
    → read_extra h0 len bts ≡ (h, none)
    → Decodes h rest r (after_extra h0 len (read_full k r))
after_extra-Decodes h0 h len k r bts rest e hk he =
    let f = read_full-Reads k r bts rest e (sym hk) in
    record {
      after = f.after;
      result = rw (f.result, he);
      remains = f.remains;
      same_last = f.same_last;
    }

pub read_extra_short :
    (h : Header) (len : ℕ) (m : Mask)
    → len ≤ 125
    → h.masked ≡ true
    → read_extra h len (mask_bytes m) ≡ (record h { mask = m }, none)
unfolding read_extra
read_extra_short h len m hl hm = ground arith

-- The mask bytes behind an extended length.
abbrev pub mask_tail : Header → Bytes
mask_tail h = if h.masked then mask_bytes h.mask else []

with_mask_tail :
    (h : Header) (n : ℕ)
    → (h.masked ≡ false → h.mask ≡ zero_mask)
    → with_mask (record h { len = pos n; mask = zero_mask }) (mask_tail h)
      ≡ record h { len = pos n }
unfolding with_mask
with_mask_tail h n plain = ground arith

pub read_extra_mid :
    (h : Header) (n : ℕ)
    → n < 2 ^ 16
    → (h.masked ≡ false → h.mask ≡ zero_mask)
    → read_extra (record h { len = pos 0; mask = zero_mask }) 126 (put_be 2 n ++ mask_tail h)
      ≡ (record h { len = pos n }, none)
unfolding read_extra put_be
read_extra_mid h n hn plain = ground (arith, get_be-put_be_two n hn, with_mask_tail h n plain)

pub read_extra_long :
    (h : Header) (n : ℕ)
    → n < 2 ^ 63
    → (h.masked ≡ false → h.mask ≡ zero_mask)
    → read_extra (record h { len = pos 0; mask = zero_mask }) 127 (put_be 8 n ++ mask_tail h)
      ≡ (record h { len = pos n }, none)
unfolding read_extra put_be
read_extra_long h n hn plain = ground (
  arith,
  get_be-put_be_eight n (omega arith),
  top_bit (n / 256 ^ 7 % 256),
  with_mask_tail h n plain,
)
