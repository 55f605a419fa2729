-- ===== src/Codec/RoundTrip.antt =====
-- What `WriteHeader` and `WriteFrame` write, `ReadHeader` and `ReadFrame` read back.
use mogusocket.Common.{
  ℕ, ◌+◌, ◌^◌, ◌≤◌, ◌<◌, ◌≡◌, refl, ap, ◌∙◌, not, none, some, [], ◌∷◌, ◌++◌, append-nil, arith, inl,
  inr, Bytes, length, bit_and, bit_or, leb, ◌==◌, if◌then◌else◌, Bool-cases, length-append,
}
use mogusocket.Common.Words.{pos, put_be, length-put_be}
use mogusocket.Cipher.{mask_bytes}
use mogusocket.Stream.{Source, content}
use mogusocket.Stream.Laws.{read_full-Reads}
use mogusocket.Frame.Header.{Header, zero_mask}
use mogusocket.Codec.Write.{bit0, first_byte, length_bytes, header_bytes, header_size}
use mogusocket.Codec.Read.{read_sized, read_rest, read_header}
use mogusocket.Codec.Bits.{low_seven, top_bit, set_top_bit}
use mogusocket.Codec.Extra.{
  IsWire, Decodes, read_head-first_byte, after_extra-Decodes, read_extra_short, mask_tail,
  read_extra_mid, read_extra_long,
}

-- The header as `read_rest` builds it before the extra bytes.
abbrev bare : Header → Header
bare h = record h { len = pos 0; mask = zero_mask }

-- The second byte of a header whose length field is `l`.
abbrev second_byte : Header → ℕ → ℕ
second_byte h l = if h.masked then bit_or l bit0 else l

second_byte_lem :
    (h : Header) (l : ℕ)
    → l < 128
    → (bit_and (second_byte h l) 0x7f ≡ l) × (not (bit_and (second_byte h l) bit0 == 0) ≡ h.masked)
second_byte_lem h l hl =
    ground (arith, set_top_bit l hl, low_seven (second_byte h l), top_bit (second_byte h l))

module _ (h : Header) (w : IsWire h) (r : Source) (rest : Bytes) where
  read_rest_lem :
      (l : ℕ) → l < 128 → read_rest (first_byte h) (second_byte h l) r ≡ read_sized (bare h) l r
  unfolding read_rest
  read_rest_lem l hl =
      let two = second_byte_lem h l hl in
      let head = read_head-first_byte h (second_byte h l) w.rsv_bits w.op_bits two.1 in
      rw (two.0, head)

  sized : record h { len = pos w.size } ≡ h
  sized = ground (arith, w.len_is)

  tail_length : (k n : ℕ) → (if h.masked then 4 else 0) + k ≡ length (put_be k n ++ mask_tail h)
  tail_length k n = ground (arith, length-append (put_be k n) (mask_tail h), length-put_be k n)

  read_short :
      w.size ≤ 125
      → content r ≡ mask_tail h ++ rest
      → Decodes h rest r (read_sized (bare h) w.size r)
  unfolding read_sized
  read_short hn e = elim (Bool-cases h.masked) [
    | inl yes_mask ↦
        let extra =
          read_extra_short (record h { len = pos w.size; mask = zero_mask }) w.size h.mask hn
            yes_mask
          ∙ ap (λ (x : Header). (x, none)) sized in
        let d =
          after_extra-Decodes (record h { len = pos w.size; mask = zero_mask }) h w.size 4 r
            (mask_bytes h.mask) rest (rw yes_mask at e) refl extra in
        record {
          after = d.after;
          result = ground (arith, d.result);
          remains = d.remains;
          same_last = d.same_last;
        }
    | inr no_mask ↦ record {
      after = r;
      result = ground (arith, w.plain no_mask, sized);
      remains = rw no_mask at e;
      same_last = refl;
    }
  ]

  read_mid :
      w.size < 2 ^ 16
      → content r ≡ (put_be 2 w.size ++ mask_tail h) ++ rest
      → Decodes h rest r (read_sized (bare h) 126 r)
  unfolding read_sized
  read_mid hn e =
      after_extra-Decodes (bare h) h 126 ((if h.masked then 4 else 0) + 2) r
        (put_be 2 w.size ++ mask_tail h) rest e (tail_length 2 w.size)
        (read_extra_mid h w.size hn w.plain ∙ ap (λ (x : Header). (x, none)) sized)

  read_long :
      content r ≡ (put_be 8 w.size ++ mask_tail h) ++ rest
      → Decodes h rest r (read_sized (bare h) 127 r)
  unfolding read_sized
  read_long e =
      after_extra-Decodes (bare h) h 127 ((if h.masked then 4 else 0) + 8) r
        (put_be 8 w.size ++ mask_tail h) rest e (tail_length 8 w.size)
        (read_extra_long h w.size w.fits w.plain ∙ ap (λ (x : Header). (x, none)) sized)

-- The bytes of a header with length field `l` and extended length `ext`.
abbrev layout : Header → ℕ → Bytes → Bytes
layout h l ext = first_byte h ∷ second_byte h l ∷ (ext ++ mask_tail h)

header_bytes-layout :
    (h : Header) (l : ℕ) (ext : Bytes)
    → length_bytes h.len ≡ some (l, ext)
    → header_bytes h ≡ some (layout h l ext)
unfolding header_bytes
header_bytes-layout h l ext e =
    rw (e, header_bytes)
      (elim (Bool-cases h.masked) [
        | inl yes_mask ↦ rw yes_mask
        | inr no_mask ↦ rw (no_mask, append-nil)
      ])

-- Reading what has this layout, once the part behind the first two bytes is read.
read_header-layout :
    (h : Header) (w : IsWire h) (r : Source) (rest : Bytes) (l : ℕ) (ext : Bytes)
    → l < 128
    → content r ≡ layout h l ext ++ rest
    → ((s : Source)
        → content s ≡ (ext ++ mask_tail h) ++ rest
        → Decodes h rest s (read_sized (bare h) l s))
    → Decodes h rest r (read_header r)
unfolding read_header
read_header-layout h w r rest l ext hl e next =
    let f =
      read_full-Reads 2 r (first_byte h ∷ second_byte h l ∷ []) ((ext ++ mask_tail h) ++ rest) e
        refl in
    let d = next f.after f.remains in
    record {
      after = d.after;
      result = rw f.result (read_rest_lem h w f.after rest l hl ∙ d.result);
      remains = d.remains;
      same_last = d.same_last ∙ f.same_last;
    }

-- The encoding of a header that the wire can carry: its bytes, and how they are read back.
pub record Encoding (h : Header) : Type 0 where
  pub bytes : Bytes
  pub encodes : header_bytes h ≡ some bytes
  pub sizes : header_size h ≡ pos (length bytes)
  pub decodes :
      (r : Source) (rest : Bytes) → content r ≡ bytes ++ rest → Decodes h rest r (read_header r)

length-layout :
    (h : Header) (l : ℕ) (ext : Bytes)
    → length (layout h l ext) ≡ 2 + length ext + (if h.masked then 4 else 0)
length-layout h l ext = ground (arith, length-append ext (mask_tail h))

pub header-Encoding : (h : Header) → IsWire h → Encoding h
unfolding length_bytes header_size
header-Encoding h w = elim (Bool-cases (leb w.size 125)) [
  | inl short ↦ record {
    bytes = layout h w.size [];
    encodes = header_bytes-layout h w.size [] (ground (arith, w.len_is));
    sizes = ground (arith, w.len_is, length-layout h w.size []);
    decodes = λ r rest e.
        read_header-layout h w r rest w.size [] (ground arith) e
          (λ s e'. read_short h w s rest (ground arith) e');
  }
  | inr long ↦ elim (Bool-cases (leb w.size 65535)) [
    | inl mid ↦ record {
      bytes = layout h 126 (put_be 2 w.size);
      encodes = header_bytes-layout h 126 (put_be 2 w.size) (ground (arith, w.len_is));
      sizes =
          ground (arith, w.len_is, length-layout h 126 (put_be 2 w.size), length-put_be 2 w.size);
      decodes = λ r rest e.
          read_header-layout h w r rest 126 (put_be 2 w.size) (omega arith) e
            (λ s e'. read_mid h w s rest (ground arith) e');
    }
    | inr huge ↦ record {
      bytes = layout h 127 (put_be 8 w.size);
      encodes = header_bytes-layout h 127 (put_be 8 w.size) (ground (arith, w.len_is, w.fits));
      sizes =
          ground (
            arith,
            w.len_is,
            w.fits,
            length-layout h 127 (put_be 8 w.size),
            length-put_be 8 w.size,
          );
      decodes = λ r rest e.
          read_header-layout h w r rest 127 (put_be 8 w.size) (omega arith) e
            (λ s e'. read_long h w s rest e');
    }
  ]
]
