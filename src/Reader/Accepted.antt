-- ===== src/Reader/Accepted.antt =====
-- msutil/reader.go: which frames `NextFrame` lets through.
use mogusocket.Common.{
  ℕ, Bool, ◌+◌, ◌==◌, if◌then◌else◌, ◌≡◌, ◌⊎◌, ◌<◌, refl, sym, ap, subst, ◌∙◌, true, false, Option,
  none, some, [], arith, Bytes, ltb, get_or, bit_and,
}
use mogusocket.Common.Words.{pos, le_ℤ}
use mogusocket.Errors.{Error, eof}
use mogusocket.Stream.{Source, read_full}
use mogusocket.Frame.Header.{Header}
use mogusocket.Check.{check_header}
use mogusocket.Check.Rules.{IsCompliant, check_header_iff}
use mogusocket.Codec.Bits.{low_nibble}
use mogusocket.Codec.Read.{
  read_header, after_head, read_rest, read_head, read_sized, after_extra, read_extra,
}
use mogusocket.Reader.Messages.{Reader, header_error, with_header, unset_bits, next_frame}

-- The header of a frame that a reader lets through: what ReadHeader made of the bytes, it keeps the
-- rules of the protocol in the reader's state, and its length is within the limit, if there is one.
pub record IsLetThrough {S : Type 0} (r : Reader S) (hdr : Header) : Type 0 where
  pub after : Source
  pub reads : read_header r.body.source ≡ (hdr, none, after)
  pub compliant : IsCompliant hdr r.state
  pub limited : (r.max_frame_size ≡ 0) ⊎ (le_ℤ hdr.len r.max_frame_size ≡ true)

read_extra-op_code :
    (h : Header) (len : ℕ) (bts : Bytes) → (read_extra h len bts).0.op_code ≡ h.op_code
unfolding read_extra
read_extra-op_code h len bts = ground arith

after_extra-op_code :
    (h : Header) (len : ℕ) (x : Bytes × Option Error × Source)
    → (after_extra h len x).0.op_code ≡ h.op_code
after_extra-op_code h len (bts, none, r) = read_extra-op_code h len bts
after_extra-op_code h len (bts, some e, r) = refl

either_branch :
    {k : ℕ} (c : Bool) (x y : Header × Option Error × Source)
    → x.0.op_code ≡ k
    → y.0.op_code ≡ k
    → (if c then x else y).0.op_code ≡ k
either_branch true x y hx hy = hx
either_branch false x y hx hy = hy

read_sized-op_code :
    (h : Header) (len : ℕ) (r : Source) → (read_sized h len r).0.op_code ≡ h.op_code
unfolding read_sized
read_sized-op_code h len r =
    let extra : ℕ = if h.masked then 4 else 0 in
    either_branch (ltb len 126) _ _
      (either_branch (extra == 0) _ _ refl
        (after_extra-op_code (record h { len = pos len }) len (read_full extra r)))
      (either_branch (len == 126) _ _ (after_extra-op_code h len (read_full (extra + 2) r))
        (either_branch (len == 127) _ _ (after_extra-op_code h len (read_full (extra + 8) r)) refl))

-- ReadHeader reads an opcode of four bits.
after_head-op_code : (x : Bytes × Option Error × Source) → (after_head x).0.op_code < 16
unfolding read_rest read_head
after_head-op_code (bts, none, r) = omega (
  arith,
  read_sized-op_code (read_head (get_or bts 0 0) (get_or bts 1 0)) (bit_and (get_or bts 1 0) 0x7f)
      r,
  low_nibble (get_or bts 0 0),
)
after_head-op_code (bts, some e, r) = omega arith

header_error-passed :
    {S : Type 0}
    → (hdr : Header) (err : Option Error) (r : Reader S) → header_error hdr err r ≡ none
    → r.skip_header_check ≡ false
    → (err ≡ none)
      × (check_header hdr r.state ≡ none)
      × ((r.max_frame_size ≡ 0) ⊎ (le_ℤ hdr.len r.max_frame_size ≡ true))
unfolding header_error
header_error-passed hdr (some eof) r h checked = ground arith
header_error-passed hdr (some e) r h checked = ground arith
header_error-passed hdr none r h checked = ground arith

with_header-passed :
    {S : Type 0}
    → (r : Reader S) (hdr : Header) (err : Option Error) (src : Source) → r.extensions ≡ []
    → (with_header r (hdr, err, src)).1 ≡ none
    → ((with_header r (hdr, err, src)).0 ≡ hdr)
      × (header_error hdr err (record r { body = record r.body { source = src } }) ≡ none)
unfolding unset_bits
with_header-passed r hdr err src plain h = ground arith

with_header-IsLetThrough :
    {S : Type 0}
    → (r : Reader S) (x : Header × Option Error × Source) → read_header r.body.source ≡ x
    → x.0.op_code < 16
    → r.extensions ≡ []
    → r.skip_header_check ≡ false
    → r.state < 256
    → (with_header r x).1 ≡ none
    → IsLetThrough r (with_header r x).0
with_header-IsLetThrough r (hdr, err, src) reads small plain checked fits h =
    let (same, passed) = with_header-passed r hdr err src plain h in
    let (fine, compliant, limited) =
      header_error-passed hdr err (record r { body = record r.body { source = src } }) passed
        checked in
    subst (IsLetThrough r) (sym same) (record {
      after = src;
      reads = reads ∙ ap (λ e. (hdr, e, src)) fine;
      compliant = (check_header_iff hdr r.state small fits).0 compliant;
      limited = limited;
    })

-- Where the header check is on and there are no extensions, for a reader with a state of one byte, a
-- header that NextFrame returns without an error is what ReadHeader made of the bytes, keeps the rules
-- of the protocol in the state of the reader, and has a length of at most MaxFrameSize, if that is not
-- 0.
pub next_frame-IsLetThrough :
    {S : Type 0}
    → (r : Reader S) → r.extensions ≡ []
    → r.skip_header_check ≡ false
    → r.state < 256
    → (next_frame r).1 ≡ none
    → IsLetThrough r (next_frame r).0
unfolding next_frame read_header
next_frame-IsLetThrough r plain checked fits h =
    with_header-IsLetThrough r (read_header r.body.source) refl
      (after_head-op_code (read_full 2 r.body.source)) plain checked fits h
