-- ===== src/Text/Canonical.antt =====
-- util.go: `canonicalizeHeaderKey` writes a key in title case, and settles in one step.
use mogusocket.Common.{
  ℕ, ◌+◌, ◌-◌, ◌&&◌, leb, ◌≡◌, refl, ap, ap₂, ◌∙◌, Bool, true, false, [], ◌∷◌, arith, Bytes, ◌==◌,
  if◌then◌else◌,
}
use mogusocket.Common.Bits.{agree, all_below}
use mogusocket.Common.Words.{AreBytes, IsByte}
use mogusocket.Text.Keys.{canonical_byte, canonical_from, canonicalize_header_key}

byte_settles :
    (upper : Bool) (c : ℕ)
    → IsByte c
    → canonical_byte upper (canonical_byte upper c) ≡ canonical_byte upper c
unfolding all_below canonical_byte
byte_settles true c byte =
    agree 256 (λ i. canonical_byte true (canonical_byte true i)) (λ i. canonical_byte true i) refl c
      byte
byte_settles false c byte =
    agree 256 (λ i. canonical_byte false (canonical_byte false i)) (λ i. canonical_byte false i)
      refl c byte

abbrev dash : ℕ → ℕ
dash c = if c == 0x2d then 1 else 0

dash_stays : (upper : Bool) (c : ℕ) → IsByte c → dash (canonical_byte upper c) ≡ dash c
unfolding all_below canonical_byte
dash_stays true c byte = agree 256 (λ i. dash (canonical_byte true i)) dash refl c byte
dash_stays false c byte = agree 256 (λ i. dash (canonical_byte false i)) dash refl c byte

same_dash : (x y : ℕ) → dash x ≡ dash y → (x == 0x2d) ≡ (y == 0x2d)
same_dash x y h = ground arith

from_settles :
    (upper : Bool) (k : Bytes)
    → AreBytes k
    → canonical_from upper (canonical_from upper k) ≡ canonical_from upper k
unfolding canonical_from
from_settles upper [] bytes = refl
from_settles upper (c ∷ k) (byte, bytes) =
    let next = same_dash (canonical_byte upper c) c (dash_stays upper c byte) in
    ap₂ (λ (x : ℕ) (t : Bytes). x ∷ t) (byte_settles upper c byte)
      (ap (λ b. canonical_from b (canonical_from (c == 0x2d) k)) next
        ∙ from_settles (c == 0x2d) k bytes)

-- A canonical header key is its own canonical form.
pub canonicalize_header_key_idem :
    (k : Bytes)
    → AreBytes k
    → canonicalize_header_key (canonicalize_header_key k) ≡ canonicalize_header_key k
unfolding canonicalize_header_key
canonicalize_header_key_idem k bytes = from_settles true k bytes

-- The letters a to z and A to Z, the others as they are.
abbrev pub raised : ℕ → ℕ
raised c = if leb 97 c && leb c 122 then c - 32 else c

abbrev pub lowered : ℕ → ℕ
lowered c = if leb 65 c && leb c 90 then c + 32 else c

-- Title case: a capital at the start, as `first` tells, and behind each dash, small letters elsewhere.
abbrev pub title_case : Bool → Bytes → Bytes
title_case first [] = []
title_case first (c ∷ k) = (if first then raised c else lowered c) ∷ title_case (c == 45) k

canonical_byte-raised : (c : ℕ) → IsByte c → canonical_byte true c ≡ raised c
unfolding all_below canonical_byte
canonical_byte-raised c byte = agree 256 (λ i. canonical_byte true i) raised refl c byte

canonical_byte-lowered : (c : ℕ) → IsByte c → canonical_byte false c ≡ lowered c
unfolding all_below canonical_byte
canonical_byte-lowered c byte = agree 256 (λ i. canonical_byte false i) lowered refl c byte

canonical_from-title_case :
    (first : Bool) (k : Bytes) → AreBytes k → canonical_from first k ≡ title_case first k
unfolding canonical_from
canonical_from-title_case first [] bytes = refl
canonical_from-title_case true (c ∷ k) (byte, bytes) =
    ap₂ (λ (x : ℕ) (t : Bytes). x ∷ t) (canonical_byte-raised c byte)
      (canonical_from-title_case (c == 45) k bytes)
canonical_from-title_case false (c ∷ k) (byte, bytes) =
    ap₂ (λ (x : ℕ) (t : Bytes). x ∷ t) (canonical_byte-lowered c byte)
      (canonical_from-title_case (c == 45) k bytes)

-- canonicalizeHeaderKey writes a key of bytes in title case: the letters at the start and behind each dash as
-- capitals, all others small, and every other byte as it is.
pub canonicalize_header_key-title_case :
    (k : Bytes) → AreBytes k → canonicalize_header_key k ≡ title_case true k
unfolding canonicalize_header_key
canonicalize_header_key-title_case k bytes = canonical_from-title_case true k bytes
