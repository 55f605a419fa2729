-- ===== src/Text/Keys.antt =====
-- util.go: `canonicalizeHeaderKey`.
use mogusocket.Common.{
  ℕ, ◌-◌, ◌&&◌, not, Bool, true, bit_and, bit_or, [], ◌∷◌, Bytes, leb, ◌==◌, if◌then◌else◌,
}

abbrev pub to_lower : ℕ
to_lower = 0x61 - 0x41

-- `^byte(toLower)`
abbrev pub to_upper : ℕ
to_upper = 255 - to_lower

unfoldable pub canonical_byte : Bool → ℕ → ℕ
canonical_byte upper c =
    if upper && leb 0x61 c && leb c 0x7a
    then bit_and c to_upper
    else if not upper && leb 0x41 c && leb c 0x5a
    then bit_or c to_lower
    else c

-- The loop, with `upper`.
unfoldable pub canonical_from : Bool → Bytes → Bytes
canonical_from upper [] = []
canonical_from upper (c ∷ k) = canonical_byte upper c ∷ canonical_from (c == 0x2d) k

unfoldable pub canonicalize_header_key : Bytes → Bytes
canonicalize_header_key k = canonical_from true k
