-- ===== src/Text/Split.antt =====
-- util.go: `bsplit3` and `btrim`.
use mogusocket.Common.{
  ℕ, suc, ◌+◌, ◌||◌, Bool, Option, none, some, [], ◌∷◌, Bytes, take, drop, ◌==◌, if◌then◌else◌,
}

-- bytes.IndexByte; `none` for -1.
unfoldable pub index_byte : Bytes → ℕ → Option ℕ
index_byte [] c = none
index_byte (b ∷ bts) c =
    let rest : Option ℕ = elim (index_byte bts c) [ none ↦ none | some i ↦ some (suc i) ] in
    if b == c then some 0 else rest

-- Where no separator is found, the second and third part are nil.
unfoldable pub bsplit3 : Bytes → ℕ → Bytes × Bytes × Bytes
bsplit3 bts sep = elim (index_byte bts sep) [
  | none ↦ (bts, [], [])
  | some a ↦ elim (index_byte (drop (a + 1) bts) sep) [
    | none ↦ (bts, [], [])
    | some b ↦ (take a bts, take b (drop (a + 1) bts), drop (b + (a + 1) + 1) bts)
  ]
]

unfoldable pub is_blank : ℕ → Bool
is_blank c = c == 0x20 || c == 0x09

-- The first loop of `btrim`: what is left of the slice.
unfoldable pub trim_left : Bytes → Bytes
trim_left [] = []
trim_left (c ∷ bts) = let rest = trim_left bts in if is_blank c then rest else c ∷ bts

-- The second loop, which goes on only behind `i`.
unfoldable pub trim_right : Bytes → Bytes
trim_right [] = []
trim_right (c ∷ bts) = elim (trim_right bts) [
  | [] ↦ if is_blank c then [] else c ∷ []
  | d ∷ ds ↦ c ∷ d ∷ ds
]

unfoldable pub btrim : Bytes → Bytes
btrim bts = trim_right (trim_left bts)
