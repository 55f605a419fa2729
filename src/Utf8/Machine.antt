-- ===== src/Utf8/Machine.antt =====
-- The transition table as ranges of bytes (table 3-7 of the Unicode standard).
use mogusocket.Common.{ℕ, ◌<◌, ◌≡◌, refl, ◌&&◌, ltb, leb, ◌==◌, if◌then◌else◌}
use mogusocket.Common.Bits.{agree, all_below}
use mogusocket.Utf8.{decode}

-- What is left of the current sequence.
pub data State : Type 0 where
  start reject one two after_e0 after_ed after_f0 three after_f4 : State

-- The numbers by which the table knows the states.
abbrev pub number : State → ℕ
number start = 0
number reject = 12
number one = 24
number two = 36
number after_e0 = 48
number after_ed = 60
number after_f0 = 72
number three = 84
number after_f4 = 96

abbrev pub within : ℕ → ℕ → ℕ → State → State
within lo hi b s = if leb lo b && leb b hi then s else reject

unfoldable pub next : State → ℕ → State
next start b =
    if ltb b 0x80
    then start
    else if ltb b 0xc2
    then reject
    else if ltb b 0xe0
    then one
    else if b == 0xe0
    then after_e0
    else if b == 0xed
    then after_ed
    else if ltb b 0xf0
    then two
    else if b == 0xf0
    then after_f0
    else if ltb b 0xf4
    then three
    else if b == 0xf4
    then after_f4
    else reject
next reject b = reject
next one b = within 0x80 0xbf b start
next two b = within 0x80 0xbf b one
next after_e0 b = within 0xa0 0xbf b one
next after_ed b = within 0x80 0x9f b one
next after_f0 b = within 0x90 0xbf b two
next three b = within 0x80 0xbf b two
next after_f4 b = within 0x80 0x8f b two

-- The state that the table gives, which does not depend on the code point.
abbrev table_next : ℕ → ℕ → ℕ
table_next s b = (decode s 0 b).1

pub decode-next :
    (s : State) (codep b : ℕ) → b < 256 → (decode (number s) codep b).1 ≡ number (next s b)
unfolding decode next all_below
decode-next start codep b h = agree 256 (table_next 0) (λ b. number (next start b)) refl b h
decode-next reject codep b h = agree 256 (table_next 12) (λ b. 12) refl b h
decode-next one codep b h = agree 256 (table_next 24) (λ b. number (next one b)) refl b h
decode-next two codep b h = agree 256 (table_next 36) (λ b. number (next two b)) refl b h
decode-next after_e0 codep b h = agree 256 (table_next 48) (λ b. number (next after_e0 b)) refl b h
decode-next after_ed codep b h = agree 256 (table_next 60) (λ b. number (next after_ed b)) refl b h
decode-next after_f0 codep b h = agree 256 (table_next 72) (λ b. number (next after_f0 b)) refl b h
decode-next three codep b h = agree 256 (table_next 84) (λ b. number (next three b)) refl b h
decode-next after_f4 codep b h = agree 256 (table_next 96) (λ b. number (next after_f4 b)) refl b h
