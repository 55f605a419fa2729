-- ===== src/Text/Blanks.antt =====
-- util.go: what `btrim` leaves.
use mogusocket.Common.{
  ℕ, ◌≡◌, ◌≢◌, ◌⊎◌, inl, inr, arith, refl, ap, ◌∙◌, true, false, [], ◌∷◌, ◌++◌, Bytes, All,
}
use mogusocket.Text.Split.{is_blank, trim_left, trim_right, btrim}

-- The blanks of a header line: the space and the tab.
abbrev pub IsBlank : ℕ → Type 0
IsBlank c = (c ≡ 32) ⊎ (c ≡ 9)

abbrev pub IsSolid : ℕ → Type 0
IsSolid c = (c ≢ 32) × (c ≢ 9)

abbrev pub AreBlank : Bytes → Type 0
AreBlank = All IsBlank

-- The last byte, if there is one, is no blank.
abbrev pub EndsSolid : Bytes → Type 0
EndsSolid [] = Unit {0}
EndsSolid (c ∷ []) = IsSolid c
EndsSolid (c ∷ d ∷ bts) = EndsSolid (d ∷ bts)

is_blank-IsBlank : (c : ℕ) → IsBlank c → is_blank c ≡ true
unfolding is_blank
is_blank-IsBlank c (inl e) = rw e refl
is_blank-IsBlank c (inr e) = rw e refl

is_blank-IsSolid : (c : ℕ) → IsSolid c → is_blank c ≡ false
unfolding is_blank
is_blank-IsSolid c (space, tab) = ground (arith, space, tab)

trim_left-append :
    (l : Bytes) (c : ℕ) (x : Bytes) → AreBlank l → IsSolid c → trim_left (l ++ c ∷ x) ≡ c ∷ x
unfolding trim_left
trim_left-append [] c x blank solid = rw (is_blank-IsSolid c solid) refl
trim_left-append (b ∷ l) c x (here, blank) solid =
    rw (is_blank-IsBlank b here) (trim_left-append l c x blank solid)

trim_right_blank : (r : Bytes) → AreBlank r → trim_right r ≡ []
unfolding trim_right
trim_right_blank [] blank = refl
trim_right_blank (b ∷ r) (here, blank) = rw (trim_right_blank r blank, is_blank-IsBlank b here) refl

trim_right-append :
    (c : ℕ) (x r : Bytes) → AreBlank r → EndsSolid (c ∷ x) → trim_right (c ∷ x ++ r) ≡ c ∷ x
unfolding trim_right
trim_right-append c [] r blank solid = rw (trim_right_blank r blank, is_blank-IsSolid c solid) refl
trim_right-append c (d ∷ x) r blank solid = rw (trim_right-append d x r blank solid) refl

-- btrim removes the spaces and tabs around a text that starts and ends with another byte, and no
-- more.
pub btrim-append :
    (l x r : Bytes) (c : ℕ)
    → AreBlank l
    → AreBlank r
    → IsSolid c
    → EndsSolid (c ∷ x)
    → btrim (l ++ c ∷ (x ++ r)) ≡ c ∷ x
unfolding btrim
btrim-append l x r c before after starts ends =
    ap trim_right (trim_left-append l c (x ++ r) before starts) ∙ trim_right-append c x r after ends
