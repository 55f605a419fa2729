-- ===== src/Text/Select.antt =====
-- util.go: `SelectFromSlice`, `SelectEqual`, `nonZero`.
use mogusocket.Common.{
  ℕ, Bool, true, false, ◌||◌, List, [], ◌∷◌, Bytes, ◌==◌, if◌then◌else◌, ltb, length,
}

-- `p == q` for strings.
unfoldable pub same_bytes : Bytes → Bytes → Bool
same_bytes [] [] = true
same_bytes [] (y ∷ ys) = false
same_bytes (x ∷ xs) [] = false
same_bytes (x ∷ xs) (y ∷ ys) = let rest = same_bytes xs ys in if x == y then rest else false

-- The loop over the slice, with its early return.
unfoldable pub scan_slice : List Bytes → Bytes → Bool
scan_slice [] p = false
scan_slice (ok ∷ accept) p =
    let rest = scan_slice accept p in if same_bytes p ok then true else rest

-- A `map[string]struct{}` by the test whether a key is in it; the loop that fills it.
unfoldable pub fill_map : List Bytes → (Bytes → Bool) → Bytes → Bool
fill_map [] mp = mp
fill_map (p ∷ accept) mp = fill_map accept (λ q. same_bytes q p || mp q)

unfoldable pub select_from_slice : List Bytes → Bytes → Bool
unfolding fill_map scan_slice
select_from_slice accept =
    if ltb 16 (length accept) then fill_map accept (λ q. false) else scan_slice accept

unfoldable pub select_equal : Bytes → Bytes → Bool
select_equal v p = same_bytes v p

unfoldable pub non_zero : ℕ → ℕ → ℕ
non_zero a b = if a == 0 then b else a
