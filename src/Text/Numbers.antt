-- ===== src/Text/Numbers.antt =====
-- util.go: `asciiToInt` and `pow`. An int has 64 bits, written here as the number of its bits.
use mogusocket.Common.{
  ℕ, zero, suc, ◌+◌, ◌*◌, ◌/◌, bit_and, Option, none, some, [], ◌∷◌, Bytes, length, ltb, ◌==◌,
  if◌then◌else◌,
}
use mogusocket.Common.Words.{ℤ, u64, to_i64}

-- The loop of `pow`, with its rounds left.
unfoldable pub pow_loop : ℕ → ℕ → ℕ → ℕ → ℕ
pow_loop zero a b p = p
pow_loop (suc left) a b p =
    let p' = if bit_and b 1 == 0 then p else u64 (p * a) in
    let rest = pow_loop left (u64 (a * a)) (b / 2) p' in if ltb 0 b then rest else p

-- `b` halves in each round.
unfoldable pub pow : ℕ → ℕ → ℕ
unfolding pow_loop
pow a b = pow_loop b a b 1

-- The loop of `asciiToInt` on the bytes that are left; `n-i-1` is their number less one.
unfoldable pub add_digits : ℕ → Bytes → Option ℕ
add_digits ret [] = some ret
add_digits ret (c ∷ bts) =
    let rest = add_digits (u64 (ret + bit_and c 0xf * pow 10 (length bts))) bts in
    if bit_and c 0xf0 == 0x30 then rest else none

-- `none` is an error, with the int 0.
unfoldable pub ascii_to_int : Bytes → Option ℤ
unfolding add_digits
ascii_to_int [] = none
ascii_to_int (c ∷ bts) = elim (add_digits 0 (c ∷ bts)) [ none ↦ none | some n ↦ some (to_i64 n) ]
