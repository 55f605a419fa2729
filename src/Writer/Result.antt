-- ===== src/Writer/Result.antt =====
-- How a call of the writer ends: with a value, in a panic, or past the rounds that the model allows
-- its loop.
pub data Result {ℓ} (A : Type ℓ) : Type ℓ where
  ok : A → Result A
  panic : Result A
  stuck : Result A

infixl 5 ◌>>=◌
abbrev pub ◌>>=◌ {ℓ κ} : {A : Type ℓ} {B : Type κ} → Result A → (A → Result B) → Result B
ok a >>= f = f a
panic >>= f = panic
stuck >>= f = stuck
