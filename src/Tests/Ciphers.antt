-- ===== src/Tests/Ciphers.antt =====
-- Masking.
use mogusocket.Common.{◌≡◌, refl, [], ◌∷◌, ◌++◌, arith, Bytes}
use mogusocket.Cipher.{Mask, cipher, xor_bytes, xor_words, double_mask}
use mogusocket.Cipher.Loops.{mask_from}
use mogusocket.Cipher.Equivalence.{cipher-mask_from, cipher-append}
use mogusocket.Common.Words.{get_le, put_le}

abbrev sample_mask : Mask
sample_mask = record { b0 = 1; b1 = 2; b2 = 3; b3 = 4 }

-- Twelve bytes: from offset 1 there are 3 single bytes, one word and one byte.
abbrev twelve : Bytes
twelve = 0 ∷ 1 ∷ 2 ∷ 3 ∷ 4 ∷ 5 ∷ 6 ∷ 7 ∷ 8 ∷ 9 ∷ 10 ∷ 255 ∷ []

cipher-twelve :
    cipher twelve sample_mask 1 ≡ 2 ∷ 2 ∷ 6 ∷ 2 ∷ 6 ∷ 6 ∷ 2 ∷ 6 ∷ 10 ∷ 10 ∷ 14 ∷ 254 ∷ []
unfolding cipher xor_bytes xor_words double_mask get_le put_le
cipher-twelve = refl

cipher-mask_from_example : cipher twelve sample_mask 1 ≡ mask_from sample_mask 1 twelve
cipher-mask_from_example = cipher-mask_from twelve sample_mask 1 (omega arith) (omega arith)

cipher-append_example :
    cipher (twelve ++ twelve) sample_mask 7
    ≡ cipher twelve sample_mask 7 ++ cipher twelve sample_mask 19
cipher-append_example = cipher-append twelve twelve sample_mask 7 (omega arith) (omega arith)
