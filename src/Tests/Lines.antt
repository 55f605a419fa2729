-- ===== src/Tests/Lines.antt =====
-- Text of HTTP.
use mogusocket.Common.{◌≡◌, ◌∷◌, ◌≢◌, ◌↔◌, ◌^◌, inl, inr, refl, none, some, [], arith, All}
use mogusocket.Common.Words.{pos, u64, to_i64}
use mogusocket.Text.Codes.{codes}
use mogusocket.Text.Numbers.{ascii_to_int, add_digits, pow}
use mogusocket.Text.Split.{btrim, bsplit3}
use mogusocket.Text.Keys.{canonicalize_header_key}
use mogusocket.Text.Laws.{bsplit3-join3}
use mogusocket.Text.Power.{pow-power}
use mogusocket.Text.Decimal.{decimal, ascii_to_int-decimal}
use mogusocket.Text.Digits.{IsDigitLike, ascii_to_int-IsDigitLike}
use mogusocket.Text.Canonical.{canonicalize_header_key-title_case}
use mogusocket.Text.Blanks.{btrim-append}

bsplit3-join3_example :
    bsplit3 (codes "GET / HTTP/1.1") 0x20 ≡ (codes "GET", codes "/", codes "HTTP/1.1")
bsplit3-join3_example =
    bsplit3-join3 0x20 (codes "GET") (codes "/") (codes "HTTP/1.1") (omega arith) (omega arith)

-- `:` passes for the digit 10.
ascii_to_int-colon : ascii_to_int (codes "1:") ≡ some (pos 20)
unfolding ascii_to_int add_digits pow
ascii_to_int-colon = refl

ascii_to_int-IsDigitLike_example :
    (ascii_to_int (codes "101") ≢ none) ↔ ((codes "101" ≢ []) × All IsDigitLike (codes "101"))
ascii_to_int-IsDigitLike_example = ascii_to_int-IsDigitLike (codes "101") (omega arith)

canonicalize_header_key-title_case_example :
    canonicalize_header_key (codes "sec-websocket-KEY") ≡ codes "Sec-Websocket-Key"
canonicalize_header_key-title_case_example =
    canonicalize_header_key-title_case (codes "sec-websocket-KEY") (omega arith)

btrim-append_example : btrim (9 ∷ codes " 13 ") ≡ codes "13"
btrim-append_example =
    btrim-append (9 ∷ codes " ") (codes "3") (codes " ") 0x31 (inr refl, (inl refl, tt))
      (inl refl, tt) (omega arith) (omega arith)

pow-power_example : pow 10 19 ≡ u64 (10 ^ 19)
pow-power_example = pow-power 10 19

ascii_to_int-decimal_example :
    ascii_to_int (codes "101") ≡ some (to_i64 (u64 (decimal 0 (codes "101"))))
ascii_to_int-decimal_example =
    ascii_to_int-decimal 0x31 (codes "01")
      ((omega arith, omega arith), ((omega arith, omega arith), ((omega arith, omega arith), tt)))
