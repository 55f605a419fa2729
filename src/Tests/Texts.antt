-- ===== src/Tests/Texts.antt =====
-- UTF-8.
use mogusocket.Common.{◌≡◌, ◌≢◌, ◌↔◌, refl, true, none, some, [], ◌∷◌, ◌++◌, arith, Bytes}
use mogusocket.Errors.{eof, invalid_utf8}
use mogusocket.Stream.{Source, read}
use mogusocket.Utf8.{decode}
use mogusocket.Utf8.Run.{decode_run}
use mogusocket.Utf8.Scalars.{IsUtf8}
use mogusocket.Utf8.Validity.{decode_run-IsUtf8}
use mogusocket.Utf8.Reader.{Utf8Reader, new_utf8_reader, utf8_read, scan, valid}
use mogusocket.Utf8.Reader.Laws.{Session, idle, more, valid-IsUtf8, utf8_read-refuses}

-- The euro sign, in two pieces, and then a byte that no text holds.
abbrev euro_source : Source
euro_source = record { chunks = (0xe2 ∷ 0x82 ∷ []) ∷ (0xac ∷ []) ∷ (0xff ∷ []) ∷ []; last = eof }

abbrev euro : Bytes
euro = 0xe2 ∷ 0x82 ∷ 0xac ∷ []

decode_run-IsUtf8_example : ((decode_run 0 0 euro).1 ≡ 0) ↔ IsUtf8 euro
decode_run-IsUtf8_example = decode_run-IsUtf8 0 euro (omega arith)

abbrev second : Utf8Reader
second = record {
  source = record { chunks = (0xac ∷ []) ∷ (0xff ∷ []) ∷ []; last = eof };
  accepted = 0;
  state = 24;
  codep = 0x82;
}

abbrev third : Utf8Reader
third = record {
  source = record { chunks = (0xff ∷ []) ∷ []; last = eof };
  accepted = 1;
  state = 0;
  codep = 0x20ac;
}

abbrev fourth : Utf8Reader
fourth = record {
  source = record { chunks = []; last = eof };
  accepted = 1;
  state = 12;
  codep = 0x20ac;
}

first_read : utf8_read 8 (new_utf8_reader euro_source) ≡ (2, 0xe2 ∷ 0x82 ∷ [], none, second)
unfolding utf8_read new_utf8_reader scan decode read
first_read = refl

second_read : utf8_read 8 second ≡ (1, 0xac ∷ [], none, third)
unfolding utf8_read scan decode read
second_read = refl

third_read : utf8_read 8 third ≡ (0, 0xff ∷ [], some invalid_utf8, fourth)
unfolding utf8_read scan decode read
third_read = refl

euro-Session : Session (new_utf8_reader euro_source) euro third
euro-Session = more 8 2 first_read (more 8 1 second_read idle)

valid-IsUtf8_example : (valid third ≡ true) ↔ IsUtf8 euro
valid-IsUtf8_example = valid-IsUtf8 euro_source euro third euro-Session (omega arith)

own_error : (read 8 third.source).1 ≢ some invalid_utf8
unfolding read
own_error e = cc

utf8_read-refuses_example : ¬ IsUtf8 (euro ++ (0xff ∷ 65 ∷ []))
utf8_read-refuses_example =
    utf8_read-refuses euro_source euro (0xff ∷ []) (65 ∷ []) third fourth 8 0 euro-Session own_error
      third_read (omega arith) (omega arith) (omega arith)
