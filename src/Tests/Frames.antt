-- ===== src/Tests/Frames.antt =====
-- Frames, headers and close codes.
use mogusocket.Common.{
  ◌≡◌, ◌↔◌, refl, true, false, none, some, [], ◌∷◌, ◌++◌, ◌≤◌, ◌%◌, arith, Bytes, length,
}
use mogusocket.Common.Words.{pos}
use mogusocket.Cipher.{Mask}
use mogusocket.Errors.{eof, mask_required}
use mogusocket.Stream.{Source, content, fresh, write, written, read_full}
use mogusocket.Frame.Header.{Header, Frame, zero_header, is_control, is_reserved}
use mogusocket.Frame.Build.{
  new_text_frame, new_close_frame_body, parse_close_frame_data, mask_frame_with, unmask_frame,
}
use mogusocket.Frame.Laws.{
  parse_close_frame_data-new_close_frame_body, unmask_frame-mask_frame_with,
}
use mogusocket.Check.{check_header, check_close_frame_data, server_side}
use mogusocket.Check.Rules.{IsCompliant, check_header_iff, check_header-Breaks}
use mogusocket.Check.CloseCodes.{IsSendable, check_close_frame_data_iff}
use mogusocket.Codec.Write.{
  first_byte, length_bytes, header_bytes, header_size, write_header, write_frame,
}
use mogusocket.Codec.Read.{read_header, read_frame, read_rest, read_sized, read_head, read_extra}
use mogusocket.Codec.Extra.{IsWire, Decodes}
use mogusocket.Codec.Frames.{DecodesFrame, read_header-write_header, read_frame-write_frame}

abbrev key : Mask
key = record { b0 = 0x11; b1 = 0x22; b2 = 0x33; b3 = 0x44 }

abbrev hello : Bytes
hello = 72 ∷ 101 ∷ 108 ∷ 108 ∷ 111 ∷ []

-- A masked, final text frame of five bytes.
abbrev hello_header : Header
hello_header = record zero_header {
  fin = true;
  op_code = 1;
  masked = true;
  mask = key;
  len = pos 5;
}

abbrev hello_frame : Frame
hello_frame = record { header = hello_header; payload = hello }

hello_header-IsWire : IsWire hello_header
hello_header-IsWire = record {
  rsv_bits = omega arith;
  op_bits = omega arith;
  size = 5;
  len_is = refl;
  fits = omega arith;
  mask_is = omega arith;
  plain = λ e. cc;
}

hello_bytes : header_bytes hello_header ≡ some (0x81 ∷ 0x85 ∷ 0x11 ∷ 0x22 ∷ 0x33 ∷ 0x44 ∷ [])
unfolding header_bytes length_bytes first_byte
hello_bytes = refl

hello_read :
    (read_frame (record {
      chunks =
          (0x81 ∷ 0x85 ∷ 0x11 ∷ [])
          ∷ (0x22 ∷ 0x33 ∷ 0x44 ∷ 72 ∷ 101 ∷ [])
          ∷ (108 ∷ 108 ∷ 111 ∷ 9 ∷ [])
          ∷ [];
      last = eof;
    })).0
    ≡ hello_frame
unfolding read_frame read_header read_rest read_sized read_head read_extra read_full
hello_read = refl

read_header-write_header_example :
    (bts : Bytes) × (written (write_header hello_header fresh).1 ≡ [] ++ bts)
    × (header_size hello_header ≡ pos (length bts))
    × ((r : Source) (rest : Bytes)
        → content r ≡ bts ++ rest
        → Decodes hello_header rest r (read_header r))
unfolding write_header header_bytes length_bytes write
read_header-write_header_example =
    read_header-write_header hello_header fresh hello_header-IsWire refl

read_frame-write_frame_example :
    (bts : Bytes) × (written (write_frame hello_frame fresh).1 ≡ [] ++ bts)
    × ((r : Source) (rest : Bytes)
        → content r ≡ bts ++ rest
        → DecodesFrame hello_frame rest r (read_frame r))
unfolding write_frame write_header header_bytes length_bytes write
read_frame-write_frame_example =
    read_frame-write_frame hello_frame fresh (record { wire = hello_header-IsWire; counted = refl })
      refl

check_header_iff_example : (check_header hello_header 1 ≡ none) ↔ IsCompliant hello_header 1
check_header_iff_example = check_header_iff hello_header 1 (omega arith) (omega arith)

check_header-Breaks_example : (1 % 2 ≡ 1) × (false ≡ false)
unfolding check_header is_reserved is_control server_side
check_header-Breaks_example =
    check_header-Breaks (record hello_header { masked = false }) 1 mask_required (omega arith)
      (omega arith) refl

check_close_frame_data_iff_example :
    (check_close_frame_data (λ s. true) 1000 hello ≡ none) ↔ (IsSendable 1000 × (true ≡ true))
check_close_frame_data_iff_example = check_close_frame_data_iff (λ s. true) 1000 hello

parse_close_frame_data-new_close_frame_body_example :
    (body : Bytes) × (new_close_frame_body 1002 hello ≡ some body)
    × (length body ≤ 125)
    × (parse_close_frame_data body ≡ (1002, hello))
parse_close_frame_data-new_close_frame_body_example =
    parse_close_frame_data-new_close_frame_body 1002 hello (omega arith)

unmask_frame-mask_frame_with_example :
    unmask_frame (mask_frame_with (new_text_frame hello) key) ≡ new_text_frame hello
unfolding new_text_frame
unmask_frame-mask_frame_with_example =
    unmask_frame-mask_frame_with (new_text_frame hello) key (omega arith) (omega arith) refl refl
