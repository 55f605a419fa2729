-- ===== src/Tests/Buffers.antt =====
-- Readers and writers.
use mogusocket.Common.{
  ℕ, ◌+◌, length, suc, ◌≡◌, refl, true, false, none, some, [], ◌∷◌, ◌++◌, arith, Bytes, replicate,
}
use mogusocket.Frame.Build.{new_frame, unmask_frame, mask_frame_in_place}
use mogusocket.Codec.Frames.{DecodesFrame}
use mogusocket.Reader.Helpers.{write_message, send_frame}
use mogusocket.Reader.Delivery.{client_frame, unmask_frame-write_message}
use mogusocket.Cipher.{Mask, cipher}
use mogusocket.Errors.{eof, extension}
use mogusocket.Stream.{Source, fresh, content, written, read_full, write}
use mogusocket.Frame.Header.{is_reserved, is_control}
use mogusocket.Check.{
  state_server_side, state_client_side, check_header, server_side, client_side, fragmented,
}
use mogusocket.Codec.Write.{write_frame, write_header}
use mogusocket.Codec.Read.{read_frame, read_header, read_rest, read_sized, read_head, read_extra}
use mogusocket.Writer.Result.{ok, stuck}
use mogusocket.Writer.Buffer.{Writer, reset, init_buf, reserve, header_size_of, available}
use mogusocket.Codec.Write.{header_bytes, header_size, length_bytes, first_byte}
use mogusocket.Writer.Sending.{sent_once, flush_frame-sent_once}
use mogusocket.Writer.Flush.{flush_frame, flush, set_bits, op_code_of}
use mogusocket.Writer.Write.{write_bytes}
use mogusocket.Writer.Laws.{
  Fits, reserve-Fits, write_bytes-reset, write_bytes-IsRefused, through_header,
}
use mogusocket.Reader.Messages.{
  Reader, new_server_side_reader, next_frame, header_error, unset_bits, dispatch,
}
use mogusocket.Reader.Ciphers.{CipherReader}
use mogusocket.Reader.Accepted.{IsLetThrough, next_frame-IsLetThrough}
use mogusocket.Reader.Laws.{reads_of, reads_of-cipher}

abbrev small_mask : Mask
small_mask = record { b0 = 1; b1 = 2; b2 = 3; b3 = 4 }

abbrev small_reader : CipherReader
small_reader = record {
  r = record { chunks = (5 ∷ 6 ∷ []) ∷ (7 ∷ 8 ∷ []) ∷ []; last = eof };
  mask = small_mask;
  cursor = 1;
}

-- The buffers of two reads, and one byte that is left.
reads_of-cipher_example :
    let (bs, after) = reads_of (2 ∷ 1 ∷ []) small_reader in
    (bs ++ cipher (content after.r) after.mask after.cursor
      ≡ cipher (5 ∷ 6 ∷ 7 ∷ 8 ∷ []) small_mask 1)
    × (after.cursor ≡ 1 + length bs)
reads_of-cipher_example = reads_of-cipher (2 ∷ 1 ∷ []) small_reader (omega arith) (omega arith)

-- A masked ping frame of two bytes.
abbrev ping_source : Source
ping_source = record { chunks = (0x89 ∷ 0x82 ∷ 1 ∷ 2 ∷ []) ∷ (3 ∷ 4 ∷ 9 ∷ 9 ∷ []) ∷ []; last = eof }

abbrev ping_reader : Reader ℕ
ping_reader = new_server_side_reader ping_source 0

next_frame-IsLetThrough_example : IsLetThrough ping_reader (next_frame ping_reader).0
unfolding next_frame new_server_side_reader header_error read_header read_full read_rest read_sized
    read_head read_extra check_header is_reserved is_control server_side client_side fragmented
    unset_bits dispatch
next_frame-IsLetThrough_example = next_frame-IsLetThrough ping_reader refl refl (omega arith) refl

reserve-Fits_example : Fits (header_size_of 2 4082) (reserve 2 4096)
unfolding reserve client_side
reserve-Fits_example = reserve-Fits 2 4096 4082 (omega arith) (omega arith)

abbrev sample_writer : Writer
sample_writer = record {
  dest = fresh;
  op = 1;
  state = state_server_side;
  extensions = (λ h. (h, some (extension 7))) ∷ [];
  no_flush = false;
  raw = replicate 4 0;
  offset = 2;
  n = 0;
  dirty = false;
  fseq = 0;
  err = none;
  random = λ i. i;
  draws = 0;
}

abbrev failed_writer : Writer
failed_writer = record sample_writer { err = some eof; extensions = [] }

write_bytes-reset_example :
    (fresh ≡ fresh)
    × (flush failed_writer ≡ ok (some eof, failed_writer))
    × ((fuel : ℕ) (p : Bytes)
        → write_bytes (suc fuel) p failed_writer
          ≡ ok (0, some eof, record failed_writer { dirty = true }))
unfolding reset init_buf reserve client_side
write_bytes-reset_example = write_bytes-reset fresh 1 1 failed_writer failed_writer eof refl refl

write_bytes-IsRefused_example : write_bytes 9 (1 ∷ 2 ∷ 3 ∷ []) sample_writer ≡ stuck
unfolding available set_bits op_code_of
write_bytes-IsRefused_example = write_bytes-IsRefused 9 (1 ∷ 2 ∷ 3 ∷ []) sample_writer (record {
  changed = through_header (1 ∷ 2 ∷ 3 ∷ []) sample_writer;
  reason = extension 7;
  refused = refl;
  flushes = refl;
  empty = refl;
  works = refl;
  long = omega arith;
})

-- A writer with two bytes in its buffer.
abbrev filled_writer : Writer
filled_writer = record sample_writer { extensions = []; raw = 0 ∷ 0 ∷ 7 ∷ 8 ∷ 0 ∷ []; n = 2 }

flush_frame-sent_once_example :
    flush_frame true filled_writer ≡ ok (sent_once (0x81 ∷ 2 ∷ []) filled_writer)
unfolding header_bytes header_size length_bytes first_byte op_code_of client_side
flush_frame-sent_once_example =
    flush_frame-sent_once true filled_writer (0x81 ∷ 2 ∷ []) refl refl refl refl (omega arith)
      (omega arith)

-- The connection has the whole frame.
filled_writer-sent :
    (sent_once (0x81 ∷ 2 ∷ []) filled_writer).1.dest.calls ≡ (0x81 ∷ 2 ∷ 7 ∷ 8 ∷ []) ∷ []
unfolding write
filled_writer-sent = refl

unmask_frame-write_message_example :
    (unmask_frame (client_frame 77 1 (104 ∷ 105 ∷ [])) ≡ new_frame 1 true (104 ∷ 105 ∷ []))
    × ((bts : Bytes) × (written (write_message 77 fresh state_client_side 1 (104 ∷ 105 ∷ [])).1
          ≡ [] ++ bts)
        × ((r : Source) (rest : Bytes)
            → content r ≡ bts ++ rest
            → DecodesFrame (client_frame 77 1 (104 ∷ 105 ∷ [])) rest r (read_frame r)))
unfolding write_message send_frame client_side write_frame write_header header_bytes length_bytes
    write mask_frame_in_place new_frame
unmask_frame-write_message_example =
    unmask_frame-write_message 77 state_client_side 1 (104 ∷ 105 ∷ []) fresh refl (omega arith)
      (omega arith) (omega arith) refl
