-- ===== src/Tests/Messages.antt =====
-- Runs of the message helpers and of the session loops.
use mogusocket.Common.{
  ℕ, ◌<◌, ◌≡◌, inl, inr, refl, true, false, none, List, [], ◌∷◌, ◌++◌, arith, Bytes,
}
use mogusocket.Common.Words.{pos}
use mogusocket.Errors.{eof}
use mogusocket.Stream.{Source, Sink, content, written, fresh, write}
use mogusocket.Frame.Header.{Header, zero_header, op_ping, is_control, is_reserved}
use mogusocket.Frame.Build.{mask_frame_in_place, new_frame}
use mogusocket.Check.{
  state_client_side, state_server_side, check_header, fragmented, server_side, client_side,
}
use mogusocket.Codec.Write.{
  compile_frame, header_bytes, length_bytes, first_byte, write_frame, write_header,
}
use mogusocket.Utf8.{decode}
use mogusocket.Utf8.Run.{decode_run}
use mogusocket.Utf8.Validity.{decode_run-IsUtf8}
use mogusocket.Reader.Helpers.{Message, write_message}
use mogusocket.Reader.ReadMessage.{receive_message}
use mogusocket.Reader.ReadData.{Given, data_reader, read_data}
use mogusocket.Writer.Message.{IsMessage}
use mogusocket.Reader.WriterExchange.{receive_message-IsMessage}
use mogusocket.Reader.DataExchange.{ReadsData, read_data-write_message}
use mogusocket.Reader.Partway.{weight}
use mogusocket.Reader.Receives.{Receives}
use mogusocket.Reader.Exchange.{IsDataMessage, receive_message-write_message}
use mogusocket.Sessions.{Connection, ReadPump, client_loop}
use mogusocket.Sessions.Reconnect.{
  Steps, serving, closes, reads_count, writes_count, dial_ends, resets_count, stays, goes,
  connection_ended, auto_reconnect, auto_reconnect-replicate, reconnected, refused, connected,
  no_url, sum, IsCounted, Steps-IsCounted, run_auto,
}
use mogusocket.Sessions.Client.{client_loop-skips}

abbrev hi : Bytes
hi = 104 ∷ 105 ∷ []

hi-IsDataMessage : IsDataMessage 1 hi
unfolding decode_run decode
hi-IsDataMessage = record {
  kind = inl refl;
  bytes = omega arith;
  fits = omega arith;
  text = λ e. (decode_run-IsUtf8 0 hi (omega arith)).0 refl;
}

receive_message-write_message_example :
    (bts : Bytes) × (written (write_message 77 fresh state_client_side 1 hi).1 ≡ [] ++ bts)
    × ((room : ℕ → ℕ) (fuel : ℕ) (m : List Message) (src : Source) (rest : Bytes)
        → content src ≡ bts ++ rest
        → weight src < fuel
        → Receives m
            (record { op_code = 1; payload = hi })
            rest
            (receive_message room fuel src state_server_side m))
unfolding write_message write_frame write_header header_bytes length_bytes client_side
    mask_frame_in_place new_frame write
receive_message-write_message_example =
    receive_message-write_message true 77 1 hi fresh hi-IsDataMessage refl

abbrev given : Given
given = record {
  random = λ n i. 7;
  get_len = λ n. [];
  valid_string = λ bs. true;
  message = λ e. [];
  room = λ n. 1;
  fuel = 10;
}

-- A ping with the payload 0x8a 0x00, which is the header of an empty pong.
abbrev ping_header : Header
ping_header = record zero_header { fin = true; op_code = op_ping; len = pos 2 }

abbrev pinged : Connection
pinged =
    data_reader given (record { chunks = (0x89 ∷ 2 ∷ 0x8a ∷ 0 ∷ []) ∷ []; last = eof })
      state_client_side fresh

abbrev no_pump : ReadPump given ℕ
no_pump r len is_text x = (none, r, x)

client_loop-skips_example :
    (r' : Connection) × (client_loop given ℕ no_pump 2 0 pinged
      ≡ client_loop given ℕ no_pump 1 0 r')
    × (content r'.body.source ≡ 0x8a ∷ 0 ∷ [])
    × (r'.store ≡ pinged.store)
unfolding data_reader fragmented is_control check_header is_reserved server_side client_side
    header_bytes length_bytes first_byte
client_loop-skips_example =
    client_loop-skips given ℕ no_pump 1 0 pinged ping_header (0x89 ∷ 2 ∷ []) (0x8a ∷ 0 ∷ [])
      (record { checks = refl; plain = refl; no_limit = refl; texts = refl; silent = refl }) refl
      refl refl
      (record {
        rsv_bits = omega arith;
        op_bits = omega arith;
        size = 2;
        len_is = refl;
        fits = omega arith;
        mask_is = omega arith;
        plain = λ e. refl;
      })
      refl refl

auto_reconnect-replicate_example :
    let (ended, errors', delays) =
      auto_reconnect (refused ∷ refused ∷ refused ∷ connected ∷ no_url ∷ []) 0 in
    (ended ≡ reconnected) × (errors' ≡ 0) × (sum delays ≡ 12)
auto_reconnect-replicate_example = auto_reconnect-replicate 3 0 (no_url ∷ [])

-- The first connection is lost, and the next one is served before the count is reset.
reset_late : Steps (run_auto connected 0) (record { role = serving; errors = 0; resets = 0 })
reset_late =
    goes
      (goes
        (goes
          (goes (goes (stays (run_auto connected 0)) (closes 0 0 connection_ended))
            (reads_count 0 0))
          (writes_count 0 0 0))
        (dial_ends 1 0 connected))
      (resets_count serving 1 0)

Steps-IsCounted_example : IsCounted (record { role = serving; errors = 0; resets = 0 })
Steps-IsCounted_example =
    Steps-IsCounted (run_auto connected 0) (record { role = serving; errors = 0; resets = 0 })
      (inr refl) reset_late

read_data-write_message_example :
    (bts : Bytes) × (written (write_message 0 fresh state_server_side 1 hi).1 ≡ [] ++ bts)
    × ((src : Source) (rest : Bytes) (dst : Sink)
        → content src ≡ bts ++ rest
        → weight src < 10
        → ReadsData hi 1 rest dst (read_data given src dst state_client_side))
unfolding write_message write_frame write_header header_bytes length_bytes client_side new_frame
    write
read_data-write_message_example =
    read_data-write_message given false 0 1 hi fresh (λ n. omega arith) hi-IsDataMessage refl

-- The text `hi` in two frames.
two_frames :
    IsMessage [] 1 hi (record { calls = (1 ∷ 1 ∷ 104 ∷ 0x80 ∷ 1 ∷ 105 ∷ []) ∷ []; plan = [] })
unfolding compile_frame write_frame write_header header_bytes length_bytes write first_byte
two_frames = record {
  parts = (104 ∷ []) ∷ [];
  tail = 105 ∷ [];
  frames = 1 ∷ 1 ∷ 104 ∷ [];
  last = 0x80 ∷ 1 ∷ 105 ∷ [];
  on_wire = refl;
  are_frames = (1 ∷ 1 ∷ 104 ∷ [], [], refl, refl, refl);
  is_final = refl;
  whole = refl;
}

abbrev two_pieces : Source
two_pieces = record { chunks = (1 ∷ 1 ∷ 104 ∷ 0x80 ∷ []) ∷ (1 ∷ 105 ∷ 0x89 ∷ []) ∷ []; last = eof }

receive_message-IsMessage_example :
    Receives []
      (record { op_code = 1; payload = hi })
      (0x89 ∷ [])
      (receive_message (λ n. 1) 20 two_pieces state_client_side [])
unfolding two_frames
receive_message-IsMessage_example =
    receive_message-IsMessage (λ n. 1) 20 1 [] hi (0x89 ∷ [])
      (record { calls = (1 ∷ 1 ∷ 104 ∷ 0x80 ∷ 1 ∷ 105 ∷ []) ∷ []; plan = [] }) [] two_pieces
      two_frames (λ n. omega arith) hi-IsDataMessage refl (omega arith)
