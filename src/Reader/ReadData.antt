-- ===== src/Reader/ReadData.antt =====
-- msutil/helper.go: `ControlFrameHandler` and `ReadData` with its variants.
use mogusocket.Common.{
  ℕ, zero, suc, ◌+◌, Bool, true, Option, none, some, List, [], Bytes, bit_and, bit_or, ◌==◌,
  if◌then◌else◌,
}
use mogusocket.Errors.{Error, ProtocolError, no_frame_advance, eof}
use mogusocket.Stream.{Source, Sink}
use mogusocket.Frame.Header.{Header, is_control, op_text, op_binary}
use mogusocket.Check.{state_client_side, state_server_side}
use mogusocket.Writer.Result.{Result, ok, panic, stuck, ◌>>=◌}
use mogusocket.Reader.Body.{Body, body_read}
use mogusocket.Reader.Messages.{
  Reader, FrameHandlerFunc, new_reader, next_frame, read_message, discard, limit,
}
use mogusocket.Reader.Handler.{handle}
use mogusocket.Reader.Loops.{all_loop, pieces_loop}

-- What the other packages give: rand.Uint32 for each call of the handler, the pool, utf8.ValidString,
-- the texts of errors, and the growth of the slices of io.ReadAll; `fuel` bounds each loop.
pub record Given : Type 0 where
  pub random : ℕ → ℕ → ℕ
  pub get_len : ℕ → Bytes
  pub valid_string : Bytes → Bool
  pub message : ProtocolError → Bytes
  pub room : ℕ → ℕ
  pub fuel : ℕ

-- The connection's writing half, and the number of calls of the handler.
pub record Replies : Type 0 where
  pub dst : Sink
  pub calls : ℕ

module _ (g : Given) where
  abbrev pub replied : Replies → Option Error × Sink → Option Error × Replies
  replied c (e, d) = (e, record { dst = d; calls = c.calls + 1 })

  -- `Handle` on a payload read in these pieces.
  unfoldable pub handle_pieces :
      ℕ → Header → List Bytes → Error → Replies → Result (Option Error × Replies)
  handle_pieces state hdr pieces last c =
      handle (g.random c.calls) g.get_len g.fuel g.valid_string g.message (limit hdr.len) hdr
        (record {
          src = record { chunks = pieces; last = last };
          dst = c.dst;
          state = state;
          disable_src_ciphering = true;
        })
      >>= λ r. ok (replied c r)

  module _ {R : Type 0} (read : ℕ → R → ℕ × Bytes × Option Error × R) where
    abbrev pub with_pieces :
        ℕ → Header → Replies → List Bytes × Error × R → Result (Option Error × Replies × R)
    with_pieces state hdr c (pieces, last, r) =
        handle_pieces state hdr pieces last c >>= λ (e, c'). ok (e, c', r)

    -- `ControlFrameHandler(w, state)` on a reader. The handler reads nothing of an empty frame and all
    -- of any other before it returns no error; what it reads and what it writes are two halves of a
    -- connection, so the reads are made first.
    unfoldable pub control_frame : ℕ → Header → R → Replies → Result (Option Error × Replies × R)
    unfolding handle_pieces
    control_frame state hdr r c =
        let empty = handle_pieces state hdr [] eof c >>= λ (e, c'). ok (e, c', r) in
        let full = pieces_loop read g.fuel r >>= with_pieces state hdr c in
        if limit hdr.len == 0 then empty else full

  -- A call that does not return is kept in the store, and the error only stops the reader.
  abbrev pub replying :
      Body → Result (Option Error × Replies × Body) → Option Error × Body × Result Replies
  replying b (ok (e, c, b')) = (e, b', ok c)
  replying b panic = (some no_frame_advance, b, panic)
  replying b stuck = (some no_frame_advance, b, stuck)

  -- The handler as `OnIntermediate`.
  unfoldable pub control_frame_handler : ℕ → FrameHandlerFunc (Result Replies)
  unfolding control_frame
  control_frame_handler state hdr b (ok c) = replying b (control_frame body_read state hdr b c)
  control_frame_handler state hdr b panic = (some no_frame_advance, b, panic)
  control_frame_handler state hdr b stuck = (some no_frame_advance, b, stuck)

  -- The reader of `readData`.
  unfoldable pub data_reader : Source → ℕ → Sink → Reader (Result Replies)
  unfolding new_reader control_frame_handler
  data_reader src state dst = record (new_reader src state (ok (record { dst = dst; calls = 0 }))) {
    check_utf8 = true;
    on_intermediate = some (control_frame_handler state);
  }

  -- The bytes, the opcode, the error, and the two halves of the connection.
  abbrev pub Received : Type 0
  Received = Bytes × ℕ × Option Error × Source × Sink

  abbrev pub received : Bytes → ℕ → Option Error → Reader (Result Replies) → Result Received
  received bts op e r = r.store >>= λ c. ok (bts, op, e, r.body.source, c.dst)

  -- On with the next frame, where the control frame was answered.
  abbrev pub next_data :
      (Reader (Result Replies) → Result Received)
      → Option Error × Replies × Reader (Result Replies)
      → Result Received
  next_data again (none, c, r) = again (record r { store = ok c })
  next_data again (some e, c, r) = received [] 0 (some e) (record r { store = ok c })

  abbrev pub next_discarded :
      (Reader (Result Replies) → Result Received)
      → Option Error × Reader (Result Replies)
      → Result Received
  next_discarded again (none, r) = again r
  next_discarded again (some e, r) = received [] 0 (some e) r

  abbrev pub with_data : ℕ → Bytes × Option Error × Reader (Result Replies) → Result Received
  with_data op (bts, e, r) = received bts op e r

  abbrev pub after_frame :
      ℕ
      → ℕ
      → (Reader (Result Replies) → Result Received)
      → Header × Option Error × Reader (Result Replies)
      → Result Received
  after_frame state want again (hdr, some e, r) = received [] 0 (some e) r
  after_frame state want again (hdr, none, r) =
      let answer = r.store >>= λ c. control_frame read_message state hdr r c >>= next_data again in
      let skip = discard g.fuel r >>= next_discarded again in
      let take_all = all_loop read_message g.room g.fuel [] r >>= with_data hdr.op_code in
      if is_control hdr.op_code
      then answer
      else if bit_and hdr.op_code want == 0
      then skip
      else take_all

  -- The loop of `readData`, with its rounds left.
  unfoldable pub data_loop : ℕ → ℕ → ℕ → Reader (Result Replies) → Result Received
  data_loop zero state want r = stuck
  data_loop (suc rounds) state want r =
      after_frame state want (data_loop rounds state want) (next_frame r)

  -- `readData(rw, s, want)`; the frames it passes over are at most `fuel`.
  unfoldable pub read_data_wanted : Source → Sink → ℕ → ℕ → Result Received
  unfolding data_loop data_reader
  read_data_wanted src dst state want = data_loop g.fuel state want (data_reader src state dst)

  unfoldable pub read_data : Source → Sink → ℕ → Result Received
  unfolding read_data_wanted
  read_data src dst state = read_data_wanted src dst state (bit_or op_text op_binary)

  unfoldable pub read_client_data : Source → Sink → Result Received
  unfolding read_data
  read_client_data src dst = read_data src dst state_server_side

  unfoldable pub read_server_data : Source → Sink → Result Received
  unfolding read_data
  read_server_data src dst = read_data src dst state_client_side

  abbrev pub without_op : Received → Bytes × Option Error × Source × Sink
  without_op (bts, op, e, src, dst) = (bts, e, src, dst)

  unfoldable pub read_client_text : Source → Sink → Result (Bytes × Option Error × Source × Sink)
  unfolding read_data_wanted
  read_client_text src dst =
      read_data_wanted src dst state_server_side op_text >>= λ r. ok (without_op r)

  unfoldable pub read_client_binary : Source → Sink → Result (Bytes × Option Error × Source × Sink)
  unfolding read_data_wanted
  read_client_binary src dst =
      read_data_wanted src dst state_server_side op_binary >>= λ r. ok (without_op r)

  unfoldable pub read_server_text : Source → Sink → Result (Bytes × Option Error × Source × Sink)
  unfolding read_data_wanted
  read_server_text src dst =
      read_data_wanted src dst state_client_side op_text >>= λ r. ok (without_op r)

  unfoldable pub read_server_binary : Source → Sink → Result (Bytes × Option Error × Source × Sink)
  unfolding read_data_wanted
  read_server_binary src dst =
      read_data_wanted src dst state_client_side op_binary >>= λ r. ok (without_op r)
