-- ===== src/Reader/ReadMessage.antt =====
-- msutil/helper.go: `ReadMessage`.
use mogusocket.Common.{ℕ, true, Option, none, some, List, [], ◌∷◌, ◌++◌, Bytes, if◌then◌else◌}
use mogusocket.Errors.{Error, no_frame_advance}
use mogusocket.Stream.{Source}
use mogusocket.Frame.Header.{Header}
use mogusocket.Check.{state_client_side, state_server_side}
use mogusocket.Writer.Result.{Result, ok, panic, stuck, ◌>>=◌}
use mogusocket.Reader.Body.{Body, body_read}
use mogusocket.Reader.Messages.{
  Reader, FrameHandlerFunc, new_reader, next_frame, read_message, limit,
}
use mogusocket.Reader.Helpers.{Message}
use mogusocket.Reader.Loops.{full_loop, all_loop}

module _ (room : ℕ → ℕ) (fuel : ℕ) where
  -- The end of io.ReadAll in the callback. A call that does not return is kept in the store, and the
  -- error only stops the reader.
  abbrev pub stored :
      Body
      → List Message
      → ℕ
      → Result (Bytes × Option Error × Body)
      → Option Error × Body × Result (List Message)
  stored b m op panic = (some no_frame_advance, b, panic)
  stored b m op stuck = (some no_frame_advance, b, stuck)
  stored b m op (ok (bts, some e, b')) = (some e, b', ok m)
  stored b m op (ok (bts, none, b')) =
      (none, b', ok (m ++ record { op_code = op; payload = bts } ∷ []))

  -- `OnIntermediate` of `ReadMessage`.
  unfoldable pub collect : FrameHandlerFunc (Result (List Message))
  collect hdr b (ok m) = stored b m hdr.op_code (all_loop body_read room fuel [] b)
  collect hdr b panic = (some no_frame_advance, b, panic)
  collect hdr b stuck = (some no_frame_advance, b, stuck)

  -- The reader of `ReadMessage`.
  unfoldable pub message_reader : Source → ℕ → List Message → Reader (Result (List Message))
  unfolding new_reader collect
  message_reader src s m = record (new_reader src s (ok m)) {
    check_utf8 = true;
    on_intermediate = some collect;
  }

  abbrev pub Received : Type 0
  Received = List Message × Option Error × Source

  abbrev pub with_payload :
      ℕ → Bytes × Option Error × Reader (Result (List Message)) → Result Received
  with_payload op (p, some e, r) = r.store >>= λ m. ok (m, some e, r.body.source)
  with_payload op (p, none, r) =
      r.store >>= λ m. ok (m ++ record { op_code = op; payload = p } ∷ [], none, r.body.source)

  abbrev pub after_first : Header × Option Error × Reader (Result (List Message)) → Result Received
  after_first (h, some e, r) = r.store >>= λ m. ok (m, some e, r.body.source)
  after_first (h, none, r) =
      let fixed = full_loop read_message fuel (limit h.len) [] r >>= with_payload h.op_code in
      let fragments = all_loop read_message room fuel [] r >>= with_payload h.op_code in
      if h.fin then fixed else fragments

  -- `ReadMessage(r, s, m)`: the messages, the error, and what is left of `r`.
  unfoldable pub receive_message : Source → ℕ → List Message → Result Received
  unfolding message_reader
  receive_message src s m = after_first (next_frame (message_reader src s m))

  unfoldable pub read_client_message : Source → List Message → Result Received
  unfolding receive_message
  read_client_message src m = receive_message src state_server_side m

  unfoldable pub read_server_message : Source → List Message → Result Received
  unfolding receive_message
  read_server_message src m = receive_message src state_client_side m
