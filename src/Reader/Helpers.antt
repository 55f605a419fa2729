-- ===== src/Reader/Helpers.antt =====
-- msutil/helper.go, and `writeFrame` of msutil/writer.go: whole messages at once.
use mogusocket.Common.{ℕ, Bool, true, Option, [], ◌∷◌, Bytes, length, if◌then◌else◌}
use mogusocket.Common.Words.{pos}
use mogusocket.Errors.{Error, ProtocolError, eof}
use mogusocket.Stream.{Sink}
use mogusocket.Frame.Header.{zero_header, op_text, op_binary}
use mogusocket.Frame.Build.{new_frame, mask_frame_in_place}
use mogusocket.Check.{client_side, server_side, state_client_side, state_server_side}
use mogusocket.Codec.Write.{write_frame}
use mogusocket.Writer.Result.{Result}
use mogusocket.Reader.Handler.{handle}

pub record Message : Type 0 where
  pub op_code : ℕ
  pub payload : Bytes

-- `writeFrame`; `drawn` is the number from rand.Uint32 for the mask.
unfoldable pub send_frame : ℕ → Sink → ℕ → ℕ → Bool → Bytes → Option Error × Sink
send_frame drawn w s op fin p =
    let frame = new_frame op fin p in
    write_frame (if client_side s then (mask_frame_in_place drawn frame).0 else frame) w

unfoldable pub write_message : ℕ → Sink → ℕ → ℕ → Bytes → Option Error × Sink
unfolding send_frame
write_message drawn w s op p = send_frame drawn w s op true p

unfoldable pub write_server_message : ℕ → Sink → ℕ → Bytes → Option Error × Sink
unfolding write_message
write_server_message drawn w op p = write_message drawn w state_server_side op p

unfoldable pub write_server_text : ℕ → Sink → Bytes → Option Error × Sink
unfolding write_server_message
write_server_text drawn w p = write_server_message drawn w op_text p

unfoldable pub write_server_binary : ℕ → Sink → Bytes → Option Error × Sink
unfolding write_server_message
write_server_binary drawn w p = write_server_message drawn w op_binary p

unfoldable pub write_client_message : ℕ → Sink → ℕ → Bytes → Option Error × Sink
unfolding write_message
write_client_message drawn w op p = write_message drawn w state_client_side op p

unfoldable pub write_client_text : ℕ → Sink → Bytes → Option Error × Sink
unfolding write_client_message
write_client_text drawn w p = write_client_message drawn w op_text p

unfoldable pub write_client_binary : ℕ → Sink → Bytes → Option Error × Sink
unfolding write_client_message
write_client_binary drawn w p = write_client_message drawn w op_binary p

-- A bytes.Reader hands out the payload in one piece; nothing comes of an empty one.
unfoldable pub handle_control_message :
    (ℕ → ℕ)
    → (ℕ → Bytes)
    → ℕ
    → (Bytes → Bool)
    → (ProtocolError → Bytes)
    → Sink
    → ℕ
    → Message
    → Result (Option Error × Sink)
handle_control_message random get_len fuel valid_string message conn state msg =
    handle random get_len fuel valid_string message (length msg.payload)
      (record zero_header {
        len = pos (length msg.payload);
        op_code = msg.op_code;
        fin = true;
        masked = server_side state;
      })
      (record {
        src = record { chunks = msg.payload ∷ []; last = eof };
        dst = conn;
        state = state;
        disable_src_ciphering = true;
      })

unfoldable pub handle_client_control_message :
    (ℕ → ℕ)
    → (ℕ → Bytes)
    → ℕ
    → (Bytes → Bool)
    → (ProtocolError → Bytes)
    → Sink
    → Message
    → Result (Option Error × Sink)
unfolding handle_control_message
handle_client_control_message random get_len fuel valid_string message conn msg =
    handle_control_message random get_len fuel valid_string message conn state_server_side msg

unfoldable pub handle_server_control_message :
    (ℕ → ℕ)
    → (ℕ → Bytes)
    → ℕ
    → (Bytes → Bool)
    → (ProtocolError → Bytes)
    → Sink
    → Message
    → Result (Option Error × Sink)
unfolding handle_control_message
handle_server_control_message random get_len fuel valid_string message conn msg =
    handle_control_message random get_len fuel valid_string message conn state_client_side msg
