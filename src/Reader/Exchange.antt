-- ===== src/Reader/Exchange.antt =====
-- msutil/helper.go: messages between a client and a server that call `WriteClientMessage` and
-- `ReadClientMessage`, or `WriteServerMessage` and `ReadServerMessage`.
use mogusocket.Common.{
  ℕ, ◌<◌, ◌^◌, ◌≡◌, ◌⊎◌, inl, inr, refl, sym, subst, Bool, true, false, none, List, ◌++◌, arith,
  Bytes, length, if◌then◌else◌,
}
use mogusocket.Common.Words.{AreBytes}
use mogusocket.Cipher.Equivalence.{cipher-cipher, cipher-mask_from}
use mogusocket.Cipher.Loops.{mask_from-AreBytes}
use mogusocket.Stream.{Source, Sink, content, written}
use mogusocket.Frame.Header.{Header, op_text, op_binary, is_reserved, is_control}
use mogusocket.Frame.Build.{new_frame, new_mask, mask_frame_in_place, mask_frame_in_place_with}
use mogusocket.Check.{
  check_header, check_header_state, extended, server_side, client_side, state_is, fragmented,
  state_clear, state_client_side, state_server_side,
}
use mogusocket.Utf8.Scalars.{IsUtf8}
use mogusocket.Reader.Helpers.{Message, write_message, send_frame}
use mogusocket.Reader.ReadMessage.{receive_message}
use mogusocket.Reader.Partway.{weight}
use mogusocket.Reader.Delivery.{client_frame, client_frame-IsWireFrame, new_mask-IsMask}
use mogusocket.Reader.Receives.{IsWhole, Receives, receive_message-write_frame}

-- A message that may be sent.
pub record IsDataMessage (op : ℕ) (p : Bytes) : Type 0 where
  pub kind : (op ≡ op_text) ⊎ (op ≡ op_binary)
  pub bytes : AreBytes p
  pub fits : length p < 2 ^ 63
  pub text : op ≡ op_text → IsUtf8 p

-- The header of a text or a binary message in one frame.
pub passes :
    (h : Header) (st : ℕ)
    → (h.op_code ≡ op_text) ⊎ (h.op_code ≡ op_binary)
    → h.rsv ≡ 0
    → ((st ≡ state_server_side) × (h.masked ≡ true))
      ⊎ ((st ≡ state_client_side) × (h.masked ≡ false))
    → check_header h st ≡ none
unfolding check_header check_header_state is_reserved is_control extended server_side client_side
    fragmented state_is
passes h st kind plain side = ground arith

pub client_frame-IsWhole :
    (drawn op : ℕ) (p : Bytes)
    → IsDataMessage op p
    → IsWhole (client_frame drawn op p) p state_server_side
unfolding mask_frame_in_place mask_frame_in_place_with new_frame fragmented state_clear state_is
client_frame-IsWhole drawn op p s = record {
  wire = client_frame-IsWireFrame drawn op p s.bytes (ground (arith, s.kind)) s.fits;
  accepted = passes _ state_server_side s.kind refl (inl (refl, refl));
  final = refl;
  fresh = ground (arith, s.kind);
  means = cipher-cipher p (new_mask drawn) 0 s.bytes (new_mask-IsMask drawn);
  wire_bytes =
      subst AreBytes (sym (cipher-mask_from p (new_mask drawn) 0 s.bytes (new_mask-IsMask drawn)))
        (mask_from-AreBytes (new_mask drawn) 0 p (new_mask-IsMask drawn) s.bytes);
  bytes = s.bytes;
  text = s.text;
  between = refl;
  stays = refl;
}

pub new_frame-IsWhole :
    (op : ℕ) (p : Bytes) → IsDataMessage op p → IsWhole (new_frame op true p) p state_client_side
unfolding new_frame fragmented state_clear state_is
new_frame-IsWhole op p s = record {
  wire = record {
    wire = record {
      rsv_bits = omega arith;
      op_bits = ground (arith, s.kind);
      size = length p;
      len_is = refl;
      fits = s.fits;
      mask_is = omega arith;
      plain = λ e. refl;
    };
    counted = refl;
  };
  accepted = passes _ state_client_side s.kind refl (inr (refl, refl));
  final = refl;
  fresh = ground (arith, s.kind);
  means = refl;
  wire_bytes = s.bytes;
  bytes = s.bytes;
  text = s.text;
  between = refl;
  stays = refl;
}

abbrev pub sender : Bool → ℕ
sender from_client = if from_client then state_client_side else state_server_side

abbrev pub receiver : Bool → ℕ
receiver from_client = if from_client then state_server_side else state_client_side

-- What one side's WriteMessage sends of a text or binary message without an error, ReadMessage on
-- the other side returns as that message behind the ones it was given, whatever follows on the
-- connection and however it cuts the bytes; fuel above the number of bytes and pieces is enough.
pub receive_message-write_message :
    (from_client : Bool) (drawn op : ℕ) (p : Bytes) (w : Sink)
    → IsDataMessage op p
    → (write_message drawn w (sender from_client) op p).0 ≡ none
    → (bts : Bytes) × (written (write_message drawn w (sender from_client) op p).1
        ≡ written w ++ bts)
      × ((room : ℕ → ℕ) (fuel : ℕ) (m : List Message) (src : Source) (rest : Bytes)
          → content src ≡ bts ++ rest
          → weight src < fuel
          → Receives m
              (record { op_code = op; payload = p })
              rest
              (receive_message room fuel src (receiver from_client) m))
unfolding write_message send_frame client_side state_is new_frame mask_frame_in_place
    mask_frame_in_place_with
receive_message-write_message true drawn op p w s sent =
    receive_message-write_frame state_server_side (client_frame drawn op p) p w
      (client_frame-IsWhole drawn op p s) sent
receive_message-write_message false drawn op p w s sent =
    receive_message-write_frame state_client_side (new_frame op true p) p w
      (new_frame-IsWhole op p s) sent
