-- ===== src/Check.antt =====
-- check.go: the state of an endpoint and the checks of headers and close codes.
pub mod Rules
pub mod CloseCodes
use mogusocket.Common.{
  ℕ, ◌-◌, Bool, true, false, not, ◌&&◌, Option, none, some, bit_and, bit_or, Bytes, ◌==◌,
  if◌then◌else◌,
}
use mogusocket.Common.Words.{le_ℤ}
use mogusocket.Errors.{
  ProtocolError, op_code_reserved, control_payload_overflow, control_not_final, non_zero_rsv,
  mask_required, mask_unexpected, continuation_expected, continuation_unexpected,
  status_code_not_in_use, status_code_application_level, status_code_no_meaning,
  status_code_unknown, protocol_invalid_utf8,
}
use mogusocket.Frame.Header.{
  Header, is_control, is_reserved, max_control_frame_payload_size, op_continuation,
}
use mogusocket.Frame.Status.{
  is_not_used, is_protocol_reserved, is_protocol_spec, is_protocol_defined, status_no_meaning_yet,
}

-- A `State` is a uint8.
abbrev pub state_server_side : ℕ
state_server_side = 0x1

abbrev pub state_client_side : ℕ
state_client_side = 0x2

abbrev pub state_extended : ℕ
state_extended = 0x4

abbrev pub state_fragmented : ℕ
state_fragmented = 0x8

unfoldable pub state_is : ℕ → ℕ → Bool
state_is s v = not (bit_and s v == 0)

unfoldable pub state_set : ℕ → ℕ → ℕ
state_set s v = bit_or s v

-- `^v` of a uint8 is `255 - v`.
unfoldable pub state_clear : ℕ → ℕ → ℕ
state_clear s v = bit_and s (255 - v)

unfoldable pub server_side : ℕ → Bool
unfolding state_is
server_side s = state_is s state_server_side

unfoldable pub client_side : ℕ → Bool
unfolding state_is
client_side s = state_is s state_client_side

unfoldable pub extended : ℕ → Bool
unfolding state_is
extended s = state_is s state_extended

unfoldable pub fragmented : ℕ → Bool
unfolding state_is
fragmented s = state_is s state_fragmented

-- The `switch` of `CheckHeader`.
unfoldable pub check_header_state : Header → ℕ → Option ProtocolError
check_header_state h s =
    if not (h.rsv == 0) && not (extended s)
    then some non_zero_rsv
    else if server_side s && not h.masked
    then some mask_required
    else if client_side s && h.masked
    then some mask_unexpected
    else if fragmented s && not (is_control h.op_code) && not (h.op_code == op_continuation)
    then some continuation_expected
    else if not (fragmented s) && h.op_code == op_continuation
    then some continuation_unexpected
    else none

-- `none` is nil.
unfoldable pub check_header : Header → ℕ → Option ProtocolError
unfolding check_header_state
check_header h s =
    if is_reserved h.op_code
    then some op_code_reserved
    else if is_control h.op_code && not (le_ℤ h.len max_control_frame_payload_size)
    then some control_payload_overflow
    else if is_control h.op_code && not h.fin
    then some control_not_final
    else check_header_state h s

-- `valid_string` is utf8.ValidString of Go's standard library.
unfoldable pub check_close_frame_data : (Bytes → Bool) → ℕ → Bytes → Option ProtocolError
check_close_frame_data valid_string code reason =
    if is_not_used code
    then some status_code_not_in_use
    else if is_protocol_reserved code
    then some status_code_application_level
    else if code == status_no_meaning_yet
    then some status_code_no_meaning
    else if is_protocol_spec code && not (is_protocol_defined code)
    then some status_code_unknown
    else if not (valid_string reason)
    then some protocol_invalid_utf8
    else none
