-- ===== src/Frame/Status.antt =====
-- frame.go: `StatusCode` and its ranges.
use mogusocket.Common.{ℕ, Bool, ◌&&◌, ◌||◌, ◌==◌, leb}

pub record StatusCodeRange : Type 0 where
  pub min : ℕ
  pub max : ℕ

abbrev pub status_range_not_in_use : StatusCodeRange
status_range_not_in_use = record { min = 0; max = 999 }

abbrev pub status_range_protocol : StatusCodeRange
status_range_protocol = record { min = 1000; max = 2999 }

abbrev pub status_range_application : StatusCodeRange
status_range_application = record { min = 3000; max = 3999 }

abbrev pub status_range_private : StatusCodeRange
status_range_private = record { min = 4000; max = 4999 }

abbrev pub status_normal_closure : ℕ
status_normal_closure = 1000

abbrev pub status_going_away : ℕ
status_going_away = 1001

abbrev pub status_protocol_error : ℕ
status_protocol_error = 1002

abbrev pub status_unsupported_data : ℕ
status_unsupported_data = 1003

abbrev pub status_no_meaning_yet : ℕ
status_no_meaning_yet = 1004

abbrev pub status_no_status_rcvd : ℕ
status_no_status_rcvd = 1005

abbrev pub status_abnormal_closure : ℕ
status_abnormal_closure = 1006

abbrev pub status_invalid_frame_payload_data : ℕ
status_invalid_frame_payload_data = 1007

abbrev pub status_policy_violation : ℕ
status_policy_violation = 1008

abbrev pub status_message_too_big : ℕ
status_message_too_big = 1009

abbrev pub status_mandatory_ext : ℕ
status_mandatory_ext = 1010

abbrev pub status_internal_server_error : ℕ
status_internal_server_error = 1011

abbrev pub status_tls_handshake : ℕ
status_tls_handshake = 1015

unfoldable pub status_in : ℕ → StatusCodeRange → Bool
status_in s r = leb r.min s && leb s r.max

unfoldable pub empty : ℕ → Bool
empty s = s == 0

unfoldable pub is_not_used : ℕ → Bool
unfolding status_in
is_not_used s = status_in s status_range_not_in_use

unfoldable pub is_application_spec : ℕ → Bool
unfolding status_in
is_application_spec s = status_in s status_range_application

unfoldable pub is_private_spec : ℕ → Bool
unfolding status_in
is_private_spec s = status_in s status_range_private

unfoldable pub is_protocol_spec : ℕ → Bool
unfolding status_in
is_protocol_spec s = status_in s status_range_protocol

unfoldable pub is_protocol_defined : ℕ → Bool
is_protocol_defined s =
    s == status_normal_closure
    || s == status_going_away
    || s == status_protocol_error
    || s == status_unsupported_data
    || s == status_invalid_frame_payload_data
    || s == status_policy_violation
    || s == status_message_too_big
    || s == status_mandatory_ext
    || s == status_internal_server_error
    || s == status_no_status_rcvd
    || s == status_abnormal_closure
    || s == status_tls_handshake

unfoldable pub is_protocol_reserved : ℕ → Bool
is_protocol_reserved s =
    s == status_no_status_rcvd || s == status_abnormal_closure || s == status_tls_handshake
