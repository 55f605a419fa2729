-- ===== src/Errors.antt =====
-- The error values of the library: the variables and types that satisfy Go's `error` in check.go,
-- read.go and msutil. `nil` is `none` of an `Option`.
use mogusocket.Common.{ℕ, Bytes}

-- check.go, the `ErrProtocol...` variables.
pub data ProtocolError : Type 0 where
  op_code_reserved control_payload_overflow control_not_final non_zero_rsv : ProtocolError
  mask_required mask_unexpected continuation_expected continuation_unexpected : ProtocolError
  status_code_not_in_use status_code_application_level status_code_no_meaning : ProtocolError
  status_code_unknown protocol_invalid_utf8 : ProtocolError

pub data Error : Type 0 where
  -- package io: `EOF`, `ErrUnexpectedEOF`, `ErrNoProgress`, and whatever else a transport reports, by a number.
  eof unexpected_eof no_progress : Error
  transport : ℕ → Error
  -- read.go
  header_length_msb header_length_unexpected : Error
  -- check.go
  protocol : ProtocolError → Error
  -- msutil: reader.go, utf8.go, writer.go, handler.go
  no_frame_advance frame_too_large invalid_utf8 not_empty control_overflow : Error
  not_control_frame : Error
  closed : ℕ → Bytes → Error
  -- what an extension's callback returned
  extension : ℕ → Error
