-- ===== src/Check/CloseCodes.antt =====
-- `CheckCloseFrameData` against RFC 6455, section 7.4.
use mogusocket.Common.{ℕ, ◌≤◌, ◌≡◌, ◌↔◌, ◌⊎◌, Bool, true, none, arith, Bytes}
use mogusocket.Frame.Status.{
  is_not_used, is_protocol_reserved, is_protocol_spec, is_protocol_defined,
}
use mogusocket.Check.{check_close_frame_data}

-- The status codes that an endpoint may receive: those that the RFC defines, less the reserved
-- ones, and every code from 3000 on.
abbrev pub IsSendable : ℕ → Type 0
IsSendable code = ((1000 ≤ code) × (code ≤ 1003)) ⊎ ((1007 ≤ code) × (code ≤ 1011)) ⊎ (3000 ≤ code)

-- The data that pass are exactly a sendable code with a reason in valid UTF-8.
pub check_close_frame_data_iff :
    (valid_string : Bytes → Bool) (code : ℕ) (reason : Bytes)
    → (check_close_frame_data valid_string code reason ≡ none)
      ↔ (IsSendable code × (valid_string reason ≡ true))
unfolding check_close_frame_data is_not_used is_protocol_reserved is_protocol_spec
    is_protocol_defined
check_close_frame_data_iff valid_string code reason = (λ e. ground arith, λ c. ground arith)
