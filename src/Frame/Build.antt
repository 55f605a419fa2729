-- ===== src/Frame/Build.antt =====
-- frame.go: the constructors of frames, the body of close frames (with its parser of read.go), and
-- masking of frames. A slice argument that a function writes through is returned as well.
use mogusocket.Common.{
  ℕ, ◌+◌, ◌-◌, Bool, true, false, Option, none, some, [], Bytes, length, take, drop, get_or,
  replicate, ltb, if◌then◌else◌,
}
use mogusocket.Common.Words.{pos, put_be, get_be}
use mogusocket.Cipher.{Mask, cipher, put_at}
use mogusocket.Frame.Header.{
  Frame, zero_header, zero_mask, op_text, op_binary, op_ping, op_pong, op_close,
  max_control_frame_payload_size,
}

unfoldable pub new_frame : ℕ → Bool → Bytes → Frame
new_frame op fin p = record {
  header = record zero_header { fin = fin; op_code = op; len = pos (length p) };
  payload = p;
}

unfoldable pub new_text_frame : Bytes → Frame
unfolding new_frame
new_text_frame p = new_frame op_text true p

unfoldable pub new_binary_frame : Bytes → Frame
unfolding new_frame
new_binary_frame p = new_frame op_binary true p

unfoldable pub new_ping_frame : Bytes → Frame
unfolding new_frame
new_ping_frame p = new_frame op_ping true p

unfoldable pub new_pong_frame : Bytes → Frame
unfolding new_frame
new_pong_frame p = new_frame op_pong true p

unfoldable pub new_close_frame : Bytes → Frame
unfolding new_frame
new_close_frame p = new_frame op_close true p

-- util.go
unfoldable pub min_int : ℕ → ℕ → ℕ
min_int a b = if ltb a b then a else b

-- `none` is the panic of the bounds check `p[1+len(reason)]`.
unfoldable pub put_close_frame_body : Bytes → ℕ → Bytes → Option Bytes
put_close_frame_body p code reason =
    if ltb (1 + length reason) (length p)
    then some (put_at (put_at p 0 (put_be 2 code)) 2 reason)
    else none

unfoldable pub new_close_frame_body : ℕ → Bytes → Option Bytes
unfolding min_int
new_close_frame_body code reason =
    let n = min_int (2 + length reason) max_control_frame_payload_size in
    let crop = min_int (max_control_frame_payload_size - 2) (length reason) in
    put_close_frame_body (replicate n 0) code (take crop reason)

-- read.go. `ParseCloseFrameDataUnsafe` differs only in sharing the bytes of the reason.
unfoldable pub parse_close_frame_data : Bytes → ℕ × Bytes
parse_close_frame_data payload =
    if ltb (length payload) 2 then (0, []) else (get_be (take 2 payload), drop 2 payload)

-- The result, and what the slice `f.Payload` of the caller holds afterwards.
unfoldable pub mask_frame_in_place_with : Frame → Mask → Frame × Bytes
mask_frame_in_place_with f m =
    let p = cipher f.payload m 0 in
    (record { header = record f.header { masked = true; mask = m }; payload = p }, p)

unfoldable pub unmask_frame_in_place : Frame → Frame × Bytes
unmask_frame_in_place f =
    let p = cipher f.payload f.header.mask 0 in
    (record { header = record f.header { masked = false; mask = zero_mask }; payload = p }, p)

-- These two copy the payload first.
unfoldable pub mask_frame_with : Frame → Mask → Frame
unfolding mask_frame_in_place_with
mask_frame_with f m = (mask_frame_in_place_with f m).0

unfoldable pub unmask_frame : Frame → Frame
unfolding unmask_frame_in_place
unmask_frame f = (unmask_frame_in_place f).0

-- `NewMask` on the number that rand.Uint32() returned.
unfoldable pub new_mask : ℕ → Mask
new_mask r =
    let bs = put_be 4 r in
    record { b0 = get_or bs 0 0; b1 = get_or bs 1 0; b2 = get_or bs 2 0; b3 = get_or bs 3 0 }

unfoldable pub mask_frame : ℕ → Frame → Frame
unfolding mask_frame_with new_mask
mask_frame r f = mask_frame_with f (new_mask r)

unfoldable pub mask_frame_in_place : ℕ → Frame → Frame × Bytes
unfolding mask_frame_in_place_with new_mask
mask_frame_in_place r f = mask_frame_in_place_with f (new_mask r)
