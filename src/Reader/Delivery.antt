-- ===== src/Reader/Delivery.antt =====
-- msutil/helper.go: a client's message on the wire.
use mogusocket.Common.{
  ℕ, ◌<◌, ◌^◌, ◌≡◌, refl, sym, ap, ◌∙◌, true, none, ◌++◌, arith, Bytes, length, if◌then◌else◌,
}
use mogusocket.Common.Words.{pos, AreBytes, put_be}
use mogusocket.Cipher.{IsMask}
use mogusocket.Cipher.Equivalence.{length-cipher}
use mogusocket.Stream.{Source, Sink, content, written}
use mogusocket.Frame.Header.{Frame}
use mogusocket.Frame.Build.{
  new_frame, new_mask, mask_frame_in_place, mask_frame_in_place_with, mask_frame_with, unmask_frame,
}
use mogusocket.Frame.Laws.{unmask_frame-mask_frame_with}
use mogusocket.Check.{client_side}
use mogusocket.Codec.Write.{write_frame}
use mogusocket.Codec.Read.{read_frame}
use mogusocket.Codec.Frames.{IsWireFrame, DecodesFrame, read_frame-write_frame}
use mogusocket.Reader.Helpers.{write_message, send_frame}

pub new_mask-IsMask : (drawn : ℕ) → IsMask (new_mask drawn)
unfolding new_mask put_be
new_mask-IsMask drawn = omega arith

-- The frame that a client sends for a message.
abbrev pub client_frame : ℕ → ℕ → Bytes → Frame
client_frame drawn op p = (mask_frame_in_place drawn (new_frame op true p)).0

pub client_frame-IsWireFrame :
    (drawn op : ℕ) (p : Bytes)
    → AreBytes p
    → op < 16
    → length p < 2 ^ 63
    → IsWireFrame (client_frame drawn op p)
unfolding new_frame mask_frame_in_place mask_frame_in_place_with
client_frame-IsWireFrame drawn op p bytes small fits = record {
  wire = record {
    rsv_bits = omega arith;
    op_bits = small;
    size = length p;
    len_is = refl;
    fits = fits;
    mask_is = new_mask-IsMask drawn;
    plain = λ e. cc;
  };
  counted = ap pos (sym (length-cipher p (new_mask drawn) 0 bytes (new_mask-IsMask drawn)));
}

unmasked_frame :
    (drawn op : ℕ) (p : Bytes)
    → AreBytes p
    → unmask_frame (client_frame drawn op p) ≡ new_frame op true p
unfolding mask_frame_in_place mask_frame_with new_frame
unmasked_frame drawn op p bytes =
    unmask_frame-mask_frame_with (new_frame op true p) (new_mask drawn) bytes
      (new_mask-IsMask drawn) refl refl

-- What a client's WriteMessage sends without an error, ReadFrame reads as a masked frame, and
-- UnmaskFrame makes of it the frame of the message.
pub unmask_frame-write_message :
    (drawn s op : ℕ) (p : Bytes) (w : Sink)
    → client_side s ≡ true
    → AreBytes p
    → op < 16
    → length p < 2 ^ 63
    → (write_message drawn w s op p).0 ≡ none
    → (unmask_frame (client_frame drawn op p) ≡ new_frame op true p)
      × ((bts : Bytes) × (written (write_message drawn w s op p).1 ≡ written w ++ bts)
          × ((r : Source) (rest : Bytes)
              → content r ≡ bts ++ rest
              → DecodesFrame (client_frame drawn op p) rest r (read_frame r)))
unfolding write_message send_frame
unmask_frame-write_message drawn s op p w client bytes small fits sent =
    let f = client_frame drawn op p in
    let same : (if client_side s then f else new_frame op true p) ≡ f = rw client refl in
    let sent' : (write_frame f w).0 ≡ none = ap (λ g. (write_frame g w).0) (sym same) ∙ sent in
    let (bts, arrived, reads) =
      read_frame-write_frame f w (client_frame-IsWireFrame drawn op p bytes small fits) sent' in
    (
      unmasked_frame drawn op p bytes,
      (bts, ap (λ g. written (write_frame g w).1) same ∙ arrived, reads),
    )
