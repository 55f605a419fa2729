-- ===== src/Writer/Sending.antt =====
-- msutil/writer.go: what a flush sends.
use mogusocket.Common.{
  ℕ, ◌+◌, ◌-◌, ◌≤◌, ◌≡◌, refl, sym, ap, ◌∙◌, Bool, true, false, ◌&&◌, Option, none, some, [], ◌∷◌,
  ◌++◌, suc, arith, Bytes, length, take, drop, leb, ◌==◌, length-take, drop-append_right,
}
use mogusocket.Common.Words.{pos}
use mogusocket.Cipher.{put_at}
use mogusocket.Errors.{Error}
use mogusocket.Stream.{write}
use mogusocket.Frame.Header.{Header, zero_header}
use mogusocket.Check.{client_side}
use mogusocket.Codec.Write.{header_size, header_bytes}
use mogusocket.Writer.Result.{ok}
use mogusocket.Writer.Buffer.{Writer}
use mogusocket.Writer.Flush.{
  flush_frame, set_bits, op_code_of, mask_pending, pending, send_pending, with_bits,
}

pub take_both :
    (xs ys : Bytes) (k n : ℕ) → k ≡ length xs → take (k + n) (xs ++ ys) ≡ xs ++ take n ys
take_both [] ys k n e = ap (λ (i : ℕ). take i ys) (omega (arith, e))
take_both (x ∷ xs) ys k n e =
    let count : k + n ≡ suc (length xs + n) = omega (arith, e) in
    rw count (ap (λ (t : Bytes). x ∷ t) (take_both xs ys (length xs) n refl))

-- The header put right before the payload is sent with it.
put_before :
    (raw bts : Bytes) (skip offset n : ℕ)
    → offset ≡ skip + length bts
    → offset ≤ length raw
    → take (offset + n - skip) (drop skip (put_at raw skip bts)) ≡ bts ++ take n (drop offset raw)
put_before raw bts skip offset n e room =
    let front : length (take skip raw) ≡ skip = omega (arith, length-take skip raw) in
    let count : offset + n - skip ≡ length bts + n = omega (arith, e) in
    let none_left : skip - length (take skip raw) ≡ 0 = omega (arith, front) in
    let tail =
      drop-append_right skip (take skip raw) (bts ++ drop (skip + length bts) raw)
        (omega (arith, front)) in
    rw (count, tail, none_left)
      (take_both bts (drop (skip + length bts) raw) (length bts) n refl
        ∙ ap (λ (i : ℕ). bts ++ take n (drop i raw)) (sym e))

-- The header of a flush without extensions.
abbrev pub flush_header : Bool → Writer → Header
flush_header fin w = record zero_header {
  op_code = op_code_of w;
  fin = fin;
  len = pos (length (pending w));
}

no_bits : (w : Writer) (h : Header) → w.extensions ≡ [] → set_bits w.extensions h ≡ (h, none)
unfolding set_bits
no_bits w h plain = ap (λ xs. set_bits xs h) plain

no_mask : (w : Writer) (h : Header) → client_side w.state ≡ false → mask_pending h w ≡ (h, w)
unfolding mask_pending
no_mask w h server = rw server refl

-- One Write, and the buffer with the header in it.
abbrev pub sent_once : Bytes → Writer → Option Error × Writer
sent_once bts w = (
  (write (bts ++ pending w) w.dest).0,
  record w {
    raw = put_at w.raw (w.offset - length bts) bts;
    dest = (write (bts ++ pending w) w.dest).1;
  },
)

send_pending-sent_once :
    (w : Writer) (h : Header) (bts : Bytes)
    → header_bytes h ≡ some bts
    → header_size h ≡ pos (length bts)
    → length bts ≤ w.offset
    → w.offset ≤ length w.raw
    → send_pending (h, w) ≡ ok (sent_once bts w)
unfolding send_pending
send_pending-sent_once w h bts encoded sized fits room =
    let bytes = put_before w.raw bts (w.offset - length bts) w.offset w.n (omega arith) room in
    let fit : (leb (length bts) w.offset && length bts == length bts) ≡ true = ground arith in
    rw (send_pending, sized, encoded, fit)
      (ap
        (λ (t : Bytes). ok (
          (write t w.dest).0,
          record w { raw = put_at w.raw (w.offset - length bts) bts; dest = (write t w.dest).1 },
        ))
        bytes)

-- A server's writer without extensions whose header fits sends one Write: the header and what is
-- buffered behind it.
pub flush_frame-sent_once :
    (fin : Bool) (w : Writer) (bts : Bytes)
    → w.extensions ≡ []
    → client_side w.state ≡ false
    → header_bytes (flush_header fin w) ≡ some bts
    → header_size (flush_header fin w) ≡ pos (length bts)
    → length bts ≤ w.offset
    → w.offset ≤ length w.raw
    → flush_frame fin w ≡ ok (sent_once bts w)
unfolding flush_frame
flush_frame-sent_once fin w bts plain server encoded sized fits room =
    ap (with_bits w) (no_bits w (flush_header fin w) plain)
    ∙ ap send_pending (no_mask w (flush_header fin w) server)
    ∙ send_pending-sent_once w (flush_header fin w) bts encoded sized fits room
