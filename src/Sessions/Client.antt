-- ===== src/Sessions/Client.antt =====
-- msutil/client.go: `ConnectClient` on a control frame.
use mogusocket.Common.{
  ℕ, suc, ◌≡◌, refl, sym, ap, ◌∙◌, true, false, none, some, ◌++◌, Bytes, arith, ◌==◌,
}
use mogusocket.Stream.{content}
use mogusocket.Frame.Header.{Header, is_control, op_continuation}
use mogusocket.Check.{check_header, fragmented}
use mogusocket.Codec.Write.{header_bytes}
use mogusocket.Codec.Extra.{IsWire}
use mogusocket.Codec.RoundTrip.{header-Encoding}
use mogusocket.Writer.Result.{Result}
use mogusocket.Reader.Messages.{Reader, next_frame}
use mogusocket.Reader.ReadData.{Given}
use mogusocket.Reader.Opening.{IsHelper, opened, next_frame-opened}
use mogusocket.Sessions.{Connection, ReadPump, Outcome, client_loop, after_client_frame}

fresh_control : (op : ℕ) → is_control op ≡ true → (op == op_continuation) ≡ false
unfolding is_control
fresh_control op h = ground arith

some_injective : {A : Type 0} (a b : A) → some a ≡ some b → a ≡ b
some_injective a b e = ap (λ o. elim o [ none ↦ a | some x ↦ x ]) e

control_skipped :
    (g : Given) (X : Type 0) (pump : ReadPump g X) (again : X → Connection → Result (Outcome g X))
    (x : X) (hdr : Header) (r : Connection)
    → is_control hdr.op_code ≡ true
    → after_client_frame g X pump again x (hdr, none, r) ≡ again x r
control_skipped g X pump again x hdr r control = rw control refl

-- ConnectClient goes on behind the header of a control frame that comes between the messages and
-- passes the checks: the payload is what it reads next, whatever it is, and nothing is answered.
pub client_loop-skips :
    (g : Given) (X : Type 0) (pump : ReadPump g X) (rounds : ℕ) (x : X) (r : Connection)
    (h : Header) (head waiting : Bytes)
    → IsHelper r
    → fragmented r.state ≡ false
    → is_control h.op_code ≡ true
    → check_header h r.state ≡ none
    → IsWire h
    → header_bytes h ≡ some head
    → content r.body.source ≡ head ++ waiting
    → (r' : Connection) × (client_loop g X pump (suc rounds) x r ≡ client_loop g X pump rounds x r')
      × (content r'.body.source ≡ waiting)
      × (r'.store ≡ r.store)
unfolding client_loop mogusocket.Reader.Messages.frame_body
client_loop-skips g X pump rounds x r h head waiting helper between control passed wire encoded
      arrives =
    let e = header-Encoding h wire in
    let same = some_injective e.bytes head (sym e.encodes ∙ encoded) in
    let d =
      e.decodes r.body.source waiting (arrives ∙ ap (λ (t : Bytes). t ++ waiting) (sym same)) in
    (
      opened h d.after r,
      ap (after_client_frame g X pump (client_loop g X pump rounds) x) (
            next_frame-opened h d.after r helper d.result passed between
              (fresh_control h.op_code control))
          ∙ control_skipped g X pump (client_loop g X pump rounds) x h (opened h d.after r) control,
      d.remains,
      refl,
    )
