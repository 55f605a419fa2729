-- ===== src/Reader/WriterExchange.antt =====
-- msutil/helper.go: `ReadMessage` of a client on a message that a server's Writer has sent.
use mogusocket.Common.{
  ℕ, suc, ◌+◌, ◌<◌, ◌≡◌, ◌⊎◌, inl, inr, refl, sym, ap, subst, ◌∙◌, true, false, none, List, [], ◌∷◌,
  ◌++◌, append_assoc, arith, Bytes, length, ◌==◌, length-append, if◌then◌else◌, Bool-cases, ==_iff,
}
use mogusocket.Stream.{Source, Sink, content, flatten}
use mogusocket.Frame.Header.{op_text, op_binary, op_continuation}
use mogusocket.Frame.Build.{new_frame}
use mogusocket.Check.{fragmented, state_set, state_is, state_client_side}
use mogusocket.Utf8.Machine.{start}
use mogusocket.Utf8.Run.{run}
use mogusocket.Utf8.Scalars.{IsUtf8}
use mogusocket.Utf8.Reader.{new_utf8_reader}
use mogusocket.Writer.Fragments.{fragment_header, IsFragment, AreFragments}
use mogusocket.Writer.Message.{IsMessage}
use mogusocket.Writer.Result.{Result, ok, ◌>>=◌}
use mogusocket.Reader.Messages.{
  Reader, next_frame, new_reader, frame_body, read_message, reset_fragment,
}
use mogusocket.Reader.Helpers.{Message}
use mogusocket.Reader.Loops.{all_loop}
use mogusocket.Reader.ReadMessage.{message_reader, after_first, with_payload, receive_message}
use mogusocket.Reader.Partway.{weight}
use mogusocket.Reader.Payloads.{IsReading}
use mogusocket.Reader.Opening.{IsHelper, opened, advanced, next_frame-opened}
use mogusocket.Reader.Receives.{Receives, receive_message-frame, with_payload-ok, run-IsUtf8_start}
use mogusocket.Reader.Exchange.{IsDataMessage, new_frame-IsWhole, passes}
use mogusocket.Reader.Passing.{all_loop-Passes}
use mogusocket.Reader.Fragmented.{IsFragment-Heads}
use mogusocket.Reader.Assembly.{IsAwaiting-reset, all_loop-fragments, bytes_split}

data_small :
    (op : ℕ) → (op ≡ op_text) ⊎ (op ≡ op_binary) → (op < 16) × ((op == op_continuation) ≡ false)
data_small op kind = (ground (arith, kind), ground (arith, kind))

text_valid :
    (op : ℕ) (p : Bytes)
    → (op ≡ op_text → IsUtf8 p)
    → run start (if op == op_text then p else []) ≡ start
unfolding run
text_valid op p text = elim (Bool-cases (op == op_text)) [
  | inl e ↦ rw e (run-IsUtf8_start p (text ((==_iff op op_text).0 e)))
  | inr e ↦ rw e refl
]

-- The reader behind the header of the first of several frames.
first-IsReading :
    {S : Type 0} (op : ℕ) (c more rest : Bytes) (after : Source) (r : Reader S)
    → IsDataMessage op (c ++ more)
    → r.state ≡ state_client_side
    → r.body.utf8.state ≡ 0
    → content after ≡ c ++ rest
    → IsReading (opened (fragment_header op 0 false c) after r) c more rest
unfolding frame_body fragmented state_set state_is
first-IsReading op c more rest after r s client clean arrives =
    let (bytes, more_bytes) = bytes_split c more s.bytes in
    let hdr = fragment_header op 0 false c in
    record {
      wire = c;
      partway = record {
        arrives = arrives;
        counted = refl;
        means = refl;
        ciphers = tt;
        wire_bytes = bytes;
        bytes = bytes;
        state = start;
        state_is = clean;
        valid_from = text_valid op (c ++ more) s.text;
      };
      in_frame = refl;
      continues =
          λ e. absurd (goes_on (ap (λ (t : ℕ). fragmented (advanced hdr t)) (sym client) ∙ e));
    }
  where
    goes_on : ¬ (true ≡ false)
    goes_on e = cc

after_first_fragments :
    (room : ℕ → ℕ) (fuel op : ℕ) (c : Bytes) (r : Reader (Result (List Message)))
    → after_first room fuel (fragment_header op 0 false c, none, r)
      ≡ (all_loop read_message room fuel [] r >>= with_payload room fuel op)
after_first_fragments room fuel op c r = refl

several-Receives :
    (room : ℕ → ℕ) (fuel op : ℕ) (c : Bytes) (cs : List Bytes) (tail frames last rest : Bytes)
    (m : List Message) (src : Source)
    → ((n : ℕ) → 0 < room n)
    → IsDataMessage op (flatten (c ∷ cs) ++ tail)
    → AreFragments op 0 (c ∷ cs) frames
    → IsFragment op (length (c ∷ cs)) true tail last
    → content src ≡ (frames ++ last) ++ rest
    → weight src < fuel
    → Receives m
        (record { op_code = op; payload = flatten (c ∷ cs) ++ tail })
        rest
        (receive_message room fuel src state_client_side m)
unfolding receive_message message_reader new_reader new_utf8_reader frame_body fragmented state_set
    state_is reset_fragment
several-Receives room fuel op c cs tail frames last rest m src space s
      (front, back, first, split, sent) final arrives enough =
    let r = message_reader room fuel src state_client_side m in
    let more = flatten cs ++ tail in
    let behind = (back ++ last) ++ rest in
    let (small, fresh) = data_small op s.kind in
    let joined : (c ++ flatten cs) ++ tail ≡ c ++ more = append_assoc c (flatten cs) tail in
    let s' = subst (IsDataMessage op) joined s in
    let arrives' : content src ≡ front ++ behind =
      arrives
      ∙ ap (λ (t : Bytes). (t ++ last) ++ rest) split
      ∙ ap (λ (t : Bytes). t ++ rest) (append_assoc front back last)
      ∙ append_assoc front (back ++ last) rest in
    let sum = length-append c more in
    let all_bytes = bytes_split c more s'.bytes in
    let h =
      IsFragment-Heads op 0 false c front behind src small (omega (arith, s'.fits)) first
        arrives' in
    let hdr = fragment_header op 0 false c in
    let helper : IsHelper r = record {
      checks = refl;
      plain = refl;
      no_limit = refl;
      texts = refl;
      silent = refl;
    } in
    let r' = opened hdr h.after r in
    let helper' : IsHelper r' = record {
      checks = refl;
      plain = refl;
      no_limit = refl;
      texts = refl;
      silent = refl;
    } in
    let next : next_frame r ≡ (hdr, none, r') =
      next_frame-opened hdr h.after r helper h.reads
        (passes hdr state_client_side s.kind refl (inr (refl, refl))) refl fresh in
    let reading = first-IsReading op c more behind h.after r s' refl refl h.arrives in
    let p =
      all_loop-Passes room fuel [] c more behind r' space reading refl (omega (arith, h.lighter)) in
    let awaiting =
      IsAwaiting-reset r' op p.body more behind helper' refl refl p.between p.same_checking in
    let index : length (c ∷ cs) ≡ suc 0 + length cs = omega arith in
    let rest_of =
      all_loop-fragments room p.left op 0 cs tail back last rest c
        (reset_fragment (record r' { body = p.body })) space small awaiting sent
        (subst (λ (k : ℕ). IsFragment op k true tail last) index final) (all_bytes.1)
        (omega (arith, s'.fits)) p.enough in
    record {
      after = rest_of.after.body.source;
      result =
          ap (after_first room fuel) next
          ∙ after_first_fragments room fuel op c r'
          ∙ ap (λ x. x >>= with_payload room fuel op)
              (p.result
                ∙ rest_of.result
                ∙ ap (λ (t : Bytes). ok (t, none, rest_of.after)) (sym joined))
          ∙ with_payload-ok room fuel op (flatten (c ∷ cs) ++ tail) m rest_of.after
              rest_of.same_store;
      remains = rest_of.arrives;
    }

one-Receives :
    (room : ℕ → ℕ) (fuel op : ℕ) (tail last rest : Bytes) (m : List Message) (src : Source)
    → IsDataMessage op tail
    → IsFragment op 0 true tail last
    → content src ≡ last ++ rest
    → weight src < fuel
    → Receives m
        (record { op_code = op; payload = tail })
        rest
        (receive_message room fuel src state_client_side m)
unfolding new_frame
one-Receives room fuel op tail last rest m src s final arrives enough =
    let small = (data_small op s.kind).0 in
    let h = IsFragment-Heads op 0 true tail last rest src small s.fits final arrives in
    receive_message-frame room fuel state_client_side (new_frame op true tail) tail rest m src
      h.after (new_frame-IsWhole op tail s) h.reads h.arrives (omega (arith, h.lighter))

-- A text or binary message that stands on the wire in any number of frames, as a server's Writer
-- leaves it, ReadMessage of a client returns whole behind the messages it was given, whatever follows
-- on the connection and however it cuts the bytes, if io.ReadAll always has room; fuel above the
-- number of bytes and pieces is enough.
pub receive_message-IsMessage :
    (room : ℕ → ℕ) (fuel op : ℕ) (before given rest : Bytes) (d : Sink) (m : List Message)
    (src : Source) (sent : IsMessage before op given d)
    → ((n : ℕ) → 0 < room n)
    → IsDataMessage op given
    → content src ≡ (sent.frames ++ sent.last) ++ rest
    → weight src < fuel
    → Receives m
        (record { op_code = op; payload = given })
        rest
        (receive_message room fuel src state_client_side m)
receive_message-IsMessage room fuel op before given rest d m src sent space s arrives enough =
    subst
      (λ (t : Bytes).
        Receives m (record { op_code = op; payload = t }) rest
          (receive_message room fuel src state_client_side m))
      sent.whole
      (go sent.parts sent.are_frames sent.is_final (subst (IsDataMessage op) (sym sent.whole) s))
  where
    go :
        (parts : List Bytes)
        → AreFragments op 0 parts sent.frames
        → IsFragment op (length parts) true sent.tail sent.last
        → IsDataMessage op (flatten parts ++ sent.tail)
        → Receives m
            (record { op_code = op; payload = flatten parts ++ sent.tail })
            rest
            (receive_message room fuel src state_client_side m)
    go [] none_before final s =
        one-Receives room fuel op sent.tail sent.last rest m src s final
          (arrives ∙ ap (λ (t : Bytes). (t ++ sent.last) ++ rest) none_before) enough
    go (c ∷ cs) fragments final s =
        several-Receives room fuel op c cs sent.tail sent.frames sent.last rest m src space s
          fragments final arrives enough
