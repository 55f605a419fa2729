-- ===== src/Reader/Fragmented.antt =====
-- msutil/helper.go: `ReadMessage` of a client on a message in several frames.
use mogusocket.Common.{
  ℕ, zero, suc, ◌+◌, ◌≤◌, ◌<◌, ◌^◌, ◌≡◌, refl, sym, ap, ◌∙◌, Bool, true, false, Option, none, [],
  ◌++◌, arith, Bytes, length, ◌==◌, if◌then◌else◌,
}
use mogusocket.Common.Words.{pos, AreBytes}
use mogusocket.Stream.{Source, content}
use mogusocket.Frame.Header.{Header, is_reserved, is_control, op_continuation, op_text}
use mogusocket.Check.{
  check_header, check_header_state, fragmented, state_set, state_is, extended, server_side,
  client_side,
}
use mogusocket.Errors.{Error}
use mogusocket.Codec.Write.{header_size}
use mogusocket.Codec.Read.{read_header}
use mogusocket.Codec.RoundTrip.{header-Encoding}
use mogusocket.Codec.Extra.{IsWire}
use mogusocket.Utf8.Machine.{State, number, start}
use mogusocket.Utf8.Run.{run}
use mogusocket.Writer.Fragments.{fragment, fragment_header, IsFragment, compile_frame-append}
use mogusocket.Reader.Messages.{Reader, after_next, next_frame, read_message, frame_body}
use mogusocket.Reader.Loops.{all_loop, all_step}
use mogusocket.Reader.Partway.{weight}
use mogusocket.Reader.Payloads.{IsReading}
use mogusocket.Reader.Opening.{IsHelper, continued, advanced}
use mogusocket.Reader.Receives.{read_header-frame}

-- The state of a client within a message.
abbrev pub client_within : ℕ
client_within = 10

fragment-IsWire :
    (op i : ℕ) (fin : Bool) (c : Bytes)
    → op < 16
    → length c < 2 ^ 63
    → IsWire (fragment_header op i fin c)
fragment-IsWire op i fin c small fits = record {
  rsv_bits = omega arith;
  op_bits = op_small i;
  size = length c;
  len_is = refl;
  fits = fits;
  mask_is = omega arith;
  plain = λ e. refl;
}
  where
    op_small : (i : ℕ) → (fragment_header op i fin c).op_code < 16
    op_small zero = small
    op_small (suc i) = omega arith

then_case : {A : Type 0} (c : Bool) (x y : A) → c ≡ true → (if c then x else y) ≡ x
then_case c x y e = ap (λ b. if b then x else y) e

else_case : {A : Type 0} (c : Bool) (x y : A) → c ≡ false → (if c then x else y) ≡ y
else_case c x y e = ap (λ b. if b then x else y) e

two_bytes : (h : Header) (n : ℕ) → h.len ≡ pos n → (k : ℕ) → header_size h ≡ pos k → 2 ≤ k
unfolding header_size
two_bytes h n e k sizes = ground (arith, e, sizes)

-- A fragment at the head of a source, read up to its payload.
pub record Heads (h : Header) (c rest : Bytes) (src : Source) : Type 0 where
  pub after : Source
  pub reads : read_header src ≡ (h, none, after)
  pub arrives : content after ≡ c ++ rest
  pub lighter : weight after + 1 < weight src

pub IsFragment-Heads :
    (op i : ℕ) (fin : Bool) (c bts rest : Bytes) (src : Source)
    → op < 16
    → length c < 2 ^ 63
    → IsFragment op i fin c bts
    → content src ≡ bts ++ rest
    → Heads (fragment_header op i fin c) c rest src
IsFragment-Heads op i fin c bts rest src small fits sent arrives =
    let f = fragment op i fin c in
    let e = header-Encoding f.header (fragment-IsWire op i fin c small fits) in
    let same : bts ≡ e.bytes ++ c =
      ap (λ (x : Bytes × Option Error). x.0)
        (sym sent ∙ compile_frame-append f e.bytes e.encodes) in
    let (after, reads, left, lighter) =
      read_header-frame f e src rest (arrives ∙ ap (λ (t : Bytes). t ++ rest) same) in
    record {
      after = after;
      reads = reads;
      arrives = left;
      lighter = omega (arith, lighter, two_bytes f.header (length c) refl (length e.bytes) e.sizes);
    }

-- The header of a later frame passes the checks of the client.
pub passes_continuation :
    (h : Header)
    → h.op_code ≡ op_continuation
    → h.rsv ≡ 0
    → h.masked ≡ false
    → check_header h client_within ≡ none
unfolding check_header check_header_state is_reserved is_control extended server_side client_side
    fragmented state_is
passes_continuation h cont plain bare = ground arith

module _ {S : Type 0} where
  -- The client is between two frames of the message `op`, and `more` of it is still to come.
  pub record IsAwaiting (r : Reader S) (op : ℕ) (more wire : Bytes) : Type 0 where
    pub helper : IsHelper r
    pub within : r.state ≡ client_within
    pub no_frame : r.has_frame ≡ false
    pub same_op : r.op_code ≡ op
    pub arrives : content r.body.source ≡ wire
    pub state : State
    pub state_is : r.body.utf8.state ≡ number state
    pub valid_from : run state (if op == op_text then more else []) ≡ start

  -- A read between two frames begins with the next one.
  read_message-next :
      (k : ℕ) (h : Header) (r r' : Reader S)
      → r.has_frame ≡ false
      → fragmented r.state ≡ true
      → next_frame r ≡ (h, none, r')
      → r'.has_frame ≡ true
      → read_message k r ≡ read_message k r'
  unfolding read_message
  read_message-next k h r r' no_frame partial next in_frame =
      else_case r.has_frame _ _ no_frame
      ∙ then_case (fragmented r.state) _ _ partial
      ∙ ap (after_next k) next
      ∙ then_case r'.has_frame _ _ in_frame
      ∙ sym (then_case r'.has_frame _ _ in_frame)

  pub all_loop-next :
      (room : ℕ → ℕ) (fuel : ℕ) (acc : Bytes) (h : Header) (r r' : Reader S)
      → 0 < fuel
      → r.has_frame ≡ false
      → fragmented r.state ≡ true
      → next_frame r ≡ (h, none, r')
      → r'.has_frame ≡ true
      → all_loop read_message room fuel acc r ≡ all_loop read_message room fuel acc r'
  unfolding all_loop
  all_loop-next room zero acc h r r' some_fuel no_frame partial next in_frame = absurd (omega arith)
  all_loop-next room (suc fuel) acc h r r' some_fuel no_frame partial next in_frame =
      ap (all_step read_message (all_loop read_message room fuel) acc)
        (read_message-next (room (length acc)) h r r' no_frame partial next in_frame)

  -- The reader behind the header of a later frame reads its payload.
  pub continued-IsReading :
      (r : Reader S) (op i : ℕ) (fin : Bool) (c more rest wire : Bytes) (after : Source)
      → IsAwaiting r op (c ++ more) wire
      → AreBytes c
      → content after ≡ c ++ rest
      → (fin ≡ true → more ≡ [])
      → IsReading (continued (fragment_header op (suc i) fin c) after r) c more rest
  unfolding frame_body state_set state_is fragmented
  continued-IsReading r op i fin c more rest wire after a bytes arrives ends = record {
    wire = c;
    partway = record {
      arrives = arrives;
      counted = refl;
      means = refl;
      ciphers = tt;
      wire_bytes = bytes;
      bytes = bytes;
      state = a.state;
      state_is = a.state_is;
      valid_from =
          ap (λ (o : ℕ). run a.state (if o == op_text then c ++ more else [])) a.same_op
          ∙ a.valid_from;
    };
    in_frame = refl;
    continues = λ e. ends (
        final fin (
          ap (λ (s : ℕ). fragmented (advanced (fragment_header op (suc i) fin c) s)) (sym a.within)
          ∙ e));
  }
    where
      final :
          (fin : Bool)
          → fragmented (advanced (fragment_header op (suc i) fin c) client_within) ≡ false
          → fin ≡ true
      final true e = refl
      final false e = cc
