-- ===== src/Reader/DataExchange.antt =====
-- msutil/helper.go: `ReadData` on what `WriteMessage` writes.
use mogusocket.Common.{
  ℕ, zero, suc, ◌<◌, ◌≡◌, refl, ap, ◌∙◌, inl, inr, ◌⊎◌, Bool, true, false, Option, none, [], ◌++◌,
  arith, bit_and, bit_or, Bytes, ◌==◌, if◌then◌else◌,
}
use mogusocket.Errors.{Error}
use mogusocket.Stream.{Source, Sink, content, written}
use mogusocket.Frame.Header.{Header, Frame, op_text, op_binary, is_control}
use mogusocket.Frame.Build.{new_frame, mask_frame_in_place, mask_frame_in_place_with}
use mogusocket.Check.{
  fragmented, state_clear, state_set, state_fragmented, state_client_side, state_server_side,
  client_side, state_is,
}
use mogusocket.Codec.Write.{write_frame}
use mogusocket.Codec.Read.{read_header}
use mogusocket.Codec.RoundTrip.{header-Encoding}
use mogusocket.Codec.Frames.{write_frame-Encoding}
use mogusocket.Utf8.Reader.{new_utf8_reader}
use mogusocket.Writer.Result.{Result, ok, ◌>>=◌}
use mogusocket.Reader.Messages.{Reader, new_reader, next_frame, read_message, frame_body}
use mogusocket.Reader.Helpers.{write_message, send_frame}
use mogusocket.Reader.Loops.{all_loop}
use mogusocket.Reader.ReadData.{
  Given, Replies, Received, data_reader, after_frame, with_data, data_loop, read_data_wanted,
  read_data,
}
use mogusocket.Reader.Partway.{weight}
use mogusocket.Reader.Opening.{IsHelper, opened, next_frame-opened}
use mogusocket.Reader.Collected.{all_loop-Collects}
use mogusocket.Reader.Receives.{IsWhole, opened-IsReading, read_header-frame}
use mogusocket.Reader.Delivery.{client_frame}
use mogusocket.Reader.Exchange.{
  IsDataMessage, sender, receiver, client_frame-IsWhole, new_frame-IsWhole,
}

-- `ReadData` has returned the payload `p`, has answered nothing, and `rest` is still to come.
pub record ReadsData (p : Bytes) (op : ℕ) (rest : Bytes) (dst : Sink)
    (x : Result (Bytes × ℕ × Option Error × Source × Sink)) : Type 0 where
  pub after : Source
  pub result : x ≡ ok (p, op, none, after, dst)
  pub remains : content after ≡ rest

module _ (g : Given) where
  wanted_frame :
      (state want : ℕ) (again : Reader (Result Replies) → Result (Received g)) (h : Header)
      (r : Reader (Result Replies))
      → is_control h.op_code ≡ false
      → (bit_and h.op_code want == 0) ≡ false
      → after_frame g state want again (h, none, r)
        ≡ (all_loop read_message g.room g.fuel [] r >>= with_data g h.op_code)
  wanted_frame state want again h r no_control wanted = rw (no_control, wanted) refl

  data_loop_first :
      (rounds state want : ℕ) (r : Reader (Result Replies)) (x : Result (Received g))
      → 0 < rounds
      → ((again : Reader (Result Replies) → Result (Received g))
          → after_frame g state want again (next_frame r) ≡ x)
      → data_loop g rounds state want r ≡ x
  unfolding data_loop
  data_loop_first zero state want r x some_round first = absurd (omega arith)
  data_loop_first (suc rounds) state want r x some_round first =
      first (data_loop g rounds state want)

  with_data-ok :
      (op : ℕ) (p : Bytes) (c : Replies) (r : Reader (Result Replies))
      → r.store ≡ ok c
      → with_data g op (p, none, r) ≡ ok (p, op, none, r.body.source, c.dst)
  with_data-ok op p c r kept =
      ap (λ x. x >>= λ (d : Replies). ok (p, op, none, r.body.source, d.dst)) kept

  read_data-frame :
      (st want : ℕ) (f : Frame) (p rest : Bytes) (dst : Sink) (src after : Source)
      → ((n : ℕ) → 0 < g.room n)
      → IsWhole f p st
      → is_control f.header.op_code ≡ false
      → (bit_and f.header.op_code want == 0) ≡ false
      → read_header src ≡ (f.header, none, after)
      → content after ≡ f.payload ++ rest
      → weight after < g.fuel
      → ReadsData p f.header.op_code rest dst (read_data_wanted g src dst st want)
  unfolding read_data_wanted data_reader new_reader new_utf8_reader frame_body
  read_data-frame st want f p rest dst src after space w no_control wanted reads arrives enough =
      let r = data_reader g src st dst in
      let helper : IsHelper r = record {
        checks = refl;
        plain = refl;
        no_limit = refl;
        texts = refl;
        silent = refl;
      } in
      let r' = opened f.header after r in
      let first : next_frame r ≡ (f.header, none, r') =
        next_frame-opened f.header after r helper reads w.accepted w.between w.fresh in
      let still : fragmented r'.state ≡ false =
        ap
          (λ (c : Bool).
            fragmented
              (if c then state_clear st state_fragmented else state_set st state_fragmented))
          w.final
        ∙ w.stays in
      let all =
        all_loop-Collects g.room g.fuel [] p rest r' space
          (opened-IsReading f p rest st after r w arrives refl) still enough in
      record {
        after = all.after.body.source;
        result =
            data_loop_first g.fuel st want r
              (ok (p, f.header.op_code, none, all.after.body.source, dst)) (omega arith)
              (λ again.
                ap (after_frame g st want again) first
                ∙ wanted_frame st want again f.header r' no_control wanted
                ∙ ap (λ x. x >>= with_data g f.header.op_code) all.result
                ∙ with_data-ok f.header.op_code p (record { dst = dst; calls = 0 }) all.after
                    all.same_store);
        remains = all.arrives;
      }

  read_data-write_frame :
      (st want : ℕ) (f : Frame) (p : Bytes) (w : Sink)
      → ((n : ℕ) → 0 < g.room n)
      → IsWhole f p st
      → is_control f.header.op_code ≡ false
      → (bit_and f.header.op_code want == 0) ≡ false
      → (write_frame f w).0 ≡ none
      → (bts : Bytes) × (written (write_frame f w).1 ≡ written w ++ bts)
        × ((src : Source) (rest : Bytes) (dst : Sink)
            → content src ≡ bts ++ rest
            → weight src < g.fuel
            → ReadsData p f.header.op_code rest dst (read_data_wanted g src dst st want))
  read_data-write_frame st want f p w space whole no_control wanted sent =
      let e = header-Encoding f.header whole.wire.wire in
      (
        e.bytes ++ f.payload,
        write_frame-Encoding f w e sent,
        λ src rest dst c enough.
            let (after, reads, arrives, lighter) = read_header-frame f e src rest c in
            read_data-frame st want f p rest dst src after space whole no_control wanted reads
              arrives (omega (arith, enough, lighter)),
      )

data_op :
    (op : ℕ)
    → (op ≡ op_text) ⊎ (op ≡ op_binary)
    → (is_control op ≡ false) × ((bit_and op (bit_or op_text op_binary) == 0) ≡ false)
unfolding is_control
data_op op (inl e) = rw e (refl, refl)
data_op op (inr e) = rw e (refl, refl)

-- What one side's WriteMessage sends of a text or binary message without an error, ReadData on the
-- other side returns with its opcode, and writes nothing itself, whatever follows on the connection
-- and however it cuts the bytes, if io.ReadAll always has room; fuel above the number of bytes and
-- pieces is enough.
pub read_data-write_message :
    (g : Given) (from_client : Bool) (drawn op : ℕ) (p : Bytes) (w : Sink)
    → ((n : ℕ) → 0 < g.room n)
    → IsDataMessage op p
    → (write_message drawn w (sender from_client) op p).0 ≡ none
    → (bts : Bytes) × (written (write_message drawn w (sender from_client) op p).1
        ≡ written w ++ bts)
      × ((src : Source) (rest : Bytes) (dst : Sink)
          → content src ≡ bts ++ rest
          → weight src < g.fuel
          → ReadsData p op rest dst (read_data g src dst (receiver from_client)))
unfolding read_data write_message send_frame client_side state_is new_frame mask_frame_in_place
    mask_frame_in_place_with
read_data-write_message g true drawn op p w space s sent =
    let (no_control, wanted) = data_op op s.kind in
    read_data-write_frame g state_server_side (bit_or op_text op_binary) (client_frame drawn op p) p
      w space (client_frame-IsWhole drawn op p s) no_control wanted sent
read_data-write_message g false drawn op p w space s sent =
    let (no_control, wanted) = data_op op s.kind in
    read_data-write_frame g state_client_side (bit_or op_text op_binary) (new_frame op true p) p w
      space (new_frame-IsWhole op p s) no_control wanted sent
