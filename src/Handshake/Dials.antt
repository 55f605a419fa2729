-- ===== src/Handshake/Dials.antt =====
-- dialer.go: `Dialer.Upgrade` always returns; its panics are never reached.
use mogusocket.Common.{
  ℕ, zero, suc, ◌<◌, ◌≡◌, inl, inr, refl, sym, subst, Bool, true, false, bit_or, ltb, Option, none,
  some, List, [], ◌∷◌, ◌++◌, arith, Bytes, length, ◌==◌, Bool-cases,
}
use mogusocket.Common.Bits.{all_below, all_below_sound}
use mogusocket.Errors.{Error}
use mogusocket.Stream.{Sink}
use mogusocket.Writer.Result.{Result, ok, ◌>>=◌}
use mogusocket.Text.Select.{same_bytes, non_zero}
use mogusocket.Text.LineLaws.{line_result, read_line-line_result, line_result-shorter}
use mogusocket.Http.Lines.{http_parse_response_line, http_parse_header_line}
use mogusocket.Handshake.Failure.{HandshakeError}
use mogusocket.Handshake.Nonce.{init_nonce, check_accept_from_nonce, magic}
use mogusocket.Handshake.Options.{Httphead}
use mogusocket.Handshake.Server.{Outside, Handshake}
use mogusocket.Handshake.Seen.{settles, settled}
use mogusocket.Handshake.Total.{Returns}
use mogusocket.Handshake.Client.{
  Dialer, Answer, first_answer, answer_of, answer_step, answer_line, next_answer, after_answer_line,
  read_answer, check_got, finish_answer, check_response, after_status_line, read_response,
  with_conn, after_request_sent, upgrade_request, send_request, client_upgrade,
  default_client_read_buffer_size,
}
use mogusocket.Handshake.Agreed.{settle}
use mogusocket.Handshake.Answers.{
  answer_flag, parsed_answer, answer_line-some, seen_after, read_answer-IsRead,
}

bit_or-eight : (x b : ℕ) → x < 8 → b < 8 → bit_or x b < 8
unfolding all_below
bit_or-eight x b hx hb =
    let row = all_below_sound 8 (λ y. all_below 8 (λ c. ltb (bit_or y c) 8)) x refl hx in
    let cell = all_below_sound 8 (λ c. ltb (bit_or x c) 8) b row hb in ground arith

answer_flag-eight : (k : Bytes) → answer_flag k < 8
unfolding answer_flag
answer_flag-eight k = ground arith

module _ (hh : Httphead) (o : Outside) (d : Dialer hh) (nonce : Bytes)
    (whole : length nonce ≡ 24) where
  abbrev Step : Type 0
  Step = Result (Option HandshakeError × Answer hh)

  seen_after-eight :
      (seen : ℕ) (kvs : List (Bytes × Bytes)) → seen < 8 → seen_after hh o d nonce seen kvs < 8
  seen_after-eight seen [] small = small
  seen_after-eight seen (kv ∷ kvs) small =
      seen_after-eight (bit_or seen (answer_flag kv.0)) kvs
        (bit_or-eight seen (answer_flag kv.0) small (answer_flag-eight kv.0))

  check_accept-some :
      (v : Bytes) → (b : Bool) × (check_accept_from_nonce o.sum o.encode v nonce ≡ some b)
  unfolding check_accept_from_nonce
  check_accept-some v = elim (Bool-cases (length v == 28)) [
    | inl long ↦ (same_bytes (o.encode (o.sum (nonce ++ magic))) v, rw (long, whole) refl)
    | inr ne ↦ (false, rw ne refl)
  ]

  answer_step-settles :
      (k v : Bytes) (s : Answer hh) → settles (answer_step hh o d nonce k v s) ≡ true
  unfolding answer_step
  answer_step-settles k v s = let (b, e) = check_accept-some v in ground (arith, e)

  check_got-settles : (seen : ℕ) → seen < 8 → Returns (check_got hh o seen)
  unfolding check_got all_below
  check_got-settles seen small =
      settled (check_got hh o seen)
        (all_below_sound 8 (λ x. settles (check_got hh o x)) seen refl small)

  parsed_answer-settles :
      (s : Answer hh) (x : Option (Bytes × Bytes)) → settles (parsed_answer hh o d nonce s x) ≡ true
  parsed_answer-settles s none = refl
  parsed_answer-settles s (some kv) = answer_step-settles kv.0 kv.1 s

  answer_line-Returns :
      (line : Bytes) (s : Answer hh) (r : Step)
      → answer_line hh o d nonce line s ≡ some r
      → Returns r
  answer_line-Returns line s r h = settled r (
      subst (λ x. settles x ≡ true) (answer_line-some hh o d nonce line s r h)
        (parsed_answer-settles s (http_parse_header_line line)))

  next_answer-Returns :
      (again : Answer hh → Step) (x : Option HandshakeError × Answer hh)
      → ((s : Answer hh) → Returns (again s))
      → Returns (next_answer hh o again x)
  next_answer-Returns again (none, s) ih = ih s
  next_answer-Returns again (some e, s) ih = (_, refl)

  after_header_line-Returns :
      (again : Answer hh → Step) (line : Bytes) (s : Answer hh) (x : Option Step)
      → answer_line hh o d nonce line s ≡ x
      → ((s : Answer hh) → Returns (again s))
      → Returns
          (elim x as (λ y. Step) [ none ↦ ok (none, s) | some r ↦ r >>= next_answer hh o again ])
  after_header_line-Returns again line s none h ih = (_, refl)
  after_header_line-Returns again line s (some r) h ih =
      let (a, e) = answer_line-Returns line s r h in
      subst (λ x. Returns (x >>= next_answer hh o again)) (sym e) (next_answer-Returns again a ih)

  after_line-Returns :
      (again : Bytes → Answer hh → Step) (last : Error) (pending : Bytes) (s : Answer hh)
      (x : Bytes × Option Error × Bytes)
      → line_result last [] pending ≡ x
      → ((behind : Bytes) (s : Answer hh)
          → length behind < length pending
          → Returns (again behind s))
      → Returns (after_answer_line hh o d nonce again s x)
  after_line-Returns again last pending s (line, some e, behind) eq ih = (_, refl)
  after_line-Returns again last pending s (line, none, behind) eq ih =
      after_header_line-Returns (again behind) line s (answer_line hh o d nonce line s) refl
        (λ s'. ih behind s' (line_result-shorter last pending line behind eq))

  read_answer-Returns :
      (fuel size : ℕ) (last : Error) (pending : Bytes) (s : Answer hh)
      → 0 < size
      → length pending < fuel
      → Returns (read_answer hh o fuel size last d nonce pending s)
  unfolding read_answer
  read_answer-Returns zero size last pending s room enough = absurd (omega arith)
  read_answer-Returns (suc fuel) size last pending s room enough =
      subst
        (λ r.
          Returns
            (r >>= after_answer_line hh o d nonce (read_answer hh o fuel size last d nonce) s))
        (sym (read_line-line_result size last pending room))
        (after_line-Returns (read_answer hh o fuel size last d nonce) last pending s
          (line_result last [] pending) refl
          (λ behind s' shorter. read_answer-Returns fuel size last behind s' room (omega arith)))

  finish_answer-Returns :
      (size : ℕ) (last : Error) (pending : Bytes) (x : Option HandshakeError × Answer hh)
      → 0 < size
      → read_answer hh o (suc (length pending)) size last d nonce pending (first_answer hh) ≡ ok x
      → Returns (finish_answer hh o x)
  unfolding finish_answer
  finish_answer-Returns size last pending (some e, s) room h = (_, refl)
  finish_answer-Returns size last pending (none, s) room h =
      let r =
        read_answer-IsRead hh o d nonce (suc (length pending)) size last pending (first_answer hh) s
          room h in
      let small : s.seen < 8 = rw r.flags (seen_after-eight 0 r.kvs (omega arith)) in
      let (e, got) = check_got-settles s.seen small in
      subst (λ x. Returns (x >>= settle hh o d nonce s)) (sym got) (_, refl)

  checked-Returns :
      (size : ℕ) (last : Error) (behind : Bytes) (e : Option HandshakeError)
      → 0 < size
      → Returns (elim e as (λ y. Result (Option HandshakeError × Handshake hh)) [
        | some e' ↦ ok (some e', answer_of hh o (first_answer hh))
        | none ↦
            read_answer hh o (suc (length behind)) size last d nonce behind (first_answer hh)
            >>= finish_answer hh o
      ])
  checked-Returns size last behind (some e) room = (_, refl)
  checked-Returns size last behind none room =
      let (x, e) =
        read_answer-Returns (suc (length behind)) size last behind (first_answer hh) room
          (omega arith) in
      subst (λ r. Returns (r >>= finish_answer hh o)) (sym e)
        (finish_answer-Returns size last behind x room e)

  after_status-Returns :
      (size : ℕ) (last : Error) (x : Bytes × Option Error × Bytes)
      → 0 < size
      → Returns (after_status_line hh o d nonce size last x)
  after_status-Returns size last (line, some e, behind) room = (_, refl)
  after_status-Returns size last (line, none, behind) room =
      checked-Returns size last behind (check_response hh o (http_parse_response_line line)) room

  read_response-Returns :
      (last : Error) (pending : Bytes)
      → ((n : ℕ) → 0 < o.buffer_size n)
      → Returns (read_response hh o d nonce pending last)
  unfolding read_response
  read_response-Returns last pending room =
      let size = o.buffer_size (non_zero d.read_buffer_size default_client_read_buffer_size) in
      let some_room = room (non_zero d.read_buffer_size default_client_read_buffer_size) in
      subst (λ r. Returns (r >>= after_status_line hh o d nonce size last))
        (sym (read_line-line_result size last pending some_room))
        (after_status-Returns size last (line_result last [] pending) some_room)

  after_sent-Returns :
      (last : Error) (pending : Bytes) (x : Option Error × Sink)
      → ((n : ℕ) → 0 < o.buffer_size n)
      → Returns (after_request_sent hh o d nonce pending last x)
  after_sent-Returns last pending (some e, conn) room = (_, refl)
  after_sent-Returns last pending (none, conn) room =
      let ((e, hs), eq) = read_response-Returns last pending room in
      subst (λ r. Returns (r >>= with_conn hh o conn)) (sym eq) (_, refl)

module _ (hh : Httphead) (o : Outside) (d : Dialer hh) where
  -- Upgrade of the client returns, whatever the answer, over a buffer of at least one byte, where
  -- rand.Read has given its bytes and their encoding is 24 bytes long: it neither runs out of rounds
  -- nor panics.
  pub client_upgrade-Returns :
      (drawn uri host pending : Bytes) (last : Error) (conn : Sink)
      → length (o.encode drawn) ≡ 24
      → ((n : ℕ) → 0 < o.buffer_size n)
      → Returns (client_upgrade hh o d (some drawn) uri host pending last conn)
  unfolding client_upgrade init_nonce
  client_upgrade-Returns drawn uri host pending last conn whole room =
      let nonce = o.encode drawn in
      after_sent-Returns hh o d nonce whole last pending
        (send_request hh o d (upgrade_request hh o d uri host nonce) conn) room
