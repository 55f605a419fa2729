-- ===== src/Handshake/Answers.antt =====
-- dialer.go: the loop over the headers of an answer.
use mogusocket.Common.{
  ℕ, zero, suc, ◌<◌, ◌≡◌, refl, sym, ap, subst, ◌∙◌, true, ◌||◌, bit_or, Option, none, some, List,
  [], ◌∷◌, ◌++◌, arith, Bytes, length, All, if◌then◌else◌,
}
use mogusocket.Common.Bits.{bit_or-zero}
use mogusocket.Errors.{Error}
use mogusocket.Writer.Result.{Result, ok, panic, stuck, ◌>>=◌}
use mogusocket.Text.Codes.{codes}
use mogusocket.Text.Select.{same_bytes}
use mogusocket.Text.LineLaws.{line_result, read_line-line_result}
use mogusocket.Http.Lines.{http_parse_header_line}
use mogusocket.Handshake.Failure.{HandshakeError, malformed_response}
use mogusocket.Handshake.Nonce.{init_accept_from_nonce, check_accept_from_nonce, accept_size, magic}
use mogusocket.Handshake.Options.{Httphead}
use mogusocket.Handshake.Server.{Outside}
use mogusocket.Handshake.Steps.{same_bytes-eq}
use mogusocket.Handshake.Sound.{Spelled, blank, more}
use mogusocket.Handshake.Client.{
  Dialer, Answer, answered_protocol, answer_step, answer_line, after_answer_line, next_answer,
  read_answer, got_upgrade, got_connection, got_sec_accept,
}

-- The flag that a header of an answer sets.
unfoldable pub answer_flag : Bytes → ℕ
answer_flag k =
    if same_bytes k (codes "Upgrade")
    then got_upgrade
    else if same_bytes k (codes "Connection")
    then got_connection
    else if same_bytes k (codes "Sec-Websocket-Accept")
    then got_sec_accept
    else 0

module _ (hh : Httphead) (o : Outside) (d : Dialer hh) (nonce : Bytes) where
  -- The value that the client wants of a header with the key `k`.
  pub record IsExpected (k v : Bytes) : Type 0 where
    pub upgrade :
        k ≡ codes "Upgrade"
        → (same_bytes v (codes "websocket") || hh.equal_fold v (codes "websocket")) ≡ true
    pub connection :
        k ≡ codes "Connection"
        → (same_bytes v (codes "Upgrade") || hh.equal_fold v (codes "Upgrade")) ≡ true
    pub accept :
        k ≡ codes "Sec-Websocket-Accept"
        → init_accept_from_nonce o.sum o.encode accept_size nonce ≡ some v

  abbrev Step : Type 0
  Step = Result (Option HandshakeError × Answer hh)

  answered_protocol_keeps :
      (v : Bytes) (s : Answer hh) → (answered_protocol hh d v s).1.seen ≡ s.seen
  unfolding answered_protocol
  answered_protocol_keeps v s = ground arith

  answer_step-seen :
      (k v : Bytes) (s t : Answer hh) (e : Option HandshakeError)
      → answer_step hh o d nonce k v s ≡ ok (e, t)
      → t.seen ≡ bit_or s.seen (answer_flag k)
  unfolding answer_step answer_flag
  answer_step-seen k v s t e h = ground (arith, bit_or-zero s.seen, answered_protocol_keeps v s)

  check_accept-eq :
      (v : Bytes)
      → check_accept_from_nonce o.sum o.encode v nonce ≡ some true
      → init_accept_from_nonce o.sum o.encode accept_size nonce ≡ some v
  unfolding check_accept_from_nonce
  check_accept-eq v h = ground (arith, same_bytes-eq (o.encode (o.sum (nonce ++ magic))) v)

  -- A value that the switch accepts is the one wanted.
  answer_step-IsExpected :
      (k v : Bytes) (s t : Answer hh)
      → answer_step hh o d nonce k v s ≡ ok (none, t)
      → IsExpected k v
  unfolding answer_step same_bytes
  answer_step-IsExpected k v s t h = record {
    upgrade = λ e. good_upgrade e;
    connection = λ e. good_connection e;
    accept = λ e. good_accept e;
  }
    where
      named : (c : Bytes) → k ≡ c → answer_step hh o d nonce c v s ≡ ok (none, t)
      named c e = subst (λ x. answer_step hh o d nonce x v s ≡ ok (none, t)) e h

      good_upgrade :
          k ≡ codes "Upgrade"
          → (same_bytes v (codes "websocket") || hh.equal_fold v (codes "websocket")) ≡ true
      good_upgrade e = let n = named _ e in ground arith

      good_connection :
          k ≡ codes "Connection"
          → (same_bytes v (codes "Upgrade") || hh.equal_fold v (codes "Upgrade")) ≡ true
      good_connection e = let n = named _ e in ground arith

      good_accept :
          k ≡ codes "Sec-Websocket-Accept"
          → init_accept_from_nonce o.sum o.encode accept_size nonce ≡ some v
      good_accept e = let n = named _ e in ground (arith, check_accept-eq v)

  abbrev pub seen_after : ℕ → List (Bytes × Bytes) → ℕ
  seen_after seen [] = seen
  seen_after seen (kv ∷ kvs) = seen_after (bit_or seen (answer_flag kv.0)) kvs

  -- How the headers were read that the loop accepted.
  pub record IsRead (last : Error) (pending : Bytes) (s t : Answer hh) : Type 0 where
    pub kvs : List (Bytes × Bytes)
    pub rest : Bytes
    pub spelled : Spelled last pending kvs rest
    pub expected : All (λ kv. IsExpected kv.0 kv.1) kvs
    pub flags : t.seen ≡ seen_after s.seen kvs

  -- What a line of the headers gives once it is parsed.
  abbrev pub parsed_answer : Answer hh → Option (Bytes × Bytes) → Step
  parsed_answer s none = ok (some malformed_response, s)
  parsed_answer s (some kv) = answer_step hh o d nonce kv.0 kv.1 s

  answer_line-none :
      (line : Bytes) (s : Answer hh) → answer_line hh o d nonce line s ≡ none → length line ≡ 0
  unfolding answer_line
  answer_line-none line s h = ground arith

  pub answer_line-some :
      (line : Bytes) (s : Answer hh) (r : Step)
      → answer_line hh o d nonce line s ≡ some r
      → parsed_answer s (http_parse_header_line line) ≡ r
  unfolding answer_line
  answer_line-some line s r h = ground arith

  first_answer_header :
      (last : Error) (pending line behind : Bytes) (s t s' : Answer hh) (x : Option (Bytes × Bytes))
      → line_result last [] pending ≡ (line, none, behind)
      → http_parse_header_line line ≡ x
      → parsed_answer s x ≡ ok (none, s')
      → IsRead last behind s' t
      → IsRead last pending s t
  first_answer_header last pending line behind s t s' none e p h r = cc
  first_answer_header last pending line behind s t s' (some kv) e p h r = record {
    kvs = kv ∷ r.kvs;
    rest = r.rest;
    spelled = more e p r.spelled;
    expected = (answer_step-IsExpected kv.0 kv.1 s s' h, r.expected);
    flags = r.flags ∙ ap (λ (n : ℕ). seen_after n r.kvs) (answer_step-seen kv.0 kv.1 s s' none h);
  }

  after_step-IsRead :
      (again : Answer hh → Step) (last : Error) (pending line behind : Bytes) (s t : Answer hh)
      (r : Step)
      → line_result last [] pending ≡ (line, none, behind)
      → parsed_answer s (http_parse_header_line line) ≡ r
      → ((s' : Answer hh) → again s' ≡ ok (none, t) → IsRead last behind s' t)
      → (r >>= next_answer hh o again) ≡ ok (none, t)
      → IsRead last pending s t
  after_step-IsRead again last pending line behind s t panic e p ih done = cc
  after_step-IsRead again last pending line behind s t stuck e p ih done = cc
  after_step-IsRead again last pending line behind s t (ok (some x, s')) e p ih done = cc
  after_step-IsRead again last pending line behind s t (ok (none, s')) e p ih done =
      first_answer_header last pending line behind s t s' (http_parse_header_line line) e refl p
        (ih s' done)

  after_header_line-IsRead :
      (again : Answer hh → Step) (last : Error) (pending line behind : Bytes) (s t : Answer hh)
      (x : Option Step)
      → line_result last [] pending ≡ (line, none, behind)
      → answer_line hh o d nonce line s ≡ x
      → ((s' : Answer hh) → again s' ≡ ok (none, t) → IsRead last behind s' t)
      → (elim x as (λ y. Step) [ none ↦ ok (none, s) | some r ↦ r >>= next_answer hh o again ])
        ≡ ok (none, t)
      → IsRead last pending s t
  after_header_line-IsRead again last pending line behind s t none e h ih done = record {
    kvs = [];
    rest = behind;
    spelled = blank e (answer_line-none line s h);
    expected = tt;
    flags = same_seen done;
  }
    where
      same_seen : ◌≡◌ {A = Step} (ok (none, s)) (ok (none, t)) → t.seen ≡ s.seen
      same_seen h = cc
  after_header_line-IsRead again last pending line behind s t (some r) e h ih done =
      after_step-IsRead again last pending line behind s t r e (answer_line-some line s r h) ih done

  after_line-IsRead :
      (again : Bytes → Answer hh → Step) (last : Error) (pending : Bytes) (s t : Answer hh)
      (x : Bytes × Option Error × Bytes)
      → line_result last [] pending ≡ x
      → ((behind : Bytes) (s' : Answer hh)
          → again behind s' ≡ ok (none, t)
          → IsRead last behind s' t)
      → after_answer_line hh o d nonce again s x ≡ ok (none, t)
      → IsRead last pending s t
  after_line-IsRead again last pending s t (line, some x, behind) e ih done = cc
  after_line-IsRead again last pending s t (line, none, behind) e ih done =
      after_header_line-IsRead (again behind) last pending line behind s t
        (answer_line hh o d nonce line s) e refl (ih behind) done

  pub read_answer-IsRead :
      (fuel size : ℕ) (last : Error) (pending : Bytes) (s t : Answer hh)
      → 0 < size
      → read_answer hh o fuel size last d nonce pending s ≡ ok (none, t)
      → IsRead last pending s t
  unfolding read_answer
  read_answer-IsRead zero size last pending s t room done = cc
  read_answer-IsRead (suc fuel) size last pending s t room done =
      after_line-IsRead (read_answer hh o fuel size last d nonce) last pending s t
        (line_result last [] pending) refl
        (λ behind s' e. read_answer-IsRead fuel size last behind s' t room e)
        (ap (λ r. r >>= after_answer_line hh o d nonce (read_answer hh o fuel size last d nonce) s)
            (sym (read_line-line_result size last pending room))
          ∙ done)
