-- ===== src/Handshake/Agreed.antt =====
-- dialer.go: what the headers of an accepted answer are.
use mogusocket.Common.{
  ℕ, suc, ◌<◌, ◌≡◌, ◌⊎◌, inl, inr, refl, sym, ap, ◌∙◌, true, false, bit_or, Option, none, some,
  List, [], ◌∷◌, arith, Bytes, length, All, Bool-cases,
}
use mogusocket.Errors.{Error}
use mogusocket.Writer.Result.{Result, ok, panic, stuck, ◌>>=◌}
use mogusocket.Text.Codes.{codes}
use mogusocket.Handshake.Failure.{HandshakeError}
use mogusocket.Handshake.Options.{Httphead}
use mogusocket.Handshake.Server.{Outside, Handshake}
use mogusocket.Handshake.Seen.{
  has, IsFlag, has-bit_or, bit_or-lt, seen_host-IsFlag, seen_upgrade-IsFlag, seen_connection-IsFlag,
}
use mogusocket.Handshake.Steps.{same_bytes-eq}
use mogusocket.Handshake.Sound.{Spelled}
use mogusocket.Handshake.Headers.{Mentions}
use mogusocket.Handshake.Client.{
  Dialer, Answer, first_answer, answer_of, read_answer, check_got, finish_answer, got_upgrade,
  got_connection, got_sec_accept,
}
use mogusocket.Handshake.Answers.{answer_flag, IsExpected, seen_after, read_answer-IsRead}

answer_flag-lt : (k : Bytes) → answer_flag k < 32
unfolding answer_flag
answer_flag-lt k = ground arith

upgrade_only : (k : Bytes) → has got_upgrade (answer_flag k) ≡ true → k ≡ codes "Upgrade"
unfolding answer_flag has
upgrade_only k h = ground (arith, same_bytes-eq k (codes "Upgrade"))

connection_only : (k : Bytes) → has got_connection (answer_flag k) ≡ true → k ≡ codes "Connection"
unfolding answer_flag has
connection_only k h = ground (arith, same_bytes-eq k (codes "Connection"))

accept_only :
    (k : Bytes) → has got_sec_accept (answer_flag k) ≡ true → k ≡ codes "Sec-Websocket-Accept"
unfolding answer_flag has
accept_only k h = ground (arith, same_bytes-eq k (codes "Sec-Websocket-Accept"))

-- All three headers that an answer needs.
pub record IsConfirmed (kvs : List (Bytes × Bytes)) : Type 0 where
  pub upgrade : Mentions (codes "Upgrade") kvs
  pub connection : Mentions (codes "Connection") kvs
  pub accept : Mentions (codes "Sec-Websocket-Accept") kvs

module _ (hh : Httphead) (o : Outside) (d : Dialer hh) (nonce : Bytes) where
  seen_after-Mentions :
      (flag : ℕ) (key : Bytes) (seen : ℕ) (kvs : List (Bytes × Bytes))
      → IsFlag flag
      → ((k : Bytes) → has flag (answer_flag k) ≡ true → k ≡ key)
      → seen < 32
      → has flag (seen_after hh o d nonce seen kvs) ≡ true
      → (has flag seen ≡ true) ⊎ Mentions key kvs
  seen_after-Mentions flag key seen [] is only small h = inl h
  seen_after-Mentions flag key seen (kv ∷ kvs) is only small h =
      let less = bit_or-lt seen (answer_flag kv.0) small (answer_flag-lt kv.0) in
      let spread = has-bit_or flag seen (answer_flag kv.0) is small (answer_flag-lt kv.0) in
      elim (seen_after-Mentions flag key (bit_or seen (answer_flag kv.0)) kvs is only less h) [
        | inr later ↦ inr (inr later)
        | inl now ↦ elim (Bool-cases (has flag seen)) [
          | inl before ↦ inl before
          | inr ne ↦ inr (inl (only kv.0 (ground (arith, now, ne, spread))))
        ]
      ]

  seen_after-IsConfirmed :
      (kvs : List (Bytes × Bytes)) → seen_after hh o d nonce 0 kvs ≡ 7 → IsConfirmed kvs
  unfolding has
  seen_after-IsConfirmed kvs all_seen = record {
    upgrade = met got_upgrade (codes "Upgrade") seen_host-IsFlag upgrade_only refl refl;
    connection =
        met got_connection (codes "Connection") seen_upgrade-IsFlag connection_only refl refl;
    accept =
        met got_sec_accept (codes "Sec-Websocket-Accept") seen_connection-IsFlag accept_only refl
          refl;
  }
    where
      met :
          (flag : ℕ) (key : Bytes)
          → IsFlag flag
          → ((k : Bytes) → has flag (answer_flag k) ≡ true → k ≡ key)
          → has flag 0 ≡ false
          → has flag 7 ≡ true
          → Mentions key kvs
      met flag key is only no_flag all_flags =
          elim (seen_after-Mentions flag key 0 kvs is only (omega arith)
            (ap (has flag) all_seen ∙ all_flags)) [
              | inl early ↦ absurd (ground (arith, early, no_flag))
              | inr found ↦ found
            ]

  check_got-all : (seen : ℕ) → check_got hh o seen ≡ ok none → seen ≡ 7
  unfolding check_got
  check_got-all seen h = ground arith

  -- What the headers of the answer are.
  pub record IsAgreed (last : Error) (pending : Bytes) (hs : Handshake hh) : Type 0 where
    pub kvs : List (Bytes × Bytes)
    pub rest : Bytes
    pub spelled : Spelled last pending kvs rest
    pub expected : All (λ kv. IsExpected hh o d nonce kv.0 kv.1) kvs
    pub confirmed : IsConfirmed kvs

  abbrev pub settle :
      Answer hh → Option HandshakeError → Result (Option HandshakeError × Handshake hh)
  settle s e = ok (e, answer_of hh o s)

  check_got-ok :
      (s : Answer hh) (hs : Handshake hh) (r : Result (Option HandshakeError))
      → (r >>= settle s) ≡ ok (none, hs)
      → r ≡ ok none
  check_got-ok s hs (ok none) h = refl
  check_got-ok s hs (ok (some e)) h = cc
  check_got-ok s hs panic h = cc
  check_got-ok s hs stuck h = cc

  pub finish_answer-IsAgreed :
      (size : ℕ) (last : Error) (pending : Bytes) (hs : Handshake hh)
      (r : Result (Option HandshakeError × Answer hh))
      → 0 < size
      → read_answer hh o (suc (length pending)) size last d nonce pending (first_answer hh) ≡ r
      → (r >>= finish_answer hh o) ≡ ok (none, hs)
      → IsAgreed last pending hs
  unfolding finish_answer
  finish_answer-IsAgreed size last pending hs panic room e h = cc
  finish_answer-IsAgreed size last pending hs stuck room e h = cc
  finish_answer-IsAgreed size last pending hs (ok (some x, s)) room e h = cc
  finish_answer-IsAgreed size last pending hs (ok (none, s)) room e h =
      let r =
        read_answer-IsRead hh o d nonce (suc (length pending)) size last pending (first_answer hh) s
          room e in
      let all_seen = check_got-all s.seen (check_got-ok s hs (check_got hh o s.seen) h) in
      record {
        kvs = r.kvs;
        rest = r.rest;
        spelled = r.spelled;
        expected = r.expected;
        confirmed = seen_after-IsConfirmed r.kvs (sym r.flags ∙ all_seen);
      }
