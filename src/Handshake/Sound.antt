-- ===== src/Handshake/Sound.antt =====
-- upgrader.go: what the loop over the headers has read when it ends.
use mogusocket.Common.{
  ℕ, zero, suc, ◌<◌, ◌≡◌, refl, sym, ap, subst, ◌∙◌, Option, none, some, List, [], ◌∷◌, arith,
  Bytes, length,
}
use mogusocket.Errors.{Error}
use mogusocket.Writer.Result.{Result, ok, ◌>>=◌}
use mogusocket.Text.LineLaws.{line_result, read_line-line_result}
use mogusocket.Http.Lines.{http_parse_header_line}
use mogusocket.Handshake.Failure.{HandshakeError}
use mogusocket.Handshake.Options.{Httphead}
use mogusocket.Handshake.Server.{
  Upgrader, Progress, HeadersEnd, finished, header_step, header_line, parsed_header, after_header,
  after_line, read_headers,
}

-- The bytes spell header lines with these keys and values, up to a blank line.
pub data Spelled (last : Error) : Bytes → List (Bytes × Bytes) → Bytes → Type 0 where
  blank :
      {pending line rest : Bytes}
      → line_result last [] pending ≡ (line, none, rest)
      → length line ≡ 0
      → Spelled last pending [] rest
  more :
      {pending line behind rest : Bytes} {kv : Bytes × Bytes} {kvs : List (Bytes × Bytes)}
      → line_result last [] pending ≡ (line, none, behind)
      → http_parse_header_line line ≡ some kv
      → Spelled last behind kvs rest
      → Spelled last pending (kv ∷ kvs) rest

module _ (hh : Httphead) (u : Upgrader hh) where
  -- The steps of the loop.
  pub data Run : Progress hh → List (Bytes × Bytes) → Progress hh → Type 0 where
    stop : {s : Progress hh} → Run s [] s
    step :
        {s t : Progress hh} {kv : Bytes × Bytes} {kvs : List (Bytes × Bytes)}
        → (header_step hh u kv.0 kv.1 s).0 ≡ none
        → Run (header_step hh u kv.0 kv.1 s).1 kvs t
        → Run s (kv ∷ kvs) t

  header_line-none :
      (line : Bytes) (s : Progress hh) → header_line hh u line s ≡ none → length line ≡ 0
  unfolding header_line
  header_line-none line s h = ground arith

  header_line-some :
      (line : Bytes) (s : Progress hh) (es : Option HandshakeError × Progress hh)
      → header_line hh u line s ≡ some es
      → parsed_header hh u s (http_parse_header_line line) ≡ es
  unfolding header_line
  header_line-some line s es h = ground arith

  -- How the headers were read that the loop accepted.
  pub record Read (last : Error) (pending : Bytes) (s t : Progress hh) (rest : Bytes) : Type 0 where
    pub kvs : List (Bytes × Bytes)
    pub run : Run s kvs t
    pub spelled : Spelled last pending kvs rest

  first_header :
      (last : Error) (pending line behind rest : Bytes) (s t s' : Progress hh)
      (o : Option (Bytes × Bytes))
      → line_result last [] pending ≡ (line, none, behind)
      → http_parse_header_line line ≡ o
      → parsed_header hh u s o ≡ (none, s')
      → Read last behind s' t rest
      → Read last pending s t rest
  first_header last pending line behind rest s t s' none e p h r = cc
  first_header last pending line behind rest s t s' (some (k, v)) e p h r = record {
    kvs = (k, v) ∷ r.kvs;
    run = step (ap (λ (x : Option HandshakeError × Progress hh). x.0) h) (
        subst (λ x. Run x r.kvs t) (ap (λ (x : Option HandshakeError × Progress hh). x.1) (sym h))
          r.run);
    spelled = more e p r.spelled;
  }

  module _ (last : Error) (rest : Bytes) (t : Progress hh) where
    after_header-Read :
        (again : Progress hh → Bytes → Result (HeadersEnd hh)) (pending line behind : Bytes)
        (s : Progress hh) (o : Option (Option HandshakeError × Progress hh))
        → line_result last [] pending ≡ (line, none, behind)
        → header_line hh u line s ≡ o
        → ((s' : Progress hh)
            → again s' behind ≡ ok (finished none t rest)
            → Read last behind s' t rest)
        → after_header hh again s behind o ≡ ok (finished none t rest)
        → Read last pending s t rest
    after_header-Read again pending line behind s none e h ih done = record {
      kvs = [];
      run = subst (λ x. Run s [] x) (ended_state done) stop;
      spelled =
          subst (λ x. Spelled last pending [] x) (ended_rest done)
            (blank e (header_line-none line s h));
    }
      where
        ended_state :
            ◌≡◌ {A = Result (HeadersEnd hh)}
              (ok (finished none s behind))
              (ok (finished none t rest))
            → s ≡ t
        ended_state d = cc

        ended_rest :
            ◌≡◌ {A = Result (HeadersEnd hh)}
              (ok (finished none s behind))
              (ok (finished none t rest))
            → behind ≡ rest
        ended_rest d = cc
    after_header-Read again pending line behind s (some (none, s')) e h ih done =
        first_header last pending line behind rest s t s' (http_parse_header_line line) e refl
          (header_line-some line s (none, s') h) (ih s' done)
    after_header-Read again pending line behind s (some (some x, s')) e h ih done = cc

    after_line-Read :
        (again : Progress hh → Bytes → Result (HeadersEnd hh)) (pending : Bytes) (s : Progress hh)
        (x : Bytes × Option Error × Bytes)
        → line_result last [] pending ≡ x
        → ((behind : Bytes) (s' : Progress hh)
            → again s' behind ≡ ok (finished none t rest)
            → Read last behind s' t rest)
        → after_line hh u again s x ≡ ok (finished none t rest)
        → Read last pending s t rest
    after_line-Read again pending s (line, some e, behind) eq ih done = cc
    after_line-Read again pending s (line, none, behind) eq ih done =
        after_header-Read again pending line behind s (header_line hh u line s) eq refl (ih behind)
          done

    -- A loop that ends without an error has read good headers up to a blank line.
    pub read_headers-Read :
        (fuel size : ℕ) (pending : Bytes) (s : Progress hh)
        → 0 < size
        → read_headers hh fuel size last u s pending ≡ ok (finished none t rest)
        → Read last pending s t rest
    unfolding read_headers
    read_headers-Read zero size pending s room done = cc
    read_headers-Read (suc fuel) size pending s room done =
        after_line-Read (read_headers hh fuel size last u) pending s (line_result last [] pending)
          refl (λ behind s' d. read_headers-Read fuel size behind s' room d)
          (ap (λ r. r >>= after_line hh u (read_headers hh fuel size last u) s)
              (sym (read_line-line_result size last pending room))
            ∙ done)
