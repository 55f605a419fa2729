-- ===== src/Sessions.antt =====
-- msutil/connecter.go and msutil/client.go: the loops that serve a connection.
pub mod Client
pub mod Reconnect
use mogusocket.Common.{
  ℕ, zero, suc, ◌+◌, Bool, true, false, not, Option, none, some, List, [], ◌∷◌, ◌==◌, if◌then◌else◌,
}
use mogusocket.Common.Words.{ℤ}
use mogusocket.Errors.{Error}
use mogusocket.Stream.{Source, Sink}
use mogusocket.Frame.Header.{Header, is_control, op_text, op_binary}
use mogusocket.Check.{state_client_side, state_server_side}
use mogusocket.Writer.Result.{Result, ok, panic, stuck, ◌>>=◌}
use mogusocket.Writer.Buffer.{Writer, reset}
use mogusocket.Writer.Flush.{flush}
use mogusocket.Writer.ReadFrom.{read_from}
use mogusocket.Reader.Messages.{Reader, next_frame, read_message}
use mogusocket.Reader.ReadData.{Given, Replies, control_frame, data_reader}

-- The write handler of both: one message from a reader. io.Copy calls the writer's ReadFrom.
abbrev pub flushed_message :
    ℕ × Option Error × Source × Writer → Result (Option Error × Source × Writer)
flushed_message (n, some e, src, w) = ok (some e, src, w)
flushed_message (n, none, src, w) = flush w >>= λ (e, v). ok (e, src, v)

unfoldable pub write_handler :
    ℕ → ℕ → Sink → Source → Bool → Writer → Result (Option Error × Source × Writer)
write_handler fuel state conn src is_text w = do
  v ← reset conn state (if is_text then op_text else op_binary) w
  r ← read_from fuel src v
  flushed_message r

-- How a loop ended.
pub data Ended : Type 0 where
  -- the context was done
  cancelled : Ended
  next_frame_failed : Error → Ended
  control_failed : Error → Ended
  read_pump_failed : Error → Ended

abbrev pub Connection : Type 0
Connection = Reader (Result Replies)

module _ (g : Given) (X : Type 0) where
  -- `ReadPump` of a session: it reads from the reader, and keeps what it likes.
  abbrev pub ReadPump : Type 0
  ReadPump = Connection → ℤ → Bool → X → Option Error × Connection × X

  -- How the loop ended, the session, what is left of the source, and the writing half.
  abbrev pub Outcome : Type 0
  Outcome = Ended × X × Source × Sink

  abbrev pub left_with : Ended → X → Connection → Result Outcome
  left_with e x r = r.store >>= λ c. ok (e, x, r.body.source, c.dst)

  abbrev pub after_control :
      (X → Connection → Result Outcome) → X → Option Error × Replies × Connection → Result Outcome
  after_control again x (none, c, r) = again x (record r { store = ok c })
  after_control again x (some e, c, r) = left_with (control_failed e) x (record r { store = ok c })

  abbrev pub after_pump :
      (X → Connection → Result Outcome) → Option Error × Connection × X → Result Outcome
  after_pump again (none, r, x) = again x r
  after_pump again (some e, r, x) = left_with (read_pump_failed e) x r

  abbrev pub pumped :
      ReadPump → (X → Connection → Result Outcome) → X → Header → Connection → Result Outcome
  pumped pump again x hdr r = after_pump again (pump r hdr.len (hdr.op_code == op_text) x)

  -- A round of `Connecter.Run` behind its NextFrame.
  abbrev pub after_server_frame :
      ReadPump
      → (X → Connection → Result Outcome)
      → X
      → Header × Option Error × Connection
      → Result Outcome
  after_server_frame pump again x (hdr, some e, r) = left_with (next_frame_failed e) x r
  after_server_frame pump again x (hdr, none, r) =
      let answer = r.store >>= λ c.
      control_frame g read_message state_server_side hdr r c >>= after_control again x in
      let served = pumped pump again x hdr r in if is_control hdr.op_code then answer else served

  -- The loop of `Connecter.Run`, with its rounds left; `done` tells for each round whether the
  -- context is done.
  unfoldable pub server_loop : ReadPump → (ℕ → Bool) → ℕ → X → Connection → Result Outcome
  server_loop pump done zero x r = stuck
  server_loop pump done (suc rounds) x r =
      let served = after_server_frame pump (server_loop pump done rounds) x (next_frame r) in
      if done rounds then left_with cancelled x r else served

  -- `Run` behind the call of `Connect`.
  unfoldable pub run_connecter : ReadPump → (ℕ → Bool) → X → Source → Sink → Result Outcome
  unfolding server_loop data_reader
  run_connecter pump done x src conn =
      server_loop pump done g.fuel x (data_reader g src state_server_side conn)

  -- A round of `ConnectClient` behind its NextFrame: a control frame is logged, and no more.
  abbrev pub after_client_frame :
      ReadPump
      → (X → Connection → Result Outcome)
      → X
      → Header × Option Error × Connection
      → Result Outcome
  after_client_frame pump again x (hdr, some e, r) = left_with (next_frame_failed e) x r
  after_client_frame pump again x (hdr, none, r) =
      let served = pumped pump again x hdr r in
      let next = again x r in if is_control hdr.op_code then next else served

  unfoldable pub client_loop : ReadPump → ℕ → X → Connection → Result Outcome
  client_loop pump zero x r = stuck
  client_loop pump (suc rounds) x r =
      after_client_frame pump (client_loop pump rounds) x (next_frame r)

  -- `ConnectClient` behind the call of `Connect`.
  unfoldable pub connect_client : ReadPump → X → Source → Sink → Result Outcome
  unfolding client_loop data_reader
  connect_client pump x src conn =
      client_loop pump g.fuel x (data_reader g src state_client_side conn)
