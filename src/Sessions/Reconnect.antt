-- ===== src/Sessions/Reconnect.antt =====
-- msutil/client.go: the goroutines of AutoConnectClient.
use mogusocket.Common.{
  ℕ, zero, suc, ◌+◌, ◌*◌, ◌≡◌, ◌<◌, ◌⊎◌, inl, inr, refl, ap, ◌∙◌, List, [], ◌∷◌, ◌++◌, arith,
  replicate,
}

-- What one call of DialServer gives.
pub data Dialed : Type 0 where
  no_url : Dialed
  refused : Dialed
  connected : Dialed

-- How `autoReconnect` left its loop, or `waiting` where it has not.
pub data Attempt : Type 0 where
  waiting : Attempt
  gave_up : Attempt
  reconnected : Attempt

-- The seconds of `autoReconnectDelay`.
abbrev pub reconnect_delay : ℕ → ℕ
reconnect_delay errors = errors * 2

abbrev pub delayed : ℕ → Attempt × ℕ × List ℕ → Attempt × ℕ × List ℕ
delayed d (a, errors, ds) = (a, errors, d ∷ ds)

-- `autoReconnect` on the results of its dials: how it ends, AutoReconnectErrors, the sleeps.
unfoldable pub auto_reconnect : List Dialed → ℕ → Attempt × ℕ × List ℕ
auto_reconnect [] errors = (waiting, errors, [])
auto_reconnect (no_url ∷ dials) errors = (gave_up, errors + 1, reconnect_delay errors ∷ [])
auto_reconnect (refused ∷ dials) errors =
    delayed (reconnect_delay errors) (auto_reconnect dials (errors + 1))
auto_reconnect (connected ∷ dials) errors = (reconnected, 0, reconnect_delay errors ∷ [])

-- What `connect` selects on: the context, or the error of ConnectClient.
pub data Closed : Type 0 where
  context_done : Closed
  client_closed : Closed
  -- no error, io.EOF or another one
  connection_ended : Closed

-- `code` of `connect`.
abbrev pub close_code : Closed → ℕ
close_code context_done = 1
close_code client_closed = 1
close_code connection_ended = 0

-- Where the goroutine is that connects or serves: in `connect`, at the head of the loop of
-- `autoReconnect`, in the middle of `AutoReconnectErrors++` with the count that it has read, at the
-- dial, or at its end behind `cancel`.
pub data Role : Type 0 where
  serving : Role
  reconnecting : Role
  counting : ℕ → Role
  dialing : Role
  cancelled : Role

-- The client: AutoReconnectErrors, and the number of goroutines that have started `connect` and have
-- not reset the count yet.
pub record Client : Type 0 where
  pub role : Role
  pub errors : ℕ
  pub resets : ℕ

-- `Run` of AutoConnectClient on the result of its dial.
abbrev pub run_auto : Dialed → ℕ → Client
run_auto connected errors = record { role = serving; errors = errors; resets = 0 }
run_auto no_url errors = record { role = reconnecting; errors = errors; resets = 0 }
run_auto refused errors = record { role = reconnecting; errors = errors; resets = 0 }

-- `close(code)`
abbrev pub after_close : ℕ → Role
after_close zero = reconnecting
after_close (suc code) = cancelled

-- Behind DialServer: `connect` is started before the count is reset.
abbrev pub after_dial : Dialed → ℕ → ℕ → Client
after_dial no_url errors resets = record { role = cancelled; errors = errors; resets = resets }
after_dial refused errors resets = record { role = reconnecting; errors = errors; resets = resets }
after_dial connected errors resets = record { role = serving; errors = errors; resets = suc resets }

-- One action of one goroutine.
pub data Step : Client → Client → Type 0 where
  closes :
      (errors resets : ℕ) (c : Closed)
      → Step
          (record { role = serving; errors = errors; resets = resets })
          (record { role = after_close (close_code c); errors = errors; resets = resets })
  reads_count :
      (errors resets : ℕ)
      → Step
          (record { role = reconnecting; errors = errors; resets = resets })
          (record { role = counting errors; errors = errors; resets = resets })
  writes_count :
      (seen errors resets : ℕ)
      → Step
          (record { role = counting seen; errors = errors; resets = resets })
          (record { role = dialing; errors = seen + 1; resets = resets })
  dial_ends :
      (errors resets : ℕ) (d : Dialed)
      → Step
          (record { role = dialing; errors = errors; resets = resets })
          (after_dial d errors resets)
  resets_count :
      (r : Role) (errors resets : ℕ)
      → Step
          (record { role = r; errors = errors; resets = suc resets })
          (record { role = r; errors = 0; resets = resets })

-- Any number of actions, the goroutines in any order.
pub data Steps : Client → Client → Type 0 where
  stays : (s : Client) → Steps s s
  goes : {s t u : Client} → Steps s t → Step t u → Steps s u

abbrev pub sum : List ℕ → ℕ
sum [] = 0
sum (x ∷ xs) = x + sum xs

delay_sum :
    (k errors : ℕ)
    → reconnect_delay errors + (k + 1) * (2 * (errors + 1) + k) ≡ (suc k + 1) * (2 * errors + suc k)
delay_sum k errors = omega arith

-- After `k` dials that were refused and one that was not, autoReconnect has connected, has reset the
-- count of errors, and has slept for (k + 1) * (2 * errors + k) seconds in all.
pub auto_reconnect-replicate :
    (k errors : ℕ) (dials : List Dialed)
    → let (ended, errors', delays) =
        auto_reconnect (replicate k refused ++ connected ∷ dials) errors in
      (ended ≡ reconnected) × (errors' ≡ 0) × (sum delays ≡ (k + 1) * (2 * errors + k))
unfolding auto_reconnect
auto_reconnect-replicate zero errors dials = (refl, refl, omega arith)
auto_reconnect-replicate (suc k) errors dials =
    let (ended, reset, slept) = auto_reconnect-replicate k (errors + 1) dials in
    (ended, reset, ap (λ n. reconnect_delay errors + n) slept ∙ delay_sum k errors)

-- A client that serves a connection has a count of 0, or a reset is still to come.
abbrev IsCountedIn : Role → ℕ → ℕ → Type 0
IsCountedIn serving errors resets = (0 < resets) ⊎ (errors ≡ 0)
IsCountedIn reconnecting errors resets = Unit {0}
IsCountedIn (counting seen) errors resets = Unit {0}
IsCountedIn dialing errors resets = Unit {0}
IsCountedIn cancelled errors resets = Unit {0}

abbrev pub IsCounted : Client → Type 0
IsCounted c = IsCountedIn c.role c.errors c.resets

reset-IsCounted : (r : Role) (resets : ℕ) → IsCountedIn r 0 resets
reset-IsCounted serving resets = inr refl
reset-IsCounted reconnecting resets = tt
reset-IsCounted (counting seen) resets = tt
reset-IsCounted dialing resets = tt
reset-IsCounted cancelled resets = tt

Step-IsCounted : (s t : Client) → Step s t → IsCounted t
Step-IsCounted s t (closes errors resets context_done) = tt
Step-IsCounted s t (closes errors resets client_closed) = tt
Step-IsCounted s t (closes errors resets connection_ended) = tt
Step-IsCounted s t (reads_count errors resets) = tt
Step-IsCounted s t (writes_count seen errors resets) = tt
Step-IsCounted s t (dial_ends errors resets no_url) = tt
Step-IsCounted s t (dial_ends errors resets refused) = tt
Step-IsCounted s t (dial_ends errors resets connected) = inl (omega arith)
Step-IsCounted s t (resets_count r errors resets) = reset-IsCounted r resets

-- However the goroutines of an AutoConnectClient take turns, from a client whose count is in order:
-- while it serves a connection its count of errors is 0, or a goroutine that has started `connect`
-- has yet to reset it.
pub Steps-IsCounted : (s t : Client) → IsCounted s → Steps s t → IsCounted t
Steps-IsCounted s t counted (stays u) = counted
Steps-IsCounted s t counted (goes {t = m} before step) = Step-IsCounted m t step
