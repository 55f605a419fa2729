-- ===== src/Handshake/Options.antt =====
-- http.go and dialer.go: subprotocols and extensions, over package httphead.
use mogusocket.Common.{
  ℕ, Bool, true, false, not, Option, none, some, List, [], ◌∷◌, ◌++◌, Bytes, length, ◌==◌,
  if◌then◌else◌,
}
use mogusocket.Text.Select.{same_bytes}
use mogusocket.Handshake.Failure.{
  HandshakeError, err_malformed_request, malformed_response, bad_extensions,
}

-- Package httphead as far as it is used, and bytes.EqualFold. `Opt` is httphead.Option; a scan calls
-- back for each item, with the state of the closure, until the callback returns false, and tells
-- whether the text is well-formed.
pub record Httphead : Type 1 where
  pub Opt : Type 0
  pub no_option : Opt
  pub named : Bytes → Opt
  pub name_of : Opt → Bytes
  pub set_parameter : Opt → Bytes → Bytes → Opt
  -- the first option with the parameters of the second
  pub with_parameters : Opt → Opt → Opt
  pub size_of : Opt → ℕ
  pub scan_options :
      (S : Type 0) → Bytes → (S → ℕ → Bytes → Option Bytes → Bytes → S × Bool) → S → S × Bool
  pub scan_tokens : (S : Type 0) → Bytes → (S → Bytes → S × Bool) → S → S × Bool
  pub select_options : Bytes → List Opt → (Opt → Bool) → List Opt × Bool
  pub write_options : List Opt → Bytes
  pub equal_fold : Bytes → Bytes → Bool

module _ (hh : Httphead) where
  open hh use {
    Opt, no_option, named, name_of, set_parameter, with_parameters, size_of, scan_options,
    scan_tokens, equal_fold,
  }

  unfoldable pub bts_has_token : Bytes → Bytes → Bool
  bts_has_token header token =
      (scan_tokens Bool header (λ has v. (equal_fold v token, not (equal_fold v token))) false).0

  -- The closure of both selections, with what is selected.
  unfoldable pub select_token : (Bytes → Bool) → Option Bytes → Bytes → Option Bytes × Bool
  select_token check selected v = if check v then (some v, false) else (selected, true)

  abbrev pub selected_or_empty : Option Bytes × Bool → Bytes × Bool
  selected_or_empty (some v, true) = (v, true)
  selected_or_empty (some v, false) = ([], false)
  selected_or_empty (none, ok) = ([], ok)

  unfoldable pub bts_select_protocol : Bytes → (Bytes → Bool) → Bytes × Bool
  unfolding select_token
  bts_select_protocol h check =
      selected_or_empty (scan_tokens (Option Bytes) h (select_token check) none)

  abbrev pub token_or_empty : Option Bytes × Bool → Bytes × Bool
  token_or_empty (some v, ok) = (v, ok)
  token_or_empty (none, ok) = ([], ok)

  unfoldable pub str_select_protocol : Bytes → (Bytes → Bool) → Bytes × Bool
  unfolding select_token
  str_select_protocol h check =
      token_or_empty (scan_tokens (Option Bytes) h (select_token check) none)

  -- A callback that negotiates one extension.
  abbrev pub Negotiator : Type 0
  Negotiator = Opt → Opt × Option HandshakeError

  abbrev pub accept_option :
      List Opt → Opt × Option HandshakeError → List Opt × Option HandshakeError
  accept_option dest (opt, some e) = ([], some e)
  accept_option dest (opt, none) = (if size_of opt == 0 then dest else dest ++ opt ∷ [], none)

  unfoldable pub negotiate_maybe : Opt → List Opt → Negotiator → List Opt × Option HandshakeError
  negotiate_maybe opt dest f = if size_of opt == 0 then (dest, none) else accept_option dest (f opt)

  -- The variables of the closure in `negotiateExtensions`; an index of `none` is -1.
  pub record Negotiation : Type 0 where
    pub index : Option ℕ
    pub current : Opt
    pub dest : List Opt

  abbrev pub same_index : Option ℕ → ℕ → Bool
  same_index none i = false
  same_index (some j) i = i == j

  -- `if attr != nil`
  abbrev pub add_parameter : Opt → Option Bytes → Bytes → Opt
  add_parameter opt none val = opt
  add_parameter opt (some attr) val = set_parameter opt attr val

  abbrev pub next_option :
      ℕ
      → Bytes
      → Option Bytes
      → Bytes
      → Negotiation
      → List Opt × Option HandshakeError
      → Negotiation × Bool
  next_option i name attr val st (dest, some e) = (record st { dest = dest }, false)
  next_option i name attr val st (dest, none) =
      (record { index = some i; current = add_parameter (named name) attr val; dest = dest }, true)

  unfoldable pub negotiate_step :
      Negotiator → Negotiation → ℕ → Bytes → Option Bytes → Bytes → Negotiation × Bool
  unfolding negotiate_maybe
  negotiate_step f st i name attr val =
      if same_index st.index i
      then (record st { current = add_parameter st.current attr val }, true)
      else next_option i name attr val st (negotiate_maybe st.current st.dest f)

  unfoldable pub negotiate_extensions :
      Bytes → List Opt → Negotiator → List Opt × Option HandshakeError
  unfolding negotiate_step negotiate_maybe
  negotiate_extensions h dest f =
      let (st, ok) =
        scan_options Negotiation h (negotiate_step f)
          (record { index = none; current = no_option; dest = dest }) in
      if ok then negotiate_maybe st.current st.dest f else ([], some err_malformed_request)

  -- The variables of the closure in `matchSelectedExtensions`.
  pub record Matching : Type 0 where
    pub index : Option ℕ
    pub option : Opt
    pub err : Option HandshakeError
    pub received : List Opt

  -- `match`: the first wanted option of that name, with the parameters received.
  unfoldable pub match_option : List Opt → Opt → Option Opt
  match_option [] option = none
  match_option (want ∷ wanted) option =
      let rest = match_option wanted option in
      if same_bytes (name_of option) (name_of want)
      then some (with_parameters want option)
      else rest

  abbrev pub receive : Matching → Option Opt → Bool × Matching
  receive st none = (false, st)
  receive st (some opt) = (true, record st { received = st.received ++ opt ∷ [] })

  abbrev pub begin_option : Bytes → Option Bytes → Bytes → Bool × Matching → Matching × Bool
  begin_option name attr val (false, st) = (record st { err = some bad_extensions }, false)
  begin_option name attr val (true, st) =
      (record st { option = add_parameter (named name) attr val }, true)

  unfoldable pub match_step :
      List Opt → Matching → ℕ → Bytes → Option Bytes → Bytes → Matching × Bool
  match_step wanted st i name attr val =
      let st' = record st { index = some i } in
      if same_index st.index i
      then (record st { option = add_parameter st.option attr val }, true)
      else begin_option name attr val
          (if i == 0 then (true, st') else receive st' (match_option wanted st.option))

  abbrev pub last_option : Bool × Matching → List Opt × Option HandshakeError
  last_option (false, st) = (st.received, some bad_extensions)
  last_option (true, st) = (st.received, st.err)

  unfoldable pub match_selected_extensions :
      Bytes → List Opt → List Opt → List Opt × Option HandshakeError
  unfolding match_step
  match_selected_extensions selected wanted received =
      let (st, ok) =
        scan_options Matching selected (match_step wanted)
          (record { index = none; option = no_option; err = none; received = received }) in
      if length selected == 0
      then (received, none)
      else if ok
      then last_option (receive st (match_option wanted st.option))
      else (st.received, some malformed_response)
