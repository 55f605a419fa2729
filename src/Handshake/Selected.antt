-- ===== src/Handshake/Selected.antt =====
-- upgrader.go: what the server selects from the headers of a request.
use mogusocket.Common.{
  ◌≡◌, refl, sym, ap, ◌∙◌, Bool, true, false, ◌==◌, Option, none, some, List, [], ◌∷◌, ◌++◌,
  append-nil, arith, Bytes, length, Bool-cases, inl, inr, if◌then◌else◌,
}
use mogusocket.Text.Codes.{codes}
use mogusocket.Text.Select.{same_bytes}
use mogusocket.Handshake.Failure.{HandshakeHeader, HandshakeError}
use mogusocket.Handshake.Options.{
  Httphead, bts_select_protocol, select_token, selected_or_empty, negotiate_extensions,
}
use mogusocket.Handshake.Server.{
  Upgrader, Progress, header_step, key_header, chose, protocol_header, extensions_header,
  handshake_header_bytes,
}
use mogusocket.Handshake.Steps.{other_name}
use mogusocket.Handshake.Sound.{Run, stop, step}

-- The bytes of a header, and whether its WriteTo succeeds.
abbrev text_of : Option HandshakeHeader → Bytes
text_of none = []
text_of (some (bts, e)) = bts

abbrev writes : Option HandshakeHeader → Bool
writes none = true
writes (some (bts, none)) = true
writes (some (bts, some e)) = false

-- The two headers one after the other; the second is left out where the first fails.
abbrev pub both_headers : Option HandshakeHeader → Option HandshakeHeader → Bytes
both_headers first second = text_of first ++ (if writes first then text_of second else [])

pub handshake_header_bytes-both_headers :
    (first second : Option HandshakeHeader)
    → handshake_header_bytes first second ≡ both_headers first second
unfolding handshake_header_bytes
handshake_header_bytes-both_headers none none = refl
handshake_header_bytes-both_headers none (some (bts, e)) = refl
handshake_header_bytes-both_headers (some (bts, none)) none = sym (append-nil bts)
handshake_header_bytes-both_headers (some (bts, some e)) none = sym (append-nil bts)
handshake_header_bytes-both_headers (some (bts, some e)) (some h) = sym (append-nil bts)
handshake_header_bytes-both_headers (some (bts, none)) (some (bts', e)) = refl

no_bytes : (bts : Bytes) → length bts ≡ 0 → bts ≡ []
no_bytes [] h = refl
no_bytes (b ∷ bts) h = absurd (omega arith)

module _ (hh : Httphead) (u : Upgrader hh) where
  -- The first token that passes the check, where the list of tokens is well-formed.
  abbrev first_token : (Bytes → Bool) → Bytes → Bytes
  first_token check v =
      let (found, well_formed) =
        hh.scan_tokens (Option Bytes) v
          (λ found token. if check token then (some token, false) else (found, true)) none in
      elim found [ none ↦ [] | some token ↦ if well_formed then token else [] ]

  -- ProtocolCustom goes before Protocol; without both nothing is selected.
  abbrev pub selected_protocol : Bytes → Bytes
  selected_protocol v = elim u.protocol_custom [
    | some custom ↦ (custom v).0
    | none ↦ elim u.protocol [ none ↦ [] | some check ↦ first_token check v ]
  ]

  -- The protocol that the headers select: once there is one, it stays.
  abbrev pub protocol_from : Bytes → List (Bytes × Bytes) → Bytes
  protocol_from chosen [] = chosen
  protocol_from chosen (kv ∷ kvs) =
      protocol_from
        (if same_bytes kv.0 (codes "Sec-Websocket-Protocol")
          then (if length chosen == 0 then selected_protocol kv.1 else chosen)
          else chosen)
        kvs

  -- Negotiate goes before ExtensionCustom, and that before Extension.
  abbrev pub accepted_extensions : List hh.Opt → Bytes → List hh.Opt
  accepted_extensions accepted v = elim u.negotiate [
    | some f ↦ (negotiate_extensions hh v accepted f).0
    | none ↦ elim u.extension_custom [
      | some custom ↦ (custom v accepted).0
      | none ↦ elim u.extension [
        | none ↦ accepted
        | some check ↦ (hh.select_options v accepted check).0
      ]
    ]
  ]

  -- The extensions that the headers leave.
  abbrev pub extensions_from : List hh.Opt → List (Bytes × Bytes) → List hh.Opt
  extensions_from accepted [] = accepted
  extensions_from accepted (kv ∷ kvs) =
      extensions_from
        (if same_bytes kv.0 (codes "Sec-Websocket-Extensions")
          then accepted_extensions accepted kv.1
          else accepted)
        kvs

  selected_or_empty-first :
      (x : Option Bytes × Bool)
      → (selected_or_empty hh x).0
        ≡ (elim x.0 as (λ y. Bytes) [ none ↦ [] | some token ↦ if x.1 then token else [] ])
  selected_or_empty-first (none, ok) = refl
  selected_or_empty-first (some v, true) = refl
  selected_or_empty-first (some v, false) = refl

  bts_select_protocol-first_token :
      (v : Bytes) (check : Bytes → Bool) → (bts_select_protocol hh v check).0 ≡ first_token check v
  unfolding bts_select_protocol select_token
  bts_select_protocol-first_token v check =
      selected_or_empty-first (hh.scan_tokens (Option Bytes) v (select_token hh check) none)

  chose-chosen : (s : Progress hh) (x : Bytes × Bool) → (chose hh s x).1.chosen ≡ x.0
  chose-chosen s (protocol, true) = refl
  chose-chosen s (protocol, false) = refl

  protocol_header-chosen :
      (v : Bytes) (s : Progress hh)
      → (protocol_header hh u v s).1.chosen
        ≡ (if length s.chosen == 0 then selected_protocol v else s.chosen)
  unfolding protocol_header
  protocol_header-chosen v s = elim (Bool-cases (length s.chosen == 0)) [
    | inl empty ↦
        rw empty (go u.protocol_custom u.protocol (no_bytes s.chosen (ground (arith, empty))))
    | inr ne ↦ rw ne refl
  ]
    where
      go :
          (custom : Option (Bytes → Bytes × Bool)) (check : Option (Bytes → Bool))
          → s.chosen ≡ []
          → (elim custom as (λ x. Option HandshakeError × Progress hh) [
            | none ↦ elim check as (λ x. Option HandshakeError × Progress hh) [
              | none ↦ (none, s)
              | some c ↦ chose hh s (bts_select_protocol hh v c)
            ]
            | some c ↦ chose hh s (c v)
          ]).1.chosen
            ≡ (elim custom as (λ x. Bytes) [
              | some c ↦ (c v).0
              | none ↦ elim check as (λ x. Bytes) [ none ↦ [] | some c ↦ first_token c v ]
            ])
      go none none empty = empty
      go none (some c) empty =
          chose-chosen s (bts_select_protocol hh v c) ∙ bts_select_protocol-first_token v c
      go (some c) check empty = chose-chosen s (c v)

  protocol_header-accepted :
      (v : Bytes) (s : Progress hh) → (protocol_header hh u v s).1.accepted ≡ s.accepted
  unfolding protocol_header
  protocol_header-accepted v s = ground arith

  extensions_header-accepted :
      (v : Bytes) (s : Progress hh)
      → (extensions_header hh u v s).1.accepted ≡ accepted_extensions s.accepted v
  unfolding extensions_header
  extensions_header-accepted v s = ground arith

  extensions_header-chosen :
      (v : Bytes) (s : Progress hh) → (extensions_header hh u v s).1.chosen ≡ s.chosen
  unfolding extensions_header
  extensions_header-chosen v s = ground arith

  header_step-chosen :
      (k v : Bytes) (s : Progress hh)
      → (header_step hh u k v s).1.chosen ≡ (
          if same_bytes k (codes "Sec-Websocket-Protocol")
          then (if length s.chosen == 0 then selected_protocol v else s.chosen)
          else s.chosen)
  unfolding header_step key_header same_bytes
  header_step-chosen k v s = ground (
    arith,
    other_name (codes "Sec-Websocket-Protocol") k (codes "Host") refl,
    other_name (codes "Sec-Websocket-Protocol") k (codes "Upgrade") refl,
    other_name (codes "Sec-Websocket-Protocol") k (codes "Connection") refl,
    other_name (codes "Sec-Websocket-Protocol") k (codes "Sec-Websocket-Version") refl,
    other_name (codes "Sec-Websocket-Protocol") k (codes "Sec-Websocket-Key") refl,
    protocol_header-chosen v s,
    extensions_header-chosen v s,
  )

  header_step-accepted :
      (k v : Bytes) (s : Progress hh)
      → (header_step hh u k v s).1.accepted ≡ (
          if same_bytes k (codes "Sec-Websocket-Extensions")
          then accepted_extensions s.accepted v
          else s.accepted)
  unfolding header_step key_header same_bytes
  header_step-accepted k v s = ground (
    arith,
    other_name (codes "Sec-Websocket-Extensions") k (codes "Host") refl,
    other_name (codes "Sec-Websocket-Extensions") k (codes "Upgrade") refl,
    other_name (codes "Sec-Websocket-Extensions") k (codes "Connection") refl,
    other_name (codes "Sec-Websocket-Extensions") k (codes "Sec-Websocket-Version") refl,
    other_name (codes "Sec-Websocket-Extensions") k (codes "Sec-Websocket-Key") refl,
    other_name (codes "Sec-Websocket-Extensions") k (codes "Sec-Websocket-Protocol") refl,
    protocol_header-accepted v s,
    extensions_header-accepted v s,
  )

  pub Run-protocol_from :
      {s t : Progress hh} {kvs : List (Bytes × Bytes)}
      → Run hh u s kvs t
      → t.chosen ≡ protocol_from s.chosen kvs
  Run-protocol_from stop = refl
  Run-protocol_from (step {s} {t} {kv} {kvs} good r) =
      Run-protocol_from r ∙ ap (λ c. protocol_from c kvs) (header_step-chosen kv.0 kv.1 s)

  pub Run-extensions_from :
      {s t : Progress hh} {kvs : List (Bytes × Bytes)}
      → Run hh u s kvs t
      → t.accepted ≡ extensions_from s.accepted kvs
  Run-extensions_from stop = refl
  Run-extensions_from (step {s} {t} {kv} {kvs} good r) =
      Run-extensions_from r ∙ ap (λ c. extensions_from c kvs) (header_step-accepted kv.0 kv.1 s)
