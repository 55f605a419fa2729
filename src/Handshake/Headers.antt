-- ===== src/Handshake/Headers.antt =====
-- upgrader.go: what the headers of an accepted request are.
use mogusocket.Common.{
  ℕ, ◌<◌, ◌≡◌, ◌⊎◌, inl, inr, refl, sym, ap, ◌∙◌, Bool, true, false, ◌||◌, List, [], ◌∷◌, arith,
  Bytes, All, Bool-cases, if◌then◌else◌,
}
use mogusocket.Text.Codes.{codes}
use mogusocket.Text.Select.{same_bytes}
use mogusocket.Handshake.Options.{Httphead}
use mogusocket.Handshake.Server.{
  Upgrader, Progress, seen_host, seen_upgrade, seen_connection, seen_sec_version, seen_sec_key,
}
use mogusocket.Handshake.Seen.{
  flag_of, flag_of-lt, has, IsFlag, has-bit_or, bit_or-lt, seen_host-IsFlag, seen_upgrade-IsFlag,
  seen_connection-IsFlag, seen_sec_version-IsFlag, seen_sec_key-IsFlag,
}
use mogusocket.Handshake.Steps.{
  same_bytes-eq, IsGood, header_step-seen, header_step-nonce, header_step-IsGood,
}
use mogusocket.Handshake.Sound.{Run, stop, step}

-- A header with this key is among them.
abbrev pub Mentions : Bytes → List (Bytes × Bytes) → Type 0
Mentions key [] = ◌≡◌ {A = Bool} true false
Mentions key (kv ∷ kvs) = (kv.0 ≡ key) ⊎ Mentions key kvs

-- The value of the last header with the key of the nonce.
abbrev pub last_key : Bytes → List (Bytes × Bytes) → Bytes
last_key nonce [] = nonce
last_key nonce (kv ∷ kvs) =
    last_key (if same_bytes kv.0 (codes "Sec-Websocket-Key") then kv.1 else nonce) kvs

abbrev set_by : ℕ → List (Bytes × Bytes) → Bool
set_by flag [] = false
set_by flag (kv ∷ kvs) = has flag (flag_of kv.0) || set_by flag kvs

or_assoc : (a b c : Bool) → ((a || b) || c) ≡ (a || (b || c))
or_assoc a b c = ground arith

set_by-Mentions :
    (flag : ℕ) (key : Bytes)
    → ((k : Bytes) → has flag (flag_of k) ≡ true → k ≡ key)
    → (kvs : List (Bytes × Bytes)) → set_by flag kvs ≡ true
    → Mentions key kvs
set_by-Mentions flag key only [] h = sym h
set_by-Mentions flag key only (kv ∷ kvs) h = elim (Bool-cases (has flag (flag_of kv.0))) [
  | inl here ↦ inl (only kv.0 here)
  | inr ne ↦ inr (set_by-Mentions flag key only kvs (ground (arith, ne, h)))
]

host_only : (k : Bytes) → has seen_host (flag_of k) ≡ true → k ≡ codes "Host"
unfolding flag_of has
host_only k h = ground (arith, same_bytes-eq k (codes "Host"))

upgrade_only : (k : Bytes) → has seen_upgrade (flag_of k) ≡ true → k ≡ codes "Upgrade"
unfolding flag_of has
upgrade_only k h = ground (arith, same_bytes-eq k (codes "Upgrade"))

connection_only : (k : Bytes) → has seen_connection (flag_of k) ≡ true → k ≡ codes "Connection"
unfolding flag_of has
connection_only k h = ground (arith, same_bytes-eq k (codes "Connection"))

version_only :
    (k : Bytes) → has seen_sec_version (flag_of k) ≡ true → k ≡ codes "Sec-Websocket-Version"
unfolding flag_of has
version_only k h = ground (arith, same_bytes-eq k (codes "Sec-Websocket-Version"))

key_only : (k : Bytes) → has seen_sec_key (flag_of k) ≡ true → k ≡ codes "Sec-Websocket-Key"
unfolding flag_of has
key_only k h = ground (arith, same_bytes-eq k (codes "Sec-Websocket-Key"))

-- All five headers that a handshake needs.
pub record IsComplete (kvs : List (Bytes × Bytes)) : Type 0 where
  pub host : Mentions (codes "Host") kvs
  pub upgrade : Mentions (codes "Upgrade") kvs
  pub connection : Mentions (codes "Connection") kvs
  pub version : Mentions (codes "Sec-Websocket-Version") kvs
  pub key : Mentions (codes "Sec-Websocket-Key") kvs

module _ (hh : Httphead) (u : Upgrader hh) where
  pub Run-lt :
      {s t : Progress hh} {kvs : List (Bytes × Bytes)}
      → Run hh u s kvs t
      → s.seen < 32
      → t.seen < 32
  Run-lt stop h = h
  Run-lt (step {s} {t} {kv} {kvs} good r) h =
      Run-lt r (
        rw (header_step-seen hh u kv.0 kv.1 s)
          (bit_or-lt s.seen (flag_of kv.0) h (flag_of-lt kv.0)))

  Run-set_by :
      (flag : ℕ)
      → {s t : Progress hh} {kvs : List (Bytes × Bytes)} → IsFlag flag
      → Run hh u s kvs t
      → s.seen < 32
      → has flag t.seen ≡ (has flag s.seen || set_by flag kvs)
  Run-set_by flag {s} is stop h = ground arith
  Run-set_by flag is (step {s} {t} {kv} {kvs} good r) h =
      let moved = header_step-seen hh u kv.0 kv.1 s in
      let small = bit_or-lt s.seen (flag_of kv.0) h (flag_of-lt kv.0) in
      Run-set_by flag is r (rw moved small)
      ∙ ap (λ x. has flag x || set_by flag kvs) moved
      ∙ ap (λ b. b || set_by flag kvs)
          (has-bit_or flag s.seen (flag_of kv.0) is h (flag_of-lt kv.0))
      ∙ or_assoc (has flag s.seen) (has flag (flag_of kv.0)) (set_by flag kvs)

  pub Run-IsGood :
      {s t : Progress hh} {kvs : List (Bytes × Bytes)}
      → Run hh u s kvs t
      → All (λ kv. IsGood hh kv.0 kv.1) kvs
  Run-IsGood stop = tt
  Run-IsGood (step {s} {t} {kv} {kvs} good r) =
      (header_step-IsGood hh u kv.0 kv.1 s good, Run-IsGood r)

  pub Run-last_key :
      {s t : Progress hh} {kvs : List (Bytes × Bytes)}
      → Run hh u s kvs t
      → t.nonce ≡ last_key s.nonce kvs
  Run-last_key stop = refl
  Run-last_key (step {s} {t} {kv} {kvs} good r) =
      Run-last_key r ∙ ap (λ n. last_key n kvs) (header_step-nonce hh u kv.0 kv.1 s good)

  -- A run from no flag to all of them has met all five headers.
  pub Run-IsComplete :
      {s t : Progress hh} {kvs : List (Bytes × Bytes)}
      → Run hh u s kvs t
      → s.seen ≡ 0
      → t.seen ≡ 31
      → IsComplete kvs
  unfolding has
  Run-IsComplete {s} {t} {kvs} r none_seen all_seen = record {
    host = met seen_host (codes "Host") seen_host-IsFlag host_only refl refl;
    upgrade = met seen_upgrade (codes "Upgrade") seen_upgrade-IsFlag upgrade_only refl refl;
    connection =
        met seen_connection (codes "Connection") seen_connection-IsFlag connection_only refl refl;
    version =
        met seen_sec_version (codes "Sec-Websocket-Version") seen_sec_version-IsFlag version_only
          refl refl;
    key = met seen_sec_key (codes "Sec-Websocket-Key") seen_sec_key-IsFlag key_only refl refl;
  }
    where
      met :
          (flag : ℕ) (key : Bytes)
          → IsFlag flag
          → ((k : Bytes) → has flag (flag_of k) ≡ true → k ≡ key)
          → has flag 0 ≡ false
          → has flag 31 ≡ true
          → Mentions key kvs
      met flag key is only no_flag all_flags =
          let spread = Run-set_by flag is r (rw none_seen (omega arith)) in
          set_by-Mentions flag key only kvs (
            sym (ap (λ b. b || set_by flag kvs) (ap (has flag) none_seen ∙ no_flag))
            ∙ sym spread
            ∙ ap (has flag) all_seen
            ∙ all_flags)
