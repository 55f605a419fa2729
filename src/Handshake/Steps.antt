-- ===== src/Handshake/Steps.antt =====
-- upgrader.go: the loop over the headers as steps.
use mogusocket.Common.{
  ◌≡◌, refl, subst, true, false, ◌||◌, bit_or, none, [], ◌∷◌, arith, Bytes, length, if◌then◌else◌,
}
use mogusocket.Common.Bits.{bit_or-zero}
use mogusocket.Text.Codes.{codes}
use mogusocket.Text.Select.{same_bytes}
use mogusocket.Handshake.Options.{Httphead, bts_has_token}
use mogusocket.Handshake.Server.{
  Upgrader, Progress, header_step, key_header, protocol_header, extensions_header,
}
use mogusocket.Handshake.Seen.{flag_of}

pub same_bytes-eq : (x y : Bytes) → same_bytes x y ≡ true → x ≡ y
unfolding same_bytes
same_bytes-eq [] [] h = refl
same_bytes-eq [] (y ∷ ys) h = cc
same_bytes-eq (x ∷ xs) [] h = cc
same_bytes-eq (x ∷ xs) (y ∷ ys) h = ground (arith, same_bytes-eq xs ys)

pub same_bytes_refl : (x : Bytes) → same_bytes x x ≡ true
unfolding same_bytes
same_bytes_refl [] = refl
same_bytes_refl (x ∷ xs) = ground (arith, same_bytes_refl xs)

abbrev key_name : Bytes
key_name = codes "Sec-Websocket-Key"

-- A key of the switch is no other one.
pub other_name :
    (name k c : Bytes)
    → same_bytes c name ≡ false
    → same_bytes k c ≡ true
    → same_bytes k name ≡ false
other_name name k c apart h = rw (same_bytes-eq k c h) apart

-- No other key of the switch is the key of the nonce.
other_key :
    (k c : Bytes)
    → same_bytes c key_name ≡ false
    → same_bytes k c ≡ true
    → same_bytes k key_name ≡ false
other_key k c apart h = other_name key_name k c apart h

module _ (hh : Httphead) where
  -- The value that the handshake wants of a header with the key `k`.
  pub record IsGood (k v : Bytes) : Type 0 where
    pub upgrade :
        k ≡ codes "Upgrade"
        → (same_bytes v (codes "websocket") || hh.equal_fold v (codes "websocket")) ≡ true
    pub connection :
        k ≡ codes "Connection"
        → (same_bytes v (codes "Upgrade") || bts_has_token hh v (codes "upgrade")) ≡ true
    pub version : k ≡ codes "Sec-Websocket-Version" → v ≡ codes "13"
    pub key : k ≡ codes "Sec-Websocket-Key" → length v ≡ 24

  -- The nonce behind a header.
  abbrev pub next_nonce : Bytes → Bytes → Bytes → Bytes
  next_nonce nonce k v = if same_bytes k (codes "Sec-Websocket-Key") then v else nonce

  pub record IsStep (k v : Bytes) (s t : Progress hh) : Type 0 where
    pub flags : t.seen ≡ bit_or s.seen (flag_of k)
    pub nonce_is : t.nonce ≡ next_nonce s.nonce k v
    pub good : IsGood k v

  protocol_header_keeps :
      (u : Upgrader hh) (v : Bytes) (s : Progress hh)
      → ((protocol_header hh u v s).1.seen ≡ s.seen)
        × ((protocol_header hh u v s).1.nonce ≡ s.nonce)
  unfolding protocol_header
  protocol_header_keeps u v s = ground arith

  extensions_header_keeps :
      (u : Upgrader hh) (v : Bytes) (s : Progress hh)
      → ((extensions_header hh u v s).1.seen ≡ s.seen)
        × ((extensions_header hh u v s).1.nonce ≡ s.nonce)
  unfolding extensions_header
  extensions_header_keeps u v s = ground arith

  pub header_step-seen :
      (u : Upgrader hh) (k v : Bytes) (s : Progress hh)
      → (header_step hh u k v s).1.seen ≡ bit_or s.seen (flag_of k)
  unfolding header_step flag_of key_header
  header_step-seen u k v s =
      ground (arith, bit_or-zero s.seen, protocol_header_keeps u v s, extensions_header_keeps u v s)

  pub header_step-nonce :
      (u : Upgrader hh) (k v : Bytes) (s : Progress hh)
      → (header_step hh u k v s).0 ≡ none
      → (header_step hh u k v s).1.nonce ≡ next_nonce s.nonce k v
  unfolding header_step key_header same_bytes
  header_step-nonce u k v s h = ground (
    arith,
    other_key k (codes "Host") refl,
    other_key k (codes "Upgrade") refl,
    other_key k (codes "Connection") refl,
    other_key k (codes "Sec-Websocket-Version") refl,
    protocol_header_keeps u v s,
    extensions_header_keeps u v s,
  )

  -- A value that the switch accepts is good.
  pub header_step-IsGood :
      (u : Upgrader hh) (k v : Bytes) (s : Progress hh)
      → (header_step hh u k v s).0 ≡ none
      → IsGood k v
  unfolding header_step key_header same_bytes
  header_step-IsGood u k v s h = record {
    upgrade = λ e. good_upgrade e;
    connection = λ e. good_connection e;
    version = λ e. good_version e;
    key = λ e. good_key e;
  }
    where
      named : (c : Bytes) → k ≡ c → (header_step hh u c v s).0 ≡ none
      named c e = subst (λ x. (header_step hh u x v s).0 ≡ none) e h

      good_upgrade :
          k ≡ codes "Upgrade"
          → (same_bytes v (codes "websocket") || hh.equal_fold v (codes "websocket")) ≡ true
      good_upgrade e = let n = named _ e in ground arith

      good_connection :
          k ≡ codes "Connection"
          → (same_bytes v (codes "Upgrade") || bts_has_token hh v (codes "upgrade")) ≡ true
      good_connection e = let n = named _ e in ground arith

      good_version : k ≡ codes "Sec-Websocket-Version" → v ≡ codes "13"
      good_version e = let n = named _ e in ground (arith, same_bytes-eq v (codes "13"))

      good_key : k ≡ codes "Sec-Websocket-Key" → length v ≡ 24
      good_key e = let n = named _ e in ground arith
