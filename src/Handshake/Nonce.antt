-- ===== src/Handshake/Nonce.antt =====
-- nonce.go. `sum` is sha1.Sum, `encode` is base64.StdEncoding.Encode, and `random` are the bytes that
-- rand.Read gives.
use mogusocket.Common.{
  ℕ, Bool, false, Option, none, some, ◌++◌, Bytes, length, ◌==◌, not, ◌||◌, if◌then◌else◌,
}
use mogusocket.Text.Codes.{codes}
use mogusocket.Text.Select.{same_bytes}

abbrev pub nonce_key_size : ℕ
nonce_key_size = 16

abbrev pub nonce_size : ℕ
nonce_size = 24

abbrev pub accept_size : ℕ
accept_size = 28

abbrev pub magic : Bytes
magic = codes "258EAFA5-E914-47DA-95CA-C5AB0DC85B11"

-- `none` is the panic that rand.Read failed.
unfoldable pub init_nonce : (Bytes → Bytes) → Option Bytes → Option Bytes
init_nonce encode none = none
init_nonce encode (some bts) = some (encode bts)

module _ (sum : Bytes → Bytes) (encode : Bytes → Bytes) where
  -- The accept value for a nonce; `none` is a panic. The slice for the result has `size` bytes.
  unfoldable pub init_accept_from_nonce : ℕ → Bytes → Option Bytes
  init_accept_from_nonce size nonce =
      if not (size == accept_size) || not (length nonce == nonce_size)
      then none
      else some (encode (sum (nonce ++ magic)))

  unfoldable pub check_accept_from_nonce : Bytes → Bytes → Option Bool
  unfolding init_accept_from_nonce
  check_accept_from_nonce accept nonce =
      if length accept == accept_size
      then elim (init_accept_from_nonce accept_size nonce) [
        | none ↦ none
        | some expect ↦ some (same_bytes expect accept)
      ]
      else some false
