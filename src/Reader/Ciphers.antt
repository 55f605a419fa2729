-- ===== src/Reader/Ciphers.antt =====
-- msutil/cipher.go: `CipherReader` and `CipherWriter`.
use mogusocket.Common.{ℕ, ◌+◌, Option, List, [], ◌∷◌, Bytes, length, take}
use mogusocket.Cipher.{Mask, cipher}
use mogusocket.Errors.{Error}
use mogusocket.Stream.{Source, Sink, Outcome, accepts, fails, read, write}

pub record CipherReader : Type 0 where
  pub r : Source
  pub mask : Mask
  pub cursor : ℕ

unfoldable pub new_cipher_reader : Source → Mask → CipherReader
new_cipher_reader r mask = record { r = r; mask = mask; cursor = 0 }

unfoldable pub cipher_reader_reset : Source → Mask → CipherReader → CipherReader
cipher_reader_reset r mask c = record c { r = r; mask = mask; cursor = 0 }

abbrev pub after_cipher_read :
    CipherReader → Bytes × Option Error × Source → Bytes × Option Error × CipherReader
after_cipher_read c (bs, err, r) =
    (cipher bs c.mask c.cursor, err, record c { r = r; cursor = c.cursor + length bs })

-- `Read(p)` with len(p) = n.
unfoldable pub cipher_read : ℕ → CipherReader → Bytes × Option Error × CipherReader
cipher_read n c = after_cipher_read c (read n c.r)

pub record CipherWriter : Type 0 where
  pub w : Sink
  pub mask : Mask
  pub cursor : ℕ

unfoldable pub new_cipher_writer : Sink → Mask → CipherWriter
new_cipher_writer w mask = record { w = w; mask = mask; cursor = 0 }

unfoldable pub cipher_writer_reset : Sink → Mask → CipherWriter → CipherWriter
cipher_writer_reset w mask c = record c { w = w; mask = mask; cursor = 0 }

-- The bytes that the next call of Write takes, its first result.
unfoldable pub taken : Bytes → List Outcome → ℕ
taken p [] = length p
taken p (accepts ∷ os) = length p
taken p (fails n e ∷ os) = length (take n p)

unfoldable pub cipher_write : Bytes → CipherWriter → ℕ × Option Error × CipherWriter
unfolding taken
cipher_write p c =
    let cp = cipher p c.mask c.cursor in
    let n = taken cp c.w.plan in
    let (err, w) = write cp c.w in (n, err, record c { w = w; cursor = c.cursor + n })
