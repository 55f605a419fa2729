-- ===== src/Reader/Body.antt =====
-- msutil/reader.go: the readers that a `Reader` stacks over its source for one frame: an
-- io.LimitedReader, a CipherReader over it where the frame is masked, a UTF8Reader where text is
-- checked.
use mogusocket.Common.{
  ℕ, ◌+◌, ◌-◌, Bool, Option, none, some, List, [], ◌∷◌, Bytes, length, drop, ltb, ◌==◌,
  if◌then◌else◌,
}
use mogusocket.Cipher.{Mask, cipher}
use mogusocket.Errors.{Error, eof}
use mogusocket.Stream.{Source, read}
use mogusocket.Frame.Build.{min_int}
use mogusocket.Utf8.Reader.{Utf8Reader, scan, after_scan}

-- `source` is the connection under all layers, `left` is N of the limit, `ciphered` has the mask
-- and the position of the CipherReader. `utf8` reads through the layers below it if `checking`.
pub record Body : Type 0 where
  pub source : Source
  pub left : ℕ
  pub ciphered : Option (Mask × ℕ)
  pub checking : Bool
  pub utf8 : Utf8Reader

abbrev pub after_limited : Body → Bytes × Option Error × Source → Bytes × Option Error × Body
after_limited b (bs, err, src) = (bs, err, record b { source = src; left = b.left - length bs })

-- `Read` of the io.LimitedReader.
unfoldable pub limited_read : ℕ → Body → Bytes × Option Error × Body
limited_read n b =
    if b.left == 0 then ([], some eof, b) else after_limited b (read (min_int n b.left) b.source)

unfoldable pub decipher : Bytes × Option Error × Body → Bytes × Option Error × Body
decipher (bs, err, b) = elim b.ciphered [
  | none ↦ (bs, err, b)
  | some mp ↦ (cipher bs (mp.0) (mp.1), err, record b { ciphered = some (mp.0, mp.1 + length bs) })
]

abbrev pub with_utf8 :
    Body → ℕ × Bytes × Option Error × Utf8Reader → ℕ × Bytes × Option Error × Body
with_utf8 b (n, bs, err, u) = (n, bs, err, record b { utf8 = u })

abbrev pub check_text : Bytes × Option Error × Body → ℕ × Bytes × Option Error × Body
check_text (bs, err, b) =
    with_utf8 b (after_scan bs err b.utf8 (scan b.utf8.state b.utf8.codep 0 0 bs))

abbrev pub unchecked : Bytes × Option Error × Body → ℕ × Bytes × Option Error × Body
unchecked (bs, err, b) = (length bs, bs, err, b)

-- `r.frame.Read(p)`: `n`, the bytes that stand in `p`, the error.
unfoldable pub body_read : ℕ → Body → ℕ × Bytes × Option Error × Body
unfolding limited_read decipher
body_read n b =
    let got = decipher (limited_read n b) in if b.checking then check_text got else unchecked got

-- io.Copy takes the end of the source for success.
abbrev pub copy_error : Error → Option Error
copy_error eof = none
copy_error e = some e

-- The loop of io.Copy(io.Discard, &r.raw): the error, what is left of the limit, the source.
unfoldable pub drain_chunks : ℕ → List Bytes → Error → Option Error × ℕ × Source
drain_chunks left [] last =
    ((if left == 0 then none else copy_error last), left, record { chunks = []; last = last })
drain_chunks left (c ∷ cs) last =
    let more = drain_chunks (left - length c) cs last in
    if left == 0
    then (none, 0, record { chunks = c ∷ cs; last = last })
    else if ltb left (length c)
    then (none, 0, record { chunks = drop left c ∷ cs; last = last })
    else more

unfoldable pub drain : Body → Option Error × Body
unfolding drain_chunks
drain b =
    let (err, left, src) = drain_chunks b.left b.source.chunks b.source.last in
    (err, record b { left = left; source = src })
