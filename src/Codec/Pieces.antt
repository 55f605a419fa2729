-- ===== src/Codec/Pieces.antt =====
-- read.go: what `ReadHeader` leaves of the pieces of its reader.
use mogusocket.Common.{
  ℕ, ◌+◌, Bool, true, false, ltb, ◌==◌, ◌≤◌, ◌≡◌, ap, refl, Option, none, some, arith, Bytes,
  length, if◌then◌else◌,
}
use mogusocket.Common.Words.{pos}
use mogusocket.Errors.{Error}
use mogusocket.Stream.{Source, read_full}
use mogusocket.Stream.Laws.{read_full-pieces}
use mogusocket.Frame.Header.{Header}
use mogusocket.Codec.Read.{after_extra, read_sized, read_rest, after_head, read_header}

after_extra-pieces :
    (h : Header) (len : ℕ) (x : Bytes × Option Error × Source) → (after_extra h len x).2 ≡ x.2
after_extra-pieces h len (bts, none, r) = refl
after_extra-pieces h len (bts, some e, r) = refl

read_extra-pieces :
    (h : Header) (len n : ℕ) (r : Source)
    → length (after_extra h len (read_full n r)).2.chunks ≤ length r.chunks
read_extra-pieces h len n r = omega (
  arith,
  ap (λ (s : Source). length s.chunks) (after_extra-pieces h len (read_full n r)),
  read_full-pieces n r,
)

branches :
    (k : ℕ) (c : Bool) (x y : Header × Option Error × Source)
    → length x.2.chunks ≤ k
    → length y.2.chunks ≤ k
    → length (if c then x else y).2.chunks ≤ k
branches k true x y hx hy = hx
branches k false x y hx hy = hy

read_sized-pieces :
    (h : Header) (len : ℕ) (r : Source) → length (read_sized h len r).2.chunks ≤ length r.chunks
unfolding read_sized
read_sized-pieces h len r =
    let extra : ℕ = if h.masked then 4 else 0 in
    branches (length r.chunks) (ltb len 126) _ _
      (branches (length r.chunks) (extra == 0) _ _ (omega arith)
        (read_extra-pieces (record h { len = pos len }) len extra r))
      (branches (length r.chunks) (len == 126) _ _ (read_extra-pieces h len (extra + 2) r) (
        branches (length r.chunks) (len == 127) _ _ (read_extra-pieces h len (extra + 8) r)
          (omega arith)))

after_head-pieces :
    (x : Bytes × Option Error × Source) → length (after_head x).2.chunks ≤ length x.2.chunks
unfolding read_rest
after_head-pieces (bts, none, r) = read_sized-pieces _ _ r
after_head-pieces (bts, some e, r) = omega arith

-- ReadHeader never adds a piece.
pub read_header-pieces : (r : Source) → length (read_header r).2.chunks ≤ length r.chunks
unfolding read_header
read_header-pieces r = omega (arith, after_head-pieces (read_full 2 r), read_full-pieces 2 r)
