-- ===== src/Text/LineLaws.antt =====
-- util.go: what `readLine` returns, whatever the size of the buffer.
use mogusocket.Common.{
  ℕ, zero, suc, ◌<◌, ◌≡◌, ◌≢◌, inl, inr, refl, sym, ap, ap₂, ◌∙◌, false, Option, none, some, [],
  ◌∷◌, ◌++◌, arith, Bytes, length, length-append, append_assoc, All, Bool-cases, ◌==◌,
  if◌then◌else◌,
}
use mogusocket.Errors.{Error}
use mogusocket.Writer.Result.{Result, ok}
use mogusocket.Text.ReadLine.{
  SliceEnd, found, full, failed, cons_slice, read_slice, cut_newline, read_line_loop, read_line,
}

-- The first line of the bytes, its end included, and what follows; none if no line ends.
abbrev pub first_line : Bytes → Option (Bytes × Bytes)
first_line [] = none
first_line (b ∷ bs) =
    let rest : Option (Bytes × Bytes) = elim (first_line bs) [
      | none ↦ none
      | some lr ↦ some (b ∷ lr.0, lr.1)
    ] in
    if b == 0x0a then some (b ∷ [], bs) else rest

-- A line without its end: the last byte, and a carriage return before it.
abbrev pub without_end : Bytes → Bytes
without_end [] = []
without_end (c ∷ []) = []
without_end (c ∷ d ∷ []) = if c == 13 then [] else c ∷ []
without_end (c ∷ d ∷ e ∷ line) = c ∷ without_end (d ∷ e ∷ line)

cut_newline-cons :
    (c d e : ℕ) (line : Bytes) → cut_newline (c ∷ d ∷ e ∷ line) ≡ c ∷ cut_newline (d ∷ e ∷ line)
unfolding cut_newline
cut_newline-cons c d e line = ground arith

cut_newline-without_end : (line : Bytes) → cut_newline line ≡ without_end line
unfolding cut_newline
cut_newline-without_end [] = refl
cut_newline-without_end (c ∷ []) = refl
cut_newline-without_end (c ∷ d ∷ []) = refl
cut_newline-without_end (c ∷ d ∷ e ∷ line) =
    cut_newline-cons c d e line ∙ ap (λ (t : Bytes). c ∷ t) (cut_newline-without_end (d ∷ e ∷ line))

abbrev pub line_of : Error → Bytes → Bytes → Option (Bytes × Bytes) → Bytes × Option Error × Bytes
line_of last line pending none = (line ++ pending, some last, [])
line_of last line pending (some (l, r)) = (without_end (line ++ l), none, r)

-- What is read where `line` has been copied before.
abbrev pub line_result : Error → Bytes → Bytes → Bytes × Option Error × Bytes
line_result last line pending = line_of last line pending (first_line pending)

abbrev behind : Bytes → Option (Bytes × Bytes) → Option (Bytes × Bytes)
behind bts none = none
behind bts (some (l, r)) = some (bts ++ l, r)

-- What one ReadSlice says about the first line.
abbrev IsSlice : ℕ → Bytes → Bytes × SliceEnd × Bytes → Type 0
IsSlice room pending (bts, found, rest) = first_line pending ≡ some (bts, rest)
IsSlice room pending (bts, full, rest) =
    (bts ++ rest ≡ pending)
    × (length bts ≡ room)
    × (first_line pending ≡ behind bts (first_line rest))
IsSlice room pending (bts, failed, rest) =
    (first_line pending ≡ none) × (bts ≡ pending) × (rest ≡ [])

behind-nil : (o : Option (Bytes × Bytes)) → o ≡ behind [] o
behind-nil none = refl
behind-nil (some (l, r)) = refl

behind-cons :
    (b : ℕ) (bts : Bytes) (o : Option (Bytes × Bytes))
    → (elim (behind bts o) as (λ x. Option (Bytes × Bytes)) [
      | none ↦ none
      | some lr ↦ some (b ∷ lr.0, lr.1)
    ])
      ≡ behind (b ∷ bts) o
behind-cons b bts none = refl
behind-cons b bts (some (l, r)) = refl

cons_slice-IsSlice :
    (room b : ℕ) (pending : Bytes) (x : Bytes × SliceEnd × Bytes)
    → (b == 0x0a) ≡ false
    → IsSlice room pending x
    → IsSlice (suc room) (b ∷ pending) (cons_slice b x)
cons_slice-IsSlice room b pending (bts, found, rest) ne h = rw (ne, h) refl
cons_slice-IsSlice room b pending (bts, full, rest) ne (h, k, e) =
    (ap (λ (t : Bytes). b ∷ t) h, ap suc k, rw (ne, e) (behind-cons b bts (first_line rest)))
cons_slice-IsSlice room b pending (bts, failed, rest) ne (h, k, z) =
    (rw (ne, h) refl, ap (λ (t : Bytes). b ∷ t) k, z)

read_slice-IsSlice : (room : ℕ) (pending : Bytes) → IsSlice room pending (read_slice room pending)
unfolding read_slice
read_slice-IsSlice zero pending = (refl, refl, behind-nil (first_line pending))
read_slice-IsSlice (suc room) [] = (refl, refl, refl)
read_slice-IsSlice (suc room) (b ∷ pending) = elim (Bool-cases (b == 0x0a)) [
  | inl here ↦ rw here (rw here refl)
  | inr ne ↦ rw ne (
      cons_slice-IsSlice room b pending (read_slice room pending) ne
        (read_slice-IsSlice room pending))
]

append_line_of :
    (last : Error) (line bts rest pending : Bytes)
    → bts ++ rest ≡ pending
    → (o : Option (Bytes × Bytes))
    → line_of last (line ++ bts) rest o ≡ line_of last line pending (behind bts o)
append_line_of last line bts rest pending joined none =
    ap (λ (t : Bytes). (t, some last, []))
      (append_assoc line bts rest ∙ ap (λ (t : Bytes). line ++ t) joined)
append_line_of last line bts rest pending joined (some (l, r)) =
    ap (λ (t : Bytes). (without_end t, none, r)) (append_assoc line bts l)

read_line_loop-line_result :
    (fuel size : ℕ) (last : Error) (line pending : Bytes)
    → 0 < size
    → length pending < fuel
    → read_line_loop fuel size last line pending ≡ ok (line_result last line pending)
unfolding read_line_loop
read_line_loop-line_result zero size last line pending some_room enough = absurd (omega arith)
read_line_loop-line_result (suc fuel) size last line pending some_room enough =
    go (read_slice size pending) (read_slice-IsSlice size pending)
      (λ bts rest. read_line_loop-line_result fuel size last (line ++ bts) rest some_room)
  where
    go :
        (x : Bytes × SliceEnd × Bytes)
        → IsSlice size pending x
        → ((bts rest : Bytes)
            → length rest < fuel
            → read_line_loop fuel size last (line ++ bts) rest
              ≡ ok (line_result last (line ++ bts) rest))
        → (elim x.1 as (λ e. Result (Bytes × Option Error × Bytes)) [
          | full ↦ read_line_loop fuel size last (line ++ x.0) x.2
          | found ↦ ok (cut_newline (line ++ x.0), none, x.2)
          | failed ↦ ok (line ++ x.0, some last, x.2)
        ])
          ≡ ok (line_result last line pending)
    go (bts, found, rest) h ih =
        ap (λ (t : Bytes). ok (t, none, rest)) (cut_newline-without_end (line ++ bts))
        ∙ ap (λ o. ok (line_of last line pending o)) (sym h)
    go (bts, full, rest) (joined, filled, e) ih =
        ih bts rest (omega (arith, ap length joined, length-append bts rest))
        ∙ ap ok (append_line_of last line bts rest pending joined (first_line rest))
        ∙ ap (λ o. ok (line_of last line pending o)) (sym e)
    go (bts, failed, rest) (e, all, nothing) ih =
        ap₂ (λ (t u : Bytes). ok (line ++ t, some last, u)) all nothing
        ∙ ap (λ o. ok (line_of last line pending o)) (sym e)

-- readLine returns the first line without its newline and a carriage return before that, and what
-- follows it, or all the bytes with the error where no line ends, and never runs out of rounds,
-- whatever the size of the buffer, if it is not 0.
pub read_line-line_result :
    (size : ℕ) (last : Error) (pending : Bytes)
    → 0 < size
    → read_line size last pending ≡ ok (line_result last [] pending)
unfolding read_line
read_line-line_result size last pending room =
    read_line_loop-line_result (suc (length pending)) size last [] pending room (omega arith)

first_line-append :
    (line rest : Bytes)
    → All (λ b. b ≢ 0x0a) line
    → first_line (line ++ 0x0a ∷ rest) ≡ some (line ++ 0x0a ∷ [], rest)
first_line-append [] rest clear = refl
first_line-append (b ∷ line) rest (ne, clear) =
    let apart : (b == 0x0a) ≡ false = ground (arith, ne) in
    rw (apart, first_line-append line rest clear) refl

abbrev Shorter : ℕ → Option (Bytes × Bytes) → Type 0
Shorter n none = Unit {0}
Shorter n (some (l, r)) = length r < n

cons-Shorter :
    (b n : ℕ) (pending : Bytes) (o : Option (Bytes × Bytes))
    → (b == 0x0a) ≡ false
    → first_line pending ≡ o
    → Shorter n o
    → Shorter (suc n) (first_line (b ∷ pending))
cons-Shorter b n pending none ne e h = rw (ne, e) tt
cons-Shorter b n pending (some (l, r)) ne e h = rw (ne, e) (omega arith)

first_line-Shorter : (pending : Bytes) → Shorter (length pending) (first_line pending)
first_line-Shorter [] = tt
first_line-Shorter (b ∷ pending) = elim (Bool-cases (b == 0x0a)) [
  | inl here ↦ rw here (omega arith)
  | inr ne ↦
      cons-Shorter b (length pending) pending (first_line pending) ne refl
        (first_line-Shorter pending)
]

line_of-Shorter :
    (last : Error) (pending line rest : Bytes) (o : Option (Bytes × Bytes))
    → Shorter (length pending) o
    → line_of last [] pending o ≡ (line, none, rest)
    → length rest < length pending
line_of-Shorter last pending line rest none h e = cc
line_of-Shorter last pending line rest (some (l, r)) h e = ground (arith, e)

-- A line that was read is gone.
pub line_result-shorter :
    (last : Error) (pending line rest : Bytes)
    → line_result last [] pending ≡ (line, none, rest)
    → length rest < length pending
line_result-shorter last pending line rest e =
    line_of-Shorter last pending line rest (first_line pending) (first_line-Shorter pending) e
