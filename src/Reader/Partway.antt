-- ===== src/Reader/Partway.antt =====
-- msutil/reader.go: a payload of which a part has been read, and the bytes that one read of the
-- connection gives of it.
use mogusocket.Common.{
  ℕ, ◌+◌, ◌≤◌, ◌<◌, ◌≡◌, refl, sym, ap, ◌∙◌, inl, inr, Option, none, some, List, [], ◌∷◌, ◌++◌,
  append_assoc, arith, Bytes, length, take, drop, ltb, length-append, length-take, length-drop,
  take-append-drop, take-append_left, drop-append_left, take_all, Bool-cases, if◌then◌else◌,
}
use mogusocket.Common.Words.{AreBytes}
use mogusocket.Cipher.{Mask, IsMask, cipher}
use mogusocket.Cipher.Equivalence.{cipher-append, length-cipher}
use mogusocket.Errors.{Error}
use mogusocket.Stream.{Source, flatten, content, read}
use mogusocket.Stream.Laws.{take-length-append, drop-length-append}
use mogusocket.Utf8.Machine.{State, number, start}
use mogusocket.Utf8.Run.{run}
use mogusocket.Reader.Body.{Body}

-- The payload that the bytes `ys` of the connection stand for.
abbrev pub deciphered : Option (Mask × ℕ) → Bytes → Bytes
deciphered none ys = ys
deciphered (some mp) ys = cipher ys mp.0 mp.1

abbrev pub IsCipher : Option (Mask × ℕ) → Type 0
IsCipher none = Unit {0}
IsCipher (some mp) = IsMask mp.0

-- The next reads of a source are bounded by this.
abbrev pub weight : Source → ℕ
weight s = length s.chunks + length (content s)

-- The payload still to be read is `zs`, for which `ys` stands in the source, with `rest` behind it;
-- text goes on with `more` in later frames and is valid from the state of its check on, and that state is the first one without a check.
pub record IsPartway (b : Body) (ys zs more rest : Bytes) : Type 0 where
  pub arrives : content b.source ≡ ys ++ rest
  pub counted : b.left ≡ length ys
  pub means : deciphered b.ciphered ys ≡ zs
  pub ciphers : IsCipher b.ciphered
  pub wire_bytes : AreBytes ys
  pub bytes : AreBytes zs
  pub state : State
  pub state_is : b.utf8.state ≡ number state
  pub valid_from : run state (if b.checking then zs ++ more else []) ≡ start

pub length-deciphered :
    (c : Option (Mask × ℕ)) (ys : Bytes)
    → AreBytes ys
    → IsCipher c
    → length (deciphered c ys) ≡ length ys
length-deciphered none ys hb hm = refl
length-deciphered (some mp) ys hb hm = length-cipher ys mp.0 mp.1 hb hm

pub length-IsPartway :
    (b : Body) (ys zs more rest : Bytes) → IsPartway b ys zs more rest → length zs ≡ length ys
length-IsPartway b ys zs more rest p =
    sym (ap length p.means) ∙ length-deciphered b.ciphered ys p.wire_bytes p.ciphers

abbrev pub moved : Option (Mask × ℕ) → ℕ → Option (Mask × ℕ)
moved none n = none
moved (some mp) n = some (mp.0, mp.1 + n)

pub deciphered-append :
    (c : Option (Mask × ℕ)) (xs ys : Bytes)
    → AreBytes (xs ++ ys)
    → IsCipher c
    → deciphered c (xs ++ ys) ≡ deciphered c xs ++ deciphered (moved c (length xs)) ys
deciphered-append none xs ys hb hm = refl
deciphered-append (some mp) xs ys hb hm = cipher-append xs ys mp.0 mp.1 hb hm

-- What one read of the connection gives: a part of the bytes, and a lighter source.
pub record Takes (k : ℕ) (s : Source) (ys rest : Bytes) : Type 0 where
  pub front : Bytes
  pub back : Bytes
  pub after : Source
  pub split : ys ≡ front ++ back
  pub result : read k s ≡ (front, none, after)
  pub arrives : content after ≡ back ++ rest
  pub lighter : weight after < weight s
  pub small : length front ≤ k

split_at :
    (xs more ys rest : Bytes)
    → xs ++ more ≡ ys ++ rest
    → length xs ≤ length ys
    → (ys ≡ xs ++ drop (length xs) ys) × (more ≡ drop (length xs) ys ++ rest)
split_at xs more ys rest e fits =
    let front : take (length xs) ys ≡ xs =
      sym (take-append_left (length xs) ys rest fits)
      ∙ ap (take (length xs)) (sym e)
      ∙ take-length-append xs more in
    let back : more ≡ drop (length xs) ys ++ rest =
      sym (drop-length-append xs more)
      ∙ ap (drop (length xs)) e
      ∙ drop-append_left (length xs) ys rest fits in
    (
      sym (take-append-drop (length xs) ys) ∙ ap (λ (t : Bytes). t ++ drop (length xs) ys) front,
      back,
    )

pub read-Takes :
    (k : ℕ) (cs : List Bytes) (last : Error) (ys rest : Bytes)
    → 0 < k
    → k ≤ length ys
    → flatten cs ≡ ys ++ rest
    → Takes k (record { chunks = cs; last = last }) ys rest
unfolding read
read-Takes k [] last ys rest some_room fits e =
    absurd (omega (arith, length-append ys rest, ap length e))
read-Takes k (c ∷ cs) last ys rest some_room fits e = elim (Bool-cases (ltb k (length c))) [
  | inl part ↦
      let front : length (take k c) ≡ k = ground (arith, length-take k c) in
      let joined : take k c ++ (drop k c ++ flatten cs) ≡ ys ++ rest =
        sym (append_assoc (take k c) (drop k c) (flatten cs))
        ∙ ap (λ (t : Bytes). t ++ flatten cs) (take-append-drop k c)
        ∙ e in
      let (split, behind) =
        split_at (take k c) (drop k c ++ flatten cs) ys rest joined (omega (arith, front)) in
      record {
        front = take k c;
        back = drop (length (take k c)) ys;
        after = record { chunks = drop k c ∷ cs; last = last };
        split = split;
        result = rw part refl;
        arrives = behind;
        lighter = ground (
          arith,
          length-append c (flatten cs),
          length-append (drop k c) (flatten cs),
          length-drop k c,
        );
        small = omega (arith, front);
      }
  | inr whole ↦
      let all : take k c ≡ c = take_all k c (ground (arith, whole)) in
      let (split, behind) = split_at c (flatten cs) ys rest e (ground (arith, whole)) in
      record {
        front = c;
        back = drop (length c) ys;
        after = record { chunks = cs; last = last };
        split = split;
        result = rw (whole, all) refl;
        arrives = behind;
        lighter = omega (arith, length-append c (flatten cs));
        small = ground (arith, whole);
      }
]
