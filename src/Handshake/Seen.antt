-- ===== src/Handshake/Seen.antt =====
-- upgrader.go: the flags `headerSeen...`.
use mogusocket.Common.{
  ℕ, ◌<◌, ◌≡◌, refl, Bool, true, false, not, ◌||◌, bit_and, bit_or, Option, none, ltb, arith, Bytes,
  ◌==◌, if◌then◌else◌,
}
use mogusocket.Common.Bits.{all_below, all_below_sound}
use mogusocket.Writer.Result.{Result, ok, panic, stuck}
use mogusocket.Text.Codes.{codes}
use mogusocket.Text.Select.{same_bytes}
use mogusocket.Handshake.Failure.{HandshakeError}
use mogusocket.Handshake.Options.{Httphead}
use mogusocket.Handshake.Server.{
  check_seen, seen_host, seen_upgrade, seen_connection, seen_sec_version, seen_sec_key,
}

-- The flag that a header sets.
unfoldable pub flag_of : Bytes → ℕ
flag_of k =
    if same_bytes k (codes "Host")
    then seen_host
    else if same_bytes k (codes "Upgrade")
    then seen_upgrade
    else if same_bytes k (codes "Connection")
    then seen_connection
    else if same_bytes k (codes "Sec-Websocket-Version")
    then seen_sec_version
    else if same_bytes k (codes "Sec-Websocket-Key")
    then seen_sec_key
    else 0

pub flag_of-lt : (k : Bytes) → flag_of k < 32
unfolding flag_of
flag_of-lt k = ground arith

unfoldable pub has : ℕ → ℕ → Bool
has flag seen = not (bit_and seen flag == 0)

abbrev same : Bool → Bool → Bool
same true b = b
same false b = not b

same_eq : (a b : Bool) → same a b ≡ true → a ≡ b
same_eq a b h = ground arith

abbrev spreads : ℕ → ℕ → ℕ → Bool
spreads flag x b = same (has flag (bit_or x b)) (has flag x || has flag b)

abbrev table : ℕ → Bool
table flag = all_below 32 (λ x. all_below 32 (spreads flag x))

spread :
    (flag x b : ℕ)
    → table flag ≡ true
    → x < 32
    → b < 32
    → has flag (bit_or x b) ≡ (has flag x || has flag b)
spread flag x b t hx hb = same_eq _ _ (
    all_below_sound 32 (spreads flag x) b
      (all_below_sound 32 (λ y. all_below 32 (spreads flag y)) x t hx) hb)

-- The five flags.
abbrev pub IsFlag : ℕ → Type 0
IsFlag flag = table flag ≡ true

pub seen_host-IsFlag : IsFlag seen_host
unfolding all_below has
seen_host-IsFlag = refl

pub seen_upgrade-IsFlag : IsFlag seen_upgrade
unfolding all_below has
seen_upgrade-IsFlag = refl

pub seen_connection-IsFlag : IsFlag seen_connection
unfolding all_below has
seen_connection-IsFlag = refl

pub seen_sec_version-IsFlag : IsFlag seen_sec_version
unfolding all_below has
seen_sec_version-IsFlag = refl

pub seen_sec_key-IsFlag : IsFlag seen_sec_key
unfolding all_below has
seen_sec_key-IsFlag = refl

-- A flag is seen where it was seen before or is set now.
pub has-bit_or :
    (flag x k : ℕ)
    → IsFlag flag
    → x < 32
    → k < 32
    → has flag (bit_or x k) ≡ (has flag x || has flag k)
has-bit_or flag x k t hx hk = spread flag x k t hx hk

pub bit_or-lt : (x b : ℕ) → x < 32 → b < 32 → bit_or x b < 32
unfolding all_below
bit_or-lt x b hx hb =
    let row = all_below_sound 32 (λ y. all_below 32 (λ c. ltb (bit_or y c) 32)) x refl hx in
    let cell = all_below_sound 32 (λ c. ltb (bit_or x c) 32) b row hb in ground arith

abbrev pub settles {ℓ} : {A : Type ℓ} → Result A → Bool
settles (ok a) = true
settles panic = false
settles stuck = false

pub settled : {A : Type 0} → (r : Result A) → settles r ≡ true → (a : A) × (r ≡ ok a)
settled (ok a) h = (a, refl)
settled panic h = cc
settled stuck h = cc

-- The switch on the missing header never panics on the flags.
pub check_seen_settles :
    (hh : Httphead) (seen : ℕ)
    → seen < 32
    → (e : Option HandshakeError) × (check_seen hh seen ≡ ok e)
unfolding check_seen all_below
check_seen_settles hh seen h =
    settled (check_seen hh seen) (all_below_sound 32 (λ x. settles (check_seen hh x)) seen refl h)

pub check_seen-all : (hh : Httphead) (seen : ℕ) → check_seen hh seen ≡ ok none → seen ≡ 31
unfolding check_seen
check_seen-all hh seen h = ground arith
