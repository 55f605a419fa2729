-- ===== src/Check/Rules.antt =====
-- `CheckHeader` against the rules of RFC 6455, sections 5.2, 5.4 and 5.5.
use mogusocket.Common.{
  ℕ, ◌+◌, ◌-◌, ◌*◌, bit_or, ◌/◌, ◌%◌, ◌≤◌, ◌<◌, ◌≡◌, ◌≢◌, ◌↔◌, ◌⊎◌, refl, true, false, none, some,
  arith, bit_and,
}
use mogusocket.Common.Bits.{agree, all_below}
use mogusocket.Common.Words.{ℤ, pos, negsuc}
use mogusocket.Errors.{
  ProtocolError, op_code_reserved, control_payload_overflow, control_not_final, non_zero_rsv,
  mask_required, mask_unexpected, continuation_expected, continuation_unexpected,
}
use mogusocket.Frame.Header.{Header, is_control, is_reserved}
use mogusocket.Frame.Laws.{is_control_iff}
use mogusocket.Check.{
  state_set, state_clear, server_side, client_side, extended, fragmented, check_header,
  state_fragmented,
}

bit_and_one : (s : ℕ) → s < 256 → bit_and s 1 ≡ s % 2
unfolding all_below
bit_and_one s h = agree 256 (λ s. bit_and s 1) (λ s. s % 2) refl s h

bit_and_two : (s : ℕ) → s < 256 → bit_and s 2 ≡ s / 2 % 2 * 2
unfolding all_below
bit_and_two s h = agree 256 (λ s. bit_and s 2) (λ s. s / 2 % 2 * 2) refl s h

bit_and_four : (s : ℕ) → s < 256 → bit_and s 4 ≡ s / 4 % 2 * 4
unfolding all_below
bit_and_four s h = agree 256 (λ s. bit_and s 4) (λ s. s / 4 % 2 * 4) refl s h

bit_and_eight : (s : ℕ) → s < 256 → bit_and s 8 ≡ s / 8 % 2 * 8
unfolding all_below
bit_and_eight s h = agree 256 (λ s. bit_and s 8) (λ s. s / 8 % 2 * 8) refl s h

-- The four flags are the four lowest bits of the state.
abbrev pub IsServer : ℕ → Type 0
IsServer s = s % 2 ≡ 1

abbrev pub IsClient : ℕ → Type 0
IsClient s = s / 2 % 2 ≡ 1

abbrev pub IsExtended : ℕ → Type 0
IsExtended s = s / 4 % 2 ≡ 1

abbrev pub IsFragmented : ℕ → Type 0
IsFragmented s = s / 8 % 2 ≡ 1

pub server_side_iff : (s : ℕ) → s < 256 → (server_side s ≡ true) ↔ IsServer s
unfolding server_side
server_side_iff s h = ground (arith, bit_and_one s h)

pub client_side_iff : (s : ℕ) → s < 256 → (client_side s ≡ true) ↔ IsClient s
unfolding client_side
client_side_iff s h = ground (arith, bit_and_two s h)

pub extended_iff : (s : ℕ) → s < 256 → (extended s ≡ true) ↔ IsExtended s
unfolding extended
extended_iff s h = ground (arith, bit_and_four s h)

pub fragmented_iff : (s : ℕ) → s < 256 → (fragmented s ≡ true) ↔ IsFragmented s
unfolding fragmented
fragmented_iff s h = ground (arith, bit_and_eight s h)

abbrev IsControlCode : ℕ → Type 0
IsControlCode c = 8 ≤ c

abbrev AtMost : ℤ → ℕ → Type 0
AtMost (pos n) k = n ≤ k
AtMost (negsuc n) k = Unit {0}

-- What the RFC asks of the header of a frame that reaches an endpoint in state `s`.
pub record IsCompliant (h : Header) (s : ℕ) : Type 0 where
  pub known : (h.op_code ≤ 2) ⊎ ((8 ≤ h.op_code) × (h.op_code ≤ 10))
  pub control_short : IsControlCode h.op_code → AtMost h.len 125
  pub control_whole : IsControlCode h.op_code → h.fin ≡ true
  pub rsv_agreed : (h.rsv ≡ 0) ⊎ IsExtended s
  pub to_server_masked : IsServer s → h.masked ≡ true
  pub to_client_plain : IsClient s → h.masked ≡ false
  pub in_sequence : IsFragmented s → (h.op_code ≡ 0) ⊎ IsControlCode h.op_code
  pub starts_message : (s / 8 % 2 ≡ 0) → h.op_code ≢ 0

module _ (h : Header) (s : ℕ) (ho : h.op_code < 16) (hs : s < 256) where
  -- Each test of the code against its flag.
  tests :
      ((is_control h.op_code ≡ true) ↔ IsControlCode h.op_code)
      × ((server_side s ≡ true) ↔ IsServer s)
      × ((client_side s ≡ true) ↔ IsClient s)
      × ((extended s ≡ true) ↔ IsExtended s)
      × ((fragmented s ≡ true) ↔ IsFragmented s)
  tests = (
    is_control_iff h.op_code ho,
    server_side_iff s hs,
    client_side_iff s hs,
    extended_iff s hs,
    fragmented_iff s hs,
  )

  pub check_header-IsCompliant : check_header h s ≡ none → IsCompliant h s
  unfolding check_header is_reserved
  check_header-IsCompliant e = record {
    known = ground (arith, tests);
    control_short = ground (arith, tests);
    control_whole = ground (arith, tests);
    rsv_agreed = ground (arith, tests);
    to_server_masked = ground (arith, tests);
    to_client_plain = ground (arith, tests);
    in_sequence = ground (arith, tests);
    starts_message = ground (arith, tests);
  }

  pub IsCompliant-check_header : IsCompliant h s → check_header h s ≡ none
  unfolding check_header is_reserved
  IsCompliant-check_header c = ground (arith, tests)

-- The rule that each error reports.
abbrev pub Breaks : ProtocolError → Header → ℕ → Type 0
Breaks op_code_reserved h s =
    ((3 ≤ h.op_code) × (h.op_code ≤ 7)) ⊎ ((11 ≤ h.op_code) × (h.op_code ≤ 15))
Breaks control_payload_overflow h s = IsControlCode h.op_code × ¬ AtMost h.len 125
Breaks control_not_final h s = IsControlCode h.op_code × (h.fin ≡ false)
Breaks non_zero_rsv h s = (h.rsv ≢ 0) × ¬ IsExtended s
Breaks mask_required h s = IsServer s × (h.masked ≡ false)
Breaks mask_unexpected h s = IsClient s × (h.masked ≡ true)
Breaks continuation_expected h s = IsFragmented s × (1 ≤ h.op_code) × (h.op_code ≤ 2)
Breaks continuation_unexpected h s = ¬ IsFragmented s × (h.op_code ≡ 0)
Breaks _ h s = ⊥

-- Every error that `CheckHeader` returns names a rule that the header breaks, and none of the
-- errors about status codes is among them.
pub check_header-Breaks :
    (h : Header) (s : ℕ) (e : ProtocolError)
    → h.op_code < 16
    → s < 256
    → check_header h s ≡ some e
    → Breaks e h s
unfolding check_header is_reserved
check_header-Breaks h s op_code_reserved ho hs p = ground (arith, tests h s ho hs)
check_header-Breaks h s control_payload_overflow ho hs p = ground (arith, tests h s ho hs)
check_header-Breaks h s control_not_final ho hs p = ground (arith, tests h s ho hs)
check_header-Breaks h s non_zero_rsv ho hs p = ground (arith, tests h s ho hs)
check_header-Breaks h s mask_required ho hs p = ground (arith, tests h s ho hs)
check_header-Breaks h s mask_unexpected ho hs p = ground (arith, tests h s ho hs)
check_header-Breaks h s continuation_expected ho hs p = ground (arith, tests h s ho hs)
check_header-Breaks h s continuation_unexpected ho hs p = ground (arith, tests h s ho hs)
check_header-Breaks h s _ ho hs p = ground (arith, tests h s ho hs)

set_eight : (s : ℕ) → s < 256 → bit_or s 8 ≡ s + 8 - s / 8 % 2 * 8
unfolding all_below
set_eight s h = agree 256 (λ s. bit_or s 8) (λ s. s + 8 - s / 8 % 2 * 8) refl s h

clear_eight : (s : ℕ) → s < 256 → bit_and s (255 - 8) ≡ s - s / 8 % 2 * 8
unfolding all_below
clear_eight s h = agree 256 (λ s. bit_and s (255 - 8)) (λ s. s - s / 8 % 2 * 8) refl s h

-- `Set` with `StateFragmented` sets that flag and changes no other bit of the state.
pub IsFragmented-state_set :
    (s : ℕ)
    → s < 256
    → let t = state_set s state_fragmented in IsFragmented t × (t % 8 ≡ s % 8) × (t / 16 ≡ s / 16)
unfolding state_set
IsFragmented-state_set s h = omega (arith, set_eight s h)

-- `Clear` with `StateFragmented` clears that flag and changes no other bit of the state.
pub fragmented-state_clear :
    (s : ℕ)
    → s < 256
    → let t = state_clear s state_fragmented in
      (t / 8 % 2 ≡ 0) × (t % 8 ≡ s % 8) × (t / 16 ≡ s / 16)
unfolding state_clear
fragmented-state_clear s h = omega (arith, clear_eight s h)

-- The headers that pass are exactly the compliant ones.
pub check_header_iff :
    (h : Header) (s : ℕ) → h.op_code < 16 → s < 256 → (check_header h s ≡ none) ↔ IsCompliant h s
check_header_iff h s ho hs =
    (check_header-IsCompliant h s ho hs, IsCompliant-check_header h s ho hs)
