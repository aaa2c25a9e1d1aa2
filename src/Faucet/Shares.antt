-- ===== src/Faucet/Shares.antt =====
-- The amounts of canisters/faucet/src/logic.rs: how much of a commitment counts in a round, and its
-- share of the round's pot.
pub mod Pot
pub mod Weight
pub mod Recognition
use jupiter_faucet_suite.Common.{
  ℕ, ◌-◌, ◌*◌, ◌/◌, Bool, true, false, Option, none, some, ltb, leb, ◌==◌, ◌||◌, if◌then◌else◌, min,
  sat_add, sat_mul, sat_mul128, u64_max, unwrap_or,
}

unfoldable pub compute_raw_share_e8s : ℕ → ℕ → ℕ → ℕ
compute_raw_share_e8s amount_e8s pot_start_e8s denom_e8s =
    if pot_start_e8s == 0 || denom_e8s == 0
    then 0
    else min (sat_mul128 amount_e8s pot_start_e8s / denom_e8s) u64_max

unfoldable pub conservative_effective_timestamp_nanos : ℕ → ℕ → ℕ
conservative_effective_timestamp_nanos tx_timestamp_nanos recognition_delay_seconds =
    sat_add tx_timestamp_nanos (sat_mul recognition_delay_seconds 1_000_000_000)

unfoldable pub compute_weighted_amount_e8s : ℕ → ℕ → ℕ → ℕ → ℕ
compute_weighted_amount_e8s raw_amount_e8s round_start round_end effective =
    if raw_amount_e8s == 0 || leb round_end round_start
    then 0
    else if leb effective round_start
    then raw_amount_e8s
    else if leb round_end effective
    then 0
    else min (sat_mul128 raw_amount_e8s (round_end - effective) / (round_end - round_start)) u64_max

unfoldable pub effective_commitment_timestamp_nanos : Option ℕ → ℕ → ℕ → ℕ
effective_commitment_timestamp_nanos tx_timestamp_nanos round_end delay =
    conservative_effective_timestamp_nanos (unwrap_or tx_timestamp_nanos round_end) delay

abbrev pub is_beyond : ℕ → Option ℕ → Bool
is_beyond tx_id none = false
is_beyond tx_id (some end) = ltb end tx_id

abbrev recognized : Option ℕ → ℕ → ℕ → Bool
recognized none round_end delay = false
recognized (some timestamp) round_end delay =
    leb (conservative_effective_timestamp_nanos timestamp delay) round_end

-- In the genesis round, which has no start, a commitment counts in full or not at all.
abbrev pub in_round : ℕ → Option ℕ → Option ℕ → ℕ → ℕ → Option ℕ
in_round amount_e8s timestamp none round_end delay =
    some (if recognized timestamp round_end delay then amount_e8s else 0)
in_round amount_e8s timestamp (some round_start) round_end delay =
    if leb round_end round_start
    then some 0
    else some (
        compute_weighted_amount_e8s amount_e8s round_start round_end
          (effective_commitment_timestamp_nanos timestamp round_end delay))

-- `none` is a commitment outside the round's tranche. Of the commitment only the amount is read.
unfoldable pub commitment_amount_for_payout_e8s :
    ℕ → ℕ → Option ℕ → Option ℕ → Option ℕ → ℕ → ℕ → Option ℕ
unfolding conservative_effective_timestamp_nanos
commitment_amount_for_payout_e8s amount_e8s tx_id timestamp round_start latest_tx_id round_end
      delay =
    if is_beyond tx_id latest_tx_id
    then none
    else in_round amount_e8s timestamp round_start round_end delay
