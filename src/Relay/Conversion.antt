-- ===== src/Relay/Conversion.antt =====
-- How the relay sizes a top-up (canisters/relay/src/logic.rs): the cycles burnt since the last
-- sample, their target with headroom, and its price in e8s.
pub mod Enough
use jupiter_faucet_suite.Common.{
  ℕ, ◌+◌, ◌-◌, ◌*◌, ◌/◌, Bool, Option, none, some, ltb, leb, ◌==◌, ◌&&◌, ◌||◌, if◌then◌else◌, min,
  sat_add128, sat_mul128, u64_max,
}

pub record ConversionEstimate : Type 0 where
  pub cycles_per_e8 : ℕ
  pub timestamp_nanos : ℕ

abbrev pub conversion_estimate_max_age_nanos : ℕ
conversion_estimate_max_age_nanos = 14 * 24 * 60 * 60 * 1_000_000_000

unfoldable pub compute_burn : ℕ → ℕ → ℕ → ℕ
compute_burn previous relay_minted_cycles current =
    sat_add128 previous relay_minted_cycles - current

unfoldable pub ceil_div : ℕ → ℕ → ℕ
ceil_div numerator denominator =
    if numerator == 0 then 0 else sat_add128 numerator (denominator - 1) / denominator

unfoldable pub target_topup_cycles : ℕ → ℕ
target_topup_cycles burn_cycles = ceil_div (sat_mul128 burn_cycles 101) 100

unfoldable pub topup_net_e8s : ℕ → ConversionEstimate → ℕ
topup_net_e8s target_cycles estimate =
    if target_cycles == 0 || estimate.cycles_per_e8 == 0
    then 0
    else min (ceil_div target_cycles estimate.cycles_per_e8) u64_max

unfoldable pub conversion_estimate_is_usable : ConversionEstimate → ℕ → Bool
conversion_estimate_is_usable estimate now_nanos =
    ltb 0 estimate.cycles_per_e8
    && leb (now_nanos - estimate.timestamp_nanos) conversion_estimate_max_age_nanos

-- `none` is an error: a rate of zero, or a time beyond u64.
unfoldable pub conversion_estimate_from_cmc_rate : ℕ → ℕ → Option ConversionEstimate
conversion_estimate_from_cmc_rate xdr_permyriad_per_icp timestamp_seconds =
    if xdr_permyriad_per_icp == 0
    then none
    else if leb (timestamp_seconds * 1_000_000_000) u64_max
    then some (record {
      cycles_per_e8 = xdr_permyriad_per_icp;
      timestamp_nanos = timestamp_seconds * 1_000_000_000;
    })
    else none
