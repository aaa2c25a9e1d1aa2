-- ===== src/Relay/Allocation.antt =====
-- The allocation of a balance to canisters by what they burnt (canisters/relay/src/logic.rs). The
-- current samples are the map's entries in the order of its keys; of a sample only the cycles are
-- read. The other maps are lookups. A sum of u128 wraps around.
pub mod Spending
use jupiter_faucet_suite.Common.{
  ℕ, ◌+◌, ◌-◌, ◌*◌, ◌/◌, ◌%◌, ◌^◌, Bool, true, false, Option, none, some, List, [], ◌∷◌, map, any,
  ltb, leb, ◌==◌, ◌||◌, sum_by, min, unwrap_or, if◌then◌else◌, sat_add128, sat_mul128, u64_max,
}
use jupiter_faucet_suite.Ledger.{Principal}
use jupiter_faucet_suite.Relay.Conversion.{compute_burn, target_topup_cycles}

pub data SkipReason : Type 0 where
  zero_burn no_positive_burn no_raw_icp_recipients : SkipReason
  all_cycles_batch_below_fee_efficient_threshold gross_share_does_not_exceed_fee : SkipReason
  insufficient_balance_for_topups : SkipReason

pub record BurnPlan : Type 0 where
  pub canister_id : Principal
  pub previous_cycles : Option ℕ
  pub current_cycles : ℕ
  pub relay_minted_cycles : ℕ
  pub burn_cycles : ℕ
  pub carried_deficit_cycles : ℕ
  pub target_topup_cycles : ℕ
  pub gross_share_e8s : ℕ
  pub amount_e8s : ℕ
  pub actual_minted_cycles : ℕ
  pub remaining_deficit_cycles : ℕ
  pub skipped_reason : Option SkipReason

pub record AllocationPlan : Type 0 where
  pub topups : List BurnPlan
  pub topup_phase_fully_funded : Bool
  pub skipped_surplus_reason : Option SkipReason

abbrev burnt : Option ℕ → ℕ → ℕ → ℕ
burnt none minted current = 0
burnt (some previous) minted current = compute_burn previous minted current

module _ (previous minted_since deficits : Principal → Option ℕ) (use_headroom_target : Bool) where
  abbrev burn_plan : Principal × ℕ → BurnPlan
  burn_plan (canister_id, cycles) =
      let minted : ℕ = unwrap_or (minted_since canister_id) 0 in
      let burn : ℕ = burnt (previous canister_id) minted cycles in
      let deficit : ℕ = unwrap_or (deficits canister_id) 0 in
      let target : ℕ =
        sat_add128 deficit (if use_headroom_target then target_topup_cycles burn else burn) in
      record {
        canister_id = canister_id;
        previous_cycles = previous canister_id;
        current_cycles = cycles;
        relay_minted_cycles = minted;
        burn_cycles = burn;
        carried_deficit_cycles = deficit;
        target_topup_cycles = target;
        gross_share_e8s = 0;
        amount_e8s = 0;
        actual_minted_cycles = 0;
        remaining_deficit_cycles = target;
        skipped_reason = none;
      }

  unfoldable pub burn_plans : List (Principal × ℕ) → List BurnPlan
  burn_plans current = map burn_plan current

-- `u64` shares of the balance in proportion to the targets.
unfoldable pub gross_share : ℕ → ℕ → BurnPlan → ℕ
gross_share available total plan =
    if plan.target_topup_cycles == 0
    then 0
    else min (sat_mul128 available plan.target_topup_cycles / total) u64_max

unfoldable pub spend : ℕ → ℕ → ℕ → BurnPlan → BurnPlan
spend available total fee plan =
    let gross : ℕ = gross_share available total plan in
    if plan.target_topup_cycles == 0
    then record plan { skipped_reason = some SkipReason.zero_burn }
    else if ltb gross (sat_mul128 fee 2) || leb gross fee
    then record plan {
      gross_share_e8s = gross;
      skipped_reason = some SkipReason.all_cycles_batch_below_fee_efficient_threshold;
    }
    else record plan { gross_share_e8s = gross; amount_e8s = gross - fee }

abbrev pub total_need : List BurnPlan → ℕ
total_need plans =
    sum_by (λ p. p.target_topup_cycles) plans % 340_282_366_920_938_463_463_374_607_431_768_211_456

abbrev pub no_need : BurnPlan → BurnPlan
no_need plan = record plan { skipped_reason = some SkipReason.no_positive_burn }

abbrev pub spend_all : ℕ → ℕ → List BurnPlan → AllocationPlan
spend_all available fee plans =
    if total_need plans == 0
    then record {
      topups = map no_need plans;
      topup_phase_fully_funded = true;
      skipped_surplus_reason = some SkipReason.no_positive_burn;
    }
    else (let topups : List BurnPlan = map (spend available (total_need plans) fee) plans in
        record {
          topups = topups;
          topup_phase_fully_funded = true;
          skipped_surplus_reason = some (
              if any (λ p. ltb 0 p.amount_e8s) topups
              then SkipReason.no_raw_icp_recipients
              else SkipReason.all_cycles_batch_below_fee_efficient_threshold);
        })

unfoldable pub build_spend_all_cycles_plan :
    List (Principal × ℕ)
    → (Principal → Option ℕ)
    → (Principal → Option ℕ)
    → (Principal → Option ℕ)
    → ℕ
    → ℕ
    → AllocationPlan
unfolding burn_plans
build_spend_all_cycles_plan current previous minted_since deficits available fee =
    spend_all available fee (burn_plans previous minted_since deficits false current)
