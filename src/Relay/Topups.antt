-- ===== src/Relay/Topups.antt =====
-- `build_allocation_plan` of canisters/relay/src/logic.rs: the top-ups of a balance that covers them,
-- and their proportional shares of one that does not.
pub mod Within
use jupiter_faucet_suite.Common.{
  ℕ, ◌-◌, Bool, true, false, Option, none, some, List, [], ◌∷◌, map, ltb, leb, ◌==◌, ◌&&◌, not,
  is_none, if◌then◌else◌, sat_add,
}
use jupiter_faucet_suite.Ledger.{Principal}
use jupiter_faucet_suite.Relay.Allocation.{AllocationPlan, BurnPlan, SkipReason, burn_plans}
use jupiter_faucet_suite.Relay.Conversion.{
  ConversionEstimate, conversion_estimate_is_usable, topup_net_e8s,
}
use jupiter_faucet_suite.Relay.Proportional.{proportional_topup_gross_allocations, sat_sum}

abbrev pub bootstrap_cycles_per_e8 : ℕ
bootstrap_cycles_per_e8 = 100_000

abbrev bootstrap_estimate : ℕ → ConversionEstimate
bootstrap_estimate now = record { cycles_per_e8 = bootstrap_cycles_per_e8; timestamp_nanos = now }

abbrev pub estimate_or_bootstrap : ℕ → Option ConversionEstimate → ConversionEstimate
estimate_or_bootstrap now none = bootstrap_estimate now
estimate_or_bootstrap now (some e) =
    if conversion_estimate_is_usable e now then e else bootstrap_estimate now

abbrev pub skipped : SkipReason → BurnPlan → BurnPlan
skipped reason plan = record plan { skipped_reason = some reason }

abbrev with_net : ℕ → BurnPlan → ℕ → BurnPlan × ℕ
with_net fee plan net =
    if net == 0
    then (if plan.target_topup_cycles == 0 then skipped SkipReason.zero_burn plan else plan, 0)
    else if leb (sat_add net fee) fee
    then (skipped SkipReason.gross_share_does_not_exceed_fee plan, 0)
    else (plan, sat_add net fee)

-- A plan, marked if it wishes nothing, and its wish.
unfoldable pub desired_gross : ℕ → ConversionEstimate → BurnPlan → BurnPlan × ℕ
desired_gross fee estimate plan =
    with_net fee plan (topup_net_e8s plan.target_topup_cycles estimate)

unfoldable pub paid_in_full : ℕ → BurnPlan × ℕ → BurnPlan
paid_in_full fee (plan, gross) =
    if ltb 0 gross then record plan { gross_share_e8s = gross; amount_e8s = gross - fee } else plan

abbrev mark_unskipped : SkipReason → BurnPlan → BurnPlan
mark_unskipped reason plan = if is_none plan.skipped_reason then skipped reason plan else plan

-- A plan with its proportional share, and the reason of one that gets nothing.
unfoldable pub paid_in_part : ℕ → ℕ → BurnPlan → ℕ → BurnPlan
paid_in_part fee desired plan gross =
    let shared : BurnPlan =
      if ltb fee gross
      then record plan { gross_share_e8s = gross; amount_e8s = gross - fee }
      else mark_unskipped SkipReason.gross_share_does_not_exceed_fee plan in
    if ltb 0 desired && (shared.amount_e8s == 0)
    then mark_unskipped SkipReason.insufficient_balance_for_topups shared
    else shared

abbrev pub zip_paid : ℕ → List (BurnPlan × ℕ) → List ℕ → List BurnPlan
zip_paid fee [] shares = []
zip_paid fee (p ∷ plans) [] = []
zip_paid fee ((plan, desired) ∷ plans) (gross ∷ shares) =
    paid_in_part fee desired plan gross ∷ zip_paid fee plans shares

abbrev pub wish_of : BurnPlan × ℕ → ℕ
wish_of (plan, gross) = gross

abbrev pub allocate : ℕ → ℕ → List (BurnPlan × ℕ) → ℕ → AllocationPlan
allocate available fee plans total =
    if leb total available
    then record {
      topups = map (paid_in_full fee) plans;
      topup_phase_fully_funded = true;
      skipped_surplus_reason = none;
    }
    else record {
      topups =
          zip_paid fee plans
            (proportional_topup_gross_allocations (map wish_of plans) total available);
      topup_phase_fully_funded = false;
      skipped_surplus_reason = some SkipReason.insufficient_balance_for_topups;
    }

abbrev pub wished :
    List (Principal × ℕ)
    → (previous minted_since deficits : Principal → Option ℕ) → ℕ
    → Option ConversionEstimate
    → ℕ
    → List (BurnPlan × ℕ)
wished current previous minted_since deficits fee estimate now =
    map (desired_gross fee (estimate_or_bootstrap now estimate))
      (burn_plans previous minted_since deficits true current)

unfoldable pub build_allocation_plan :
    List (Principal × ℕ)
    → (previous minted_since deficits : Principal → Option ℕ) → ℕ
    → ℕ
    → Option ConversionEstimate
    → ℕ
    → AllocationPlan
build_allocation_plan current previous minted_since deficits available fee estimate now =
    let plans : List (BurnPlan × ℕ) =
      wished current previous minted_since deficits fee estimate now in
    allocate available fee plans (sat_sum 0 (map wish_of plans))
