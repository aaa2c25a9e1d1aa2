-- ===== src/Relay/Tests.antt =====
-- The relay's plans at concrete balances.
use jupiter_faucet_suite.Common.{◌<◌, ◌⊎◌, u64_max, map, ◌+◌, ◌≤◌, ◌≡◌, refl, arith}
use jupiter_faucet_suite.Relay.Proportional.Rounds.{sum}
use jupiter_faucet_suite.Relay.Proportional.{
  round, rounds, sat_sum, floor_share, proportional_topup_gross_allocations,
}
use jupiter_faucet_suite.Relay.Topups.{build_allocation_plan, wished, wish_of, desired_gross}
use jupiter_faucet_suite.Relay.Proportional.Handout.{allocation-Spent, Spent}
use jupiter_faucet_suite.Relay.Topups.Within.{allocation_plan-Promised, Promised}
use jupiter_faucet_suite.Relay.Splitter.{SplitterResult, build_splitter_plan}
use jupiter_faucet_suite.Relay.Splitter.Right.{Right, splitter_plan-Right}
use jupiter_faucet_suite.Relay.Conversion.{
  ConversionEstimate, compute_burn, target_topup_cycles, topup_net_e8s, ceil_div,
}
use jupiter_faucet_suite.Relay.Conversion.Enough.{topup_is_enough}
use jupiter_faucet_suite.Common.{ℕ, Option, none, some, List, [], ◌∷◌}
use jupiter_faucet_suite.Ledger.{Principal}
use jupiter_faucet_suite.Relay.Allocation.{
  build_spend_all_cycles_plan, burn_plans, spend, gross_share,
}
use jupiter_faucet_suite.Relay.Allocation.Spending.{gross_of, spending_within_balance}
use jupiter_faucet_suite.Relay.Surplus.{ResolvedSurplusRecipient, SurplusTarget, build_surplus_plan}
use jupiter_faucet_suite.Relay.Surplus.Equal.{paid, surplus_within_balance}

splitter_plan-Right_example :
    Right 30 1_000_000_007 10_000 5 (build_splitter_plan 30 1_000_000_007 10_000 5)
splitter_plan-Right_example = splitter_plan-Right 30 1_000_000_007 10_000 5 (omega arith)

third_is_unknown :
    build_splitter_plan 33 1_000_000_007 10_000 5 ≡ SplitterResult.not_protocol_defined
unfolding build_splitter_plan
third_is_unknown = refl

abbrev estimate : ConversionEstimate
estimate = record { cycles_per_e8 = 30_000; timestamp_nanos = 0 }

topup_is_enough_example :
    ((400_000 ≤ 1_000_000 + 500) × (400_000 + compute_burn 1_000_000 500 400_000 ≡ 1_000_000 + 500))
    ⊎ ((1_000_000 + 500 < 400_000) × (compute_burn 1_000_000 500 400_000 ≡ 0))
unfolding target_topup_cycles ceil_div compute_burn
topup_is_enough_example =
    (topup_is_enough 1_000_000 500 400_000 estimate (omega arith) (omega arith) (omega arith)
      (omega arith)).0

net_of_burn : topup_net_e8s (target_topup_cycles (compute_burn 1_000_000 500 400_000)) estimate ≡ 21
unfolding topup_net_e8s target_topup_cycles compute_burn ceil_div
net_of_burn = refl

-- Two canisters that burnt 600 and 400 cycles.
abbrev samples : List (Principal × ℕ)
samples = (1, 400) ∷ (2, 600) ∷ []

abbrev before : Principal → Option ℕ
before p = some 1_000

abbrev nothing : Principal → Option ℕ
nothing p = none

spending_within_balance_example :
    gross_of (build_spend_all_cycles_plan samples before nothing nothing 500_000 10_000).topups
    ≤ 500_000
unfolding burn_plans compute_burn
spending_within_balance_example =
    (spending_within_balance samples before nothing nothing 500_000 10_000 (omega arith)).0

first_share :
    gross_of (build_spend_all_cycles_plan samples before nothing nothing 500_000 10_000).topups
    ≡ 500_000
unfolding build_spend_all_cycles_plan burn_plans compute_burn spend gross_share
first_share = refl

abbrev recipients : List ResolvedSurplusRecipient
recipients =
    record {
      target = SurplusTarget.canister 7;
      account = record { owner = 7; subaccount = 0 };
      memo = none;
    }
    ∷ []

surplus_within_balance_example :
    paid (build_surplus_plan recipients 300_000_000 10_000 (some estimate) 9).0 ≤ 300_000_000
surplus_within_balance_example =
    (surplus_within_balance recipients 300_000_000 10_000 9 (some estimate)).0

abbrev wishes : List ℕ
wishes = 3 ∷ 3 ∷ 3 ∷ []

allocation-Spent_example :
    Spent wishes 7 (proportional_topup_gross_allocations wishes (sum wishes) 7)
allocation-Spent_example =
    allocation-Spent wishes 7 (ground arith) (omega arith) (omega arith) (omega arith)

first_gets_the_rest : proportional_topup_gross_allocations wishes 9 7 ≡ 3 ∷ 2 ∷ 2 ∷ []
unfolding proportional_topup_gross_allocations floor_share sat_sum rounds round
first_gets_the_rest = refl

wishes_in_u64 : sum (map wish_of (wished samples before nothing nothing 10_000 none 0)) ≤ u64_max
unfolding desired_gross topup_net_e8s target_topup_cycles compute_burn ceil_div burn_plans
wishes_in_u64 = omega arith

allocation_plan-Promised_example :
    Promised 15_000 10_000
      (wished samples before nothing nothing 10_000 none 0)
      (build_allocation_plan samples before nothing nothing 15_000 10_000 none 0)
allocation_plan-Promised_example =
    allocation_plan-Promised samples before nothing nothing 15_000 10_000 0 none wishes_in_u64
      (omega arith)
