-- ===== src/Relay/Splitter.antt =====
-- `build_splitter_plan` of canisters/relay/src/logic.rs: a splitter's balance goes to the default
-- account and to subaccount 1. An error is its code.
pub mod Right
use jupiter_faucet_suite.Common.{
  ℕ, ◌-◌, ◌*◌, ◌/◌, Bool, Option, none, some, List, [], ◌∷◌, ◌++◌, ltb, leb, ◌==◌, ◌||◌,
  if◌then◌else◌, checked_add, u64_max, u128_max, replicate,
}

abbrev pub min_raw_icp_recipient_amount_e8s : ℕ
min_raw_icp_recipient_amount_e8s = 100_000_000

abbrev pub splitter_percentages : List ℕ
splitter_percentages = 10 ∷ 20 ∷ 30 ∷ 40 ∷ 50 ∷ 60 ∷ 70 ∷ 80 ∷ 90 ∷ []

pub data SplitterDestination : Type 0 where
  default_account subaccount_one : SplitterDestination

pub record SplitterLegPlan : Type 0 where
  pub destination : SplitterDestination
  pub gross_share_e8s : ℕ
  pub amount_e8s : ℕ
  pub fee_e8s : ℕ
  pub created_at_time_nanos : ℕ

pub record SplitterPlan : Type 0 where
  pub splitter_number : ℕ
  pub percentage_to_default : ℕ
  pub source_subaccount : List ℕ
  pub balance_start_e8s : ℕ
  pub default_leg : SplitterLegPlan
  pub subaccount_one_leg : SplitterLegPlan

pub data SplitterResult : Type 0 where
  planned : SplitterPlan → SplitterResult
  not_protocol_defined no_funds below_1_icp_net share_overflow share_underflow : SplitterResult
  share_does_not_exceed_fee created_at_overflow : SplitterResult

abbrev pub relay_numbered_subaccount : ℕ → List ℕ
relay_numbered_subaccount number = replicate 31 0 ++ number ∷ []

abbrev find : ℕ → List ℕ → Option ℕ
find number [] = none
find number (candidate ∷ rest) = if candidate == number then some candidate else find number rest

abbrev pub splitter_percentage : ℕ → Option ℕ
splitter_percentage number = find number splitter_percentages

-- `u128::checked_mul`, then the conversion of the hundredth part to u64.
abbrev pub default_gross : ℕ → ℕ → Option ℕ
default_gross balance percentage =
    if leb (balance * percentage) u128_max
    then (if leb (balance * percentage / 100) u64_max
        then some (balance * percentage / 100)
        else none)
    else none

module _ (number balance fee now : ℕ) where
  abbrev leg : SplitterDestination → ℕ → ℕ → SplitterLegPlan
  leg destination gross created_at = record {
    destination = destination;
    gross_share_e8s = gross;
    amount_e8s = gross - fee;
    fee_e8s = fee;
    created_at_time_nanos = created_at;
  }

  abbrev at_times : ℕ → ℕ → Option ℕ → SplitterResult
  at_times percentage gross none = SplitterResult.created_at_overflow
  at_times percentage gross (some later) = SplitterResult.planned (record {
    splitter_number = number;
    percentage_to_default = percentage;
    source_subaccount = relay_numbered_subaccount number;
    balance_start_e8s = balance;
    default_leg = leg SplitterDestination.default_account gross now;
    subaccount_one_leg = leg SplitterDestination.subaccount_one (balance - gross) later;
  })

  abbrev with_gross : ℕ → Option ℕ → SplitterResult
  with_gross percentage none = SplitterResult.share_overflow
  with_gross percentage (some gross) =
      if ltb balance gross
      then SplitterResult.share_underflow
      else if leb gross fee || leb (balance - gross) fee
      then SplitterResult.share_does_not_exceed_fee
      else at_times percentage gross (checked_add now 1)

  abbrev with_percentage : Option ℕ → SplitterResult
  with_percentage none = SplitterResult.not_protocol_defined
  with_percentage (some percentage) =
      if balance == 0
      then SplitterResult.no_funds
      else if leb balance fee || ltb (balance - fee) min_raw_icp_recipient_amount_e8s
      then SplitterResult.below_1_icp_net
      else with_gross percentage (default_gross balance percentage)

unfoldable pub build_splitter_plan : ℕ → ℕ → ℕ → ℕ → SplitterResult
build_splitter_plan number balance fee now =
    with_percentage number balance fee now (splitter_percentage number)
