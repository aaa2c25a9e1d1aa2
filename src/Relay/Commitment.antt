-- ===== src/Relay/Commitment.antt =====
-- The relay's commitment to the faucet (canisters/relay/src/logic.rs, 226 to 268): what subaccount 1
-- stakes, with a memo that names the relay. `text` is the text of the relay's principal.
pub mod Accepted
pub mod Directive
pub mod Readable
mod Tests
use jupiter_faucet_suite.Common.{
  ◌||◌, ℕ, ◌-◌, Option, none, some, List, [], ◌∷◌, ◌++◌, ◌==◌, not, if◌then◌else◌, leb, ltb, length,
}
use jupiter_faucet_suite.Ledger.{Account, Principal}
use jupiter_faucet_suite.Memo.{all_bytes}
use jupiter_faucet_suite.Relay.Splitter.{min_raw_icp_recipient_amount_e8s}

pub record FaucetCommitmentPlan : Type 0 where
  pub source_account : Account
  pub destination_account : Account
  pub balance_start_e8s : ℕ
  pub fee_e8s : ℕ
  pub amount_e8s : ℕ
  pub memo : List ℕ

pub data PlanOrSkip : Type 0 where
  planned : FaucetCommitmentPlan → PlanOrSkip
  no_funds below_1_icp_net memo_invalid : PlanOrSkip

-- `replace('-', "")`.
unfoldable pub without_dashes : List ℕ → List ℕ
without_dashes [] = []
without_dashes (b ∷ bs) = let rest = without_dashes bs in if b == 45 then rest else b ∷ rest

-- ".Relay"
abbrev pub relay_suffix : List ℕ
relay_suffix = 46 ∷ 82 ∷ 101 ∷ 108 ∷ 97 ∷ 121 ∷ []

-- `none` is an error.
unfoldable pub relay_faucet_commitment_memo : List ℕ → Option (List ℕ)
relay_faucet_commitment_memo text =
    let memo : List ℕ = without_dashes text ++ relay_suffix in
    if not (all_bytes (λ b. leb b 127) memo)
    then none
    else if ltb 32 (length memo)
    then none
    else some memo

abbrev pub committed : Account → Account → ℕ → ℕ → Option (List ℕ) → PlanOrSkip
committed source destination balance fee none = PlanOrSkip.memo_invalid
committed source destination balance fee (some memo) = PlanOrSkip.planned (record {
  source_account = source;
  destination_account = destination;
  balance_start_e8s = balance;
  fee_e8s = fee;
  amount_e8s = balance - fee;
  memo = memo;
})

unfoldable pub build_faucet_commitment_plan :
    Principal → List ℕ → Principal → ℕ → ℕ → ℕ → PlanOrSkip
build_faucet_commitment_plan relay_id text governance_id staking_subaccount balance fee =
    if balance == 0
    then PlanOrSkip.no_funds
    else if leb balance fee || ltb (balance - fee) min_raw_icp_recipient_amount_e8s
    then PlanOrSkip.below_1_icp_net
    else committed (record { owner = relay_id; subaccount = 1 })
        (record { owner = governance_id; subaccount = staking_subaccount }) balance fee
        (relay_faucet_commitment_memo text)
