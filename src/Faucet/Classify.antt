-- ===== src/Faucet/Classify.antt =====
-- What the faucet makes of a commitment (canisters/faucet/src/logic.rs, 11 to 65 and 110 to 126).
use jupiter_faucet_suite.Common.{ℕ, Option, none, some, List, [], ◌∷◌, if◌then◌else◌, ltb}
use jupiter_faucet_suite.Ledger.{Principal}
use jupiter_faucet_suite.Memo.{MemoDirective, Principals}
use jupiter_faucet_suite.Memo.Directive.{parse_memo_directive}

pub record Commitment : Type 0 where
  pub amount_e8s : ℕ
  pub memo_bytes : Option (List ℕ)

pub data PayoutTarget : Type 0 where
  cycles_top_up : Principal → PayoutTarget
  raw_icp : Principal → Option (List ℕ) → List ℕ → PayoutTarget
  neuron_stake : ℕ → Option (List ℕ) → PayoutTarget

pub data CommitmentValidity : Type 0 where
  ignore_under_threshold ignore_bad_memo : CommitmentValidity
  valid : PayoutTarget → CommitmentValidity

abbrev pub target_from : Option MemoDirective → Option PayoutTarget
target_from none = none
target_from (some (MemoDirective.top_up canister_id)) =
    some (PayoutTarget.cycles_top_up canister_id)
target_from (some (MemoDirective.raw_icp canister_id sub memo)) =
    some (PayoutTarget.raw_icp canister_id sub memo)
target_from (some (MemoDirective.neuron_stake neuron_id memo)) =
    some (PayoutTarget.neuron_stake neuron_id memo)

unfoldable pub parse_payout_target_from_memo : Principals → List ℕ → Option PayoutTarget
parse_payout_target_from_memo ps memo = target_from (parse_memo_directive ps memo)

abbrev pub validity_of : Option PayoutTarget → CommitmentValidity
validity_of none = CommitmentValidity.ignore_bad_memo
validity_of (some target) = CommitmentValidity.valid target

abbrev pub with_memo : Principals → Option (List ℕ) → CommitmentValidity
with_memo ps none = CommitmentValidity.ignore_bad_memo
with_memo ps (some []) = CommitmentValidity.ignore_bad_memo
with_memo ps (some (b ∷ bs)) = validity_of (parse_payout_target_from_memo ps (b ∷ bs))

unfoldable pub classify_commitment : Principals → ℕ → Commitment → CommitmentValidity
classify_commitment ps min_tx commitment =
    if ltb commitment.amount_e8s min_tx
    then CommitmentValidity.ignore_under_threshold
    else with_memo ps commitment.memo_bytes
