-- ===== src/Disburser/Plan.antt =====
-- The planned transfers of one payout (canisters/disburser/src/logic.rs).
pub mod Memo
pub mod Bounds
use jupiter_faucet_suite.Common.{
  ℕ, ◌+◌, ◌-◌, List, [], ◌∷◌, ◌++◌, leb, if◌then◌else◌, sat_add, be_bytes,
}
use jupiter_faucet_suite.Ledger.{Account}
use jupiter_faucet_suite.Disburser.Split.{GrossSplit, compute_gross_split}

-- 16 bytes: the payout's id and the transfer's index, 8 bytes each.
unfoldable pub build_memo : ℕ → ℕ → List ℕ
build_memo payout_id transfer_index = be_bytes 8 payout_id ++ be_bytes 8 transfer_index

pub record Planned : Type 0 where
  pub to : Account
  pub gross_share_e8s : ℕ
  pub amount_e8s : ℕ
  pub memo : List ℕ
  pub created_at_time_nanos : ℕ

module _ (payout_id created_at_base_nanos fee_e8s : ℕ) where
  abbrev planned : Account → ℕ → ℕ → Planned
  planned to share idx = record {
    to = to;
    gross_share_e8s = share;
    amount_e8s = share - fee_e8s;
    memo = build_memo payout_id idx;
    created_at_time_nanos = sat_add created_at_base_nanos idx;
  }

  -- The closure `push`, over the vector and the index that it captures.
  unfoldable pub push : Account → ℕ → List Planned × ℕ → List Planned × ℕ
  push to share (out, idx) =
      if leb share fee_e8s then (out, idx) else (out ++ planned to share idx ∷ [], idx + 1)

-- The arguments in the order of the source: id, base time, balance, fee, age, recipients.
unfoldable pub plan_payout_transfers :
    ℕ → ℕ → ℕ → ℕ → ℕ → Account → Account → Account → GrossSplit × List Planned
unfolding push
plan_payout_transfers payout_id base_nanos balance fee age normal_to bonus1_to bonus2_to =
    let gross = compute_gross_split balance age in
    let pushed = push payout_id base_nanos fee in
    let base = pushed normal_to gross.base_e8s ([], 0) in
    let bonus1 = pushed bonus1_to gross.bonus_recipient_1_e8s base in
    let bonus2 = pushed bonus2_to gross.bonus_recipient_2_e8s bonus1 in (gross, bonus2.0)
