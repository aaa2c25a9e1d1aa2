-- ===== src/Relay/Surplus.antt =====
-- The equal shares of a surplus (canisters/relay/src/logic.rs). A memo is its bytes.
pub mod Equal
use jupiter_faucet_suite.Common.{
  ℕ, ◌-◌, ◌/◌, ◌%◌, Bool, true, false, Option, none, some, List, [], ◌∷◌, map, ltb, leb, ◌==◌,
  length, if◌then◌else◌,
}
use jupiter_faucet_suite.Ledger.{Principal, Account}
use jupiter_faucet_suite.Relay.Splitter.{min_raw_icp_recipient_amount_e8s}
use jupiter_faucet_suite.Relay.Conversion.{ConversionEstimate, conversion_estimate_is_usable}

pub data SurplusTarget : Type 0 where
  canister neuron : ℕ → SurplusTarget

pub record ResolvedSurplusRecipient : Type 0 where
  pub target : SurplusTarget
  pub account : Account
  pub memo : Option (List ℕ)

pub data SurplusSkip : Type 0 where
  gross_share_does_not_exceed_fee raw_icp_share_below_1_icp : SurplusSkip
  missing_conversion_estimate no_surplus_recipients no_surplus : SurplusSkip

pub record SurplusTransferSample : Type 0 where
  pub target : SurplusTarget
  pub account : Account
  pub gross_share_e8s : ℕ
  pub amount_e8s : ℕ
  pub memo_len : Option ℕ
  pub skipped_reason : Option SurplusSkip

abbrev pub amount_and_reason : ℕ → ℕ → ℕ × Option SurplusSkip
amount_and_reason gross fee =
    if leb gross fee
    then (0, some SurplusSkip.gross_share_does_not_exceed_fee)
    else if ltb (gross - fee) min_raw_icp_recipient_amount_e8s
    then (0, some SurplusSkip.raw_icp_share_below_1_icp)
    else (gross - fee, none)

abbrev len_u32 : Option (List ℕ) → Option ℕ
len_u32 none = none
len_u32 (some memo) = some (length memo % 4_294_967_296)

abbrev pub sample : ℕ → ℕ × Option SurplusSkip → ResolvedSurplusRecipient → SurplusTransferSample
sample gross (amount_e8s, reason) r = record {
  target = r.target;
  account = r.account;
  gross_share_e8s = gross;
  amount_e8s = amount_e8s;
  memo_len = len_u32 r.memo;
  skipped_reason = reason;
}

unfoldable pub allocate_equal_surplus_shares :
    List ResolvedSurplusRecipient → ℕ → ℕ → List SurplusTransferSample
allocate_equal_surplus_shares [] available fee = []
allocate_equal_surplus_shares (r ∷ rs) available fee =
    let gross : ℕ = available / length (r ∷ rs) in
    map (sample gross (amount_and_reason gross fee)) (r ∷ rs)

abbrev all_unpaid : List SurplusTransferSample → Bool
all_unpaid [] = true
all_unpaid (s ∷ ss) = if s.amount_e8s == 0 then all_unpaid ss else false

abbrev or_first : Option SurplusSkip → Option SurplusSkip → Option SurplusSkip
or_first none rest = rest
or_first (some reason) rest = some reason

-- The first reason, or that the share does not exceed the fee.
abbrev first_reason : List SurplusTransferSample → Option SurplusSkip
first_reason [] = some SurplusSkip.gross_share_does_not_exceed_fee
first_reason (s ∷ ss) = or_first s.skipped_reason (first_reason ss)

abbrev pub is_usable : Option ConversionEstimate → ℕ → Bool
is_usable none now_nanos = false
is_usable (some estimate) now_nanos = conversion_estimate_is_usable estimate now_nanos

abbrev pub reason_for :
    List ResolvedSurplusRecipient → ℕ → List SurplusTransferSample → Option SurplusSkip
reason_for [] available surplus = some SurplusSkip.no_surplus_recipients
reason_for (r ∷ rs) available surplus =
    if available == 0
    then some SurplusSkip.no_surplus
    else if all_unpaid surplus
    then first_reason surplus
    else none

unfoldable pub build_surplus_plan :
    List ResolvedSurplusRecipient
    → ℕ
    → ℕ
    → Option ConversionEstimate
    → ℕ
    → List SurplusTransferSample × ℕ × Option SurplusSkip
unfolding allocate_equal_surplus_shares
build_surplus_plan recipients available fee estimate now_nanos =
    if is_usable estimate now_nanos
    then (let surplus : List SurplusTransferSample =
          allocate_equal_surplus_shares recipients available fee in
        (surplus, available, reason_for recipients available surplus))
    else ([], 0, some SurplusSkip.missing_conversion_estimate)
