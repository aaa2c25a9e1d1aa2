-- ===== src/Disburser/Payout.antt =====
-- `process_payout` of canisters/disburser/src/scheduler/payout_plan.rs, cut at its awaits. A phase
-- is what a suspended call waits for, with the locals that it keeps; each handler below runs from
-- one reply to the next await. The state it gets is the one at that time, which other calls may
-- have changed; `clock` is the canister's time in seconds in that message.
pub mod Fencing
pub mod Planless
mod Tests
pub mod Stale
pub mod Drain
pub mod Completion
pub mod Effect
pub mod Identity
use jupiter_faucet_suite.Common.{
  ℕ, suc, zero, ◌+◌, Bool, true, false, Option, none, some, List, [], ◌∷◌, map, ◌==◌, ◌&&◌, not,
  is_none, if◌then◌else◌, sat_add,
}
use jupiter_faucet_suite.Ledger.{TransferArg, TransferError, TransferReply}
use jupiter_faucet_suite.Lease.Timer.{TimerLeaseGuard}
use jupiter_faucet_suite.Disburser.State.{
  Config, State, PayoutPlan, PlannedTransfer, TransferStatus, plan_eq,
}
use jupiter_faucet_suite.Disburser.Guard.{is_current}
use jupiter_faucet_suite.Disburser.Plan.{Planned, plan_payout_transfers}

-- The arguments of one call of `process_payout`.
pub record Call : Type 0 where
  pub cfg : Config
  pub now_nanos : ℕ
  pub now_secs : ℕ
  pub guard : TimerLeaseGuard

pub data Phase : Type 0 where
  awaiting_balance : ℕ → Option PayoutPlan → ℕ → Phase
  awaiting_fee : ℕ → ℕ → ℕ → Phase
  awaiting_transfer : PayoutPlan → ℕ → TransferArg → Phase
  finished : Bool → Phase

unfoldable pub payout_generation_matches : ℕ → Option PayoutPlan → State → Bool
payout_generation_matches expected_nonce expected_plan st =
    st.payout_nonce == expected_nonce && plan_eq st.payout_plan expected_plan

unfoldable pub should_clear_payout_plan_on_transfer_error : TransferError → Bool
should_clear_payout_plan_on_transfer_error TransferError.temporarily_unavailable = false
should_clear_payout_plan_on_transfer_error (TransferError.duplicate b) = false
should_clear_payout_plan_on_transfer_error (TransferError.bad_fee f) = true
should_clear_payout_plan_on_transfer_error (TransferError.bad_burn f) = true
should_clear_payout_plan_on_transfer_error (TransferError.insufficient_funds b) = true
should_clear_payout_plan_on_transfer_error TransferError.too_old = true
should_clear_payout_plan_on_transfer_error (TransferError.created_in_future t) = true
should_clear_payout_plan_on_transfer_error TransferError.generic_error = true

abbrev pub to_transfer : Planned → PlannedTransfer
to_transfer p = record {
  to = p.to;
  gross_share_e8s = p.gross_share_e8s;
  amount_e8s = p.amount_e8s;
  created_at_time_nanos = p.created_at_time_nanos;
  memo = p.memo;
  status = TransferStatus.pending;
}

-- The plan that is installed, from the balance and the fee that the ledger reported.
unfoldable pub build_plan : Call → ℕ → ℕ → ℕ → ℕ → PayoutPlan
build_plan c payout_id balance fee prev_age = record {
  id = payout_id;
  fee_e8s = fee;
  created_at_base_nanos = c.now_nanos;
  transfers =
      map to_transfer
        (plan_payout_transfers payout_id c.now_nanos balance fee prev_age c.cfg.normal_recipient
          c.cfg.age_bonus_recipient_1 c.cfg.age_bonus_recipient_2).1;
}

-- The compare-and-set closure: the state, and whether the plan went in.
unfoldable pub install_plan : ℕ → PayoutPlan → State → State × Bool
install_plan expected_nonce plan st =
    if st.payout_nonce == expected_nonce && is_none st.payout_plan
    then (record st { payout_nonce = sat_add st.payout_nonce 1; payout_plan = some plan }, true)
    else (st, false)

-- The first pending transfer, with its position.
unfoldable pub first_pending : ℕ → List PlannedTransfer → Option (ℕ × PlannedTransfer)
first_pending i [] = none
first_pending i (t ∷ ts) =
    let rest = first_pending (i + 1) ts in
    elim t.status [ TransferStatus.pending ↦ some (i, t) | TransferStatus.sent b ↦ rest ]

abbrev pub transfer_arg : PayoutPlan → PlannedTransfer → TransferArg
transfer_arg plan t = record {
  from_subaccount = none;
  to = t.to;
  fee = some plan.fee_e8s;
  created_at_time = some t.created_at_time_nanos;
  memo = some t.memo;
  amount = t.amount_e8s;
}

-- `if st.payout_plan == Some(plan) { st.payout_plan = None }`.
unfoldable pub clear_plan : PayoutPlan → State → State
clear_plan plan st =
    if plan_eq st.payout_plan (some plan) then record st { payout_plan = none } else st

abbrev send_next : PayoutPlan → Option (ℕ × PlannedTransfer) → State → State × Phase
send_next plan none st = (clear_plan plan st, Phase.finished true)
send_next plan (some (i, t)) st = (st, Phase.awaiting_transfer plan i (transfer_arg plan t))

abbrev loop_over : Option PayoutPlan → State → State × Phase
loop_over none st = (st, Phase.finished true)
loop_over (some plan) st = send_next plan (first_pending 0 plan.transfers) st

-- The head of the execution loop, up to the next transfer's await.
unfoldable pub loop_head : Call → ℕ → State → State × Phase
loop_head c clock st =
    if is_current c.guard clock st then loop_over st.payout_plan st else (st, Phase.finished false)

-- Up to the await of the balance.
unfoldable pub start : Call → ℕ → State → State × Phase
start c clock st =
    if is_current c.guard clock st
    then (st, Phase.awaiting_balance st.payout_nonce st.payout_plan st.prev_age_seconds)
    else (st, Phase.finished false)

abbrev with_balance : Call → ℕ → ℕ → ℕ → Option PayoutPlan → ℕ → State → State × Phase
with_balance c clock balance nonce plan prev_age st =
    if not (is_current c.guard clock st && payout_generation_matches nonce plan st)
    then (st, Phase.finished false)
    else (if balance == 0 && is_none plan
        then (st, Phase.finished true)
        else if is_none plan
        then (st, Phase.awaiting_fee nonce balance prev_age)
        else loop_head c clock st)

-- The balance reply; `none` is a failed call.
unfoldable pub on_balance : Call → ℕ → Option ℕ → ℕ → Option PayoutPlan → ℕ → State → State × Phase
on_balance c clock none nonce plan prev_age st = (st, Phase.finished false)
on_balance c clock (some balance) nonce plan prev_age st =
    with_balance c clock balance nonce plan prev_age st

abbrev after_install : Call → ℕ → State × Bool → State × Phase
after_install c clock (st, installed) =
    if installed then loop_head c clock st else (st, Phase.finished false)

-- The fee reply.
unfoldable pub on_fee : Call → ℕ → Option ℕ → ℕ → ℕ → ℕ → State → State × Phase
on_fee c clock none nonce balance prev_age st = (st, Phase.finished false)
on_fee c clock (some fee) nonce balance prev_age st =
    if not (is_current c.guard clock st && payout_generation_matches nonce none st)
    then (st, Phase.finished false)
    else after_install c clock (install_plan nonce (build_plan c nonce balance fee prev_age) st)

abbrev pub sent_at : ℕ → ℕ → List PlannedTransfer → List PlannedTransfer
sent_at block i [] = []
sent_at block zero (t ∷ ts) = record t { status = TransferStatus.sent block } ∷ ts
sent_at block (suc i) (t ∷ ts) = t ∷ sent_at block i ts

-- The `i`-th transfer is recorded as sent, and so is the time, if the plan is still the claimed one.
unfoldable pub mark_sent : Call → ℕ → PayoutPlan → ℕ → State → State
mark_sent c block plan i st =
    if plan_eq st.payout_plan (some plan)
    then record st {
      payout_plan = some (record plan { transfers = sent_at block i plan.transfers });
      last_successful_transfer_ts = some c.now_secs;
    }
    else st

unfoldable pub on_rejected : Call → ℕ → TransferError → PayoutPlan → ℕ → State → State × Phase
on_rejected c clock (TransferError.duplicate duplicate_of) plan i st =
    loop_head c clock (mark_sent c duplicate_of plan i st)
on_rejected c clock error plan i st = (
  if is_current c.guard clock st && should_clear_payout_plan_on_transfer_error error
      then clear_plan plan st
      else st,
  Phase.finished false,
)

abbrev settle : Call → ℕ → TransferReply → PayoutPlan → ℕ → State → State × Phase
settle c clock (TransferReply.block b) plan i st = loop_head c clock (mark_sent c b plan i st)
settle c clock (TransferReply.rejected error) plan i st = on_rejected c clock error plan i st
settle c clock TransferReply.call_failed plan i st = (st, Phase.finished false)

-- The reply to a transfer of `plan`.
unfoldable pub on_transfer : Call → ℕ → TransferReply → PayoutPlan → ℕ → State → State × Phase
on_transfer c clock reply plan i st =
    if plan_eq st.payout_plan (some plan)
    then settle c clock reply plan i st
    else (st, Phase.finished false)

-- The reply that a phase waits for.
pub data Reply : Phase → Type 0 where
  balance :
      {nonce : ℕ} {plan : Option PayoutPlan} {age : ℕ}
      → Option ℕ
      → Reply (Phase.awaiting_balance nonce plan age)
  fee : {nonce amount age : ℕ} → Option ℕ → Reply (Phase.awaiting_fee nonce amount age)
  transfer :
      {plan : PayoutPlan} {i : ℕ} {arg : TransferArg}
      → TransferReply
      → Reply (Phase.awaiting_transfer plan i arg)

-- One message of a suspended call.
unfoldable pub resume : Call → ℕ → {phase : Phase} → Reply phase → State → State × Phase
resume c clock (balance {nonce} {plan} {age} r) st = on_balance c clock r nonce plan age st
resume c clock (fee {nonce} {amount} {age} r) st = on_fee c clock r nonce amount age st
resume c clock (transfer {plan} {i} {arg} r) st = on_transfer c clock r plan i st
