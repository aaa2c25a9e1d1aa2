-- ===== src/Disburser/Payout/Stale.antt =====
-- What a call may still do once its guard is no longer current: record a transfer that was already
-- on its way, and nothing else.
use jupiter_faucet_suite.Common.{
  ◌∙◌, ℕ, zero, suc, ap, true, List, [], ◌∷◌, get_elem?, set, ◌≢◌, ◌≡◌, ◌⊎◌, inl, inr, refl, Bool,
  false, Option, none, some, arith, Bool-cases,
}
use jupiter_faucet_suite.Ledger.{TransferArg, TransferReply, TransferError}
use jupiter_faucet_suite.Disburser.State.{
  State, PayoutPlan, PlannedTransfer, TransferStatus, plan_eq, plan_eq_iff,
}
use jupiter_faucet_suite.Disburser.Guard.{is_current}
use jupiter_faucet_suite.Disburser.Payout.{
  Call, Phase, Reply, balance, fee, transfer, loop_head, mark_sent, sent_at, on_balance, on_fee,
  on_rejected, settle, on_transfer, resume,
}

-- The block at which a reply says that the transfer is: the transfer's own, or the duplicate's.
abbrev pub accepted_block : TransferReply → Option ℕ
accepted_block (TransferReply.block b) = some b
accepted_block (TransferReply.rejected error) = elim error [
  | TransferError.duplicate b ↦ some b
  | _ ↦ none
]
accepted_block TransferReply.call_failed = none

-- The list with its `i`-th transfer recorded as sent, if it has one.
abbrev pub with_sent : ℕ → ℕ → List PlannedTransfer → List PlannedTransfer
with_sent b i ts = elim (get_elem? ts i) [
  | none ↦ ts
  | some t ↦ set ts i (record t { status = TransferStatus.sent b })
]

sent_at_lem : (b i : ℕ) (ts : List PlannedTransfer) → sent_at b i ts ≡ with_sent b i ts
sent_at_lem b i [] = refl
sent_at_lem b zero (t ∷ ts) = refl
sent_at_lem b (suc i) (t ∷ ts) = ap (λ us. t ∷ us) (sent_at_lem b i ts) ∙ push (get_elem? ts i)
  where
    push :
        (o : Option PlannedTransfer)
        → (t ∷ (elim o [
          | none ↦ ts
          | some u ↦ set ts i (record u { status = TransferStatus.sent b })
        ]))
          ≡ elim o [
            | none ↦ t ∷ ts
            | some u ↦ t ∷ set ts i (record u { status = TransferStatus.sent b })
          ]
    push none = refl
    push (some u) = refl

-- The state with the `i`-th transfer of the plan recorded at the block, at the call's time.
abbrev pub recorded : Call → PayoutPlan → ℕ → ℕ → State → State
recorded c plan i b st = record st {
  payout_plan = some (record plan { transfers = with_sent b i plan.transfers });
  last_successful_transfer_ts = some c.now_secs;
}

-- What a reply to a call without a guard leaves of a state: only the reply to a transfer changes it,
-- if it names a block and the transfer's plan is still there, and then at that transfer and block.
abbrev pub AsAnswered : Call → {phase : Phase} → Reply phase → State → State → Type 0
AsAnswered c (balance r) st st' = st' ≡ st
AsAnswered c (fee r) st st' = st' ≡ st
AsAnswered c (transfer {plan} {i} {arg} r) st st' =
    ((st' ≡ st) × ((accepted_block r ≡ none) ⊎ (st.payout_plan ≢ some plan)))
    ⊎ ((b : ℕ) × (accepted_block r ≡ some b)
        × (st.payout_plan ≡ some plan)
        × (st' ≡ recorded c plan i b st))

-- The call has ended, with the state as answered.
abbrev pub OnlyRecords : Call → {phase : Phase} → Reply phase → State → State × Phase → Type 0
OnlyRecords c r st (st', phase) =
    ((done : Bool) × (phase ≡ Phase.finished done)) × AsAnswered c r st st'

module _ (c : Call) (clock : ℕ) (st : State) (stale : is_current c.guard clock st ≡ false) where
  -- Recording touches no field that the guard is checked against.
  mark_sent-stale :
      (block : ℕ) (plan : PayoutPlan) (i : ℕ)
      → is_current c.guard clock (mark_sent c block plan i st) ≡ false
  unfolding mark_sent is_current
  mark_sent-stale block plan i = ground arith

  mark_sent-recorded :
      (block : ℕ) (plan : PayoutPlan) (i : ℕ)
      → st.payout_plan ≡ some plan
      → mark_sent c block plan i st ≡ recorded c plan i block st
  unfolding mark_sent
  mark_sent-recorded block plan i there =
      let same : plan_eq st.payout_plan (some plan) ≡ true =
        (plan_eq_iff st.payout_plan (some plan)).1 there in
      rw (same, sent_at_lem block i plan.transfers) refl

  record_then_end :
      (reply : TransferReply) (block : ℕ) (plan : PayoutPlan) (i : ℕ) (arg : TransferArg)
      → accepted_block reply ≡ some block
      → st.payout_plan ≡ some plan
      → OnlyRecords c
          (transfer {plan = plan} {i = i} {arg = arg} reply)
          st
          (loop_head c clock (mark_sent c block plan i st))
  unfolding loop_head
  record_then_end reply block plan i arg answered there =
      rw (mark_sent-stale block plan i)
        ((false, refl), inr (block, answered, there, mark_sent-recorded block plan i there))

  on_rejected-OnlyRecords :
      (error : TransferError) (plan : PayoutPlan) (i : ℕ) (arg : TransferArg)
      → st.payout_plan ≡ some plan
      → OnlyRecords c
          (transfer {plan = plan} {i = i} {arg = arg} (TransferReply.rejected error))
          st
          (on_rejected c clock error plan i st)
  unfolding on_rejected
  on_rejected-OnlyRecords (TransferError.duplicate b) plan i arg there =
      record_then_end (TransferReply.rejected (TransferError.duplicate b)) b plan i arg refl there
  on_rejected-OnlyRecords error plan i arg there = rw stale ((false, refl), inl (refl, inl refl))

  settle-OnlyRecords :
      (reply : TransferReply) (plan : PayoutPlan) (i : ℕ) (arg : TransferArg)
      → st.payout_plan ≡ some plan
      → OnlyRecords c
          (transfer {plan = plan} {i = i} {arg = arg} reply)
          st
          (settle c clock reply plan i st)
  settle-OnlyRecords (TransferReply.block b) plan i arg there =
      record_then_end (TransferReply.block b) b plan i arg refl there
  settle-OnlyRecords (TransferReply.rejected error) plan i arg there =
      on_rejected-OnlyRecords error plan i arg there
  settle-OnlyRecords TransferReply.call_failed plan i arg there =
      ((false, refl), inl (refl, inl refl))

  on_transfer-OnlyRecords :
      (reply : TransferReply) (plan : PayoutPlan) (i : ℕ) (arg : TransferArg)
      → OnlyRecords c
          (transfer {plan = plan} {i = i} {arg = arg} reply)
          st
          (on_transfer c clock reply plan i st)
  unfolding on_transfer
  on_transfer-OnlyRecords reply plan i arg =
      elim (Bool-cases (plan_eq st.payout_plan (some plan))) [
        | inl same ↦
            rw same (
              settle-OnlyRecords reply plan i arg ((plan_eq_iff st.payout_plan (some plan)).0 same))
        | inr other ↦ rw other (
          (false, refl),
          inl (
            refl,
            inr (λ there. let z = (plan_eq_iff st.payout_plan (some plan)).1 there in absurd (cc)),
          ),
        )
      ]

-- A call whose guard is not current when a reply arrives ends with it: it installs no plan, clears
-- none and sends nothing. The reply to a balance or a fee changes nothing. The reply to a transfer
-- changes the state exactly if it names a block, as an acceptance or a duplicate, and the persisted
-- plan is still the one that the transfer was sent from: then that transfer is recorded in the plan
-- as sent at that block, with the time of the call as the last success, and all else stays.
pub stale_call-OnlyRecords :
    (c : Call) (clock : ℕ) {phase : Phase} (r : Reply phase) (st : State)
    → is_current c.guard clock st ≡ false
    → OnlyRecords c r st (resume c clock r st)
unfolding resume on_balance on_fee
stale_call-OnlyRecords c clock (balance none) st stale = ((false, refl), refl)
stale_call-OnlyRecords c clock (balance (some amount)) st stale = rw stale ((false, refl), refl)
stale_call-OnlyRecords c clock (fee none) st stale = ((false, refl), refl)
stale_call-OnlyRecords c clock (fee (some amount)) st stale = rw stale ((false, refl), refl)
stale_call-OnlyRecords c clock (transfer {plan} {i} {arg} r) st stale =
    on_transfer-OnlyRecords c clock st stale r plan i arg
