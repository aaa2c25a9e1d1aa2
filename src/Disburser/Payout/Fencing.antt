-- ===== src/Disburser/Payout/Fencing.antt =====
-- A transfer leaves only under a current guard and after its plan was persisted, and a reply that
-- comes back to a plan no longer there changes nothing.
use jupiter_faucet_suite.Common.{
  ℕ, ◌≡◌, ◌≢◌, inl, inr, refl, Bool, true, false, Option, none, some, arith, ◌==◌, ◌&&◌, is_none,
  Bool-cases,
}
use jupiter_faucet_suite.Ledger.{TransferReply, TransferError}
use jupiter_faucet_suite.Disburser.State.{State, PayoutPlan, PlannedTransfer, plan_eq, plan_eq_iff}
use jupiter_faucet_suite.Disburser.Guard.{is_current}
use jupiter_faucet_suite.Disburser.Payout.{
  Call, Phase, Reply, balance, fee, transfer, first_pending, transfer_arg, send_next, loop_over,
  loop_head, after_install, payout_generation_matches, on_balance, on_fee, on_rejected, settle,
  on_transfer, resume,
}

-- A call that now waits for a transfer holds the lock, its plan is the persisted one, and what it
-- sent is the plan's first pending transfer.
abbrev pub IsFenced : Call → ℕ → State × Phase → Type 0
IsFenced c clock (st, Phase.awaiting_transfer plan i arg) =
    (is_current c.guard clock st ≡ true)
    × (st.payout_plan ≡ some plan)
    × ((t : PlannedTransfer) × (first_pending 0 plan.transfers ≡ some (i, t))
        × (arg ≡ transfer_arg plan t))
IsFenced c clock (st, Phase.awaiting_balance n p a) = Unit
IsFenced c clock (st, Phase.awaiting_fee n b a) = Unit
IsFenced c clock (st, Phase.finished b) = Unit

module _ (c : Call) (clock : ℕ) where
  send_next-IsFenced :
      (plan : PayoutPlan) (st : State) (o : Option (ℕ × PlannedTransfer))
      → is_current c.guard clock st ≡ true
      → st.payout_plan ≡ some plan
      → first_pending 0 plan.transfers ≡ o
      → IsFenced c clock (send_next plan o st)
  send_next-IsFenced plan st none live there e = tt
  send_next-IsFenced plan st (some (i, t)) live there e = (live, there, (t, e, refl))

  loop_over-IsFenced :
      (o : Option PayoutPlan) (st : State)
      → is_current c.guard clock st ≡ true
      → st.payout_plan ≡ o
      → IsFenced c clock (loop_over o st)
  loop_over-IsFenced none st live e = tt
  loop_over-IsFenced (some plan) st live e =
      send_next-IsFenced plan st (first_pending 0 plan.transfers) live e refl

  loop_head-IsFenced : (st : State) → IsFenced c clock (loop_head c clock st)
  unfolding loop_head
  loop_head-IsFenced st = elim (Bool-cases (is_current c.guard clock st)) [
    | inr stale ↦ rw stale tt
    | inl live ↦ rw live (loop_over-IsFenced st.payout_plan st live refl)
  ]

  after_install-IsFenced : (r : State × Bool) → IsFenced c clock (after_install c clock r)
  after_install-IsFenced (st, true) = loop_head-IsFenced st
  after_install-IsFenced (st, false) = tt

  on_balance-IsFenced :
      (r : Option ℕ) (nonce : ℕ) (plan : Option PayoutPlan) (age : ℕ) (st : State)
      → IsFenced c clock (on_balance c clock r nonce plan age st)
  unfolding on_balance
  on_balance-IsFenced none nonce plan age st = tt
  on_balance-IsFenced (some amount) nonce plan age st =
      elim (Bool-cases (is_current c.guard clock st && payout_generation_matches nonce plan st)) [
        | inr moved ↦ rw moved tt
        | inl same ↦ rw same (elim (Bool-cases (amount == 0 && is_none plan)) [
          | inl nothing ↦ rw nothing tt
          | inr something ↦ rw something (elim (Bool-cases (is_none plan)) [
            | inl planless ↦ rw planless tt
            | inr planned ↦ rw planned (loop_head-IsFenced st)
          ])
        ])
      ]

  on_fee-IsFenced :
      (r : Option ℕ) (nonce amount age : ℕ) (st : State)
      → IsFenced c clock (on_fee c clock r nonce amount age st)
  unfolding on_fee
  on_fee-IsFenced none nonce amount age st = tt
  on_fee-IsFenced (some fee_e8s) nonce amount age st =
      elim (Bool-cases (is_current c.guard clock st && payout_generation_matches nonce none st)) [
        | inr moved ↦ rw moved tt
        | inl same ↦ rw same (after_install-IsFenced _)
      ]

  on_rejected-IsFenced :
      (error : TransferError) (plan : PayoutPlan) (i : ℕ) (st : State)
      → IsFenced c clock (on_rejected c clock error plan i st)
  unfolding on_rejected
  on_rejected-IsFenced (TransferError.duplicate b) plan i st = loop_head-IsFenced _
  on_rejected-IsFenced error plan i st = tt

  settle-IsFenced :
      (reply : TransferReply) (plan : PayoutPlan) (i : ℕ) (st : State)
      → IsFenced c clock (settle c clock reply plan i st)
  settle-IsFenced (TransferReply.block b) plan i st = loop_head-IsFenced _
  settle-IsFenced (TransferReply.rejected error) plan i st = on_rejected-IsFenced error plan i st
  settle-IsFenced TransferReply.call_failed plan i st = tt

  on_transfer-IsFenced :
      (reply : TransferReply) (plan : PayoutPlan) (i : ℕ) (st : State)
      → IsFenced c clock (on_transfer c clock reply plan i st)
  unfolding on_transfer
  on_transfer-IsFenced reply plan i st = elim (Bool-cases (plan_eq st.payout_plan (some plan))) [
    | inl same ↦ rw same (settle-IsFenced reply plan i st)
    | inr other ↦ rw other tt
  ]

-- Whatever reply a suspended call gets, in whatever state: if it then waits for a transfer, its
-- guard is current, the plan is the one in the persisted state, and the argument is made from that
-- plan's first pending transfer.
pub resume-IsFenced :
    (c : Call) (clock : ℕ) {phase : Phase} (r : Reply phase) (st : State)
    → IsFenced c clock (resume c clock r st)
unfolding resume
resume-IsFenced c clock (balance {nonce} {plan} {age} r) st =
    on_balance-IsFenced c clock r nonce plan age st
resume-IsFenced c clock (fee {nonce} {amount} {age} r) st =
    on_fee-IsFenced c clock r nonce amount age st
resume-IsFenced c clock (transfer {plan} {i} {arg} r) st = on_transfer-IsFenced c clock r plan i st

-- A reply to a transfer of a plan that is no longer the persisted one changes nothing and ends the
-- call, whoever replaced or cleared the plan in between.
pub late_transfer_silent :
    (c : Call) (clock : ℕ) (reply : TransferReply) (plan : PayoutPlan) (i : ℕ) (st : State)
    → st.payout_plan ≢ some plan
    → on_transfer c clock reply plan i st ≡ (st, Phase.finished false)
unfolding on_transfer
late_transfer_silent c clock reply plan i st h =
    ground (arith, plan_eq_iff st.payout_plan (some plan))
