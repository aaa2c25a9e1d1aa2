-- ===== src/Disburser/Payout/Planless.antt =====
-- A payout that reports success leaves no plan behind
-- (canisters/disburser/src/scheduler/payout_plan.rs).
use jupiter_faucet_suite.Common.{
  ℕ, ◌≡◌, inl, inr, refl, Bool, true, false, Option, none, some, arith, ◌==◌, ◌&&◌, is_none,
  Bool-cases,
}
use jupiter_faucet_suite.Ledger.{TransferReply, TransferError}
use jupiter_faucet_suite.Disburser.State.{State, PayoutPlan, PlannedTransfer, plan_eq, plan_eq_iff}
use jupiter_faucet_suite.Disburser.Guard.{is_current}
use jupiter_faucet_suite.Disburser.Payout.{
  Call, Phase, Reply, balance, fee, transfer, first_pending, send_next, loop_over, loop_head,
  clear_plan, after_install, payout_generation_matches, on_balance, on_fee, on_rejected, settle,
  on_transfer, resume, start,
}

-- The guard is current and the plan is gone, if the payout has ended well.
abbrev pub Planless : Call → ℕ → State × Phase → Type 0
Planless c clock (st, Phase.finished true) = st.payout_plan ≡ none
Planless c clock (st, phase) = Unit

module _ (c : Call) (clock : ℕ) where
  send_next-Planless :
      (plan : PayoutPlan) (st : State) (o : Option (ℕ × PlannedTransfer))
      → st.payout_plan ≡ some plan
      → Planless c clock (send_next plan o st)
  unfolding clear_plan
  send_next-Planless plan st none there = rw ((plan_eq_iff st.payout_plan (some plan)).1 there) refl
  send_next-Planless plan st (some (i, t)) there = tt

  loop_over-Planless :
      (o : Option PayoutPlan) (st : State) → st.payout_plan ≡ o → Planless c clock (loop_over o st)
  loop_over-Planless none st e = e
  loop_over-Planless (some plan) st e =
      send_next-Planless plan st (first_pending 0 plan.transfers) e

  loop_head-Planless : (st : State) → Planless c clock (loop_head c clock st)
  unfolding loop_head
  loop_head-Planless st = elim (Bool-cases (is_current c.guard clock st)) [
    | inr stale ↦ rw stale tt
    | inl live ↦ rw live (loop_over-Planless st.payout_plan st refl)
  ]

  after_install-Planless : (r : State × Bool) → Planless c clock (after_install c clock r)
  after_install-Planless (st, true) = loop_head-Planless st
  after_install-Planless (st, false) = tt

  matched_none :
      (nonce : ℕ) (plan : Option PayoutPlan) (amount : ℕ) (st : State)
      → (is_current c.guard clock st && payout_generation_matches nonce plan st) ≡ true
      → (amount == 0 && is_none plan) ≡ true
      → st.payout_plan ≡ none
  unfolding payout_generation_matches
  matched_none nonce none amount st same nothing =
      (plan_eq_iff st.payout_plan none).0 (ground arith)
  matched_none nonce (some plan) amount st same nothing = ground arith

  on_balance-Planless :
      (r : Option ℕ) (nonce : ℕ) (plan : Option PayoutPlan) (age : ℕ) (st : State)
      → Planless c clock (on_balance c clock r nonce plan age st)
  unfolding on_balance
  on_balance-Planless none nonce plan age st = tt
  on_balance-Planless (some amount) nonce plan age st =
      elim (Bool-cases (is_current c.guard clock st && payout_generation_matches nonce plan st)) [
        | inr moved ↦ rw moved tt
        | inl same ↦ rw same (elim (Bool-cases (amount == 0 && is_none plan)) [
          | inl nothing ↦ rw nothing (matched_none nonce plan amount st same nothing)
          | inr something ↦ rw something (elim (Bool-cases (is_none plan)) [
            | inl planless ↦ rw planless tt
            | inr planned ↦ rw planned (loop_head-Planless st)
          ])
        ])
      ]

  on_fee-Planless :
      (r : Option ℕ) (nonce amount age : ℕ) (st : State)
      → Planless c clock (on_fee c clock r nonce amount age st)
  unfolding on_fee
  on_fee-Planless none nonce amount age st = tt
  on_fee-Planless (some fee_e8s) nonce amount age st =
      elim (Bool-cases (is_current c.guard clock st && payout_generation_matches nonce none st)) [
        | inr moved ↦ rw moved tt
        | inl same ↦ rw same (after_install-Planless _)
      ]

  on_rejected-Planless :
      (error : TransferError) (plan : PayoutPlan) (i : ℕ) (st : State)
      → Planless c clock (on_rejected c clock error plan i st)
  unfolding on_rejected
  on_rejected-Planless (TransferError.duplicate b) plan i st = loop_head-Planless _
  on_rejected-Planless error plan i st = tt

  settle-Planless :
      (reply : TransferReply) (plan : PayoutPlan) (i : ℕ) (st : State)
      → Planless c clock (settle c clock reply plan i st)
  settle-Planless (TransferReply.block b) plan i st = loop_head-Planless _
  settle-Planless (TransferReply.rejected error) plan i st = on_rejected-Planless error plan i st
  settle-Planless TransferReply.call_failed plan i st = tt

  on_transfer-Planless :
      (reply : TransferReply) (plan : PayoutPlan) (i : ℕ) (st : State)
      → Planless c clock (on_transfer c clock reply plan i st)
  unfolding on_transfer
  on_transfer-Planless reply plan i st = elim (Bool-cases (plan_eq st.payout_plan (some plan))) [
    | inl same ↦ rw same (settle-Planless reply plan i st)
    | inr other ↦ rw other tt
  ]

  pub start-Planless : (st : State) → Planless c clock (start c clock st)
  unfolding start
  start-Planless st = elim (Bool-cases (is_current c.guard clock st)) [
    | inl live ↦ rw live tt
    | inr stale ↦ rw stale tt
  ]

-- A payout message that ends the payout well leaves no plan.
pub resume-Planless :
    (c : Call) (clock : ℕ) {phase : Phase} (r : Reply phase) (st : State)
    → Planless c clock (resume c clock r st)
unfolding resume
resume-Planless c clock (balance {nonce} {plan} {age} r) st =
    on_balance-Planless c clock r nonce plan age st
resume-Planless c clock (fee {nonce} {amount} {age} r) st =
    on_fee-Planless c clock r nonce amount age st
resume-Planless c clock (transfer {plan} {i} {arg} r) st = on_transfer-Planless c clock r plan i st
