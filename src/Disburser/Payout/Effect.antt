-- ===== src/Disburser/Payout/Effect.antt =====
-- What one message of a suspended call does to the nonce and the plan.
use jupiter_faucet_suite.Common.{
  ℕ, ◌≡◌, ◌⊎◌, inl, inr, refl, subst, true, Option, none, some, arith, ◌==◌, ◌&&◌, is_none, sat_add,
  Bool-cases,
}
use jupiter_faucet_suite.Ledger.{TransferReply, TransferError}
use jupiter_faucet_suite.Disburser.State.{State, PayoutPlan, PlannedTransfer, plan_eq, plan_eq_iff}
use jupiter_faucet_suite.Disburser.Guard.{is_current}
use jupiter_faucet_suite.Disburser.Payout.{
  Call, Phase, Reply, balance, fee, transfer, first_pending, send_next, loop_over, loop_head,
  sent_at, mark_sent, clear_plan, install_plan, build_plan, after_install,
  payout_generation_matches, should_clear_payout_plan_on_transfer_error, on_balance, on_fee,
  on_rejected, settle, on_transfer, resume,
}

pub data Effect (st st' : State) : Type 0 where
  kept : st'.payout_nonce ≡ st.payout_nonce → st'.payout_plan ≡ st.payout_plan → Effect st st'
  cleared : st'.payout_nonce ≡ st.payout_nonce → st'.payout_plan ≡ none → Effect st st'
  marked :
      (plan : PayoutPlan) (block i : ℕ)
      → st'.payout_nonce ≡ st.payout_nonce
      → st.payout_plan ≡ some plan
      → st'.payout_plan ≡ some (record plan { transfers = sent_at block i plan.transfers })
      → Effect st st'
  installed :
      (c : Call) (amount fee_e8s age : ℕ)
      → st.payout_plan ≡ none
      → st'.payout_nonce ≡ sat_add st.payout_nonce 1
      → ((st'.payout_plan ≡ some (build_plan c st.payout_nonce amount fee_e8s age))
          ⊎ (st'.payout_plan ≡ none))
      → Effect st st'

-- What the loop's head does: nothing, or it clears the plan.
abbrev Clears : State → State → Type 0
Clears st st' =
    (st'.payout_nonce ≡ st.payout_nonce)
    × ((st'.payout_plan ≡ st.payout_plan) ⊎ (st'.payout_plan ≡ none))

clear_plan-Clears : (plan : PayoutPlan) (st : State) → Clears st (clear_plan plan st)
unfolding clear_plan
clear_plan-Clears plan st = elim (Bool-cases (plan_eq st.payout_plan (some plan))) [
  | inl same ↦ rw same (refl, inr refl)
  | inr other ↦ rw other (refl, inl refl)
]

send_next-Clears :
    (plan : PayoutPlan) (o : Option (ℕ × PlannedTransfer)) (st : State)
    → Clears st (send_next plan o st).0
send_next-Clears plan none st = clear_plan-Clears plan st
send_next-Clears plan (some (i, t)) st = (refl, inl refl)

loop_over-Clears : (o : Option PayoutPlan) (st : State) → Clears st (loop_over o st).0
loop_over-Clears none st = (refl, inl refl)
loop_over-Clears (some plan) st = send_next-Clears plan (first_pending 0 plan.transfers) st

loop_head-Clears : (c : Call) (clock : ℕ) (st : State) → Clears st (loop_head c clock st).0
unfolding loop_head
loop_head-Clears c clock st = elim (Bool-cases (is_current c.guard clock st)) [
  | inl live ↦ rw live (loop_over-Clears st.payout_plan st)
  | inr stale ↦ rw stale (refl, inl refl)
]

Clears-Effect : (st st' : State) → Clears st st' → Effect st st'
Clears-Effect st st' (n, inl p) = kept n p
Clears-Effect st st' (n, inr p) = cleared n p

-- An effect that sets a plan, followed by the loop's head.
marked_then :
    (st st' : State) (plan : PayoutPlan) (block i : ℕ) (c : Call)
    → st.payout_plan ≡ some plan
    → Clears (mark_sent c block plan i st) st'
    → Effect st st'
unfolding mark_sent
marked_then st st' plan block i c there h =
    let same : plan_eq st.payout_plan (some plan) ≡ true =
      (plan_eq_iff st.payout_plan (some plan)).1 there in
    let h' = rw same at h in go h'
  where
    go :
        Clears
          (record st {
            payout_plan = some (record plan { transfers = sent_at block i plan.transfers });
            last_successful_transfer_ts = some c.now_secs;
          })
          st'
        → Effect st st'
    go (n, inl p) = marked plan block i n there p
    go (n, inr p) = cleared n p

module _ (c : Call) (clock : ℕ) (st : State) where
  marked_loop :
      (plan : PayoutPlan) (block i : ℕ)
      → st.payout_plan ≡ some plan
      → Effect st (loop_head c clock (mark_sent c block plan i st)).0
  marked_loop plan block i there =
      marked_then st _ plan block i c there (loop_head-Clears c clock (mark_sent c block plan i st))

  on_rejected-Effect :
      (error : TransferError) (plan : PayoutPlan) (i : ℕ)
      → st.payout_plan ≡ some plan
      → Effect st (on_rejected c clock error plan i st).0
  unfolding on_rejected
  on_rejected-Effect (TransferError.duplicate b) plan i there = marked_loop plan b i there
  on_rejected-Effect error plan i there =
      elim (Bool-cases
        (is_current c.guard clock st && should_clear_payout_plan_on_transfer_error error)) [
          | inl terminal ↦ rw terminal (Clears-Effect _ _ (clear_plan-Clears plan st))
          | inr retried ↦ rw retried (kept refl refl)
        ]

  settle-Effect :
      (reply : TransferReply) (plan : PayoutPlan) (i : ℕ)
      → st.payout_plan ≡ some plan
      → Effect st (settle c clock reply plan i st).0
  settle-Effect (TransferReply.block b) plan i there = marked_loop plan b i there
  settle-Effect (TransferReply.rejected error) plan i there = on_rejected-Effect error plan i there
  settle-Effect TransferReply.call_failed plan i there = kept refl refl

  on_transfer-Effect :
      (reply : TransferReply) (plan : PayoutPlan) (i : ℕ)
      → Effect st (on_transfer c clock reply plan i st).0
  unfolding on_transfer
  on_transfer-Effect reply plan i = elim (Bool-cases (plan_eq st.payout_plan (some plan))) [
    | inl same ↦ rw same (settle-Effect reply plan i ((plan_eq_iff _ _).0 same))
    | inr other ↦ rw other (kept refl refl)
  ]

  installed_then :
      (st' : State) (amount fee_e8s age : ℕ)
      → st.payout_plan ≡ none
      → Clears
          (record st {
            payout_nonce = sat_add st.payout_nonce 1;
            payout_plan = some (build_plan c st.payout_nonce amount fee_e8s age);
          })
          st'
      → Effect st st'
  installed_then st' amount fee_e8s age free (n, p) = installed c amount fee_e8s age free n p

  generation_facts :
      (nonce : ℕ)
      → is_current c.guard clock st && payout_generation_matches nonce none st ≡ true
      → (st.payout_nonce ≡ nonce) × (st.payout_plan ≡ none)
  unfolding payout_generation_matches
  generation_facts nonce h = ground (arith, plan_eq_iff st.payout_plan none)

  install_goes_in :
      (plan : PayoutPlan)
      → st.payout_plan ≡ none
      → install_plan st.payout_nonce plan st
        ≡ (record st { payout_nonce = sat_add st.payout_nonce 1; payout_plan = some plan }, true)
  unfolding install_plan
  install_goes_in plan free = ground arith

  install-Effect :
      (nonce amount fee_e8s age : ℕ)
      → st.payout_nonce ≡ nonce
      → st.payout_plan ≡ none
      → Effect st
          (after_install c clock (install_plan nonce (build_plan c nonce amount fee_e8s age) st)).0
  install-Effect nonce amount fee_e8s age e free =
      subst
        (λ n.
          Effect st
            (after_install c clock (install_plan n (build_plan c n amount fee_e8s age) st)).0)
        e
        (rw (install_goes_in (build_plan c st.payout_nonce amount fee_e8s age) free)
          (installed_then _ amount fee_e8s age free (loop_head-Clears c clock _)))

  on_fee-Effect :
      (r : Option ℕ) (nonce amount age : ℕ) → Effect st (on_fee c clock r nonce amount age st).0
  unfolding on_fee
  on_fee-Effect none nonce amount age = kept refl refl
  on_fee-Effect (some fee_e8s) nonce amount age =
      elim (Bool-cases (is_current c.guard clock st && payout_generation_matches nonce none st)) [
        | inr moved ↦ rw moved (kept refl refl)
        | inl same ↦
            let facts = generation_facts nonce same in
            rw same (install-Effect nonce amount fee_e8s age facts.0 facts.1)
      ]

  on_balance-Effect :
      (r : Option ℕ) (nonce : ℕ) (plan : Option PayoutPlan) (age : ℕ)
      → Effect st (on_balance c clock r nonce plan age st).0
  unfolding on_balance
  on_balance-Effect none nonce plan age = kept refl refl
  on_balance-Effect (some amount) nonce plan age =
      elim (Bool-cases (is_current c.guard clock st && payout_generation_matches nonce plan st)) [
        | inr moved ↦ rw moved (kept refl refl)
        | inl same ↦ rw same (elim (Bool-cases (amount == 0 && is_none plan)) [
          | inl nothing ↦ rw nothing (kept refl refl)
          | inr something ↦ rw something (elim (Bool-cases (is_none plan)) [
            | inl planless ↦ rw planless (kept refl refl)
            | inr planned ↦ rw planned (Clears-Effect _ _ (loop_head-Clears c clock st))
          ])
        ])
      ]

pub resume-Effect :
    (c : Call) (clock : ℕ) {phase : Phase} (r : Reply phase) (st : State)
    → Effect st (resume c clock r st).0
unfolding resume
resume-Effect c clock (balance {nonce} {plan} {age} r) st =
    on_balance-Effect c clock st r nonce plan age
resume-Effect c clock (fee {nonce} {amount} {age} r) st =
    on_fee-Effect c clock st r nonce amount age
resume-Effect c clock (transfer {plan} {i} {arg} r) st = on_transfer-Effect c clock st r plan i
