-- ===== src/Disburser/Payout/Drain.antt =====
-- The loop of a payout against a ledger that takes every transfer: with one message for each pending
-- transfer it sends them all and clears the plan.
use jupiter_faucet_suite.Common.{
  ℕ, zero, suc, ◌+◌, ◌≤◌, ◌<◌, ◌≡◌, ◌⊎◌, inl, inr, refl, ap, ◌∙◌, Bool, true, false, none, some,
  List, [], ◌∷◌, arith, ◌==◌, option_eq_iff, if◌then◌else◌, Option-cases, Bool-cases,
}
use jupiter_faucet_suite.Ledger.{TransferArg, TransferReply, TransferError}
use jupiter_faucet_suite.Disburser.State.{
  State, PayoutPlan, PlannedTransfer, TransferStatus, plan_eq_iff,
}
use jupiter_faucet_suite.Disburser.Guard.{is_current}
use jupiter_faucet_suite.Disburser.Payout.{
  Call, Phase, first_pending, transfer_arg, send_next, loop_over, loop_head, clear_plan, sent_at,
  mark_sent, on_transfer, on_rejected, on_balance, on_fee,
}

-- What the ledger answers to an undisturbed call.
pub record Answers : Type 0 where
  pub balance_e8s : ℕ
  pub fee_e8s : ℕ
  pub transfer : TransferArg → TransferReply

-- The messages of one undisturbed call, each at the time that `clock` gives for the number of
-- messages left.
unfoldable pub drive : ℕ → Answers → (ℕ → ℕ) → Call → State × Phase → State × Phase
drive zero ledger clock c r = r
drive (suc left) ledger clock c (st, Phase.awaiting_transfer plan i arg) =
    drive left ledger clock c (on_transfer c (clock left) (ledger.transfer arg) plan i st)
drive (suc left) ledger clock c (st, Phase.awaiting_balance n p a) =
    drive left ledger clock c (on_balance c (clock left) (some ledger.balance_e8s) n p a st)
drive (suc left) ledger clock c (st, Phase.awaiting_fee n b a) =
    drive left ledger clock c (on_fee c (clock left) (some ledger.fee_e8s) n b a st)
drive (suc left) ledger clock c (st, Phase.finished done) = (st, Phase.finished done)

abbrev is_pending : TransferStatus → ℕ
is_pending TransferStatus.pending = 1
is_pending (TransferStatus.sent b) = 0

abbrev pub pending_count : List PlannedTransfer → ℕ
pending_count [] = 0
pending_count (t ∷ ts) = is_pending t.status + pending_count ts

-- The ledger takes the transfer, now or earlier.
abbrev pub Accepts : TransferReply → Type 0
Accepts reply =
    (b : ℕ) × ((reply ≡ TransferReply.block b)
      ⊎ (reply ≡ TransferReply.rejected (TransferError.duplicate b)))

status-cases :
    (s : TransferStatus) → (s ≡ TransferStatus.pending) ⊎ ((b : ℕ) × (s ≡ TransferStatus.sent b))
status-cases TransferStatus.pending = inl refl
status-cases (TransferStatus.sent b) = inr (b, refl)

-- Marking the picked transfer leaves one pending transfer fewer.
sent_at-pending :
    (block k : ℕ) (ts : List PlannedTransfer) (i : ℕ) (t : PlannedTransfer)
    → first_pending k ts ≡ some (i, t)
    → (j : ℕ) × (i ≡ k + j) × (pending_count (sent_at block j ts) + 1 ≡ pending_count ts)
unfolding first_pending
sent_at-pending block k [] i t e = cc
sent_at-pending block k (u ∷ ts) i t e = elim (status-cases u.status) [
  | inl waits ↦ (0, ground arith, rw waits (omega arith))
  | inr (b, gone) ↦
      let found = sent_at-pending block (k + 1) ts i t (ground arith) in
      (suc found.0, omega (arith, found.1), rw gone (omega (arith, found.2)))
]

none_pending :
    (k : ℕ) (ts : List PlannedTransfer) → first_pending k ts ≡ none → pending_count ts ≡ 0
unfolding first_pending
none_pending k [] e = refl
none_pending k (u ∷ ts) e = elim (status-cases u.status) [
  | inl waits ↦ ground arith
  | inr (b, gone) ↦ rw gone (omega (arith, none_pending (k + 1) ts (ground arith)))
]

-- The state after the whole plan: no plan, and the time of the last success if anything was sent.
abbrev pub settled : Call → PayoutPlan → State → State
settled c plan st = record st {
  payout_plan = none;
  last_successful_transfer_ts =
      if pending_count plan.transfers == 0 then st.last_successful_transfer_ts else some c.now_secs;
}

module _ (c : Call) where
  abbrev pub lease : ℕ
  lease = c.guard.lease_expires_at_ts

  loop_head-send_next :
      (now : ℕ) (st : State) (plan : PayoutPlan)
      → c.guard.active ≡ true
      → now < lease
      → st.main_lock_state_ts ≡ some lease
      → st.payout_plan ≡ some plan
      → loop_head c now st ≡ send_next plan (first_pending 0 plan.transfers) st
  unfolding loop_head is_current
  loop_head-send_next now st plan active early held there =
      let live : is_current c.guard now st ≡ true =
        ground (arith, option_eq_iff st.main_lock_state_ts (some lease)) in
      rw live (ap (λ o. loop_over o st) there)

  abbrev marked : ℕ → PayoutPlan → ℕ → State → State
  marked block plan i st = record st {
    payout_plan = some (record plan { transfers = sent_at block i plan.transfers });
    last_successful_transfer_ts = some c.now_secs;
  }

  mark_sent-marked :
      (block : ℕ) (plan : PayoutPlan) (i : ℕ) (st : State)
      → st.payout_plan ≡ some plan
      → mark_sent c block plan i st ≡ marked block plan i st
  unfolding mark_sent
  mark_sent-marked block plan i st there = rw ((plan_eq_iff st.payout_plan (some plan)).1 there)

  accepted_step :
      (now : ℕ) (reply : TransferReply) (plan : PayoutPlan) (i : ℕ) (st : State)
      → st.payout_plan ≡ some plan
      → (a : Accepts reply)
      → on_transfer c now reply plan i st ≡ loop_head c now (marked a.0 plan i st)
  unfolding on_transfer on_rejected
  accepted_step now reply plan i st there (b, inl e) =
      rw ((plan_eq_iff st.payout_plan (some plan)).1 there, e, mark_sent-marked b plan i st there)
  accepted_step now reply plan i st there (b, inr e) =
      rw ((plan_eq_iff st.payout_plan (some plan)).1 there, e, mark_sent-marked b plan i st there)

  settled-marked :
      (block : ℕ) (plan : PayoutPlan) (i : ℕ) (st : State)
      → 0 < pending_count plan.transfers
      → settled c
          (record plan { transfers = sent_at block i plan.transfers })
          (marked block plan i st)
        ≡ settled c plan st
  settled-marked block plan i st some_left =
      let any : (pending_count plan.transfers == 0) ≡ false = ground arith in
      elim (Bool-cases (pending_count (sent_at block i plan.transfers) == 0)) [
        | inl last ↦ rw (last, any)
        | inr more ↦ rw (more, any)
      ]

  clear_settled :
      (plan : PayoutPlan) (st : State)
      → st.payout_plan ≡ some plan
      → pending_count plan.transfers ≡ 0
      → clear_plan plan st ≡ settled c plan st
  unfolding clear_plan
  clear_settled plan st there zero_left =
      rw ((plan_eq_iff st.payout_plan (some plan)).1 there, zero_left)

  module _ (ledger : Answers) (clock : ℕ → ℕ) where
    drive-finished :
        (left : ℕ) (st : State) (done : Bool)
        → drive left ledger clock c (st, Phase.finished done) ≡ (st, Phase.finished done)
    unfolding drive
    drive-finished zero st done = refl
    drive-finished (suc left) st done = refl

    module _ (accepts : (arg : TransferArg) → Accepts (ledger.transfer arg))
        (active : c.guard.active ≡ true) (early : (k : ℕ) → clock k < lease) where
      pub drain :
          (left now : ℕ) (st : State) (plan : PayoutPlan)
          → now < lease
          → st.main_lock_state_ts ≡ some lease
          → st.payout_plan ≡ some plan
          → pending_count plan.transfers ≤ left
          → drive left ledger clock c (loop_head c now st)
            ≡ (settled c plan st, Phase.finished true)
      unfolding drive
      drain zero now st plan before held there fuel =
          elim (Option-cases (first_pending 0 plan.transfers)) [
            | inl all_sent ↦
                rw (loop_head-send_next now st plan active before held there, all_sent)
                  (rw (clear_settled plan st there (none_pending 0 plan.transfers all_sent)))
            | inr ((i, t), next) ↦
                absurd (omega (arith, (sent_at-pending 0 0 plan.transfers i t next).2))
          ]
      drain (suc left) now st plan before held there fuel =
          elim (Option-cases (first_pending 0 plan.transfers)) [
            | inl all_sent ↦
                rw (loop_head-send_next now st plan active before held there, all_sent)
                  (rw (clear_settled plan st there (none_pending 0 plan.transfers all_sent)))
            | inr ((i, t), next) ↦
                let reply = accepts (transfer_arg plan t) in
                let fewer = sent_at-pending reply.0 0 plan.transfers i t next in
                let place : i ≡ fewer.0 = omega (arith, fewer.1) in
                let plan' : PayoutPlan = record plan {
                  transfers = sent_at reply.0 i plan.transfers;
                } in
                let st' = marked reply.0 plan i st in
                let left_over : pending_count plan'.transfers + 1 ≡ pending_count plan.transfers =
                  rw place fewer.2 in
                rw (loop_head-send_next now st plan active before held there, next)
                  (rw
                    (accepted_step (clock left) (ledger.transfer (transfer_arg plan t)) plan i st
                      there reply)
                    (drain left (clock left) st' plan' (early left) held refl (omega arith)
                      ∙ ap (λ s. (s, Phase.finished true))
                          (settled-marked reply.0 plan i st (omega arith))))
          ]
