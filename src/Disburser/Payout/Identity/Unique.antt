-- ===== src/Disburser/Payout/Identity/Unique.antt =====
-- One memo, one transfer: over every history, whatever the ledger replied and whoever ran between.
use jupiter_faucet_suite.Common.{
  ℕ, ◌+◌, ◌≤◌, ◌<◌, ◌≡◌, ap, ◌∙◌, sym, Option, none, some, List, [], ◌∷◌, arith, All, u64_max,
  some-injective,
}
use jupiter_faucet_suite.Ledger.{TransferArg}
use jupiter_faucet_suite.Disburser.State.{State, PayoutPlan}
use jupiter_faucet_suite.Disburser.Plan.Memo.{memo_injective}
use jupiter_faucet_suite.Disburser.Payout.{Call, Phase, resume}
use jupiter_faucet_suite.Disburser.Payout.Effect.{Effect, resume-Effect}
use jupiter_faucet_suite.Disburser.Payout.Fencing.{IsFenced, resume-IsFenced}
use jupiter_faucet_suite.Disburser.Payout.Identity.{
  World, Event, resumes, others, dispatched_by, installed_by, observe, step, run,
}
use jupiter_faucet_suite.Disburser.Payout.Identity.Invariant.{
  Known, Current, PlansInv, In-installed_by, Effect-PlansInv, Effect-nonce_le, Effect-nonce_bound,
}
use jupiter_faucet_suite.Disburser.Payout.Identity.Plans.{
  reset, IsNumbered, In, In-All, Descending, Descending-lt, same_id_same_plan, Numbered-get,
  first_pending-get,
}

record Inv (w : World) : Type 0 where
  plans : PlansInv w.st.payout_nonce w.st.payout_plan w.installed
  args : All (Known w.installed) w.dispatched

Known-grows :
    (o o' : Option PayoutPlan) (ps : List PayoutPlan) (args : List TransferArg)
    → All (Known ps) args
    → All (Known (installed_by o o' ps)) args
Known-grows o o' ps [] k = tt
Known-grows o o' ps (arg ∷ args) ((p, j, t, m, g, e), k) =
    ((p, j, t, In-installed_by o o' ps p m, g, e), Known-grows o o' ps args k)

-- A fenced transfer is one of the persisted plan, which was installed.
fenced_args :
    (c : Call) (clock : ℕ) (st' : State) (phase : Phase) (ps : List PayoutPlan)
    (args : List TransferArg)
    → IsFenced c clock (st', phase)
    → Current st'.payout_plan ps
    → All (Known ps) args
    → All (Known ps) (dispatched_by phase args)
fenced_args c clock st' (Phase.awaiting_transfer plan i arg) ps args (live, there, (t, next, e)) cur
      k =
    let found = first_pending-get 0 plan.transfers i t next in
    let known : In (reset plan) ps = rw there at cur in
    ((reset plan, found.0, _, known, found.1, e), k)
fenced_args c clock st' (Phase.awaiting_balance n p a) ps args f cur k = k
fenced_args c clock st' (Phase.awaiting_fee n b a) ps args f cur k = k
fenced_args c clock st' (Phase.finished done) ps args f cur k = k

observe-Inv :
    (w : World) (c : Call) (clock : ℕ) (r : State × Phase)
    → w.st.payout_nonce < u64_max
    → Effect w.st r.0
    → IsFenced c clock r
    → Inv w
    → Inv (observe w r)
observe-Inv w c clock (st', phase) below effect fenced v =
    let plans' = Effect-PlansInv w.st st' w.installed below effect v.plans in
    record {
      plans = plans';
      args =
          fenced_args c clock st' phase _ w.dispatched fenced plans'.current
            (Known-grows w.st.payout_plan st'.payout_plan w.installed w.dispatched v.args);
    }

step-Inv : (w : World) (e : Event) → w.st.payout_nonce < u64_max → Inv w → Inv (step w e)
unfolding step
step-Inv w (resumes c clock phase r) below v =
    observe-Inv w c clock (resume c clock r w.st) below (resume-Effect c clock r w.st)
      (resume-IsFenced c clock r w.st) v
step-Inv w (others st) below v = record { plans = v.plans; args = v.args }

step-nonce :
    (w : World) (e : Event)
    → w.st.payout_nonce ≤ u64_max
    → (w.st.payout_nonce ≤ (step w e).st.payout_nonce) × ((step w e).st.payout_nonce ≤ u64_max)
unfolding step
step-nonce w (resumes c clock phase r) h = (
  Effect-nonce_le w.st _ (resume-Effect c clock r w.st) h,
  Effect-nonce_bound w.st _ (resume-Effect c clock r w.st) h,
)
step-nonce w (others st) h = (omega arith, h)

run-nonce :
    (w : World) (es : List Event)
    → w.st.payout_nonce ≤ u64_max
    → w.st.payout_nonce ≤ (run w es).st.payout_nonce
unfolding run
run-nonce w [] h = omega arith
run-nonce w (e ∷ es) h = let s = step-nonce w e h in omega (arith, run-nonce (step w e) es s.1)

run-Inv :
    (w : World) (es : List Event)
    → w.st.payout_nonce ≤ u64_max
    → (run w es).st.payout_nonce < u64_max
    → Inv w
    → Inv (run w es)
unfolding run
run-Inv w [] h below v = v
run-Inv w (e ∷ es) h below v =
    let s = step-nonce w e h in
    run-Inv (step w e) es s.1 below (step-Inv w e (omega (arith, run-nonce (step w e) es s.1)) v)

Known-unique :
    (nonce : ℕ) (ps : List PayoutPlan) (a b : TransferArg)
    → nonce ≤ u64_max
    → Descending nonce ps
    → All IsNumbered ps
    → Known ps a
    → Known ps b
    → a.memo ≡ b.memo
    → a ≡ b
Known-unique nonce ps a b h d numbered (p, j, t, m, g, e) (q, k, u, m', g', e') same =
    let np = In-All IsNumbered ps p numbered m in
    let nq = In-All IsNumbered ps q numbered m' in
    let fp = Numbered-get p.id 0 p.transfers j t np.0 g in
    let fq = Numbered-get q.id 0 q.transfers k u nq.0 g' in
    let memos : some t.memo ≡ some u.memo =
      sym (ap (λ (x : TransferArg). x.memo) e) ∙ same ∙ ap (λ (x : TransferArg). x.memo) e' in
    let parts =
      memo_injective p.id q.id (0 + j) (0 + k) (omega (arith, Descending-lt nonce ps p d m))
        (omega (arith, Descending-lt nonce ps q d m')) (omega (arith, np.1, fp.1))
        (omega (arith, nq.1, fq.1)) (sym fp.0 ∙ some-injective t.memo u.memo memos ∙ fq.0) in
    let plans : p ≡ q = same_id_same_plan nonce ps p q d m m' parts.1 in
    let places : j ≡ k = omega arith in let transfers : some t ≡ some u = cc in cc

-- Take a canister with no plan and any nonce, and any sequence of messages: calls of
-- `process_payout` that start, get any replies of the ledger in any state, and are interleaved with
-- any other handlers. As long as the nonce has not reached its last value, two transfers that were
-- handed to the ledger with the same memo are the same transfer: recipient, amount, fee and time.
pub one_memo_one_transfer :
    (st : State) (es : List Event) (a b : TransferArg)
    → let w =
        run
          (record { st = record st { payout_plan = none }; dispatched = []; installed = [] })
          es in
      st.payout_nonce ≤ u64_max
      → w.st.payout_nonce < u64_max
      → In a w.dispatched
      → In b w.dispatched
      → a.memo ≡ b.memo
      → a ≡ b
one_memo_one_transfer st es a b h below ma mb same =
    let w0 : World = record {
      st = record st { payout_plan = none };
      dispatched = [];
      installed = [];
    } in
    let v =
      run-Inv w0 es h below
        (record { plans = record { descending = tt; numbered = tt; current = tt }; args = tt }) in
    let w = run w0 es in
    Known-unique w.st.payout_nonce w.installed a b (omega arith) v.plans.descending v.plans.numbered
      (In-All (Known w.installed) w.dispatched a v.args ma)
      (In-All (Known w.installed) w.dispatched b v.args mb) same
