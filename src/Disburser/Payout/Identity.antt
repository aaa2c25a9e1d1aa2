-- ===== src/Disburser/Payout/Identity.antt =====
-- The identities that reach the ledger, over every interleaving of suspended calls and of the other
-- handlers. The ledger recognises a duplicate by the whole argument, so one memo must never stand
-- for two different arguments.
pub mod Plans
pub mod Invariant
pub mod Unique
use jupiter_faucet_suite.Common.{ℕ, Bool, Option, none, some, List, [], ◌∷◌}
use jupiter_faucet_suite.Ledger.{TransferArg}
use jupiter_faucet_suite.Disburser.State.{State, PayoutPlan}
use jupiter_faucet_suite.Disburser.Payout.{Call, Phase, Reply, resume}

-- The state, every argument handed to the ledger so far, and every plan that was persisted.
pub record World : Type 0 where
  pub st : State
  pub dispatched : List TransferArg
  pub installed : List PayoutPlan

-- A message to any suspended call, with any reply at any time; or another handler, which writes
-- any field of the state but the nonce and the plan.
pub data Event : Type 0 where
  resumes : Call → ℕ → (phase : Phase) → Reply phase → Event
  others : State → Event

abbrev pub dispatched_by : Phase → List TransferArg → List TransferArg
dispatched_by (Phase.awaiting_transfer plan i arg) args = arg ∷ args
dispatched_by (Phase.awaiting_balance n p a) args = args
dispatched_by (Phase.awaiting_fee n b a) args = args
dispatched_by (Phase.finished done) args = args

abbrev pub installed_by : Option PayoutPlan → Option PayoutPlan → List PayoutPlan → List PayoutPlan
installed_by none (some plan) plans = plan ∷ plans
installed_by none none plans = plans
installed_by (some plan) after plans = plans

abbrev pub observe : World → State × Phase → World
observe w (st, phase) = record {
  st = st;
  dispatched = dispatched_by phase w.dispatched;
  installed = installed_by w.st.payout_plan st.payout_plan w.installed;
}

unfoldable pub step : World → Event → World
step w (resumes c clock phase r) = observe w (resume c clock r w.st)
step w (others st) = record w {
  st = record st { payout_nonce = w.st.payout_nonce; payout_plan = w.st.payout_plan };
}

unfoldable pub run : World → List Event → World
run w [] = w
run w (e ∷ es) = run (step w e) es
