-- ===== src/Disburser/MainTick/Poked.antt =====
-- The payout that a hint starts, `run_poke_with_clients` of canisters/disburser/src/scheduler/tick.rs,
-- cut at its awaits. It pays out and does nothing else of the main tick.
pub mod Unlocking
use jupiter_faucet_suite.Common.{Bool, true, false, Option, none, some, ℕ, if◌then◌else◌}
use jupiter_faucet_suite.Lease.Timer.{TimerLeaseGuard}
use jupiter_faucet_suite.Disburser.State.{State}
use jupiter_faucet_suite.Disburser.Guard.{is_current, acquire, release}
use jupiter_faucet_suite.Disburser.Payout.{Call, Phase, Reply, start, resume}
use jupiter_faucet_suite.Disburser.MainTick.{FullNeuron, in_flight}

pub data PokedPhase : Type 0 where
  awaiting_neuron ended : PokedPhase
  paying : Phase → PokedPhase

-- Leaving the function drops the guard.
unfoldable pub leave : TimerLeaseGuard → State → State × PokedPhase
leave g st = ((release g st).1, PokedPhase.ended)

abbrev pub began : State → Option (TimerLeaseGuard × State) → State × PokedPhase
began st none = (st, PokedPhase.ended)
began st (some (g, st')) = (st', PokedPhase.awaiting_neuron)

unfoldable pub begin_poked : ℕ → State → State × PokedPhase
begin_poked now_secs st = began st (acquire now_secs st)

unfoldable pub after_poked_payout : Call → State × Phase → State × PokedPhase
after_poked_payout c (st, Phase.finished done) = leave c.guard st
after_poked_payout c (st, phase) = (st, PokedPhase.paying phase)

unfoldable pub on_poked_neuron : Call → ℕ → Option FullNeuron → State → State × PokedPhase
on_poked_neuron c clock none st = leave c.guard st
on_poked_neuron c clock (some n) st =
    if is_current c.guard clock st
    then (if in_flight n then leave c.guard st else after_poked_payout c (start c clock st))
    else leave c.guard st

pub data PokedReply : PokedPhase → Type 0 where
  neuron : Option FullNeuron → PokedReply PokedPhase.awaiting_neuron
  paid : {phase : Phase} → Reply phase → PokedReply (PokedPhase.paying phase)

-- One message of a suspended call.
unfoldable pub resume_poked :
    Call → ℕ → {phase : PokedPhase} → PokedReply phase → State → State × PokedPhase
resume_poked c clock (neuron n) st = on_poked_neuron c clock n st
resume_poked c clock (paid r) st = after_poked_payout c (resume c clock r st)
