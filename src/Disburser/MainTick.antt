-- ===== src/Disburser/MainTick.antt =====
-- The main tick of canisters/disburser/src/scheduler/tick.rs, cut at its awaits as the payout is. The
-- clients' replies are arguments; error codes go to the log only and are left out.
pub mod Initiation
pub mod Unlocking
pub mod Retry
pub mod Poked
mod Tests
use jupiter_faucet_suite.Common.{
  ℕ, ◌-◌, Bool, true, false, Option, none, some, List, ltb, not, ◌&&◌, unwrap_or, if◌then◌else◌,
  sat_add, checked_add, length,
}
use jupiter_faucet_suite.Lease.Timer.{TimerLeaseGuard}
use jupiter_faucet_suite.Disburser.State.{Config, State}
use jupiter_faucet_suite.Disburser.Guard.{is_current, acquire, release}
use jupiter_faucet_suite.Disburser.Payout.{Call, Phase, Reply, start, resume}

-- The persisted state and the cells that live on the heap.
pub record Runtime : Type 0 where
  pub state : State
  pub main_run_marker : ℕ
  pub scheduled_main_retry_pending : Option ℕ

pub data MainTickOutcome : Type 0 where
  completed main_guard_busy : MainTickOutcome
  deferred : ℕ → MainTickOutcome

-- What a tick waits for, with the neuron's aging timestamp where it is still needed; or its end.
pub data TickPhase : Type 0 where
  awaiting_claim awaiting_refresh awaiting_neuron : TickPhase
  paying : ℕ → Phase → TickPhase
  awaiting_disburse : ℕ → TickPhase
  ended : MainTickOutcome → TickPhase
  trapped : TickPhase

-- What the tick reads of the neuron.
pub record FullNeuron : Type 0 where
  pub maturity_disbursements_in_progress : Option (List ℕ)
  pub aging_since_timestamp_seconds : ℕ

abbrev pub with_marker : Runtime → Option ℕ → Option Runtime
with_marker rt none = none
with_marker rt (some marker) =
    some (record rt { main_run_marker = marker; scheduled_main_retry_pending = none })

-- `none` is the panic of `expect`.
unfoldable pub advance_main_run_marker : Runtime → Option Runtime
advance_main_run_marker rt = with_marker rt (checked_add rt.main_run_marker 1)

-- Leaving a scope drops the guard.
unfoldable pub quit : TimerLeaseGuard → MainTickOutcome → Runtime → Runtime × TickPhase
quit g outcome rt = (record rt { state = (release g rt.state).1 }, TickPhase.ended outcome)

abbrev stamped : ℕ → Runtime → Option Runtime → Runtime × TickPhase
stamped now_secs rt none = (rt, TickPhase.trapped)
stamped now_secs rt (some rt') = (
  record rt' {
    state = record rt'.state { last_main_run_ts = now_secs; main_lock_state_ts = some 0 };
  },
  TickPhase.ended MainTickOutcome.completed,
)

-- `guard.finish(now_secs, ..)` and the tick's end.
unfoldable pub finish : Call → ℕ → Runtime → Runtime × TickPhase
finish c clock rt =
    if is_current c.guard clock rt.state
    then stamped c.now_secs rt (advance_main_run_marker rt)
    else quit c.guard MainTickOutcome.completed rt

-- Goes on if the guard is current.
abbrev pub guarded : Call → ℕ → Runtime → Runtime × TickPhase → Runtime × TickPhase
guarded c clock rt next =
    if is_current c.guard clock rt.state then next else quit c.guard MainTickOutcome.completed rt

-- The age is persisted, then maturity is disbursed.
unfoldable pub initiate : Call → ℕ → ℕ → Runtime → Runtime × TickPhase
initiate c clock aging rt = guarded c clock rt (
  record rt { state = record rt.state { prev_age_seconds = c.now_secs - aging } },
  TickPhase.awaiting_disburse aging,
)

-- The payout's message, then what the tick does when the payout is over.
unfoldable pub after_payout : Call → ℕ → ℕ → Runtime → State × Phase → Runtime × TickPhase
after_payout c clock aging rt (st, Phase.finished true) =
    initiate c clock aging (record rt { state = st })
after_payout c clock aging rt (st, Phase.finished false) = finish c clock (record rt { state = st })
after_payout c clock aging rt (st, phase) = (record rt { state = st }, TickPhase.paying aging phase)

abbrev pub in_flight : FullNeuron → Bool
in_flight n = elim n.maturity_disbursements_in_progress [
  | none ↦ false
  | some items ↦ ltb 0 (length items)
]

unfoldable pub on_neuron : Call → ℕ → Option FullNeuron → Runtime → Runtime × TickPhase
on_neuron c clock none rt = finish c clock rt
on_neuron c clock (some n) rt = guarded c clock rt (
    if in_flight n
    then finish c clock rt
    else after_payout c clock n.aging_since_timestamp_seconds rt (start c clock rt.state))

-- The reply that a phase waits for; an effect of the neuron's upkeep is only logged.
pub data TickReply : TickPhase → Type 0 where
  claimed : TickReply TickPhase.awaiting_claim
  refreshed : TickReply TickPhase.awaiting_refresh
  neuron : Option FullNeuron → TickReply TickPhase.awaiting_neuron
  paid : {aging : ℕ} {phase : Phase} → Reply phase → TickReply (TickPhase.paying aging phase)
  disbursed : {aging : ℕ} → TickReply (TickPhase.awaiting_disburse aging)

-- A panic undoes the message.
abbrev pub rolled_back : Runtime → Runtime × TickPhase → Runtime × TickPhase
rolled_back rt (rt', TickPhase.trapped) = (rt, TickPhase.trapped)
rolled_back rt (rt', phase) = (rt', phase)

abbrev pub message :
    Call → ℕ → {phase : TickPhase} → TickReply phase → Runtime → Runtime × TickPhase
message c clock claimed rt = guarded c clock rt (rt, TickPhase.awaiting_refresh)
message c clock refreshed rt = guarded c clock rt (rt, TickPhase.awaiting_neuron)
message c clock (neuron n) rt = on_neuron c clock n rt
message c clock (paid {aging} r) rt = after_payout c clock aging rt (resume c clock r rt.state)
message c clock disbursed rt = finish c clock rt

-- One message of a suspended tick.
unfoldable pub resume_tick :
    Call → ℕ → {phase : TickPhase} → TickReply phase → Runtime → Runtime × TickPhase
resume_tick c clock r rt = rolled_back rt (message c clock r rt)

abbrev past_suppression : TimerLeaseGuard → Runtime → Option Runtime → Runtime × TickPhase
past_suppression g rt none = (rt, TickPhase.trapped)
past_suppression g rt (some rt') = (rt', TickPhase.awaiting_claim)

-- How long the last run still suppresses another.
unfoldable pub remaining_seconds : ℕ → State → ℕ
remaining_seconds now_secs st =
    sat_add st.last_main_run_ts (st.config.main_interval_seconds - 60) - now_secs

abbrev locked : Bool → ℕ → Runtime → Option (TimerLeaseGuard × State) → Runtime × TickPhase
locked force now_secs rt none = (rt, TickPhase.ended MainTickOutcome.main_guard_busy)
locked force now_secs rt (some (g, st)) =
    let remaining = remaining_seconds now_secs st in
    if not force && ltb 0 remaining
    then quit g (MainTickOutcome.deferred remaining) (record rt { state = st })
    else past_suppression g rt (advance_main_run_marker (record rt { state = st }))

-- Up to the first await; the clock is the call's `now_secs`.
unfoldable pub begin_tick : Bool → ℕ → Runtime → Runtime × TickPhase
begin_tick force now_secs rt = rolled_back rt (locked force now_secs rt (acquire now_secs rt.state))
