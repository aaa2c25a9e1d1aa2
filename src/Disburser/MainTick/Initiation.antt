-- ===== src/Disburser/MainTick/Initiation.antt =====
-- When a tick starts a new disbursement of maturity (canisters/disburser/src/scheduler/tick.rs).
use jupiter_faucet_suite.Common.{
  ℕ, ◌-◌, ◌≡◌, inl, inr, refl, true, false, Option, none, some, Bool-cases,
}
use jupiter_faucet_suite.Disburser.State.{State}
use jupiter_faucet_suite.Disburser.Guard.{is_current}
use jupiter_faucet_suite.Disburser.Payout.{Call, Phase}
use jupiter_faucet_suite.Disburser.MainTick.{
  Runtime, TickPhase, TickReply, FullNeuron, claimed, refreshed, neuron, paid, disbursed, stamped,
  finish, quit, guarded, initiate, after_payout, in_flight, on_neuron, rolled_back, message,
  resume_tick,
}
use jupiter_faucet_suite.Disburser.Payout.Planless.{Planless, start-Planless, resume-Planless}

-- A tick that now waits for the disbursement holds the lock, has no payout left, and the neuron's
-- age at its start is persisted.
abbrev pub IsInitiation : Call → ℕ → Runtime × TickPhase → Type 0
IsInitiation c clock (rt, TickPhase.awaiting_disburse aging) =
    (is_current c.guard clock rt.state ≡ true)
    × (rt.state.payout_plan ≡ none)
    × (rt.state.prev_age_seconds ≡ c.now_secs - aging)
IsInitiation c clock (rt, phase) = Unit

module _ (c : Call) (clock : ℕ) where
  stamped-IsInitiation :
      (rt : Runtime) (o : Option Runtime) → IsInitiation c clock (stamped c.now_secs rt o)
  stamped-IsInitiation rt none = tt
  stamped-IsInitiation rt (some rt') = tt

  finish-IsInitiation : (rt : Runtime) → IsInitiation c clock (finish c clock rt)
  unfolding finish quit
  finish-IsInitiation rt = elim (Bool-cases (is_current c.guard clock rt.state)) [
    | inl live ↦ rw live (stamped-IsInitiation rt _)
    | inr stale ↦ rw stale tt
  ]

  guarded-IsInitiation :
      (rt : Runtime) (next : Runtime × TickPhase)
      → IsInitiation c clock next
      → IsInitiation c clock (guarded c clock rt next)
  unfolding quit
  guarded-IsInitiation rt next h = elim (Bool-cases (is_current c.guard clock rt.state)) [
    | inl live ↦ rw live h
    | inr stale ↦ rw stale tt
  ]

  initiate-IsInitiation :
      (aging : ℕ) (rt : Runtime)
      → rt.state.payout_plan ≡ none
      → IsInitiation c clock (initiate c clock aging rt)
  unfolding initiate quit is_current
  initiate-IsInitiation aging rt planless = elim (Bool-cases (is_current c.guard clock rt.state)) [
    | inl live ↦ rw live (live, planless, refl)
    | inr stale ↦ rw stale tt
  ]

  after_payout-IsInitiation :
      (aging : ℕ) (rt : Runtime) (r : State × Phase)
      → Planless c clock r
      → IsInitiation c clock (after_payout c clock aging rt r)
  unfolding after_payout
  after_payout-IsInitiation aging rt (st, Phase.finished true) planless =
      initiate-IsInitiation aging (record rt { state = st }) planless
  after_payout-IsInitiation aging rt (st, Phase.finished false) planless =
      finish-IsInitiation (record rt { state = st })
  after_payout-IsInitiation aging rt (st, phase) planless = tt

  on_neuron-IsInitiation :
      (n : Option FullNeuron) (rt : Runtime) → IsInitiation c clock (on_neuron c clock n rt)
  unfolding on_neuron
  on_neuron-IsInitiation none rt = finish-IsInitiation rt
  on_neuron-IsInitiation (some n) rt = guarded-IsInitiation rt _ (elim (Bool-cases (in_flight n)) [
    | inl flying ↦ rw flying (finish-IsInitiation rt)
    | inr landed ↦ rw landed (
        after_payout-IsInitiation n.aging_since_timestamp_seconds rt _
          (start-Planless c clock rt.state))
  ])

  message-IsInitiation :
      {phase : TickPhase} (r : TickReply phase) (rt : Runtime)
      → IsInitiation c clock (message c clock r rt)
  message-IsInitiation claimed rt = guarded-IsInitiation rt _ tt
  message-IsInitiation refreshed rt = guarded-IsInitiation rt _ tt
  message-IsInitiation (neuron n) rt = on_neuron-IsInitiation n rt
  message-IsInitiation (paid {aging} r) rt =
      after_payout-IsInitiation aging rt _ (resume-Planless c clock r rt.state)
  message-IsInitiation disbursed rt = finish-IsInitiation rt

  rolled_back-IsInitiation :
      (rt : Runtime) (r : Runtime × TickPhase)
      → IsInitiation c clock r
      → IsInitiation c clock (rolled_back rt r)
  rolled_back-IsInitiation rt (rt', TickPhase.trapped) h = tt
  rolled_back-IsInitiation rt (rt', phase) h = h

-- Whatever reply a suspended tick gets, in whatever state: if it then starts a disbursement of
-- maturity, its guard is current, no payout plan is left, and the neuron's age by the tick's clock is
-- what the next payout will split by.
pub resume_tick-IsInitiation :
    (c : Call) (clock : ℕ) {phase : TickPhase} (r : TickReply phase) (rt : Runtime)
    → IsInitiation c clock (resume_tick c clock r rt)
unfolding resume_tick
resume_tick-IsInitiation c clock r rt =
    rolled_back-IsInitiation c clock rt _ (message-IsInitiation c clock r rt)
