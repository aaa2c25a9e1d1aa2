-- ===== src/Disburser/MainTick/Tests.antt =====
-- The main tick at a concrete state.
use jupiter_faucet_suite.Common.{
  false, ◌≡◌, refl, true, none, some, List, [], ◌∷◌, arith, is_some, if◌then◌else◌,
}
use jupiter_faucet_suite.Disburser.State.{new, plan_eq}
use jupiter_faucet_suite.Disburser.Guard.{is_current}
use jupiter_faucet_suite.Disburser.Payout.{
  Call, Phase, balance, resume, on_balance, payout_generation_matches,
}
use jupiter_faucet_suite.Disburser.MainTick.{
  begin_tick, Runtime, MainTickOutcome, TickPhase, TickReply, paid, disbursed, initiate,
  after_payout, resume_tick,
}
use jupiter_faucet_suite.Disburser.MainTick.Initiation.{IsInitiation, resume_tick-IsInitiation}
use jupiter_faucet_suite.Disburser.MainTick.Unlocking.{
  BeginsLocked, IsUnlocked, resume_tick-IsUnlocked,
}
use jupiter_faucet_suite.Disburser.MainTick.Retry.{
  RetryEvent, advance, run_ends, timer_fires, run, live_timers,
}
use jupiter_faucet_suite.Disburser.MainTick.Retry.OneLive.{one_live_retry}
use jupiter_faucet_suite.Disburser.MainTick.{FullNeuron}
use jupiter_faucet_suite.Disburser.MainTick.Poked
use jupiter_faucet_suite.Disburser.MainTick.Poked.{resume_poked}
use jupiter_faucet_suite.Disburser.MainTick.Poked.Unlocking.{IsOrderly, resume_poked-IsOrderly}
use jupiter_faucet_suite.Disburser.Tests.{cfg}

-- A tick at second 500_000_000, whose lease ends 900 seconds later.
abbrev running : Runtime
running = record {
  state = record (new cfg 0) { main_lock_state_ts = some 500_000_900 };
  main_run_marker = 3;
  scheduled_main_retry_pending = none;
}

abbrev tick : Call
tick = record {
  cfg = cfg;
  now_nanos = 500_000_000_000_000_000;
  now_secs = 500_000_000;
  guard = record { active = true; lease_expires_at_ts = 500_000_900 };
}

abbrev empty_balance : TickReply (TickPhase.paying 400_000_000 (Phase.awaiting_balance 1 none 0))
empty_balance = paid (balance (some 0))

resume_tick-IsInitiation_example :
    IsInitiation tick 500_000_005 (resume_tick tick 500_000_005 empty_balance running)
resume_tick-IsInitiation_example = resume_tick-IsInitiation tick 500_000_005 empty_balance running

empty_balance_initiates :
    (resume_tick tick 500_000_005 empty_balance running).1 ≡ TickPhase.awaiting_disburse 400_000_000
unfolding resume_tick after_payout initiate resume on_balance payout_generation_matches is_current
    new plan_eq
empty_balance_initiates = refl

resume_tick-IsUnlocked_example :
    BeginsLocked running (begin_tick false 500_000_010 running)
    × IsUnlocked tick.guard (resume_tick tick 500_000_009 (disbursed {aging = 400_000_000}) running)
resume_tick-IsUnlocked_example =
    resume_tick-IsUnlocked tick 500_000_009 (disbursed {aging = 400_000_000}) false 500_000_010
      running refl (omega arith)

-- Two scheduled runs find the lock taken; the run that held it finishes; the timer fires.
abbrev contention : List RetryEvent
contention =
    run_ends 3 MainTickOutcome.main_guard_busy
    ∷ run_ends 3 MainTickOutcome.main_guard_busy
    ∷ advance
    ∷ run_ends 4 (MainTickOutcome.deferred 30)
    ∷ timer_fires 1
    ∷ []

one_live_retry_example :
    let w = run (record { runtime = running; timers = [] }) contention in
    live_timers w.runtime w.timers
    ≡ (if is_some w.runtime.scheduled_main_retry_pending then 1 else 0)
one_live_retry_example = one_live_retry running.state 3 contention

-- A hint's payout that finds a disbursement in flight.
abbrev busy_neuron : FullNeuron
busy_neuron = record {
  maturity_disbursements_in_progress = some (1 ∷ []);
  aging_since_timestamp_seconds = 400_000_000;
}

resume_poked-IsOrderly_example :
    IsOrderly tick 500_000_005
      (resume_poked tick 500_000_005 (Poked.neuron (some busy_neuron)) running.state)
resume_poked-IsOrderly_example =
    resume_poked-IsOrderly tick 500_000_005 (Poked.neuron (some busy_neuron)) running.state refl
      (omega arith)
