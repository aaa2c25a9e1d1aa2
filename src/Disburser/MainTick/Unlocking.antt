-- ===== src/Disburser/MainTick/Unlocking.antt =====
-- A tick gives its lock back (canisters/disburser/src/scheduler/tick.rs).
use jupiter_faucet_suite.Common.{
  not, option_eq_iff, ℕ, ◌<◌, ◌≡◌, inl, inr, Bool, true, false, refl, not, ◌&&◌, ltb, sat_add,
  checked_add, unwrap_or, option_eq_iff, Option, none, some, arith, option_eq, Bool-cases,
}
use jupiter_faucet_suite.Lease.Timer.{TimerLeaseGuard}
use jupiter_faucet_suite.Lease.Timer
use jupiter_faucet_suite.Disburser.State.{State}
use jupiter_faucet_suite.Disburser.Guard
use jupiter_faucet_suite.Disburser.Guard.{main_tick_lease_seconds, is_current, release}
use jupiter_faucet_suite.Disburser.Payout.{Call, Phase}
use jupiter_faucet_suite.Disburser.MainTick.{
  remaining_seconds, with_marker, locked, past_suppression, advance_main_run_marker, begin_tick,
  Runtime, TickPhase, TickReply, FullNeuron, MainTickOutcome, claimed, refreshed, neuron, paid,
  disbursed, stamped, finish, quit, guarded, initiate, after_payout, in_flight, on_neuron,
  rolled_back, message, resume_tick,
}

abbrev pub holds_lock : TimerLeaseGuard → State → Bool
holds_lock g st = option_eq st.main_lock_state_ts (some g.lease_expires_at_ts)

-- An ended tick does not hold the lock.
abbrev pub IsUnlocked : TimerLeaseGuard → Runtime × TickPhase → Type 0
IsUnlocked g (rt, TickPhase.ended outcome) = holds_lock g rt.state ≡ false
IsUnlocked g (rt, phase) = Unit

pub release_frees :
    (g : TimerLeaseGuard) (st : State)
    → g.active ≡ true
    → 0 < g.lease_expires_at_ts
    → holds_lock g (release g st).1 ≡ false
unfolding release Timer.release
release_frees g st active positive = elim (Bool-cases (holds_lock g st)) [
  | inl held ↦ ground arith
  | inr free ↦ ground arith
]

module _ (c : Call) (clock : ℕ) (active : c.guard.active ≡ true)
    (positive : 0 < c.guard.lease_expires_at_ts) where
  quit-IsUnlocked :
      (outcome : MainTickOutcome) (rt : Runtime) → IsUnlocked c.guard (quit c.guard outcome rt)
  unfolding quit
  quit-IsUnlocked outcome rt = release_frees c.guard rt.state active positive

  stamped-IsUnlocked :
      (rt : Runtime) (o : Option Runtime) → IsUnlocked c.guard (stamped c.now_secs rt o)
  stamped-IsUnlocked rt none = tt
  stamped-IsUnlocked rt (some rt') = ground arith

  finish-IsUnlocked : (rt : Runtime) → IsUnlocked c.guard (finish c clock rt)
  unfolding finish
  finish-IsUnlocked rt = elim (Bool-cases (is_current c.guard clock rt.state)) [
    | inl live ↦ rw live (stamped-IsUnlocked rt _)
    | inr stale ↦ rw stale (quit-IsUnlocked _ rt)
  ]

  guarded-IsUnlocked :
      (rt : Runtime) (next : Runtime × TickPhase)
      → IsUnlocked c.guard next
      → IsUnlocked c.guard (guarded c clock rt next)
  guarded-IsUnlocked rt next h = elim (Bool-cases (is_current c.guard clock rt.state)) [
    | inl live ↦ rw live h
    | inr stale ↦ rw stale (quit-IsUnlocked _ rt)
  ]

  after_payout-IsUnlocked :
      (aging : ℕ) (rt : Runtime) (r : State × Phase)
      → IsUnlocked c.guard (after_payout c clock aging rt r)
  unfolding after_payout initiate
  after_payout-IsUnlocked aging rt (st, Phase.finished true) =
      guarded-IsUnlocked (record rt { state = st }) _ tt
  after_payout-IsUnlocked aging rt (st, Phase.finished false) =
      finish-IsUnlocked (record rt { state = st })
  after_payout-IsUnlocked aging rt (st, phase) = tt

  on_neuron-IsUnlocked :
      (n : Option FullNeuron) (rt : Runtime) → IsUnlocked c.guard (on_neuron c clock n rt)
  unfolding on_neuron
  on_neuron-IsUnlocked none rt = finish-IsUnlocked rt
  on_neuron-IsUnlocked (some n) rt = guarded-IsUnlocked rt _ (elim (Bool-cases (in_flight n)) [
    | inl flying ↦ rw flying (finish-IsUnlocked rt)
    | inr landed ↦ rw landed (after_payout-IsUnlocked _ rt _)
  ])

  message-IsUnlocked :
      {phase : TickPhase} (r : TickReply phase) (rt : Runtime)
      → IsUnlocked c.guard (message c clock r rt)
  message-IsUnlocked claimed rt = guarded-IsUnlocked rt _ tt
  message-IsUnlocked refreshed rt = guarded-IsUnlocked rt _ tt
  message-IsUnlocked (neuron n) rt = on_neuron-IsUnlocked n rt
  message-IsUnlocked (paid {aging} r) rt = after_payout-IsUnlocked aging rt _
  message-IsUnlocked disbursed rt = finish-IsUnlocked rt

  rolled_back-IsUnlocked :
      (rt : Runtime) (r : Runtime × TickPhase)
      → IsUnlocked c.guard r
      → IsUnlocked c.guard (rolled_back rt r)
  rolled_back-IsUnlocked rt (rt', TickPhase.trapped) h = tt
  rolled_back-IsUnlocked rt (rt', phase) h = h

-- How the first message of a tick leaves the lock: free if it acquired it and ends, its own if it
-- waits; and the whole state is as it was if another call holds the lock or the message traps.
abbrev pub BeginsLocked : Runtime → Runtime × TickPhase → Type 0
BeginsLocked rt (rt', TickPhase.ended (MainTickOutcome.deferred remaining)) =
    (rt'.state.main_lock_state_ts ≡ some 0)
    × (record rt'.state { main_lock_state_ts = none }
        ≡ record rt.state { main_lock_state_ts = none })
BeginsLocked rt (rt', TickPhase.ended MainTickOutcome.main_guard_busy) = rt' ≡ rt
BeginsLocked rt (rt', TickPhase.ended MainTickOutcome.completed) = ⊥
BeginsLocked rt (rt', TickPhase.trapped) = rt' ≡ rt
BeginsLocked rt (rt', TickPhase.awaiting_claim) =
    (expiry : ℕ) × (rt'.state.main_lock_state_ts ≡ some expiry) × (0 < expiry)
BeginsLocked rt (rt', phase) = ⊥

past-BeginsLocked :
    (g : TimerLeaseGuard) (rt : Runtime) (expiry : ℕ) (marker : Option ℕ)
    → 0 < expiry
    → BeginsLocked rt (
        rolled_back rt (
          past_suppression g rt (
            with_marker
              (record rt { state = record rt.state { main_lock_state_ts = some expiry } })
              marker)))
past-BeginsLocked g rt expiry none positive = refl
past-BeginsLocked g rt expiry (some marker) positive = (expiry, refl, positive)

locked-BeginsLocked :
    (force : Bool) (now_secs : ℕ) (rt : Runtime) (expiry : ℕ)
    → 0 < expiry
    → BeginsLocked rt (
        rolled_back rt (
          locked force now_secs rt (
            some (
              record { active = true; lease_expires_at_ts = expiry },
              record rt.state { main_lock_state_ts = some expiry },
            ))))
unfolding quit release Timer.release advance_main_run_marker
locked-BeginsLocked force now_secs rt expiry positive =
    let st : State = record rt.state { main_lock_state_ts = some expiry } in
    let g : TimerLeaseGuard = record { active = true; lease_expires_at_ts = expiry } in
    let held : option_eq (some expiry) (some expiry) ≡ true =
      (option_eq_iff (some expiry) (some expiry)).1 refl in
    elim (Bool-cases (not force && ltb 0 (remaining_seconds now_secs st))) [
      | inl suppressed ↦ rw (suppressed, held) (refl, refl)
      | inr due ↦ rw due (past-BeginsLocked g rt expiry (checked_add rt.main_run_marker 1) positive)
    ]

begin_tick-BeginsLocked :
    (force : Bool) (now_secs : ℕ) (rt : Runtime) → BeginsLocked rt (begin_tick force now_secs rt)
unfolding begin_tick Guard.acquire Timer.acquire
begin_tick-BeginsLocked force now_secs rt =
    elim (Bool-cases (ltb now_secs (unwrap_or rt.state.main_lock_state_ts 0))) [
      | inl taken ↦ rw taken refl
      | inr free ↦ rw free (
          locked-BeginsLocked force now_secs rt (sat_add now_secs main_tick_lease_seconds)
            (omega arith))
    ]

-- Whether a tick ends in its first message or after an await, it gives its lock back. A first message
-- that acquires the lock and ends leaves the lock at 0 and all else in the state as it was; one that
-- finds the lock taken, or traps, changes nothing; else it waits, with the lock taken. And on every
-- path on which a suspended tick with an active guard then ends, whatever was replied and whatever
-- other calls did in between, the lock afterwards is not its lease: it is free, or another call's.
pub resume_tick-IsUnlocked :
    (c : Call) (clock : ℕ) {phase : TickPhase} (r : TickReply phase) (force : Bool) (now_secs : ℕ)
    (rt : Runtime)
    → c.guard.active ≡ true
    → 0 < c.guard.lease_expires_at_ts
    → BeginsLocked rt (begin_tick force now_secs rt) × IsUnlocked c.guard (resume_tick c clock r rt)
unfolding resume_tick
resume_tick-IsUnlocked c clock r force now_secs rt active positive = (
  begin_tick-BeginsLocked force now_secs rt,
  rolled_back-IsUnlocked c clock active positive rt _
      (message-IsUnlocked c clock active positive r rt),
)
