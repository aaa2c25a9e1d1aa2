-- ===== src/Disburser/MainTick/Poked/Unlocking.antt =====
-- A payout started by a hint gives its lock back, and pays only under it.
use jupiter_faucet_suite.Common.{ℕ, ◌<◌, ◌≡◌, inl, inr, true, false, Option, none, some, Bool-cases}
use jupiter_faucet_suite.Disburser.State.{State}
use jupiter_faucet_suite.Disburser.Guard.{is_current}
use jupiter_faucet_suite.Disburser.Payout.{Call, Phase, start}
use jupiter_faucet_suite.Disburser.Payout.Fencing.{IsFenced, resume-IsFenced}
use jupiter_faucet_suite.Disburser.MainTick.{FullNeuron, in_flight}
use jupiter_faucet_suite.Disburser.MainTick.Unlocking.{holds_lock, release_frees}
use jupiter_faucet_suite.Disburser.MainTick.Poked.{
  PokedPhase, PokedReply, neuron, paid, leave, after_poked_payout, on_poked_neuron, resume_poked,
}

-- An ended call does not hold the lock; one that waits for a transfer is fenced.
abbrev pub IsOrderly : Call → ℕ → State × PokedPhase → Type 0
IsOrderly c clock (st, PokedPhase.ended) = holds_lock c.guard st ≡ false
IsOrderly c clock (st, PokedPhase.paying phase) = IsFenced c clock (st, phase)
IsOrderly c clock (st, PokedPhase.awaiting_neuron) = Unit

module _ (c : Call) (clock : ℕ) (active : c.guard.active ≡ true)
    (positive : 0 < c.guard.lease_expires_at_ts) where
  leave-IsOrderly : (st : State) → IsOrderly c clock (leave c.guard st)
  unfolding leave
  leave-IsOrderly st = release_frees c.guard st active positive

  after_poked_payout-IsOrderly :
      (r : State × Phase) → IsFenced c clock r → IsOrderly c clock (after_poked_payout c r)
  unfolding after_poked_payout
  after_poked_payout-IsOrderly (st, Phase.finished done) fenced = leave-IsOrderly st
  after_poked_payout-IsOrderly (st, phase) fenced = fenced

  start-IsFenced : (st : State) → IsFenced c clock (start c clock st)
  unfolding start
  start-IsFenced st = elim (Bool-cases (is_current c.guard clock st)) [
    | inl live ↦ rw live tt
    | inr stale ↦ rw stale tt
  ]

  on_poked_neuron-IsOrderly :
      (n : Option FullNeuron) (st : State) → IsOrderly c clock (on_poked_neuron c clock n st)
  unfolding on_poked_neuron
  on_poked_neuron-IsOrderly none st = leave-IsOrderly st
  on_poked_neuron-IsOrderly (some n) st = elim (Bool-cases (is_current c.guard clock st)) [
    | inr stale ↦ rw stale (leave-IsOrderly st)
    | inl live ↦ rw live (elim (Bool-cases (in_flight n)) [
      | inl flying ↦ rw flying (leave-IsOrderly st)
      | inr landed ↦ rw landed (after_poked_payout-IsOrderly _ (start-IsFenced st))
    ])
  ]

-- On every path of a payout started by a hint, under an active guard: once it has ended the lock is
-- not its lease, and while it waits for a transfer its guard was current at dispatch and the
-- transfer is the first pending one of the persisted plan.
pub resume_poked-IsOrderly :
    (c : Call) (clock : ℕ) {phase : PokedPhase} (r : PokedReply phase) (st : State)
    → c.guard.active ≡ true
    → 0 < c.guard.lease_expires_at_ts
    → IsOrderly c clock (resume_poked c clock r st)
unfolding resume_poked
resume_poked-IsOrderly c clock (neuron n) st active positive =
    on_poked_neuron-IsOrderly c clock active positive n st
resume_poked-IsOrderly c clock (paid r) st active positive =
    after_poked_payout-IsOrderly c clock active positive _ (resume-IsFenced c clock r st)
