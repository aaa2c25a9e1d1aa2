-- ===== src/Faucet/IndexHealth/Sustained.antt =====
-- The latch of a rescue for a missing anchor, and the time since the failure before it.
use jupiter_faucet_suite.Common.{
  ◌≢◌, option_eq_iff, max, sym, subst, ℕ, ◌+◌, ◌-◌, ◌≤◌, ◌<◌, ◌≡◌, refl, inl, inr, Bool, true,
  false, Option, none, some, ◌==◌, unwrap_or, option_eq, leb, arith, Bool-cases,
}
use jupiter_faucet_suite.Memo.Soundness.{injected}
use jupiter_faucet_suite.Faucet.State.{State, ForcedRescueReason}
use jupiter_faucet_suite.Faucet.IndexHealth.{
  count_later, count_anchor, Health, apply_anchor_observation, count_sustained_failure, gap_seconds,
  one_more, latched, observe_anchor,
}

-- A failure was counted before, at least one main interval, and a minute, ago.
abbrev pub LongAgo : ℕ → Health → Type 0
LongAgo now h =
    (previous : ℕ) × (h.last_anchor_failure ≡ some previous)
    × (previous + max h.st.config.main_interval_seconds 60 ≤ now)

-- A first transaction is expected, and not observed.
abbrev pub Missing : Option ℕ → Option ℕ → Type 0
Missing observed none = ⊥
Missing observed (some expected) = observed ≢ some expected

later :
    (now gap : ℕ) (o : Option ℕ)
    → 0 < gap
    → (count_later now gap o).1 ≡ true
    → (previous : ℕ) × (o ≡ some previous) × (previous + gap ≤ now)
later now gap none g h = absurd cc
later now gap (some previous) g h = elim (Bool-cases (leb gap (now - previous))) [
  | inl v ↦ (previous, refl, ground (arith, v, g))
  | inr v ↦ absurd (ground (arith, v, h))
]

counted :
    (o : Option ℕ) (failures now gap : ℕ)
    → 0 < failures
    → 0 < gap
    → (count_sustained_failure o failures now gap).1 ≡ true
    → (previous : ℕ) × (o ≡ some previous) × (previous + gap ≤ now)
unfolding count_sustained_failure
counted o failures now gap f g h =
    later now gap o g (let z : (failures == 0) ≡ false = ground (arith, f) in rw z at h)

count_anchor-latches :
    (h : Health) (r : Option ℕ × Bool) (reason : ForcedRescueReason)
    → h.st.forced_rescue_reason ≡ none
    → (count_anchor h r).st.forced_rescue_reason ≡ some reason
    → (r.1 ≡ true)
      × (0 < unwrap_or h.st.consecutive_index_anchor_failures 0)
      × (reason ≡ ForcedRescueReason.index_anchor_missing)
count_anchor-latches h (last, false) reason n e = absurd cc
count_anchor-latches h (last, true) reason n e =
    let k : latched (leb 2 (one_more h.st.consecutive_index_anchor_failures))
          ForcedRescueReason.index_anchor_missing none
        ≡ some reason =
      subst
        (λ (o : Option ForcedRescueReason).
          latched (leb 2 (one_more h.st.consecutive_index_anchor_failures))
            ForcedRescueReason.index_anchor_missing o
          ≡ some reason)
        n e in
    elim (Bool-cases (leb 2 (one_more h.st.consecutive_index_anchor_failures))) [
      | inl v ↦ (refl, ground (arith, v), sym (injected (let z = k in rw v at z)))
      | inr v ↦ absurd (ground (arith, v, k))
    ]

positive_gap : (st : State) → 0 < gap_seconds st
positive_gap st = ground arith

observe_anchor-latches :
    (observed : Option ℕ) (now : ℕ) (h : Health) (o : Option ℕ) (reason : ForcedRescueReason)
    → h.st.forced_rescue_reason ≡ none
    → (observe_anchor observed now h o).st.forced_rescue_reason ≡ some reason
    → (reason ≡ ForcedRescueReason.index_anchor_missing)
      × Missing observed o
      × (0 < unwrap_or h.st.consecutive_index_anchor_failures 0)
      × LongAgo now h
observe_anchor-latches observed now h none reason n e = absurd cc
observe_anchor-latches observed now h (some expected) reason n e =
    elim (Bool-cases (option_eq observed (some expected))) [
      | inl v ↦ let z : h.st.forced_rescue_reason ≡ some reason = rw v at e in absurd cc
      | inr v ↦
          let k =
            count_anchor-latches h
              (count_sustained_failure h.last_anchor_failure
                (unwrap_or h.st.consecutive_index_anchor_failures 0) now (gap_seconds h.st))
              reason n (rw v at e) in
          (
            k.2,
            λ same. absurd (let z = (option_eq_iff observed (some expected)).1 same in cc),
            k.1,
            counted h.last_anchor_failure (unwrap_or h.st.consecutive_index_anchor_failures 0) now
                (gap_seconds h.st) k.1 (positive_gap h.st) k.0,
          )
    ]

-- An observation of the staking account's first transaction forces a rescue only with the reason of
-- a missing anchor: when the configuration expects a first transaction and another one, or none, was
-- observed, and when a failure was counted before, of which the last is at least a main interval,
-- and at least a minute, ago.
pub anchor_latch :
    (observed : Option ℕ) (now : ℕ) (h : Health) (reason : ForcedRescueReason)
    → h.st.forced_rescue_reason ≡ none
    → (apply_anchor_observation observed now h).st.forced_rescue_reason ≡ some reason
    → (reason ≡ ForcedRescueReason.index_anchor_missing)
      × Missing observed h.st.config.expected_first_staking_tx_id
      × (0 < unwrap_or h.st.consecutive_index_anchor_failures 0)
      × LongAgo now h
unfolding apply_anchor_observation
anchor_latch observed now h reason n e =
    observe_anchor-latches observed now h h.st.config.expected_first_staking_tx_id reason n e
