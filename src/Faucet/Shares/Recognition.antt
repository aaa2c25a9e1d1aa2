-- ===== src/Faucet/Shares/Recognition.antt =====
-- Which commitments a round recognizes (canisters/faucet/src/logic.rs).
use jupiter_faucet_suite.Common.{
  ◌+◌, ◌*◌, ◌-◌, ◌⊎◌, ◌<◌, true, min, false, ℕ, ◌≤◌, ◌≡◌, inl, inr, refl, Option, none, some, arith,
  leb, u64_max, Bool-cases, ap,
}
use jupiter_faucet_suite.Faucet.Shares.{
  compute_weighted_amount_e8s, conservative_effective_timestamp_nanos,
  effective_commitment_timestamp_nanos, commitment_amount_for_payout_e8s, is_beyond, in_round,
}
use jupiter_faucet_suite.Faucet.Shares.Weight.{running_round, not_at_all, falling}

-- A commitment without a time is outside the tranche or counts for nothing.
unstamped_in_round :
    (amount e delay : ℕ) (start : Option ℕ)
    → amount ≤ u64_max
    → e ≤ u64_max
    → in_round amount none start e delay ≡ some 0
unfolding effective_commitment_timestamp_nanos conservative_effective_timestamp_nanos
unstamped_in_round amount e delay none ha he = refl
unstamped_in_round amount e delay (some s) ha he = elim (Bool-cases (leb e s)) [
  | inl closed ↦ rw closed refl
  | inr running ↦ rw running (ap some (not_at_all amount s e ha (ground arith) he _ (omega arith)))
]

-- Outside of the tranche together, or the first counts for no more than the second.
abbrev pub AtMost : Option ℕ → Option ℕ → Type 0
AtMost none none = Unit
AtMost (some a) (some b) = a ≤ b
AtMost none (some b) = ⊥
AtMost (some a) none = ⊥

delayed_mono :
    (t t' delay : ℕ)
    → t ≤ t'
    → conservative_effective_timestamp_nanos t delay
      ≤ conservative_effective_timestamp_nanos t' delay
unfolding conservative_effective_timestamp_nanos
delayed_mono t t' delay le = omega arith

later_in_round :
    (amount e delay t t' : ℕ) (start : Option ℕ)
    → amount ≤ u64_max
    → e ≤ u64_max
    → t ≤ t'
    → AtMost (in_round amount (some t') start e delay) (in_round amount (some t) start e delay)
unfolding effective_commitment_timestamp_nanos
later_in_round amount e delay t t' none ha he le = ground (arith, delayed_mono t t' delay le)
later_in_round amount e delay t t' (some s) ha he le = elim (Bool-cases (leb e s)) [
  | inl closed ↦ rw closed (omega arith)
  | inr running ↦
      rw running (falling amount s e ha (ground arith) he _ _ (delayed_mono t t' delay le))
]

-- When a commitment takes effect: its time and the delay, up to the greatest u64.
abbrev pub effective_at : ℕ → ℕ → ℕ
effective_at t delay = min (t + delay * 1_000_000_000) u64_max

effective_at_lem :
    (t delay : ℕ) → conservative_effective_timestamp_nanos t delay ≡ effective_at t delay
unfolding conservative_effective_timestamp_nanos
effective_at_lem t delay = omega arith

-- What counts of an amount that takes effect at `t`: in the genesis round all of it, if that is by
-- the round's end; in another round the part of it that the rest of the round is, rounded down.
abbrev pub Counts : ℕ → Option ℕ → ℕ → ℕ → ℕ → Type 0
Counts amount none e t counted = ((t ≤ e) × (counted ≡ amount)) ⊎ ((e < t) × (counted ≡ 0))
Counts amount (some s) e t counted =
    ((e ≤ s) × (counted ≡ 0))
    ⊎ ((s < e) × (t ≤ s) × (counted ≡ amount))
    ⊎ ((s < e) × (e ≤ t) × (counted ≡ 0))
    ⊎ ((s < t)
        × (t < e)
        × (counted * (e - s) ≤ amount * (e - t))
        × (amount * (e - t) < (counted + 1) * (e - s)))

in_round-Counts :
    (amount e delay t : ℕ) (start : Option ℕ)
    → amount ≤ u64_max
    → e ≤ u64_max
    → (counted : ℕ) × (in_round amount (some t) start e delay ≡ some counted)
      × Counts amount start e (effective_at t delay) counted
unfolding effective_commitment_timestamp_nanos
in_round-Counts amount e delay t none ha he =
    rw (effective_at_lem t delay) (elim (Bool-cases (leb (effective_at t delay) e)) [
      | inl early ↦ (amount, rw early refl, inl (ground (arith, early), refl))
      | inr late ↦ (0, rw late refl, inr (ground (arith, late), refl))
    ])
in_round-Counts amount e delay t (some s) ha he = elim (Bool-cases (leb e s)) [
  | inl closed ↦ (0, rw closed refl, inl (ground (arith, closed), refl))
  | inr running ↦ (
    compute_weighted_amount_e8s amount s e (effective_at t delay),
    rw (running, effective_at_lem t delay) refl,
    running_round amount s e ha (ground (arith, running)) he (effective_at t delay),
  )
]

-- The tranche's last transaction, if it has one, comes before the commitment's; or it does not.
abbrev pub Beyond : ℕ → Option ℕ → Type 0
Beyond tx_id none = ⊥
Beyond tx_id (some end) = end < tx_id

abbrev pub Within : ℕ → Option ℕ → Type 0
Within tx_id none = Unit
Within tx_id (some end) = tx_id ≤ end

beyond_lem : (tx_id : ℕ) (latest : Option ℕ) → is_beyond tx_id latest ≡ true → Beyond tx_id latest
beyond_lem tx_id none h = absurd cc
beyond_lem tx_id (some end) h = ground (arith, h)

within_lem : (tx_id : ℕ) (latest : Option ℕ) → is_beyond tx_id latest ≡ false → Within tx_id latest
within_lem tx_id none h = tt
within_lem tx_id (some end) h = ground (arith, h)

-- In every round, the genesis round included, with a u64 amount and a u64 end: a commitment above
-- the tranche's last transaction is left out. Of any other, one without a timestamp counts for
-- nothing; one with a timestamp takes effect the delay after it, in the genesis round counts in full
-- if that is by the round's end and else not at all, and in a later round counts in full, for the
-- rest of the round rounded down, or not at all, as it takes effect by the start, within, or from
-- the end on. A later timestamp counts for no more than an earlier one.
pub recognition_right :
    (amount tx_id round_end delay t t' : ℕ) (round_start latest_tx_id : Option ℕ)
    → amount ≤ u64_max
    → round_end ≤ u64_max
    → t ≤ t'
    → let payout = λ (timestamp : Option ℕ).
      commitment_amount_for_payout_e8s amount tx_id timestamp round_start latest_tx_id round_end
        delay in
      ((Beyond tx_id latest_tx_id × (payout none ≡ none) × (payout (some t) ≡ none))
        ⊎ (Within tx_id latest_tx_id
            × (payout none ≡ some 0)
            × ((counted : ℕ) × (payout (some t) ≡ some counted)
                × Counts amount round_start round_end (effective_at t delay) counted)))
      × AtMost (payout (some t')) (payout (some t))
unfolding commitment_amount_for_payout_e8s
recognition_right amount tx_id round_end delay t t' round_start latest_tx_id ha he le =
    elim (Bool-cases (is_beyond tx_id latest_tx_id)) [
      | inl beyond ↦ rw beyond (inl (beyond_lem tx_id latest_tx_id beyond, refl, refl), tt)
      | inr within ↦ rw within (
        inr (
          within_lem tx_id latest_tx_id within,
          unstamped_in_round amount round_end delay round_start ha he,
          in_round-Counts amount round_end delay t round_start ha he,
        ),
        later_in_round amount round_end delay t t' round_start ha he le,
      )
    ]
