-- ===== src/Relay/Surplus/Equal.antt =====
-- Surplus shares are equal, are paid net of the fee, and fit in the balance.
use jupiter_faucet_suite.Common.{
  ℕ, ◌+◌, ◌-◌, ◌*◌, ◌/◌, ◌≤◌, ◌<◌, ◌≡◌, ◌≢◌, ◌⊎◌, inl, inr, refl, true, Option, none, some, List,
  [], ◌∷◌, arith, map, length, All, leb, ltb, Bool-cases, div_floor,
}
use jupiter_faucet_suite.Relay.Splitter.{min_raw_icp_recipient_amount_e8s}
use jupiter_faucet_suite.Relay.Conversion.{ConversionEstimate}
use jupiter_faucet_suite.Relay.Surplus.{
  ResolvedSurplusRecipient, SurplusTransferSample, SurplusSkip, amount_and_reason, sample,
  allocate_equal_surplus_shares, is_usable, build_surplus_plan,
}

-- A share is paid net of the fee and is at least 1 ICP then, or it is not paid, and a reason says so.
abbrev pub Settles : ℕ → ℕ → SurplusTransferSample → Type 0
Settles gross fee s =
    (s.gross_share_e8s ≡ gross)
    × (((s.amount_e8s + fee ≡ gross)
          × (min_raw_icp_recipient_amount_e8s ≤ s.amount_e8s)
          × (s.skipped_reason ≡ none))
        ⊎ ((s.amount_e8s ≡ 0)
            × (gross < fee + min_raw_icp_recipient_amount_e8s)
            × (s.skipped_reason ≢ none)))

abbrev pub paid : List SurplusTransferSample → ℕ
paid [] = 0
paid (s ∷ ss) = s.gross_share_e8s + paid ss

sample-Settles :
    (gross fee : ℕ) (r : ResolvedSurplusRecipient)
    → Settles gross fee (sample gross (amount_and_reason gross fee) r)
sample-Settles gross fee r = elim (Bool-cases (leb gross fee)) [
  | inl little ↦ rw little (refl, inr (refl, ground arith, ground arith))
  | inr more ↦ elim (Bool-cases (ltb (gross - fee) min_raw_icp_recipient_amount_e8s)) [
    | inl small ↦ rw (more, small) (refl, inr (refl, ground arith, ground arith))
    | inr enough ↦ rw (more, enough) (refl, inl (ground arith, ground arith, refl))
  ]
]

each-Settles :
    (gross fee : ℕ) (rs : List ResolvedSurplusRecipient)
    → All (Settles gross fee) (map (sample gross (amount_and_reason gross fee)) rs)
each-Settles gross fee [] = tt
each-Settles gross fee (r ∷ rs) = (sample-Settles gross fee r, each-Settles gross fee rs)

paid_gross :
    (gross : ℕ) (how : ℕ × Option SurplusSkip) (rs : List ResolvedSurplusRecipient)
    → paid (map (sample gross how) rs) ≡ gross * length rs
paid_gross gross how [] = omega arith
paid_gross gross how (r ∷ rs) = grind (arith, paid_gross gross how rs)

shares_within :
    (recipients : List ResolvedSurplusRecipient) (available fee : ℕ)
    → (paid (allocate_equal_surplus_shares recipients available fee) ≤ available)
      × All
          (Settles (available / length recipients) fee)
          (allocate_equal_surplus_shares recipients available fee)
unfolding allocate_equal_surplus_shares
shares_within [] available fee = (omega arith, tt)
shares_within (r ∷ rs) available fee =
    let gross : ℕ = available / length (r ∷ rs) in
    (
      omega (
        arith,
        paid_gross gross (amount_and_reason gross fee) (r ∷ rs),
        div_floor available (length (r ∷ rs)) (omega arith),
      ),
      each-Settles gross fee (r ∷ rs),
    )

-- Whatever the estimate: the shares of a surplus plan together take no more than the balance, and
-- each is the balance over the number of recipients, rounded down, and either paid net of the fee,
-- which leaves at least 1 ICP, or not paid for a reason that is given. Without a usable estimate
-- there is no share.
pub surplus_within_balance :
    (recipients : List ResolvedSurplusRecipient) (available fee now : ℕ)
    (estimate : Option ConversionEstimate)
    → let (surplus, offered, reason) = build_surplus_plan recipients available fee estimate now in
      (paid surplus ≤ available)
      × All (Settles (available / length recipients) fee) surplus
      × ((is_usable estimate now ≡ true)
          ⊎ ((surplus ≡ []) × (reason ≡ some SurplusSkip.missing_conversion_estimate)))
unfolding build_surplus_plan
surplus_within_balance recipients available fee now estimate =
    elim (Bool-cases (is_usable estimate now)) [
      | inl usable ↦
          let (within, settled) = shares_within recipients available fee in
          rw usable (within, settled, inl refl)
      | inr unusable ↦ rw unusable (omega arith, tt, inr (refl, refl))
    ]
