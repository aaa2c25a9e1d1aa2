-- ===== src/Relay/Splitter/Right.antt =====
-- The splitter's plan is right on every branch (canisters/relay/src/logic.rs).
use jupiter_faucet_suite.Common.{
  ℕ, ◌+◌, ◌-◌, ◌*◌, ◌/◌, ◌≤◌, ◌<◌, ◌≡◌, ◌⊎◌, inl, inr, refl, true, false, Option, none, some, List,
  [], ◌∷◌, arith, ltb, leb, ◌==◌, ◌||◌, if◌then◌else◌, checked_add, u64_max, u128_max, Bool-cases,
  All, ap, part_le, words_product,
}
use jupiter_faucet_suite.Relay.Splitter.{
  SplitterPlan, SplitterResult, splitter_percentages, find, splitter_percentage, default_gross,
  at_times, with_gross, with_percentage, build_splitter_plan, min_raw_icp_recipient_amount_e8s,
}

module _ (number balance fee now : ℕ) where
  -- What the two legs have to be.
  abbrev pub Conserves : SplitterPlan → Type 0
  Conserves plan =
      (plan.percentage_to_default ≡ number)
      × (plan.default_leg.gross_share_e8s + plan.subaccount_one_leg.gross_share_e8s ≡ balance)
      × (plan.default_leg.gross_share_e8s ≡ balance * number / 100)
      × (plan.default_leg.amount_e8s + fee ≡ plan.default_leg.gross_share_e8s)
      × (plan.subaccount_one_leg.amount_e8s + fee ≡ plan.subaccount_one_leg.gross_share_e8s)
      × (0 < plan.default_leg.amount_e8s)
      × (0 < plan.subaccount_one_leg.amount_e8s)
      × (plan.default_leg.created_at_time_nanos < plan.subaccount_one_leg.created_at_time_nanos)

  -- The reason behind each answer; an overflow or underflow of a share is no answer.
  abbrev pub Right : SplitterResult → Type 0
  Right (SplitterResult.planned plan) = Conserves plan
  Right SplitterResult.not_protocol_defined = splitter_percentage number ≡ none
  Right SplitterResult.no_funds = balance ≡ 0
  Right SplitterResult.below_1_icp_net = balance < fee + min_raw_icp_recipient_amount_e8s
  Right SplitterResult.share_overflow = ⊥
  Right SplitterResult.share_underflow = ⊥
  Right SplitterResult.share_does_not_exceed_fee =
      (balance * number / 100 ≤ fee) ⊎ (balance ≤ balance * number / 100 + fee)
  Right SplitterResult.created_at_overflow = u64_max ≤ now

  abbrev IsPercentage : Option ℕ → Type 0
  IsPercentage none = Unit
  IsPercentage (some p) = (p ≡ number) × (p ≤ 90)

  find-IsPercentage : (cs : List ℕ) → All (λ c. c ≤ 90) cs → IsPercentage (find number cs)
  find-IsPercentage [] a = tt
  find-IsPercentage (c ∷ cs) a = elim (Bool-cases (c == number)) [
    | inl own ↦ rw own (ground arith, a.0)
    | inr other ↦ rw other (find-IsPercentage cs a.1)
  ]

  shares-Right :
      (p gross : ℕ)
      → p ≡ number
      → gross ≡ balance * number / 100
      → gross ≤ balance
      → Right (
          if leb gross fee || leb (balance - gross) fee
          then SplitterResult.share_does_not_exceed_fee
          else at_times number balance fee now p gross (checked_add now 1))
  shares-Right p gross same exact part =
      elim (Bool-cases (leb gross fee || leb (balance - gross) fee)) [
        | inl little ↦ rw little (ground arith)
        | inr payable ↦ elim (Bool-cases (leb (now + 1) u64_max)) [
          | inl early ↦
              rw (payable, early)
                (
                  same,
                  ground arith,
                  exact,
                  ground arith,
                  ground arith,
                  ground arith,
                  ground arith,
                  omega arith,
                )
          | inr last ↦ rw (payable, last) (ground arith)
        ]
      ]

  funded-Right :
      (p : ℕ)
      → p ≡ number
      → p ≤ 90
      → balance ≤ u64_max
      → Right (with_gross number balance fee now p (default_gross balance p))
  funded-Right p same small fits =
      let product_fits : leb (balance * p) u128_max ≡ true =
        let bound : balance * p ≤ u128_max = words_product balance p fits (omega arith) in
        ground arith in
      let part : balance * p / 100 ≤ balance = part_le balance p 100 (omega arith) (omega arith) in
      let share_fits : leb (balance * p / 100) u64_max ≡ true = ground arith in
      let no_underflow : ltb balance (balance * p / 100) ≡ false = ground arith in
      rw (product_fits, share_fits, no_underflow)
        (shares-Right p (balance * p / 100) same (ap (λ q. balance * q / 100) same) part)

  answer-Right :
      (o : Option ℕ)
      → splitter_percentage number ≡ o
      → IsPercentage o
      → balance ≤ u64_max
      → Right (with_percentage number balance fee now o)
  answer-Right none unknown h fits = unknown
  answer-Right (some p) known h fits = elim (Bool-cases (balance == 0)) [
    | inl empty ↦ rw empty (ground arith)
    | inr funds ↦
        elim (Bool-cases
          (leb balance fee || ltb (balance - fee) min_raw_icp_recipient_amount_e8s)) [
            | inl little ↦ rw (funds, little) (ground arith)
            | inr enough ↦ rw (funds, enough) (funded-Right p h.0 h.1 fits)
          ]
  ]

-- For a u64 balance: a plan that is made splits it by the splitter's own percentage, rounded down,
-- loses nothing, pays each leg its share less the fee, more than nothing, and at different times;
-- and each refusal has the reason that it names. A share never overflows or underflows.
pub splitter_plan-Right :
    (number balance fee now : ℕ)
    → balance ≤ u64_max
    → Right number balance fee now (build_splitter_plan number balance fee now)
unfolding build_splitter_plan
splitter_plan-Right number balance fee now fits =
    answer-Right number balance fee now (splitter_percentage number) refl
      (find-IsPercentage number balance fee now splitter_percentages (ground arith)) fits
