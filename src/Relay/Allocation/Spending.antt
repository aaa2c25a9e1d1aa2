-- ===== src/Relay/Allocation/Spending.antt =====
-- Spending the whole balance on cycles never spends more than it.
use jupiter_faucet_suite.Common.{
  ℕ, ◌+◌, ◌*◌, ◌≤◌, ◌<◌, ◌≡◌, ◌⊎◌, inl, inr, refl, Bool, false, Option, List, [], ◌∷◌, arith, map,
  sum_by, All, ◌==◌, sat_mul128, u128_max, Bool-cases, div_floor, ap, sym, subst,
}
use jupiter_faucet_suite.Ledger.{Principal}
use jupiter_faucet_suite.Relay.Allocation.{
  BurnPlan, burn_plans, gross_share, spend, total_need, no_need, spend_all,
  build_spend_all_cycles_plan,
}

-- Nothing is assigned yet.
abbrev Fresh : BurnPlan → Type 0
Fresh plan = (plan.gross_share_e8s ≡ 0) × (plan.amount_e8s ≡ 0)

-- A canister is paid its share less the fee, which is at most half of it, or nothing; and one that
-- needs nothing has no share.
abbrev pub IsPaid : ℕ → BurnPlan → Type 0
IsPaid fee plan =
    ((plan.amount_e8s ≡ 0)
      ⊎ ((plan.amount_e8s + fee ≡ plan.gross_share_e8s)
          × (2 * fee ≤ plan.gross_share_e8s)
          × (0 < plan.amount_e8s)))
    × ((plan.gross_share_e8s ≡ 0) ⊎ (0 < plan.target_topup_cycles))

abbrev pub gross_of : List BurnPlan → ℕ
gross_of [] = 0
gross_of (p ∷ ps) = p.gross_share_e8s + gross_of ps

abbrev pub targets : List BurnPlan → ℕ
targets [] = 0
targets (p ∷ ps) = p.target_topup_cycles + targets ps

module _ (available total fee : ℕ) (positive : 0 < total) where
  share_times_total :
      (plan : BurnPlan)
      → gross_share available total plan * total ≤ available * plan.target_topup_cycles
  unfolding gross_share
  share_times_total plan = elim (Bool-cases (plan.target_topup_cycles == 0)) [
    | inl needless ↦ rw needless (omega arith)
    | inr needy ↦
        rw needy
          (grind (arith, div_floor (sat_mul128 available plan.target_topup_cycles) total positive))
  ]

  spend_gross :
      (plan : BurnPlan)
      → Fresh plan
      → (spend available total fee plan).gross_share_e8s ≡ gross_share available total plan
  unfolding spend gross_share
  spend_gross plan fresh = ground arith

  spend-IsPaid : (plan : BurnPlan) → Fresh plan → IsPaid fee (spend available total fee plan)
  unfolding spend gross_share
  spend-IsPaid plan fresh = ground arith

  sum_times_total :
      (plans : List BurnPlan)
      → All Fresh plans
      → gross_of (map (spend available total fee) plans) * total ≤ available * targets plans
  sum_times_total [] fresh = omega arith
  sum_times_total (p ∷ ps) fresh =
      rw (spend_gross p fresh.0) (omega (arith, share_times_total p, sum_times_total ps fresh.1))

  each-IsPaid :
      (plans : List BurnPlan)
      → All Fresh plans
      → All (IsPaid fee) (map (spend available total fee) plans)
  each-IsPaid [] fresh = tt
  each-IsPaid (p ∷ ps) fresh = (spend-IsPaid p fresh.0, each-IsPaid ps fresh.1)

-- If nobody needs anything, nobody gets anything.
no_need-IsPaid :
    (fee : ℕ) (plans : List BurnPlan)
    → All Fresh plans
    → (gross_of (map no_need plans) ≡ 0) × All (IsPaid fee) (map no_need plans)
no_need-IsPaid fee [] fresh = (refl, tt)
no_need-IsPaid fee (p ∷ ps) fresh =
    let (nothing, paid) = no_need-IsPaid fee ps fresh.1 in
    (omega (arith, nothing, fresh.0), ((inl fresh.0.1, inl fresh.0.0), paid))

total_need_lem :
    (plans : List BurnPlan) → targets plans ≤ u128_max → total_need plans ≡ targets plans
total_need_lem plans fits = omega (arith, same plans)
  where
    same : (ps : List BurnPlan) → sum_by (λ p. p.target_topup_cycles) ps ≡ targets ps
    same [] = refl
    same (p ∷ ps) = ap (λ n. p.target_topup_cycles + n) (same ps)

spending_within :
    (available fee : ℕ) (plans : List BurnPlan)
    → targets plans ≤ u128_max
    → All Fresh plans
    → (gross_of (spend_all available fee plans).topups ≤ available)
      × All (IsPaid fee) (spend_all available fee plans).topups
spending_within available fee plans fits fresh = elim (Bool-cases (total_need plans == 0)) [
  | inl none_needed ↦
      let (nothing, paid) = no_need-IsPaid fee plans fresh in
      rw none_needed (omega (arith, nothing), paid)
  | inr needed ↦
      let total : ℕ = total_need plans in
      let positive : 0 < total = ground arith in
      let bound : gross_of (map (spend available total fee) plans) * total ≤ available * total =
        subst (λ n. gross_of (map (spend available total fee) plans) * total ≤ available * n)
          (sym (total_need_lem plans fits))
          (sum_times_total available total fee positive plans fresh) in
      rw needed (grind (arith, bound), each-IsPaid available total fee positive plans fresh)
]

burn_plans-Fresh :
    (previous minted deficits : Principal → Option ℕ) (headroom : Bool)
    (current : List (Principal × ℕ))
    → All Fresh (burn_plans previous minted deficits headroom current)
unfolding burn_plans
burn_plans-Fresh previous minted deficits headroom [] = tt
burn_plans-Fresh previous minted deficits headroom (c ∷ cs) =
    ((refl, refl), burn_plans-Fresh previous minted deficits headroom cs)

-- If the canisters' needs add up within u128: their shares together take no more than the balance;
-- each is paid its share less the fee, which is at most half of the share, or nothing; and only one
-- that needs cycles has a share.
pub spending_within_balance :
    (current : List (Principal × ℕ)) (previous minted deficits : Principal → Option ℕ)
    (available fee : ℕ)
    → targets (burn_plans previous minted deficits false current) ≤ u128_max
    → let plan = build_spend_all_cycles_plan current previous minted deficits available fee in
      (gross_of plan.topups ≤ available) × All (IsPaid fee) plan.topups
unfolding build_spend_all_cycles_plan
spending_within_balance current previous minted deficits available fee fits =
    spending_within available fee (burn_plans previous minted deficits false current) fits
      (burn_plans-Fresh previous minted deficits false current)
