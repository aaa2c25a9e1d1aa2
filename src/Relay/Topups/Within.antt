-- ===== src/Relay/Topups/Within.antt =====
-- The top-ups and the balance.
use jupiter_faucet_suite.Common.{
  ltb, ℕ, ◌+◌, ◌≤◌, ◌<◌, ◌≡◌, refl, ◌⊎◌, inl, inr, Bool, true, false, Option, List, [], ◌∷◌, map,
  leb, ◌==◌, sat_add, u64_max, arith, Bool-cases, sum_by, All,
}
use jupiter_faucet_suite.Relay.Proportional.Handout.{allocation-Spent, Spent, sat_sum-exact}
use jupiter_faucet_suite.Relay.Proportional.{proportional_topup_gross_allocations, sat_sum}
use jupiter_faucet_suite.Ledger.{Principal}
use jupiter_faucet_suite.Relay.Allocation.{AllocationPlan, BurnPlan, burn_plans}
use jupiter_faucet_suite.Relay.Conversion.{topup_net_e8s, ConversionEstimate}
use jupiter_faucet_suite.Relay.Topups.{
  estimate_or_bootstrap, zip_paid, allocate, paid_in_part, paid_in_full, desired_gross,
  build_allocation_plan, wished, wish_of,
}
use jupiter_faucet_suite.Relay.Proportional.Rounds.{Under, sum}

abbrev pub wisher : BurnPlan × ℕ → Principal
wisher (plan, gross) = plan.canister_id

abbrev pub gross_sum : List BurnPlan → ℕ
gross_sum plans = sum_by (λ p. p.gross_share_e8s) plans

-- A plan that nothing was paid on yet.
abbrev Unpaid : BurnPlan × ℕ → Type 0
Unpaid (plan, gross) = (plan.gross_share_e8s ≡ 0) × (plan.amount_e8s ≡ 0)

-- A transfer is what its share leaves after the fee; without one the share is 0.
abbrev pub NetOf : ℕ → BurnPlan → Type 0
NetOf fee plan =
    ((plan.gross_share_e8s ≡ 0) × (plan.amount_e8s ≡ 0))
    ⊎ ((fee < plan.gross_share_e8s) × (plan.amount_e8s + fee ≡ plan.gross_share_e8s))

-- A wish is nothing or more than the fee, and fits in a u64.
abbrev Wish : ℕ → BurnPlan × ℕ → Type 0
Wish fee p = Unpaid p × ((wish_of p ≡ 0) ⊎ (fee < wish_of p)) × (wish_of p ≤ u64_max)

desired-Wish :
    (fee : ℕ) (e : ConversionEstimate) (plan : BurnPlan)
    → (plan.gross_share_e8s ≡ 0) × (plan.amount_e8s ≡ 0)
    → Wish fee (desired_gross fee e plan)
unfolding desired_gross
desired-Wish fee e plan u = elim (Bool-cases (topup_net_e8s plan.target_topup_cycles e == 0)) [
  | inl v ↦ elim (Bool-cases (plan.target_topup_cycles == 0)) [
    | inl w ↦ rw (v, w) (u, inl refl, omega arith)
    | inr w ↦ rw (v, w) (u, inl refl, omega arith)
  ]
  | inr v ↦ elim (Bool-cases (leb (sat_add (topup_net_e8s plan.target_topup_cycles e) fee) fee)) [
    | inl w ↦ rw (v, w) (u, inl refl, omega arith)
    | inr w ↦ rw (v, w) (u, inr (ground (arith, w)), omega arith)
  ]
]

full-NetOf :
    (fee : ℕ) (p : BurnPlan × ℕ)
    → Wish fee p
    → NetOf fee (paid_in_full fee p) × ((paid_in_full fee p).gross_share_e8s ≡ wish_of p)
unfolding paid_in_full
full-NetOf fee (plan, gross) w = grind arith

part-NetOf :
    (fee desired : ℕ) (plan : BurnPlan) (gross : ℕ)
    → Unpaid (plan, desired)
    → NetOf fee (paid_in_part fee desired plan gross)
      × ((paid_in_part fee desired plan gross).gross_share_e8s ≤ gross)
unfolding paid_in_part
part-NetOf fee desired plan gross u = grind arith

wished-Wish :
    (fee : ℕ) (e : ConversionEstimate) (plans : List BurnPlan)
    → All (λ (p : BurnPlan). (p.gross_share_e8s ≡ 0) × (p.amount_e8s ≡ 0)) plans
    → All (Wish fee) (map (desired_gross fee e) plans)
wished-Wish fee e [] h = tt
wished-Wish fee e (p ∷ plans) h = (desired-Wish fee e p h.0, wished-Wish fee e plans h.1)

burn_plans-Unpaid :
    (previous minted_since deficits : Principal → Option ℕ) (b : Bool)
    (current : List (Principal × ℕ))
    → All
        (λ (p : BurnPlan). (p.gross_share_e8s ≡ 0) × (p.amount_e8s ≡ 0))
        (burn_plans previous minted_since deficits b current)
unfolding burn_plans
burn_plans-Unpaid previous minted_since deficits b [] = tt
burn_plans-Unpaid previous minted_since deficits b ((id, cycles) ∷ current) =
    ((refl, refl), burn_plans-Unpaid previous minted_since deficits b current)

full-Within :
    (fee : ℕ) (ps : List (BurnPlan × ℕ))
    → All (Wish fee) ps
    → All (NetOf fee) (map (paid_in_full fee) ps)
      × (gross_sum (map (paid_in_full fee) ps) ≡ sum (map wish_of ps))
full-Within fee [] h = (tt, refl)
full-Within fee (p ∷ ps) h =
    let k = full-NetOf fee p h.0 in
    let r = full-Within fee ps h.1 in ((k.0, r.0), omega (arith, k.1, r.1))

part-Within :
    (fee : ℕ) (ps : List (BurnPlan × ℕ)) (shares : List ℕ)
    → All (Wish fee) ps
    → All (NetOf fee) (zip_paid fee ps shares) × (gross_sum (zip_paid fee ps shares) ≤ sum shares)
part-Within fee [] shares h = (tt, omega arith)
part-Within fee (p ∷ ps) [] h = (tt, omega arith)
part-Within fee ((plan, desired) ∷ ps) (share ∷ shares) h =
    let k = part-NetOf fee desired plan share h.0.0 in
    let r = part-Within fee ps shares h.1 in ((k.0, r.0), omega (arith, k.1, r.1))

full-ids :
    (fee : ℕ) (ps : List (BurnPlan × ℕ))
    → map (λ (p : BurnPlan). p.canister_id) (map (paid_in_full fee) ps) ≡ map wisher ps
unfolding paid_in_full
full-ids fee [] = refl
full-ids fee ((plan, gross) ∷ ps) = elim (Bool-cases (ltb 0 gross)) [
  | inl v ↦ rw (v, full-ids fee ps) refl
  | inr v ↦ rw (v, full-ids fee ps) refl
]

full-shares :
    (fee : ℕ) (ps : List (BurnPlan × ℕ))
    → All (Wish fee) ps
    → map (λ (p : BurnPlan). p.gross_share_e8s) (map (paid_in_full fee) ps) ≡ map wish_of ps
full-shares fee [] h = refl
full-shares fee (p ∷ ps) h = rw ((full-NetOf fee p h.0).1, full-shares fee ps h.1) refl

part-id :
    (fee desired : ℕ) (plan : BurnPlan) (gross : ℕ)
    → (paid_in_part fee desired plan gross).canister_id ≡ plan.canister_id
unfolding paid_in_part
part-id fee desired plan gross = grind arith

part-ids :
    (fee : ℕ) (ps : List (BurnPlan × ℕ)) (shares : List ℕ)
    → Under shares (map wish_of ps)
    → map (λ (p : BurnPlan). p.canister_id) (zip_paid fee ps shares) ≡ map wisher ps
part-ids fee [] shares u = refl
part-ids fee (p ∷ ps) [] u = absurd u
part-ids fee ((plan, desired) ∷ ps) (share ∷ shares) u =
    rw (part-id fee desired plan share, part-ids fee ps shares u.2) refl

part-Under :
    (fee : ℕ) (ps : List (BurnPlan × ℕ)) (shares : List ℕ)
    → All (Wish fee) ps
    → Under shares (map wish_of ps)
    → Under (map (λ (p : BurnPlan). p.gross_share_e8s) (zip_paid fee ps shares)) (map wish_of ps)
part-Under fee [] shares h u = tt
part-Under fee (p ∷ ps) [] h u = absurd u
part-Under fee ((plan, desired) ∷ ps) (share ∷ shares) h u =
    let k = part-NetOf fee desired plan share h.0.0 in
    (omega (arith, k.1, u.0), u.1, part-Under fee ps shares h.1 u.2)

wishes-fit :
    (fee : ℕ) (ps : List (BurnPlan × ℕ))
    → All (Wish fee) ps
    → All (λ d. d ≤ u64_max) (map wish_of ps)
wishes-fit fee [] h = tt
wishes-fit fee (p ∷ ps) h = (h.0.2, wishes-fit fee ps h.1)

-- What an allocation promises, canister by canister in the order of the wishes: each transfer is its
-- share less the fee, the shares stay within the balance, and the phase is fully funded exactly when
-- the balance covers the sum of the wishes. Then each share is the wish, else at most the wish.
abbrev pub Promised : ℕ → ℕ → List (BurnPlan × ℕ) → AllocationPlan → Type 0
Promised available fee wishes plan =
    All (NetOf fee) plan.topups
    × (gross_sum plan.topups ≤ available)
    × (map (λ (p : BurnPlan). p.canister_id) plan.topups ≡ map wisher wishes)
    × (((plan.topup_phase_fully_funded ≡ true)
          × (sum (map wish_of wishes) ≤ available)
          × (map (λ (p : BurnPlan). p.gross_share_e8s) plan.topups ≡ map wish_of wishes))
        ⊎ ((plan.topup_phase_fully_funded ≡ false)
            × (available < sum (map wish_of wishes))
            × Under (map (λ (p : BurnPlan). p.gross_share_e8s) plan.topups) (map wish_of wishes)))

allocate-Promised :
    (available fee : ℕ) (ps : List (BurnPlan × ℕ))
    → All (Wish fee) ps
    → sum (map wish_of ps) ≤ u64_max
    → available ≤ u64_max
    → Promised available fee ps (allocate available fee ps (sum (map wish_of ps)))
allocate-Promised available fee ps w t m =
    elim (Bool-cases (leb (sum (map wish_of ps)) available)) [
      | inl v ↦
          let k = full-Within fee ps w in
          let l : sum (map wish_of ps) ≤ available = ground (arith, v) in
          rw v (k.0, omega (arith, k.1, l), full-ids fee ps, inl (refl, l, full-shares fee ps w))
      | inr v ↦
          let l : available < sum (map wish_of ps) = ground (arith, v) in
          let shares : List ℕ =
            proportional_topup_gross_allocations (map wish_of ps) (sum (map wish_of ps))
              available in
          let s : Spent (map wish_of ps) available shares =
            allocation-Spent (map wish_of ps) available (wishes-fit fee ps w) (omega (arith, l)) t
              m in
          let k = part-Within fee ps shares w in
          rw v (
            k.0,
            omega (arith, k.1, s.1),
            part-ids fee ps shares s.0,
            inr (refl, l, part-Under fee ps shares w s.0),
          )
    ]

-- For a balance in u64 and wishes whose sum is one: the top-ups are of the canisters that wish, in
-- their order; each transfers its share less the fee or nothing; the shares together stay within the
-- balance; the phase is fully funded exactly when the balance covers the sum of the wishes; and then
-- each canister's share is its wish, else it is at most its wish.
pub allocation_plan-Promised :
    (current : List (Principal × ℕ)) (previous minted_since deficits : Principal → Option ℕ)
    (available fee now : ℕ) (estimate : Option ConversionEstimate)
    → sum (map wish_of (wished current previous minted_since deficits fee estimate now)) ≤ u64_max
    → available ≤ u64_max
    → Promised available fee
        (wished current previous minted_since deficits fee estimate now)
        (build_allocation_plan current previous minted_since deficits available fee estimate now)
unfolding build_allocation_plan
allocation_plan-Promised current previous minted_since deficits available fee now estimate t m =
    let ps : List (BurnPlan × ℕ) = wished current previous minted_since deficits fee estimate now in
    let e : sat_sum 0 (map wish_of ps) ≡ 0 + sum (map wish_of ps) =
      sat_sum-exact 0 (map wish_of ps) (omega arith) in
    let e' : sat_sum 0 (map wish_of ps) ≡ sum (map wish_of ps) = omega arith in
    rw e' (
      allocate-Promised available fee ps
        (wished-Wish fee (estimate_or_bootstrap now estimate) _
          (burn_plans-Unpaid previous minted_since deficits true current))
        t m)
