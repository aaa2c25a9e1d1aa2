-- ===== src/Disburser/Plan/Bounds.antt =====
-- What a plan holds: transfers in sequence, each above the fee, that together fit the balance.
use jupiter_faucet_suite.Common.{
  ℕ, ◌+◌, ◌*◌, ◌≤◌, ◌<◌, ◌≡◌, refl, subst, inl, inr, List, [], ◌∷◌, ◌++◌, arith, leb, sat_add,
  length, sum_by, length-append, u64_max, Bool-cases,
}
use jupiter_faucet_suite.Ledger.{Account}
use jupiter_faucet_suite.Disburser.Split.Exact.{split_exact}
use jupiter_faucet_suite.Disburser.Split.{compute_gross_split}
use jupiter_faucet_suite.Disburser.Plan.{Planned, build_memo, planned, push, plan_payout_transfers}

abbrev pub gross_sum : List Planned → ℕ
gross_sum = sum_by (λ p. p.gross_share_e8s)

module _ (payout_id base_nanos fee : ℕ) where
  -- The `k`-th transfer and those after it: above the fee, net of it, with their own memo and time.
  abbrev pub Sequenced : ℕ → List Planned → Type 0
  Sequenced k [] = Unit
  Sequenced k (p ∷ ps) =
      (fee < p.gross_share_e8s)
      × (p.amount_e8s + fee ≡ p.gross_share_e8s)
      × (p.memo ≡ build_memo payout_id k)
      × (p.created_at_time_nanos ≡ sat_add base_nanos k)
      × Sequenced (k + 1) ps

  Sequenced-snoc :
      (k j : ℕ) (ps : List Planned) (p : Planned)
      → j ≡ k + length ps
      → Sequenced k ps
      → Sequenced j (p ∷ [])
      → Sequenced k (ps ++ p ∷ [])
  Sequenced-snoc k j [] p e h s =
      let e' : j ≡ k = omega arith in subst (λ n. Sequenced n (p ∷ [])) e' s
  Sequenced-snoc k j (q ∷ ps) p e (a, b, c, d, h) s =
      (a, b, c, d, Sequenced-snoc (k + 1) j ps p (omega arith) h s)

  -- After `n` shares that sum to `total`, at most `n` fees' worth was left out.
  abbrev Pushed : ℕ → ℕ → List Planned × ℕ → Type 0
  Pushed n total (out, idx) =
      Sequenced 0 out
      × (idx ≡ length out)
      × (idx ≤ n)
      × (gross_sum out ≤ total)
      × (total ≤ gross_sum out + n * fee)

  gross_sum-snoc :
      (ps : List Planned) (p : Planned)
      → gross_sum (ps ++ p ∷ []) ≡ gross_sum ps + p.gross_share_e8s
  gross_sum-snoc [] p = omega arith
  gross_sum-snoc (q ∷ ps) p = omega (arith, gross_sum-snoc ps p)

  push-Pushed :
      (n total : ℕ) (to : Account) (share : ℕ) (acc : List Planned × ℕ)
      → Pushed n total acc
      → Pushed (n + 1) (total + share) (push payout_id base_nanos fee to share acc)
  unfolding push
  push-Pushed n total to share (out, idx) (s, i, j, lo, hi) = elim (Bool-cases (leb share fee)) [
    | inl small ↦ rw small (s, i, omega arith, omega arith, ground arith)
    | inr large ↦ rw large (
        let last = planned payout_id base_nanos fee to share idx in
        (
          Sequenced-snoc 0 idx out last (omega arith) s
              (ground arith, ground arith, refl, refl, tt),
          omega (arith, length-append out (last ∷ [])),
          omega arith,
          omega (arith, gross_sum-snoc out last),
          omega (arith, gross_sum-snoc out last),
        ))
  ]

module _ (p t balance fee age : ℕ) (n b1 b2 : Account) where
  abbrev plan : List Planned
  plan = (plan_payout_transfers p t balance fee age n b1 b2).1

  abbrev shares : ℕ
  shares =
      let g = compute_gross_split balance age in
      0 + g.base_e8s + g.bonus_recipient_1_e8s + g.bonus_recipient_2_e8s

  plan-Pushed : Pushed p t fee 3 shares (plan, length plan)
  unfolding plan_payout_transfers
  plan-Pushed =
      let g = compute_gross_split balance age in
      let empty : Pushed p t fee 0 0 ([], 0) = (tt, refl, omega arith, omega arith, omega arith) in
      let acc1 = push p t fee n g.base_e8s ([], 0) in
      let step1 = push-Pushed p t fee 0 0 n g.base_e8s ([], 0) empty in
      let acc2 = push p t fee b1 g.bonus_recipient_1_e8s acc1 in
      let step2 = push-Pushed p t fee 1 (0 + g.base_e8s) b1 g.bonus_recipient_1_e8s acc1 step1 in
      let step3 =
        push-Pushed p t fee 2 (0 + g.base_e8s + g.bonus_recipient_1_e8s) b2 g.bonus_recipient_2_e8s
          acc2 step2 in
      (step3.0, refl, omega arith, step3.3, step3.4)

  -- Without any bound on the balance: the transfers are numbered from 0, and at most three.
  pub plan-Sequenced : Sequenced p t fee 0 plan × (length plan ≤ 3)
  plan-Sequenced = (plan-Pushed.0, plan-Pushed.2)

-- For a balance, a fee and a neuron's age: every planned transfer is above the fee and net of it,
-- they are numbered from 0 by memo and time, there are at most three, together they take no more
-- than the balance, and at most three fees' worth of it stays unplanned.
pub plan_bounds :
    (payout_id base_nanos balance fee age : ℕ) (normal_to bonus1_to bonus2_to : Account)
    → balance ≤ u64_max
    → let plan =
        (plan_payout_transfers payout_id base_nanos balance fee age normal_to bonus1_to
          bonus2_to).1 in
      Sequenced payout_id base_nanos fee 0 plan
      × (length plan ≤ 3)
      × (gross_sum plan ≤ balance)
      × (balance ≤ gross_sum plan + 3 * fee)
plan_bounds p t balance fee age n b1 b2 h =
    let pushed = plan-Pushed p t balance fee age n b1 b2 in
    let exact = (split_exact balance age h).0 in (pushed.0, pushed.2, omega arith, omega arith)
