-- ===== src/Relay/Proportional/Rounds.antt =====
-- One round: it keeps the allocations under the wishes and counts what it hands out.
use jupiter_faucet_suite.Common.{
  set, ℕ, zero, suc, ◌+◌, ◌≤◌, ◌<◌, ◌≡◌, inl, inr, List, [], ◌∷◌, ltb, leb, sum_by, sat_add,
  u64_max, arith, Bool-cases,
}
use jupiter_faucet_suite.Relay.Proportional.{Progress, at, bump, round}

-- Each allocation is at most its wish, which fits in a u64.
abbrev pub Under : List ℕ → List ℕ → Type 0
Under [] [] = Unit
Under [] (d ∷ ds) = ⊥
Under (a ∷ xs) [] = ⊥
Under (a ∷ xs) (d ∷ ds) = (a ≤ d) × (d ≤ u64_max) × Under xs ds

abbrev pub sum : List ℕ → ℕ
sum xs = sum_by (λ x. x) xs

-- One more for a position that is below its wish.
set-Under :
    (xs ds : List ℕ) (i : ℕ)
    → Under xs ds
    → at xs i < at ds i
    → Under (set xs i (sat_add (at xs i) 1)) ds
      × (sum (set xs i (sat_add (at xs i) 1)) ≡ sum xs + 1)
set-Under [] [] i u h = absurd (omega arith)
set-Under [] (d ∷ ds) i u h = absurd u
set-Under (a ∷ xs) [] i u h = absurd u
set-Under (a ∷ xs) (d ∷ ds) zero u h = ((omega arith, u.1, u.2), omega arith)
set-Under (a ∷ xs) (d ∷ ds) (suc i) u h =
    let k = set-Under xs ds i u.2 h in ((u.0, u.1, k.0), omega (arith, k.1))

-- What a round keeps: the allocations are under the wishes, and `used` is their sum.
abbrev pub Sound : List ℕ → ℕ → Progress → Type 0
Sound ds available p = Under p.0 ds × (p.1 ≡ sum p.0) × (p.1 ≤ available)

bump-Sound :
    (ds : List ℕ) (available i : ℕ) (p : Progress)
    → Sound ds available p
    → p.1 < available
    → available ≤ u64_max
    → Sound ds available (bump ds i p)
bump-Sound ds available i (xs, used, adv) s h m = elim (Bool-cases (ltb (at xs i) (at ds i))) [
  | inl v ↦
      let k = set-Under xs ds i s.0 (ground (arith, v)) in
      rw v (k.0, omega (arith, k.1, s.1), omega arith)
  | inr v ↦ rw v s
]

pub round-Sound :
    (order : List (ℕ × ℕ)) (ds : List ℕ) (available : ℕ) (p : Progress)
    → Sound ds available p
    → available ≤ u64_max
    → Sound ds available (round order ds available p)
unfolding round
round-Sound [] ds available (xs, used, adv) s m = s
round-Sound ((i, r) ∷ order) ds available (xs, used, adv) s m =
    elim (Bool-cases (leb available used)) [
      | inl v ↦ rw v s
      | inr v ↦ rw v (
          round-Sound order ds available (bump ds i (xs, used, adv))
            (bump-Sound ds available i (xs, used, adv) s (ground (arith, v)) m) m)
    ]
