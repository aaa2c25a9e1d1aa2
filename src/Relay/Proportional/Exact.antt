-- ===== src/Relay/Proportional/Exact.antt =====
-- The rounds hand out the whole balance, or all wishes.
use jupiter_faucet_suite.Common.{
  ap, ==_iff, ◌∙◌, subst, length, set, ℕ, suc, ◌≤◌, ◌<◌, ◌≡◌, refl, inl, inr, Bool, true, false,
  List, [], ◌∷◌, ltb, leb, ◌==◌, ◌||◌, sat_add, u64_max, arith, Bool-cases, All,
}
use jupiter_faucet_suite.Relay.Proportional.{Progress, at, bump, round, insert, sort, comes_before}
use jupiter_faucet_suite.Relay.Proportional.Rounds.{Under, sum}

bump-advanced : (ds : List ℕ) (i used : ℕ) (xs : List ℕ) → (bump ds i (xs, used, true)).2 ≡ true
bump-advanced ds i used xs = elim (Bool-cases (ltb (at xs i) (at ds i))) [
  | inl v ↦ rw v refl
  | inr v ↦ rw v refl
]

-- What a round has advanced stays advanced.
round-advanced :
    (order : List (ℕ × ℕ)) (ds : List ℕ) (available : ℕ) (p : Progress)
    → p.2 ≡ true
    → (round order ds available p).2 ≡ true
unfolding round
round-advanced [] ds available (xs, used, adv) h = h
round-advanced ((i, r) ∷ order) ds available (xs, used, adv) h =
    elim (Bool-cases (leb available used)) [
      | inl v ↦ rw v h
      | inr v ↦ rw v (round-advanced order ds available (bump ds i (xs, used, adv)) (bumped adv h))
    ]
  where
    bumped : (b : Bool) → b ≡ true → (bump ds i (xs, used, b)).2 ≡ true
    bumped true h = bump-advanced ds i used xs
    bumped false h = absurd cc

used_grows :
    (order : List (ℕ × ℕ)) (ds : List ℕ) (available : ℕ) (p : Progress)
    → available ≤ u64_max
    → p.1 ≤ (round order ds available p).1
unfolding round
used_grows [] ds available (xs, used, adv) m = omega arith
used_grows ((i, r) ∷ order) ds available (xs, used, adv) m =
    elim (Bool-cases (leb available used)) [
      | inl v ↦ rw v (omega arith)
      | inr v ↦
          let k = used_grows order ds available (bump ds i (xs, used, adv)) m in
          let g : used ≤ (bump ds i (xs, used, adv)).1 = grind (arith, v, m) in
          rw v (omega (arith, k, g))
    ]

-- A round that advances hands out at least one.
pub advancing :
    (order : List (ℕ × ℕ)) (ds : List ℕ) (available used : ℕ) (xs : List ℕ)
    → available ≤ u64_max
    → (round order ds available (xs, used, false)).2 ≡ true
    → used < (round order ds available (xs, used, false)).1
unfolding round
advancing [] ds available used xs m h = absurd cc
advancing ((i, r) ∷ order) ds available used xs m h = elim (Bool-cases (leb available used)) [
  | inl v ↦ absurd (ground (arith, v, h))
  | inr v ↦ elim (Bool-cases (ltb (at xs i) (at ds i))) [
    | inl w ↦
        let b : Progress = (set xs i (sat_add (at xs i) 1), sat_add used 1, true) in
        let q : sat_add used 1 ≤ (round order ds available b).1 =
          used_grows order ds available b m in
        let l : used < available = ground (arith, v) in rw (v, w) (omega (arith, q, l, m))
    | inr w ↦ rw (v, w) (advancing order ds available used xs m (rw (v, w) at h))
  ]
]

-- A round that does not advance finds every wish of its order granted, and changes nothing.
pub stuck :
    (order : List (ℕ × ℕ)) (ds : List ℕ) (available used : ℕ) (xs : List ℕ)
    → used < available
    → (round order ds available (xs, used, false)).2 ≡ false
    → All (λ (p : ℕ × ℕ). at ds p.0 ≤ at xs p.0) order
      × ((round order ds available (xs, used, false)).0 ≡ xs)
unfolding round
stuck [] ds available used xs m h = (tt, refl)
stuck ((i, r) ∷ order) ds available used xs m h =
    let v : leb available used ≡ false = ground (arith, m) in
    elim (Bool-cases (ltb (at xs i) (at ds i))) [
      | inl w ↦
          let b : Progress = (set xs i (sat_add (at xs i) 1), sat_add used 1, true) in
          let k : (round order ds available b).2 ≡ true =
            round-advanced order ds available b refl in
          let n : (round order ds available b).2 ≡ false = rw (v, w) at h in
          absurd (ground (arith, k, n))
      | inr w ↦
          let k = stuck order ds available used xs m (rw (v, w) at h) in
          ((ground (arith, w), k.0), rw (v, w) k.1)
    ]

-- Every position has its place in the order.
abbrev pub has : ℕ → List (ℕ × ℕ) → Bool
has i [] = false
has i ((j, r) ∷ ps) = (j == i) || has i ps

has-insert :
    (i : ℕ) (p : ℕ × ℕ) (qs : List (ℕ × ℕ)) → has i (insert p qs) ≡ ((p.0 == i) || has i qs)
has-insert i p [] = refl
has-insert i p (q ∷ qs) = elim (Bool-cases (comes_before p q)) [
  | inl v ↦ rw v refl
  | inr v ↦ rw v (let k = has-insert i p qs in ground (arith, k))
]

pub has-sort : (i : ℕ) (ps : List (ℕ × ℕ)) → has i (sort ps) ≡ has i ps
has-sort i [] = refl
has-sort i (p ∷ ps) = has-insert i p (sort ps) ∙ ap (λ b. (p.0 == i) || b) (has-sort i ps)

pub has-All :
    (P : ℕ → Type 0) (i : ℕ) (ps : List (ℕ × ℕ))
    → All (λ (p : ℕ × ℕ). P p.0) ps
    → has i ps ≡ true
    → P i
has-All P i [] a h = absurd cc
has-All P i ((j, r) ∷ ps) a h = elim (Bool-cases (j == i)) [
  | inl v ↦ subst P ((==_iff j i).0 v) a.0
  | inr v ↦ has-All P i ps a.1 (ground (arith, v, h))
]

-- Wishes that are granted at every position are granted in sum.
pub sum-granted :
    (xs ds : List ℕ) → Under xs ds → ((i : ℕ) → i < length ds → at ds i ≤ at xs i) → sum ds ≤ sum xs
sum-granted [] [] u g = omega arith
sum-granted [] (d ∷ ds) u g = absurd u
sum-granted (x ∷ xs) [] u g = absurd u
sum-granted (x ∷ xs) (d ∷ ds) u g =
    let k : sum ds ≤ sum xs = sum-granted xs ds u.2 (λ i. λ h. g (suc i) (omega arith)) in
    let z : d ≤ x = g 0 (omega arith) in omega arith
