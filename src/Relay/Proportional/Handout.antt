-- ===== src/Relay/Proportional/Handout.antt =====
-- The whole allocation.
use jupiter_faucet_suite.Common.{
  sym, ◌∙◌, subst, All, ℕ, zero, suc, ◌+◌, ◌-◌, ◌*◌, ◌≤◌, ◌<◌, ◌≡◌, refl, ◌⊎◌, inl, inr, true,
  false, List, [], ◌∷◌, map, ltb, ◌==◌, if◌then◌else◌, sat_add, sat_mul128, u64_max, arith,
  Bool-cases, length, div_floor,
}
use jupiter_faucet_suite.Relay.Proportional.{
  at, round, rounds, sort, remainders, floor_share, first_of, sat_sum,
  proportional_topup_gross_allocations,
}
use jupiter_faucet_suite.Relay.Proportional.Rounds.{Under, sum, Sound, round-Sound}
use jupiter_faucet_suite.Relay.Proportional.Exact.{
  stuck, advancing, sum-granted, has, has-sort, has-All,
}

Under-sum : (xs ds : List ℕ) → Under xs ds → sum xs ≤ sum ds
Under-sum [] [] u = omega arith
Under-sum [] (d ∷ ds) u = absurd u
Under-sum (x ∷ xs) [] u = absurd u
Under-sum (x ∷ xs) (d ∷ ds) u = omega (arith, Under-sum xs ds u.2, u.0)

-- Under the wishes, within the balance, and one of the two exhausted.
abbrev pub Spent : List ℕ → ℕ → List ℕ → Type 0
Spent ds available r = Under r ds × (sum r ≤ available) × ((sum r ≡ available) ⊎ (sum r ≡ sum ds))

-- The end of a round: it goes on, or nothing is left to grant.
settled :
    (order : List (ℕ × ℕ)) (ds : List ℕ) (available : ℕ) (xs : List ℕ) (used : ℕ) (rest : List ℕ)
    → Under xs ds
    → used ≡ sum xs
    → used < available
    → ((i : ℕ) → i < length ds → has i order ≡ true)
    → ((round order ds available (xs, used, false)).2 ≡ true → Spent ds available rest)
    → Spent ds available (
        if (round order ds available (xs, used, false)).2
        then rest
        else (round order ds available (xs, used, false)).0)
settled order ds available xs used rest u e l c next =
    elim (Bool-cases (round order ds available (xs, used, false)).2) [
      | inl a ↦ rw a (next a)
      | inr a ↦
          let k = stuck order ds available used xs l a in
          let full : sum ds ≤ sum xs =
            sum-granted xs ds u
              (λ i. λ hi. has-All (λ (j : ℕ). at ds j ≤ at xs j) i order k.0 (c i hi)) in
          rw a (
            subst (Spent ds available) (sym k.1)
              (u, omega arith, inr (omega (arith, full, Under-sum xs ds u))))
    ]

rounds-Spent :
    (fuel : ℕ) (order : List (ℕ × ℕ)) (ds : List ℕ) (available : ℕ) (xs : List ℕ) (used : ℕ)
    → Under xs ds
    → used ≡ sum xs
    → used ≤ available
    → available ≤ u64_max
    → available ≤ used + fuel
    → ((i : ℕ) → i < length ds → has i order ≡ true)
    → Spent ds available (rounds fuel order ds available xs used)
unfolding rounds
rounds-Spent zero order ds available xs used u e h m f c = (u, omega arith, inl (omega arith))
rounds-Spent (suc fuel) order ds available xs used u e h m f c =
    let k : Sound ds available (round order ds available (xs, used, false)) =
      round-Sound order ds available (xs, used, false) (u, e, h) m in
    elim (Bool-cases (ltb used available)) [
      | inr v ↦
          rw v (u, omega arith, inl (let q : available ≤ used = ground (arith, v) in omega arith))
      | inl v ↦ rw v (
          settled order ds available xs used _ u e (ground (arith, v)) c (λ a.
            let g : used < (round order ds available (xs, used, false)).1 =
              advancing order ds available used xs m a in
            rounds-Spent fuel order ds available _ _ k.0 k.1 k.2 m (omega (arith, g)) c))
    ]

-- The floors of all wishes fit in the balance.
floors-Under :
    (total available : ℕ) (ds : List ℕ)
    → All (λ d. d ≤ u64_max) ds
    → Under (map first_of (map (floor_share total available) ds)) ds
unfolding floor_share
floors-Under total available [] h = tt
floors-Under total available (d ∷ ds) h = (floored, h.0, floors-Under total available ds h.1)
  where
    floored : first_of (floor_share total available d) ≤ d
    floored = elim (Bool-cases (d == 0)) [ inl v ↦ rw v (omega arith) | inr v ↦ rw v (omega arith) ]

floor_times_total :
    (total available d : ℕ)
    → 0 < total
    → first_of (floor_share total available d) * total ≤ available * d
unfolding floor_share
floor_times_total total available d h = elim (Bool-cases (d == 0)) [
  | inl v ↦ rw v (omega arith)
  | inr v ↦ rw v (grind (arith, div_floor (sat_mul128 available d) total h))
]

floors_times_total :
    (total available : ℕ) (ds : List ℕ)
    → 0 < total
    → sum (map first_of (map (floor_share total available) ds)) * total ≤ available * sum ds
floors_times_total total available [] h = omega arith
floors_times_total total available (d ∷ ds) h =
    omega (arith, floor_times_total total available d h, floors_times_total total available ds h)

floors_fit :
    (available : ℕ) (ds : List ℕ)
    → 0 < sum ds
    → sum (map first_of (map (floor_share (sum ds) available) ds)) ≤ available
floors_fit available ds h = grind (arith, floors_times_total (sum ds) available ds h)

pub sat_sum-exact : (acc : ℕ) (xs : List ℕ) → acc + sum xs ≤ u64_max → sat_sum acc xs ≡ acc + sum xs
unfolding sat_sum
sat_sum-exact acc [] h = omega arith
sat_sum-exact acc (x ∷ xs) h =
    let e : sat_add acc x ≡ acc + x = omega arith in
    rw e (omega (arith, sat_sum-exact (acc + x) xs (omega arith)))

has-remainders :
    (i k : ℕ) (fs : List (ℕ × ℕ)) → i < length fs → has (k + i) (remainders k fs) ≡ true
has-remainders i k [] h = absurd (omega arith)
has-remainders zero k ((share, r) ∷ fs) h = ground arith
has-remainders (suc i) k ((share, r) ∷ fs) h =
    let ih : has (k + 1 + i) (remainders (k + 1) fs) ≡ true =
      has-remainders i (k + 1) fs (omega arith) in
    let e : k + 1 + i ≡ k + suc i = omega arith in
    let ih' : has (k + suc i) (remainders (k + 1) fs) ≡ true =
      subst (λ j. has j (remainders (k + 1) fs) ≡ true) e ih in
    ground (arith, ih')

length-map : (f : ℕ → ℕ × ℕ) (xs : List ℕ) → length (map f xs) ≡ length xs
length-map f [] = refl
length-map f (x ∷ xs) = omega (arith, length-map f xs)

zero_add : (i : ℕ) → 0 + i ≡ i
zero_add i = omega arith

-- For wishes that fit in u64, also in sum, and are not all zero: every allocation is at most its
-- wish, together they stay within the balance, and either the balance is handed out to the last
-- e8 or every wish is granted in full.
pub allocation-Spent :
    (ds : List ℕ) (available : ℕ)
    → All (λ d. d ≤ u64_max) ds
    → 0 < sum ds
    → sum ds ≤ u64_max
    → available ≤ u64_max
    → Spent ds available (proportional_topup_gross_allocations ds (sum ds) available)
unfolding proportional_topup_gross_allocations
allocation-Spent ds available a p t m =
    let fs : List (ℕ × ℕ) = map (floor_share (sum ds) available) ds in
    let xs : List ℕ = map first_of fs in
    let u : Under xs ds = floors-Under (sum ds) available ds a in
    let fit : sum xs ≤ available = floors_fit available ds p in
    let e : sat_sum 0 xs ≡ 0 + sum xs = sat_sum-exact 0 xs (omega arith) in
    rounds-Spent (available - sat_sum 0 xs) (sort (remainders 0 fs)) ds available xs (sat_sum 0 xs)
      u (omega arith) (omega arith) m (omega arith)
      (λ i. λ h.
        has-sort i (remainders 0 fs)
        ∙ subst (λ j. has j (remainders 0 fs) ≡ true) (zero_add i)
            (has-remainders i 0 fs
              (omega (arith, h, length-map (floor_share (sum ds) available) ds))))
