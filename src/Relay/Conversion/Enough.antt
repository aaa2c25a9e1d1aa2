-- ===== src/Relay/Conversion/Enough.antt =====
-- A top-up pays for what was burnt and its headroom, and for no e8 more than it takes.
use jupiter_faucet_suite.Common.{
  leb, ◌⊎◌, ℕ, ◌+◌, ◌-◌, ◌*◌, ◌^◌, ◌≤◌, ◌<◌, ◌≡◌, inl, inr, arith, ◌==◌, ◌||◌, min, sat_add128,
  sat_mul128, u64_max, u128_max, Bool-cases, div_floor,
}
use jupiter_faucet_suite.Relay.Conversion.{
  ConversionEstimate, compute_burn, ceil_div, target_topup_cycles, topup_net_e8s,
}

-- The least number whose product with the denominator reaches the numerator.
ceil_div_lem :
    (n d : ℕ) → 0 < d → n + d ≤ u128_max → (n ≤ ceil_div n d * d) × (ceil_div n d * d < n + d)
unfolding ceil_div
ceil_div_lem n d positive fits = elim (Bool-cases (n == 0)) [
  | inl none ↦ rw none (ground arith)
  | inr some_cycles ↦
      let exact : sat_add128 n (d - 1) ≡ n + (d - 1) = omega arith in
      rw (some_cycles, exact) (grind (arith, div_floor (n + (d - 1)) d positive))
]

target_bounds :
    (burn : ℕ)
    → burn * 101 + 100 ≤ u128_max
    → (burn * 101 ≤ target_topup_cycles burn * 100)
      × (target_topup_cycles burn * 100 < burn * 101 + 100)
unfolding target_topup_cycles
target_bounds burn fits =
    let exact : sat_mul128 burn 101 ≡ burn * 101 = omega arith in
    rw exact (ceil_div_lem (burn * 101) 100 (omega arith) fits)

quotient_le : (c m d : ℕ) → c * d < m * d + d → c ≤ m
quotient_le c m d h = grind arith

net_bounds :
    (target : ℕ) (estimate : ConversionEstimate)
    → 0 < estimate.cycles_per_e8
    → target + estimate.cycles_per_e8 ≤ u128_max
    → target ≤ u64_max * estimate.cycles_per_e8
    → (target ≤ topup_net_e8s target estimate * estimate.cycles_per_e8)
      × (topup_net_e8s target estimate * estimate.cycles_per_e8 < target + estimate.cycles_per_e8)
unfolding topup_net_e8s
net_bounds target estimate positive fits affordable =
    let d : ℕ = estimate.cycles_per_e8 in
    let (low, high) = ceil_div_lem target d positive fits in
    elim (Bool-cases (target == 0 || d == 0)) [
      | inl none ↦ rw none (ground arith)
      | inr some_cycles ↦
          let fits_word : ceil_div target d ≤ u64_max =
            quotient_le (ceil_div target d) u64_max d (omega arith) in
          let uncapped : min (ceil_div target d) u64_max ≡ ceil_div target d = omega arith in
          rw (some_cycles, uncapped) (low, high)
    ]

-- For cycle counts up to 10^36 and a positive u64 rate at which the target's price fits in u64: the
-- burn is what was there before and came in less what is there now, and 0 where more is there; the target is the burn and one
-- percent, rounded up; and the e8s bought reach the target at the rate, but would not with one less.
pub topup_is_enough :
    (previous minted current : ℕ) (estimate : ConversionEstimate)
    → previous + minted ≤ 10 ^ 36
    → 0 < estimate.cycles_per_e8
    → estimate.cycles_per_e8 ≤ u64_max
    → target_topup_cycles (compute_burn previous minted current) ≤ u64_max * estimate.cycles_per_e8
    → let burn = compute_burn previous minted current in
      let target = target_topup_cycles burn in
      let net = topup_net_e8s target estimate in
      (((current ≤ previous + minted) × (current + burn ≡ previous + minted))
        ⊎ ((previous + minted < current) × (burn ≡ 0)))
      × (burn * 101 ≤ target * 100)
      × (target * 100 < burn * 101 + 100)
      × (target ≤ net * estimate.cycles_per_e8)
      × (net * estimate.cycles_per_e8 < target + estimate.cycles_per_e8)
unfolding compute_burn
topup_is_enough previous minted current estimate bounded positive word affordable =
    let exact : sat_add128 previous minted ≡ previous + minted = omega arith in
    let burn : ℕ = compute_burn previous minted current in
    let (low, high) = target_bounds burn (omega arith) in
    let burnt : ((current ≤ previous + minted) × (current + burn ≡ previous + minted))
        ⊎ ((previous + minted < current) × (burn ≡ 0)) =
      elim (Bool-cases (leb current (previous + minted))) [
        | inl less ↦ inl (ground (arith, less), rw exact (ground (arith, less)))
        | inr more ↦ inr (ground (arith, more), rw exact (ground (arith, more)))
      ] in
    let (reached, tight) =
      net_bounds (target_topup_cycles burn) estimate positive (omega arith) affordable in
    (burnt, low, high, reached, tight)
