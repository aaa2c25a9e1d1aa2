-- ===== src/Disburser/Split/Exact.antt =====
-- The split loses nothing, rounds the way it says, and falls with the neuron's age.
use jupiter_faucet_suite.Common.{
  ℕ, ◌+◌, ◌-◌, ◌*◌, ◌/◌, ◌≤◌, ◌<◌, ◌≡◌, refl, inl, inr, arith, u64_max, as_u64, ◌==◌, Bool-cases,
}
use jupiter_faucet_suite.Disburser.Split.{
  GrossSplit, age_multiplier_fraction, compute_gross_split, div_ceil, secs_per_year,
  max_age_for_bonus_secs,
}
use Prim.Native.Nat.{min}

abbrev den : ℕ
den = 16 * secs_per_year

abbrev num : ℕ → ℕ
num age = (age_multiplier_fraction age).0

-- The multiplier lies between 1 and 1.25.
num_bounds : (age : ℕ) → (den ≤ num age) × (num age ≤ 20 * secs_per_year)
unfolding age_multiplier_fraction
num_bounds age = omega arith

div_floor : (a b : ℕ) → 0 < b → (a / b * b ≤ a) × (a < (a / b + 1) * b)
div_floor a b h = omega arith

-- The quotient by a larger denominator is no larger than the dividend's own factor.
div-le : (t d n : ℕ) → 0 < n → d ≤ n → t * d / n ≤ t
div-le t d n h le = grind (arith, div_floor (t * d) n h)

-- The cast of the base to u64 loses nothing.
base_fits :
    (total age : ℕ) → total ≤ u64_max → as_u64 (total * den / num age) ≡ total * den / num age
base_fits total age h =
    omega (arith, div-le total den (num age) (omega (arith, num_bounds age)) (num_bounds age).0)

abbrev first_bonus : ℕ → ℕ
first_bonus bonus = as_u64 (div_ceil (bonus * 95) 100)

first_bonus_bounds :
    (bonus : ℕ)
    → bonus ≤ u64_max
    → (first_bonus bonus ≤ bonus)
      × (95 * bonus ≤ 100 * first_bonus bonus)
      × (100 * first_bonus bonus ≤ 95 * bonus + 99)
first_bonus_bounds bonus h = ground arith

-- The three shares of a balance, from the floor that is their base.
abbrev SharesOf : ℕ → ℕ → GrossSplit → Type 0
SharesOf total base g =
    (g.base_e8s ≡ base)
    × (g.bonus_recipient_1_e8s ≡ first_bonus (total - base))
    × (g.bonus_recipient_2_e8s ≡ total - base - first_bonus (total - base))

compute_gross_split-SharesOf :
    (total age : ℕ)
    → total ≤ u64_max
    → SharesOf total (total * den / num age) (compute_gross_split total age)
unfolding compute_gross_split
compute_gross_split-SharesOf total age h = elim (Bool-cases (total == 0)) [
  | inl zero_total ↦ let none : total ≡ 0 = ground arith in rw none (ground arith)
  | inr positive ↦ rw (positive, base_fits total age h) (refl, refl, refl)
]

-- For every u64 balance and every age the three shares add up to the balance, the base is the floor
-- of balance * 16y / (16y + min(age, 4y)), with a year y of 365 days of 86,400 seconds, and the first
-- bonus is 95% of the bonus, rounded up.
pub split_exact :
    (total age : ℕ)
    → total ≤ u64_max
    → let g = compute_gross_split total age in
      (g.base_e8s + g.bonus_recipient_1_e8s + g.bonus_recipient_2_e8s ≡ total)
      × (g.base_e8s * (16 * 31_536_000 + min age (4 * 31_536_000)) ≤ total * (16 * 31_536_000))
      × (total * (16 * 31_536_000)
          < (g.base_e8s + 1) * (16 * 31_536_000 + min age (4 * 31_536_000)))
      × (95 * (g.bonus_recipient_1_e8s + g.bonus_recipient_2_e8s) ≤ 100 * g.bonus_recipient_1_e8s)
      × (100 * g.bonus_recipient_1_e8s
          ≤ 95 * (g.bonus_recipient_1_e8s + g.bonus_recipient_2_e8s) + 99)
unfolding age_multiplier_fraction
split_exact total age h =
    let shares = compute_gross_split-SharesOf total age h in
    let base = total * den / num age in
    let le : base ≤ total =
      div-le total den (num age) (omega (arith, num_bounds age)) (num_bounds age).0 in
    let floor = div_floor (total * den) (num age) (omega (arith, num_bounds age)) in
    let bonus = first_bonus_bounds (total - base) (omega arith) in
    rw (shares.0, shares.1, shares.2) (omega arith)

-- A larger divisor gives a smaller quotient.
div-anti : (a m n : ℕ) → 0 < m → m ≤ n → a / n ≤ a / m
div-anti a m n pm le = grind (arith, div_floor a m pm, div_floor a n (omega arith))

num_mono : (age older : ℕ) → age ≤ older → num age ≤ num older
unfolding age_multiplier_fraction
num_mono age older h = omega arith

split_clamps :
    (total age older : ℕ)
    → max_age_for_bonus_secs ≤ age
    → age ≤ older
    → compute_gross_split total older ≡ compute_gross_split total age
unfolding compute_gross_split
split_clamps total age older c le =
    let same : min older max_age_for_bonus_secs ≡ min age max_age_for_bonus_secs = omega arith in
    rw same

-- For a fixed balance the base never rises, and the bonus never falls, as the neuron ages; from
-- four years on the split does not change.
pub split_age_mono :
    (total age older : ℕ)
    → total ≤ u64_max
    → age ≤ older
    → let g = compute_gross_split total age in
      let g' = compute_gross_split total older in
      (g'.base_e8s ≤ g.base_e8s)
      × (g.bonus_recipient_1_e8s + g.bonus_recipient_2_e8s
          ≤ g'.bonus_recipient_1_e8s + g'.bonus_recipient_2_e8s)
      × (max_age_for_bonus_secs ≤ age → g' ≡ g)
split_age_mono total age older h le =
    let bases : total * den / num older ≤ total * den / num age =
      div-anti (total * den) (num age) (num older) (omega (arith, num_bounds age))
        (num_mono age older le) in
    let young = compute_gross_split-SharesOf total age h in
    let old = compute_gross_split-SharesOf total older h in
    let young_sum = (split_exact total age h).0 in
    let old_sum = (split_exact total older h).0 in
    (
      omega arith,
      omega arith,
      λ (c : max_age_for_bonus_secs ≤ age). split_clamps total age older c le,
    )
