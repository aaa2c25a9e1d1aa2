-- ===== src/Faucet/Shares/Weight.antt =====
-- How much of a commitment counts in a round.
use jupiter_faucet_suite.Common.{
  ℕ, ◌+◌, ◌-◌, ◌*◌, ◌/◌, ◌≤◌, ◌<◌, ◌≡◌, ◌⊎◌, inl, inr, false, arith, ◌==◌, leb, sat_mul128, u64_max,
  Bool-cases, div_floor, words_product, div_mono, part_le,
}
use jupiter_faucet_suite.Faucet.Shares.{compute_weighted_amount_e8s}

mul_later : (a x y : ℕ) → x ≤ y → a * x ≤ a * y
mul_later a x y le = grind arith

-- The amount strictly inside the round.
inside :
    (raw s e t : ℕ)
    → raw ≤ u64_max
    → e ≤ u64_max
    → s < t
    → t < e
    → compute_weighted_amount_e8s raw s e t ≡ raw * (e - t) / (e - s)
unfolding compute_weighted_amount_e8s
inside raw s e t hr he st te = elim (Bool-cases (raw == 0)) [
  | inl zero_raw ↦ let none : raw ≡ 0 = ground arith in rw none (omega arith)
  | inr positive ↦
      let open_round : leb e s ≡ false = ground arith in
      let started : leb t s ≡ false = ground arith in
      let unended : leb e t ≡ false = ground arith in
      let fits : sat_mul128 raw (e - t) ≡ raw * (e - t) =
        omega (arith, words_product raw (e - t) hr (omega arith)) in
      rw (positive, open_round, started, unended, fits)
        (omega (arith, part_le raw (e - t) (e - s) (omega arith) (omega arith)))
]

module _ (raw s e : ℕ) (hr : raw ≤ u64_max) (se : s < e) (he : e ≤ u64_max) where
  in_full : (t : ℕ) → t ≤ s → compute_weighted_amount_e8s raw s e t ≡ raw
  unfolding compute_weighted_amount_e8s
  in_full t ts = ground arith

  pub not_at_all : (t : ℕ) → e ≤ t → compute_weighted_amount_e8s raw s e t ≡ 0
  unfolding compute_weighted_amount_e8s
  not_at_all t et = ground arith

  between :
      (t : ℕ)
      → s < t
      → t < e
      → (compute_weighted_amount_e8s raw s e t * (e - s) ≤ raw * (e - t))
        × (raw * (e - t) < (compute_weighted_amount_e8s raw s e t + 1) * (e - s))
  between t st te =
      rw (inside raw s e t hr he st te) (div_floor (raw * (e - t)) (e - s) (omega arith))

  at_most : (t : ℕ) → compute_weighted_amount_e8s raw s e t ≤ raw
  at_most t = elim (Bool-cases (leb t s)) [
    | inl started ↦ omega (arith, in_full t (ground arith))
    | inr later ↦ elim (Bool-cases (leb e t)) [
      | inl over ↦ omega (arith, not_at_all t (ground arith))
      | inr within ↦
          rw (inside raw s e t hr he (ground arith) (ground arith))
            (part_le raw (e - t) (e - s) (omega arith) (ground arith))
    ]
  ]

  pub falling :
      (t t' : ℕ)
      → t ≤ t'
      → compute_weighted_amount_e8s raw s e t' ≤ compute_weighted_amount_e8s raw s e t
  falling t t' tt' = elim (Bool-cases (leb t s)) [
    | inl started ↦ omega (arith, in_full t (ground arith), at_most t')
    | inr later ↦ elim (Bool-cases (leb e t')) [
      | inl over ↦ omega (arith, not_at_all t' (ground arith))
      | inr within ↦
          let after : s < t = ground arith in
          let before : t' < e = ground arith in
          rw
            (
              inside raw s e t hr he after (omega arith),
              inside raw s e t' hr he (omega arith) before,
            )
            (div_mono (raw * (e - t')) (raw * (e - t)) (e - s) (omega arith)
              (mul_later raw (e - t') (e - t) (omega arith)))
    ]
  ]

closed_round : (raw s e t : ℕ) → e ≤ s → compute_weighted_amount_e8s raw s e t ≡ 0
unfolding compute_weighted_amount_e8s
closed_round raw s e t h = ground arith

pub running_round :
    (raw s e : ℕ)
    → raw ≤ u64_max
    → s < e
    → e ≤ u64_max
    → (t : ℕ)
    → let weighted = compute_weighted_amount_e8s raw s e t in
      (((e ≤ s) × (weighted ≡ 0))
        ⊎ ((s < e) × (t ≤ s) × (weighted ≡ raw))
        ⊎ ((s < e) × (e ≤ t) × (weighted ≡ 0))
        ⊎ ((s < t)
            × (t < e)
            × (weighted * (e - s) ≤ raw * (e - t))
            × (raw * (e - t) < (weighted + 1) * (e - s))))
running_round raw s e hr se he t = elim (Bool-cases (leb t s)) [
  | inl started ↦
      inr (inl (se, ground (arith, started), in_full raw s e hr se he t (ground (arith, started))))
  | inr after ↦ elim (Bool-cases (leb e t)) [
    | inl over ↦
        inr (
          inr
            (inl (se, ground (arith, over), not_at_all raw s e hr se he t (ground (arith, over)))))
    | inr within ↦
        let (low, high) =
          between raw s e hr se he t (ground (arith, after)) (ground (arith, within)) in
        inr (inr (inr (ground (arith, after), ground (arith, within), low, high)))
  ]
]

-- For a u64 amount and a round whose end is in u64: in a round that ends no later than it starts
-- nothing counts. In any other, a commitment that takes effect by the round's start counts in full
-- and one from its end on not at all; in between it counts by the rest of the round that it takes
-- part in, rounded down. In both, taking effect later never counts for more.
pub weighted_amount_exact :
    (raw s e t t' : ℕ)
    → raw ≤ u64_max
    → e ≤ u64_max
    → t ≤ t'
    → let weighted = compute_weighted_amount_e8s raw s e t in
      (((e ≤ s) × (weighted ≡ 0))
        ⊎ ((s < e) × (t ≤ s) × (weighted ≡ raw))
        ⊎ ((s < e) × (e ≤ t) × (weighted ≡ 0))
        ⊎ ((s < t)
            × (t < e)
            × (weighted * (e - s) ≤ raw * (e - t))
            × (raw * (e - t) < (weighted + 1) * (e - s))))
      × (compute_weighted_amount_e8s raw s e t' ≤ weighted)
weighted_amount_exact raw s e t t' hr he later = elim (Bool-cases (leb e s)) [
  | inl closed ↦
      let none : compute_weighted_amount_e8s raw s e t ≡ 0 =
        closed_round raw s e t (ground (arith, closed)) in
      let none' : compute_weighted_amount_e8s raw s e t' ≡ 0 =
        closed_round raw s e t' (ground (arith, closed)) in
      (inl (ground (arith, closed), none), omega arith)
  | inr running ↦
      let se : s < e = ground (arith, running) in
      (running_round raw s e hr se he t, falling raw s e hr se he t t' later)
]
