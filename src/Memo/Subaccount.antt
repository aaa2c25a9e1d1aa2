-- ===== src/Memo/Subaccount.antt =====
-- Numbered subaccounts and their numbers.
use jupiter_faucet_suite.Common.{
  ==_iff, from_be_bytes-bound, ◌^◌, subst, be_bytes-from_be_bytes, ◌≤◌, ◌≤◌, ◌≤◌, ◌≤◌, ◌≤◌, ◌≤◌,
  ◌≤◌, ◌≤◌, ◌≤◌, ◌≤◌, ◌≤◌, ◌≤◌, ◌≤◌, ◌≤◌, All, ℕ, ◌+◌, ◌-◌, ◌*◌, ◌≤◌, ◌<◌, ◌≡◌, refl, sym, ap, ◌∙◌,
  inl, inr, true, false, Option, none, some, List, [], ◌∷◌, ◌++◌, ◌==◌, unwrap_or, length,
  replicate, be_bytes, from_be_bytes, from_be_bytes-be_bytes, u64_max, arith, Bool-cases,
}
use jupiter_faucet_suite.Memo.Soundness.{injected}
use jupiter_faucet_suite.Memo.{
  nonzero, drop_bytes, take_bytes, numbered_subaccount, numbered_subaccount_number, all_bytes,
}

-- The default subaccount, which `numbered_subaccount` leaves out.
abbrev pub zeros : List ℕ
zeros = replicate 32 0

split_at-24 : (bs : List ℕ) → take_bytes 24 bs ++ drop_bytes 24 bs ≡ bs
split_at-24 bs = parts 24 bs
  where
    parts : (n : ℕ) (bs : List ℕ) → take_bytes n bs ++ drop_bytes n bs ≡ bs
    parts n [] = refl
    parts n (b ∷ bs) = elim (Bool-cases (n == 0)) [
      | inl v ↦ rw v refl
      | inr v ↦ rw v (ap (λ (t : List ℕ). b ∷ t) (parts (n - 1) bs))
    ]

length-take : (n : ℕ) (bs : List ℕ) → n ≤ length bs → length (take_bytes n bs) ≡ n
length-take n [] h = omega arith
length-take n (b ∷ bs) h = elim (Bool-cases (n == 0)) [
  | inl v ↦ rw v (ground (arith, v))
  | inr v ↦
      let k : length (take_bytes (n - 1) bs) ≡ n - 1 =
        length-take (n - 1) bs (ground (arith, v, h)) in
      rw v (ground (arith, v, k))
]

length-drop : (n : ℕ) (bs : List ℕ) → length (drop_bytes n bs) ≡ length bs - n
length-drop n [] = omega arith
length-drop n (b ∷ bs) = elim (Bool-cases (n == 0)) [
  | inl v ↦ rw v (ground (arith, v))
  | inr v ↦
      let k : length (drop_bytes (n - 1) bs) ≡ length bs - (n - 1) = length-drop (n - 1) bs in
      rw v (ground (arith, v, k))
]

All-drop : (P : ℕ → Type 0) (n : ℕ) (bs : List ℕ) → All P bs → All P (drop_bytes n bs)
All-drop P n [] h = h
All-drop P n (b ∷ bs) h = elim (Bool-cases (n == 0)) [
  | inl v ↦ rw v h
  | inr v ↦ rw v (All-drop P (n - 1) bs h.1)
]

zero_bytes : (bs : List ℕ) → all_bytes (λ b. b == 0) bs ≡ true → bs ≡ replicate (length bs) 0
zero_bytes [] h = refl
zero_bytes (b ∷ bs) h =
    let e : b ≡ 0 = ground (arith, h) in
    let t : bs ≡ replicate (length bs) 0 = zero_bytes bs (ground (arith, h)) in
    ap (λ (x : ℕ). x ∷ bs) e ∙ ap (λ (xs : List ℕ). 0 ∷ xs) t

take_none : (xs : List ℕ) → take_bytes 0 xs ≡ []
take_none [] = refl
take_none (x ∷ xs) = refl

drop_none : (xs : List ℕ) → drop_bytes 0 xs ≡ xs
drop_none [] = refl
drop_none (x ∷ xs) = refl

-- The bytes of an optional number, the default subaccount without one.
abbrev pub bytes_of : Option ℕ → List ℕ
bytes_of none = zeros
bytes_of (some n) = unwrap_or (numbered_subaccount n) zeros

number_of_numbered :
    (n : ℕ) → 0 < n → n ≤ u64_max → numbered_subaccount_number (bytes_of (some n)) ≡ some (some n)
unfolding numbered_subaccount numbered_subaccount_number
number_of_numbered n p h =
    let z : (n == 0) ≡ false = ground (arith, p) in
    let d : from_be_bytes 0 (be_bytes 8 n) ≡ n = from_be_bytes-be_bytes 8 n (omega arith) in
    rw (z, take_none (be_bytes 8 n), drop_none (be_bytes 8 n), d) (ground (arith, z))

number_of_zeros : numbered_subaccount_number zeros ≡ some none
unfolding numbered_subaccount_number from_be_bytes
number_of_zeros = refl

-- The bytes are 24 zeros and the digits of their number.
digits_of :
    (bs : List ℕ)
    → length bs ≡ 32
    → All (λ b. b < 256) bs
    → all_bytes (λ b. b == 0) (take_bytes 24 bs) ≡ true
    → (bs ≡ replicate 24 0 ++ be_bytes 8 (from_be_bytes 0 (drop_bytes 24 bs)))
      × (from_be_bytes 0 (drop_bytes 24 bs) ≤ u64_max)
unfolding be_bytes
digits_of bs l a z =
    let n : ℕ = from_be_bytes 0 (drop_bytes 24 bs) in
    let lt : length (take_bytes 24 bs) ≡ 24 = length-take 24 bs (omega arith) in
    let ld : length (drop_bytes 24 bs) ≡ 8 = omega (arith, length-drop 24 bs) in
    let ad : All (λ b. b < 256) (drop_bytes 24 bs) = All-drop (λ b. b < 256) 24 bs a in
    let e : be_bytes (length (drop_bytes 24 bs) + 0) n ≡ be_bytes 0 0 ++ drop_bytes 24 bs =
      be_bytes-from_be_bytes 0 0 (drop_bytes 24 bs) ad in
    let e8 : be_bytes 8 n ≡ drop_bytes 24 bs =
      subst (λ k. be_bytes (k + 0) n ≡ drop_bytes 24 bs) ld e in
    let t : take_bytes 24 bs ≡ replicate 24 0 =
      zero_bytes (take_bytes 24 bs) z ∙ ap (λ k. replicate k 0) lt in
    let b : n < 1 * 256 ^ length (drop_bytes 24 bs) = from_be_bytes-bound 0 (drop_bytes 24 bs) ad in
    let b8 : n < 1 * 256 ^ 8 = subst (λ k. n < 1 * 256 ^ k) ld b in
    (
      sym (split_at-24 bs)
          ∙ ap (λ xs. xs ++ drop_bytes 24 bs) t
          ∙ ap (λ xs. replicate 24 0 ++ xs) (sym e8),
      omega arith,
    )

nonzero_bytes : (n : ℕ) → bytes_of (nonzero (some n)) ≡ replicate 24 0 ++ be_bytes 8 n
unfolding numbered_subaccount be_bytes
nonzero_bytes n = elim (Bool-cases (n == 0)) [
  | inl w ↦ rw ((==_iff n 0).0 w) refl
  | inr w ↦ rw (w, w) refl
]

number_to_bytes :
    (bs : List ℕ) (m : Option ℕ)
    → length bs ≡ 32
    → All (λ b. b < 256) bs
    → numbered_subaccount_number bs ≡ some m
    → bytes_of m ≡ bs
unfolding numbered_subaccount_number
number_to_bytes bs m l a h = elim (Bool-cases (all_bytes (λ b. b == 0) (take_bytes 24 bs))) [
  | inr v ↦ absurd (ground (arith, v, h))
  | inl v ↦
      let k : some (nonzero (some (from_be_bytes 0 (drop_bytes 24 bs)))) ≡ some m = rw v at h in
      sym (ap bytes_of (injected k))
      ∙ nonzero_bytes (from_be_bytes 0 (drop_bytes 24 bs))
      ∙ sym (digits_of bs l a v).0
]

-- The subaccount of a positive u64 reads back as that number; and 32 bytes that read as a number,
-- or as the default subaccount, are that number's subaccount, or the default one.
pub subaccount_round_trip :
    (n : ℕ) (bs : List ℕ) (m : Option ℕ)
    → 0 < n
    → n ≤ u64_max
    → length bs ≡ 32
    → All (λ b. b < 256) bs
    → numbered_subaccount_number bs ≡ some m
    → (numbered_subaccount_number (bytes_of (some n)) ≡ some (some n)) × (bytes_of m ≡ bs)
subaccount_round_trip n bs m p h l a e = (number_of_numbered n p h, number_to_bytes bs m l a e)
