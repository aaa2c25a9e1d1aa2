-- ===== src/Disburser/Plan/Memo.antt =====
-- A memo tells its payout and its transfer apart from every other.
use jupiter_faucet_suite.Common.{
  length-append, ℕ, ◌≤◌, ◌≡◌, refl, List, [], ◌∷◌, ◌++◌, arith, length, be_bytes, u64_max,
  length-be_bytes, be_bytes_injective,
}
use jupiter_faucet_suite.Disburser.Plan.{build_memo}

-- Lists of one length in front are equal part by part.
append_split {ℓ} :
    {A : Type ℓ} (xs ys us vs : List A)
    → length xs ≡ length us
    → xs ++ ys ≡ us ++ vs
    → (xs ≡ us) × (ys ≡ vs)
append_split [] ys [] vs n e = (refl, e)
append_split [] ys (u ∷ us) vs n e = absurd (omega arith)
append_split (x ∷ xs) ys [] vs n e = absurd (omega arith)
append_split (x ∷ xs) ys (u ∷ us) vs n e =
    let rest = append_split xs ys us vs (omega arith) (cc) in (cc (rest.0), rest.1)

-- The memo of a payout's id and a transfer's index has 16 bytes, and two memos of u64 arguments are
-- equal only if both the payout's id and the transfer's index are.
pub memo_injective :
    (payout_id payout_id' idx idx' : ℕ)
    → payout_id ≤ u64_max
    → payout_id' ≤ u64_max
    → idx ≤ u64_max
    → idx' ≤ u64_max
    → build_memo payout_id idx ≡ build_memo payout_id' idx'
    → (length (build_memo payout_id idx) ≡ 16) × (payout_id ≡ payout_id') × (idx ≡ idx')
unfolding build_memo
memo_injective p p' i i' hp hp' hi hi' e =
    let parts =
      append_split (be_bytes 8 p) (be_bytes 8 i) (be_bytes 8 p') (be_bytes 8 i')
        (omega (arith, length-be_bytes)) e in
    (
      omega (
        arith,
        length-append (be_bytes 8 p) (be_bytes 8 i),
        length-be_bytes 8 p,
        length-be_bytes 8 i,
      ),
      be_bytes_injective 8 p p' (omega arith) (omega arith) parts.0,
      be_bytes_injective 8 i i' (omega arith) (omega arith) parts.1,
    )
