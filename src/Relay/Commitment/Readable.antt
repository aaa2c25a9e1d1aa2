-- ===== src/Relay/Commitment/Readable.antt =====
-- The relay's commitment plan against the faucet's reading of commitments.
use jupiter_faucet_suite.Common.{
  ℕ, ◌+◌, ◌-◌, ◌≤◌, ◌<◌, ◌≡◌, refl, true, false, none, some, List, [], ◌∷◌, ◌++◌, ◌==◌, ◌||◌, ltb,
  leb, length, arith,
}
use jupiter_faucet_suite.Ledger.{Principal}
use jupiter_faucet_suite.Memo.{all_bytes, with_groups, Principals}
use jupiter_faucet_suite.Faucet.Classify.{
  CommitmentValidity, PayoutTarget, classify_commitment, parse_payout_target_from_memo, validity_of,
  with_memo,
}
use jupiter_faucet_suite.Relay.Commitment.{
  FaucetCommitmentPlan, PlanOrSkip, build_faucet_commitment_plan, relay_faucet_commitment_memo,
  without_dashes, relay_suffix,
}
use jupiter_faucet_suite.Relay.Commitment.Accepted.{is_text_byte, without_dashes-base32}
use jupiter_faucet_suite.Relay.Commitment.Directive.{Named, directive_reads, ascii, suffixed}

-- The faucet's reading of a plan.
abbrev pub read_by_faucet : Principals → ℕ → FaucetCommitmentPlan → CommitmentValidity
read_by_faucet ps min_tx plan =
    classify_commitment ps min_tx
      (record { amount_e8s = plan.amount_e8s; memo_bytes = some plan.memo })

abbrev pub relay_target : Principal → CommitmentValidity
relay_target relay =
    CommitmentValidity.valid (PayoutTarget.raw_icp relay none (82 ∷ 101 ∷ 108 ∷ 97 ∷ 121 ∷ []))

memo_fits :
    (ps : Principals) (relay : Principal) (text : List ℕ)
    → Named ps relay (without_dashes text) text
    → relay_faucet_commitment_memo text ≡ some (without_dashes text ++ relay_suffix)
unfolding relay_faucet_commitment_memo
memo_fits ps relay text n =
    let short : ltb 32 (length (without_dashes text ++ relay_suffix)) ≡ false =
      let l = suffixed (without_dashes text) in ground (arith, l, n.fits) in
    rw (ascii (without_dashes text) n.base32, short)

with_memo_lem :
    (ps : Principals) (memo : List ℕ)
    → 0 < length memo
    → with_memo ps (some memo) ≡ validity_of (parse_payout_target_from_memo ps memo)
with_memo_lem ps [] h = absurd (omega (arith, h))
with_memo_lem ps (b ∷ bs) h = refl

classified :
    (ps : Principals) (relay : Principal) (name text : List ℕ) (min_tx amount : ℕ)
    → Named ps relay name text
    → min_tx ≤ amount
    → classify_commitment ps min_tx
        (record { amount_e8s = amount; memo_bytes = some (name ++ relay_suffix) })
      ≡ relay_target relay
unfolding classify_commitment parse_payout_target_from_memo
classified ps relay name text min_tx amount n h =
    let z : ltb amount min_tx ≡ false = ground (arith, h) in
    rw (
      z,
      with_memo_lem ps (name ++ relay_suffix) (omega (arith, suffixed name)),
      directive_reads ps relay name text n,
    )

-- For a relay whose principal's text has 23 letters and digits of base 32 in groups of five, as a
-- canister's has, and is read back as the relay, which is neither the anonymous principal nor the
-- management canister: with a balance of at least 1 ICP above the fee there is a commitment plan, it
-- stakes the whole balance less the fee, and from the faucet's least amount on the faucet reads it
-- as a commitment that pays ICP to the relay with the memo "Relay".
pub commitment_is_read :
    (ps : Principals) (relay : Principal) (text : List ℕ)
    (governance staking balance fee min_tx : ℕ)
    → all_bytes is_text_byte text ≡ true
    → length (without_dashes text) ≡ 23
    → with_groups 0 (without_dashes text) ≡ text
    → ps.from_text text ≡ some relay
    → (relay == ps.anonymous) ≡ false
    → (relay == ps.management_canister) ≡ false
    → fee + 100_000_000 ≤ balance
    → min_tx + fee ≤ balance
    → (plan : FaucetCommitmentPlan) × (build_faucet_commitment_plan relay text governance staking
          balance fee
        ≡ PlanOrSkip.planned plan)
      × (plan.amount_e8s + fee ≡ balance)
      × (plan.source_account ≡ record { owner = relay; subaccount = 1 })
      × (read_by_faucet ps min_tx plan ≡ relay_target relay)
unfolding build_faucet_commitment_plan
commitment_is_read ps relay text governance staking balance fee min_tx bytes len groups reads anon
      mgmt rich least =
    let n : Named ps relay (without_dashes text) text = record {
      base32 = without_dashes-base32 text bytes;
      is_long = omega (arith, len);
      fits = omega (arith, len);
      groups = groups;
      reads = reads;
      not_anonymous = anon;
      not_management = mgmt;
    } in
    let funded : (balance == 0) ≡ false = ground (arith, rich) in
    let above : (leb balance fee || ltb (balance - fee) 100_000_000) ≡ false =
      ground (arith, rich) in
    (
      record {
        source_account = record { owner = relay; subaccount = 1 };
        destination_account = record { owner = governance; subaccount = staking };
        balance_start_e8s = balance;
        fee_e8s = fee;
        amount_e8s = balance - fee;
        memo = without_dashes text ++ relay_suffix;
      },
      rw (funded, above, memo_fits ps relay text n),
      omega (arith, rich),
      refl,
      classified ps relay (without_dashes text) text min_tx (balance - fee) n
          (omega (arith, least)),
    )
