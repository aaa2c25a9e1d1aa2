-- ===== src/Relay/Commitment/Directive.antt =====
-- The memo of the relay's commitment under the memo policy.
use jupiter_faucet_suite.Common.{
  ℕ, ◌+◌, ◌≤◌, ◌<◌, ◌≡◌, refl, true, false, none, some, List, [], ◌∷◌, ◌++◌, ◌==◌, leb, ltb, length,
  arith,
}
use jupiter_faucet_suite.Ledger.{Principal}
use jupiter_faucet_suite.Memo.{
  all_bytes, trim, with_groups, is_empty, parse_neuron_id_text, parse_raw_destination_text,
  parse_declared_principal_text, principal_text_with_group_separators, Principals, MemoDirective,
}
use jupiter_faucet_suite.Memo.Directive.{parse_memo_directive, strip_event_horizon}
use jupiter_faucet_suite.Relay.Commitment.{relay_suffix}
use jupiter_faucet_suite.Relay.Commitment.Accepted.{
  is_base32, name_splits, without_colon, without_dash, name_trimmed, not_blank,
}

-- What is known of a relay's name: its text without dashes, which group separators bring back.
pub record Named (ps : Principals) (relay : Principal) (name text : List ℕ) : Type 0 where
  pub base32 : all_bytes is_base32 name ≡ true
  pub is_long : 20 < length name
  pub fits : length name ≤ 26
  pub groups : with_groups 0 name ≡ text
  pub reads : ps.from_text text ≡ some relay
  pub not_anonymous : (relay == ps.anonymous) ≡ false
  pub not_management : (relay == ps.management_canister) ≡ false

not_neuron : (name : List ℕ) → 20 < length name → parse_neuron_id_text name ≡ none
unfolding parse_neuron_id_text
not_neuron name h = let z : ltb 20 (length name) ≡ true = ground (arith, h) in ground (arith, z)

long_not_empty : (name : List ℕ) → 20 < length name → is_empty name ≡ false
long_not_empty [] h = absurd (omega (arith, h))
long_not_empty (b ∷ bs) h = refl

pub ascii :
    (name : List ℕ)
    → all_bytes is_base32 name ≡ true
    → all_bytes (λ b. leb b 127) (name ++ relay_suffix) ≡ true
ascii [] h = refl
ascii (b ∷ bs) h = let r = ascii bs (ground (arith, h)) in ground (arith, h, r)

pub suffixed : (name : List ℕ) → length (name ++ relay_suffix) ≡ length name + 6
suffixed [] = refl
suffixed (b ∷ bs) = let r = suffixed bs in omega (arith, r)

not_event_horizon :
    (name : List ℕ)
    → all_bytes is_base32 name ≡ true
    → 20 < length name
    → strip_event_horizon (name ++ relay_suffix) ≡ none
not_event_horizon [] h l = absurd (omega (arith, l))
not_event_horizon (b ∷ []) h l = absurd (omega (arith, l))
not_event_horizon (b ∷ c ∷ bs) h l = let z : (b == 69) ≡ false = ground (arith, h) in rw z

still_not_blank :
    (name : List ℕ)
    → all_bytes is_base32 name ≡ true
    → 20 < length name
    → is_empty (trim (name ++ relay_suffix)) ≡ false
still_not_blank [] h l = absurd (omega (arith, l))
still_not_blank (b ∷ bs) h l = not_blank b (bs ++ relay_suffix) (ground (arith, h))

module _ (ps : Principals) (relay : Principal) (name text : List ℕ)
    (n : Named ps relay name text) where
  principal_reads : parse_declared_principal_text ps name ≡ some relay
  unfolding parse_declared_principal_text principal_text_with_group_separators
  principal_reads =
      let small : ltb 32 (length name) ≡ false = ground (arith, n.fits) in
      rw (
        name_trimmed name n.base32,
        long_not_empty name n.is_long,
        small,
        without_dash name n.base32,
        n.groups,
        n.reads,
        n.not_anonymous,
        n.not_management,
      )

  destination_reads : parse_raw_destination_text ps name ≡ some (relay, none)
  unfolding parse_raw_destination_text
  destination_reads = rw (name_trimmed name n.base32, without_colon name n.base32, principal_reads)

  -- The memo policy reads the name with the suffix as a transfer to the relay, with the memo "Relay".
  pub directive_reads :
      parse_memo_directive ps (name ++ relay_suffix)
      ≡ some (MemoDirective.raw_icp relay none (82 ∷ 101 ∷ 108 ∷ 97 ∷ 121 ∷ []))
  unfolding parse_memo_directive
  directive_reads =
      let nonempty : is_empty (name ++ relay_suffix) ≡ false =
        long_not_empty (name ++ relay_suffix) (omega (arith, suffixed name, n.is_long)) in
      let short : ltb 32 (length (name ++ relay_suffix)) ≡ false =
        let l = suffixed name in ground (arith, l, n.fits) in
      rw (
        nonempty,
        short,
        ascii name n.base32,
        not_event_horizon name n.base32 n.is_long,
        still_not_blank name n.base32 n.is_long,
        name_splits name (82 ∷ 101 ∷ 108 ∷ 97 ∷ 121 ∷ []) n.base32,
        name_trimmed name n.base32,
        not_neuron name n.is_long,
        destination_reads,
      )
