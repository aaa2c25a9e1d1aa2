-- ===== src/Memo/Justified.antt =====
-- A memo is read only as a directive that it justifies.
use jupiter_faucet_suite.Common.{
  subst, ℕ, ◌≤◌, ◌<◌, ◌≡◌, refl, inl, inr, true, false, Option, none, some, List, [], ◌∷◌, ◌==◌,
  ◌&&◌, ◌||◌, not, leb, ltb, length, arith, Bool-cases,
}
use jupiter_faucet_suite.Memo.Soundness.{
  split_once-none, split-EndsWith, destination-Payable, declared-Payable, parsed-NeuronId, injected,
  Payable, NeuronId, Justified, EndsWith,
}
use jupiter_faucet_suite.Ledger.{Principal}
use jupiter_faucet_suite.Memo.{
  trim, is_empty, MemoDirective, Principals, all_bytes, has_byte, split_once, parse_neuron_id_text,
  parse_declared_principal_text, parse_raw_destination_text,
}
use jupiter_faucet_suite.Memo.Directive.{
  undeclared, topped, stripped, strip_event_horizon, split_memo, raw_with_memo, declared,
  parse_memo_directive,
}

raw-Justified :
    (ps : Principals) (memo text rest : List ℕ) (o : Option (Principal × Option (List ℕ)))
    (d : MemoDirective)
    → ((p : Principal) (sub : Option (List ℕ)) → o ≡ some (p, sub) → Payable ps p)
    → EndsWith memo rest
    → raw_with_memo rest o ≡ some d
    → Justified ps memo d
raw-Justified ps memo text rest none d f w h = absurd cc
raw-Justified ps memo text rest (some (p, sub)) d f w h =
    subst (Justified ps memo) (injected h) (inl (f p sub refl), w)

declared-Justified :
    (ps : Principals) (memo text rest : List ℕ) (o : Option ℕ) (d : MemoDirective)
    → ((n : ℕ) → o ≡ some n → NeuronId n)
    → EndsWith memo rest
    → declared ps text rest o ≡ some d
    → Justified ps memo d
unfolding parse_raw_destination_text
declared-Justified ps memo text rest (some n) d f w h =
    subst (Justified ps memo) (injected h) (f n refl, w)
declared-Justified ps memo text rest none d f w h =
    raw-Justified ps memo text rest (parse_raw_destination_text ps text) d
      (destination-Payable ps (trim text) (split_once 58 (trim text))) w h

topped-Justified :
    (ps : Principals) (memo : List ℕ) (o : Option Principal) (d : MemoDirective)
    → ((p : Principal) → o ≡ some p → Payable ps p)
    → has_byte 46 memo ≡ false
    → topped o ≡ some d
    → Justified ps memo d
topped-Justified ps memo none d f w h = absurd cc
topped-Justified ps memo (some p) d f w h = subst (Justified ps memo) (injected h) (f p refl, w)

undeclared-Justified :
    (ps : Principals) (memo : List ℕ) (o : Option ℕ) (d : MemoDirective)
    → ((n : ℕ) → o ≡ some n → NeuronId n)
    → has_byte 46 memo ≡ false
    → undeclared ps memo o ≡ some d
    → Justified ps memo d
undeclared-Justified ps memo (some n) d f w h = subst (Justified ps memo) (injected h) (f n refl, w)
undeclared-Justified ps memo none d f w h =
    topped-Justified ps memo (parse_declared_principal_text ps memo) d (declared-Payable ps memo) w
      h

split-Justified :
    (ps : Principals) (memo : List ℕ) (o : Option (List ℕ × List ℕ)) (d : MemoDirective)
    → split_once 46 memo ≡ o
    → split_memo ps memo o ≡ some d
    → Justified ps memo d
split-Justified ps memo (some (text, rest)) d e h =
    declared-Justified ps memo text rest (parse_neuron_id_text (trim text)) d
      (parsed-NeuronId (trim text)) (split-EndsWith memo text rest e) h
split-Justified ps memo none d e h =
    undeclared-Justified ps memo (parse_neuron_id_text (trim memo)) d (parsed-NeuronId (trim memo))
      (split_once-none 46 memo e) h

strip-EndsWith :
    (memo suffix : List ℕ) → strip_event_horizon memo ≡ some suffix → EndsWith memo suffix
strip-EndsWith [] suffix h = absurd cc
strip-EndsWith (a ∷ []) suffix h = absurd cc
strip-EndsWith (a ∷ b ∷ rest) suffix h = elim (Bool-cases (a == 69 && b == 46)) [
  | inl v ↦
      let k : some rest ≡ some suffix = rw v at h in
      let e : rest ≡ suffix = injected k in
      let ea : a ≡ 69 = ground (arith, v) in
      let eb : b ≡ 46 = ground (arith, v) in (69 ∷ [], rw (ea, eb, e) refl, refl)
  | inr v ↦ absurd (ground (arith, v, h))
]

stripped-Justified :
    (ps : Principals) (memo : List ℕ) (o : Option (List ℕ)) (d : MemoDirective)
    → strip_event_horizon memo ≡ o
    → stripped ps memo o ≡ some d
    → Justified ps memo d
stripped-Justified ps memo (some suffix) d e h = elim (Bool-cases (is_empty suffix)) [
  | inl v ↦ absurd (ground (arith, v, h))
  | inr v ↦
      let k : some (MemoDirective.raw_icp ps.event_horizon none suffix) ≡ some d = rw v at h in
      subst (Justified ps memo) (injected k) (inr refl, strip-EndsWith memo suffix e)
]
stripped-Justified ps memo none d e h = elim (Bool-cases (is_empty (trim memo))) [
  | inl v ↦ absurd (ground (arith, v, h))
  | inr v ↦ split-Justified ps memo (split_once 46 memo) d refl (rw v at h)
]

-- A memo that is read as a directive has 1 to 32 bytes, all ASCII. The directive's payee is neither
-- anonymous nor the management canister unless it is Event Horizon; a neuron's id is a positive
-- u64; and the memo that it passes on is exactly what follows the first dot, which there is only
-- then.
pub memo_directive-Justified :
    (ps : Principals) (memo : List ℕ) (d : MemoDirective)
    → parse_memo_directive ps memo ≡ some d
    → (0 < length memo)
      × (length memo ≤ 32)
      × (all_bytes (λ b. leb b 127) memo ≡ true)
      × Justified ps memo d
unfolding parse_memo_directive
memo_directive-Justified ps memo d h =
    elim (Bool-cases
      (is_empty memo || ltb 32 (length memo) || not (all_bytes (λ b. leb b 127) memo))) [
        | inl v ↦ absurd (ground (arith, v, h))
        | inr v ↦
            let k : stripped ps memo (strip_event_horizon memo) ≡ some d = rw v at h in
            (
              nonempty memo (ground (arith, v)),
              ground (arith, v),
              ground (arith, v),
              stripped-Justified ps memo (strip_event_horizon memo) d refl k,
            )
      ]
  where
    nonempty : (m : List ℕ) → is_empty m ≡ false → 0 < length m
    nonempty [] q = absurd cc
    nonempty (b ∷ bs) q = omega arith
