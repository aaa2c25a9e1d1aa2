-- ===== src/Memo/Soundness.antt =====
-- What a parsed memo can ask for.
use jupiter_faucet_suite.Common.{
  unwrap_or, ==_iff, ℕ, ◌≤◌, ◌≡◌, ◌≢◌, refl, sym, ap, ◌⊎◌, inl, inr, false, Option, none, some,
  List, [], ◌∷◌, ◌++◌, ◌==◌, ◌||◌, not, ltb, length, u64_max, arith, Bool-cases,
}
use jupiter_faucet_suite.Ledger.{Principal}
use jupiter_faucet_suite.Memo.{
  is_ascii_whitespace, destination_of, both, is_ascii_digit, with_first, max_neuron_id_memo_bytes,
  max_target_canister_memo_bytes, trim, nonzero, is_empty, allowed, MemoDirective, Principals,
  all_bytes, has_byte, split_once, parse_neuron_id_text, parse_u64, parse_declared_principal_text,
}

-- A principal that is neither anonymous nor the management canister.
abbrev pub Payable : Principals → Principal → Type 0
Payable ps p = (p ≢ ps.anonymous) × (p ≢ ps.management_canister)

-- The memo is a text without a dot, a dot, and `rest`.
abbrev pub EndsWith : List ℕ → List ℕ → Type 0
EndsWith memo rest = (text : List ℕ) × (memo ≡ text ++ 46 ∷ rest) × (has_byte 46 text ≡ false)

abbrev pub NeuronId : ℕ → Type 0
NeuronId n = (n ≢ 0) × (n ≤ u64_max)

-- What a directive may hold that was read from a memo.
abbrev pub Justified : Principals → List ℕ → MemoDirective → Type 0
Justified ps memo (MemoDirective.top_up p) = Payable ps p × (has_byte 46 memo ≡ false)
Justified ps memo (MemoDirective.raw_icp p sub rest) =
    (Payable ps p ⊎ (p ≡ ps.event_horizon)) × EndsWith memo rest
Justified ps memo (MemoDirective.neuron_stake n none) = NeuronId n × (has_byte 46 memo ≡ false)
Justified ps memo (MemoDirective.neuron_stake n (some rest)) = NeuronId n × EndsWith memo rest

allowed-Payable :
    (ps : Principals) (o : Option Principal) (p : Principal) → allowed ps o ≡ some p → Payable ps p
allowed-Payable ps none p h = absurd cc
allowed-Payable ps (some q) p h =
    elim (Bool-cases ((q == ps.anonymous) || (q == ps.management_canister))) [
      | inl v ↦ absurd (ground (arith, v, h))
      | inr v ↦ ground (arith, v, h)
    ]

pub declared-Payable :
    (ps : Principals) (text : List ℕ) (p : Principal)
    → parse_declared_principal_text ps text ≡ some p
    → Payable ps p
unfolding parse_declared_principal_text
declared-Payable ps text p h =
    elim (Bool-cases
      (is_empty (trim text) || ltb max_target_canister_memo_bytes (length (trim text)))) [
        | inl v ↦ absurd (ground (arith, v, h))
        | inr v ↦ allowed-Payable ps _ p (rw v at h)
      ]

nonzero-NeuronId : (o : Option ℕ) (n : ℕ) → nonzero o ≡ some n → o ≡ some n × n ≢ 0
nonzero-NeuronId none n h = absurd cc
nonzero-NeuronId (some m) n h = ground arith

parse_u64-within : (text : List ℕ) (n : ℕ) → parse_u64 text ≡ some n → n ≤ u64_max
parse_u64-within text n h = ground arith

pub parsed-NeuronId : (text : List ℕ) (n : ℕ) → parse_neuron_id_text text ≡ some n → NeuronId n
unfolding parse_neuron_id_text
parsed-NeuronId text n h =
    elim (Bool-cases (is_empty text || ltb max_neuron_id_memo_bytes (length text))) [
      | inl v ↦ absurd (ground (arith, v, h))
      | inr v ↦ elim (Bool-cases (not (all_bytes is_ascii_digit text))) [
        | inl w ↦ absurd (ground (arith, v, w, h))
        | inr w ↦
            let k : nonzero (parse_u64 text) ≡ some n = ground (arith, v, w, h) in
            let q = nonzero-NeuronId (parse_u64 text) n k in (q.1, parse_u64-within text n q.0)
      ]
    ]

with_first-none : (b : ℕ) (o : Option (List ℕ × List ℕ)) → with_first b o ≡ none → o ≡ none
with_first-none b none h = refl
with_first-none b (some (x, y)) h = absurd cc

abbrev before_of : Option (List ℕ × List ℕ) → List ℕ
before_of none = []
before_of (some (x, y)) = x

abbrev after_of : Option (List ℕ × List ℕ) → List ℕ
after_of none = []
after_of (some (x, y)) = y

pub injected {ℓ} : {A : Type ℓ} {a b : A} → some a ≡ some b → a ≡ b
injected {a = a} h = ap (λ o. unwrap_or o a) h

abbrev owner_of : Option (Principal × Option (List ℕ)) → Option Principal
owner_of none = none
owner_of (some (p, sub)) = some p

with_first-some :
    (b : ℕ) (o : Option (List ℕ × List ℕ)) (x y : List ℕ)
    → with_first b o ≡ some (x, y)
    → (x' : List ℕ) × (o ≡ some (x', y)) × (x ≡ b ∷ x')
with_first-some b none x y h = absurd cc
with_first-some b (some (x', y')) x y h =
    (x', ap (λ (t : List ℕ). some (x', t)) (ap after_of h), sym (ap before_of h))

pub split_once-none : (c : ℕ) (text : List ℕ) → split_once c text ≡ none → has_byte c text ≡ false
unfolding split_once
split_once-none c [] h = refl
split_once-none c (b ∷ bs) h = elim (Bool-cases (b == c)) [
  | inl v ↦ absurd (ground (arith, v, h))
  | inr v ↦ rw v (split_once-none c bs (with_first-none b (split_once c bs) (rw v at h)))
]

split_once-some :
    (c : ℕ) (text x y : List ℕ)
    → split_once c text ≡ some (x, y)
    → (text ≡ x ++ c ∷ y) × (has_byte c x ≡ false)
unfolding split_once
split_once-some c [] x y h = absurd cc
split_once-some c (b ∷ bs) x y h = elim (Bool-cases (b == c)) [
  | inl v ↦
      let k : some ([], bs) ≡ some (x, y) = rw v at h in
      let ex : [] ≡ x = ap before_of k in
      let ey : bs ≡ y = ap after_of k in
      (rw (sym ex, sym ey, (==_iff b c).0 v) refl, rw (sym ex) refl)
  | inr v ↦
      let k : with_first b (split_once c bs) ≡ some (x, y) = rw v at h in
      let q : (x' : List ℕ) × (split_once c bs ≡ some (x', y)) × (x ≡ b ∷ x') =
        with_first-some b (split_once c bs) x y k in
      let r : (bs ≡ q.0 ++ c ∷ y) × (has_byte c q.0 ≡ false) = split_once-some c bs q.0 y q.1 in
      let e : x ≡ b ∷ q.0 = q.2 in (rw e (ap (λ (t : List ℕ). b ∷ t) r.0), rw e (rw v r.1))
]

-- A split text is a text without a dot, a dot, and the rest.
pub split-EndsWith :
    (memo text rest : List ℕ) → split_once 46 memo ≡ some (text, rest) → EndsWith memo rest
split-EndsWith memo text rest h =
    let r : (memo ≡ text ++ 46 ∷ rest) × (has_byte 46 text ≡ false) =
      split_once-some 46 memo text rest h in
    (text, r.0, r.1)

both-some :
    (a : Option Principal) (b : Option (Option (List ℕ))) (p : Principal) (sub : Option (List ℕ))
    → both a b ≡ some (p, sub)
    → a ≡ some p
both-some none b p sub h = absurd cc
both-some (some q) none p sub h = absurd cc
both-some (some q) (some t) p sub h = ap owner_of h

pub destination-Payable :
    (ps : Principals) (text : List ℕ) (o : Option (List ℕ × List ℕ)) (p : Principal)
    (sub : Option (List ℕ))
    → destination_of ps text o ≡ some (p, sub)
    → Payable ps p
destination-Payable ps text none p sub h =
    declared-Payable ps text p (both-some _ (some none) p sub h)
destination-Payable ps text (some (x, y)) p sub h =
    elim (Bool-cases (
      is_empty x
      || is_empty y
      || has_byte 58 y
      || not (all_bytes (λ b. not (is_ascii_whitespace b)) text))) [
        | inl v ↦ absurd (ground (arith, v, h))
        | inr v ↦ declared-Payable ps x p (both-some _ _ p sub (rw v at h))
      ]
