-- ===== src/Relay/Commitment/Accepted.antt =====
-- The relay's commitment, as the faucet reads it.
use jupiter_faucet_suite.Common.{
  ℕ, ◌≡◌, refl, ap, ◌∙◌, inl, inr, Bool, true, false, none, some, List, [], ◌∷◌, ◌++◌, ◌==◌, ◌&&◌,
  ◌||◌, leb, arith, Bool-cases,
}
use jupiter_faucet_suite.Memo.{
  all_bytes, has_byte, trim, trim_start, trim_end, split_once, is_whitespace, is_empty,
}
use jupiter_faucet_suite.Relay.Commitment.{without_dashes}

-- The bytes of a principal's text without its dashes: base 32 in lower case.
abbrev pub is_base32 : ℕ → Bool
is_base32 b = (leb 50 b && leb b 55) || (leb 97 b && leb b 122)

abbrev pub is_text_byte : ℕ → Bool
is_text_byte b = (b == 45) || is_base32 b

pub without_dashes-base32 :
    (text : List ℕ)
    → all_bytes is_text_byte text ≡ true
    → all_bytes is_base32 (without_dashes text) ≡ true
unfolding without_dashes
without_dashes-base32 [] h = refl
without_dashes-base32 (b ∷ bs) h = elim (Bool-cases (b == 45)) [
  | inl v ↦ rw v (without_dashes-base32 bs (ground (arith, h)))
  | inr v ↦ let r = without_dashes-base32 bs (ground (arith, h)) in rw v (ground (arith, v, h, r))
]

-- The first dot ends the name.
pub name_splits :
    (name rest : List ℕ)
    → all_bytes is_base32 name ≡ true
    → split_once 46 (name ++ 46 ∷ rest) ≡ some (name, rest)
unfolding split_once
name_splits [] rest h = refl
name_splits (b ∷ bs) rest h =
    let z : (b == 46) ≡ false = ground (arith, h) in
    let r = name_splits bs rest (ground (arith, h)) in rw (z, r)

pub without_colon : (name : List ℕ) → all_bytes is_base32 name ≡ true → split_once 58 name ≡ none
unfolding split_once
without_colon [] h = refl
without_colon (b ∷ bs) h =
    let z : (b == 58) ≡ false = ground (arith, h) in
    let r = without_colon bs (ground (arith, h)) in rw (z, r)

pub without_dash : (name : List ℕ) → all_bytes is_base32 name ≡ true → has_byte 45 name ≡ false
without_dash [] h = refl
without_dash (b ∷ bs) h = let r = without_dash bs (ground (arith, h)) in ground (arith, h, r)

starts_trimmed : (b : ℕ) (bs : List ℕ) → is_base32 b ≡ true → trim_start (b ∷ bs) ≡ b ∷ bs
unfolding trim_start
starts_trimmed b bs h = let z : is_whitespace b ≡ false = ground (arith, h) in rw z

ends_trimmed : (name : List ℕ) → all_bytes is_base32 name ≡ true → trim_end name ≡ name
unfolding trim_end
ends_trimmed [] h = refl
ends_trimmed (b ∷ bs) h =
    let z : is_whitespace b ≡ false = ground (arith, h) in
    let r = ends_trimmed bs (ground (arith, h)) in
    let y : (is_empty bs && false) ≡ false = ground arith in rw (r, z, y)

pub name_trimmed : (name : List ℕ) → all_bytes is_base32 name ≡ true → trim name ≡ name
unfolding trim trim_start
name_trimmed [] h = ends_trimmed [] refl
name_trimmed (b ∷ bs) h =
    ap trim_end (starts_trimmed b bs (ground (arith, h))) ∙ ends_trimmed (b ∷ bs) h

pub not_blank : (b : ℕ) (bs : List ℕ) → is_base32 b ≡ true → is_empty (trim (b ∷ bs)) ≡ false
unfolding trim trim_end
not_blank b bs h =
    let z : is_whitespace b ≡ false = ground (arith, h) in
    let y : (is_empty (trim_end bs) && false) ≡ false = ground arith in
    rw (starts_trimmed b bs h, z, y)
