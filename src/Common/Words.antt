-- ===== src/Common/Words.antt =====
-- Rust's u32, u64 and u128: the bounds, `saturating_*`, `checked_*`, `div_ceil`, and
-- `to_be_bytes`. `saturating_sub` is the native `-`, which stops at 0.
use Prim.Native.Nat.{◌≤◌, ℕ, zero, suc, ◌+◌, ◌-◌, ◌*◌, ◌/◌, ◌%◌, ◌^◌, ◌<◌, min}
use mathlib.Core.Path.{◌≡◌, refl, sym, ap, ◌∙◌}
use mathlib.Core.Option.{Option, none, some}
use mathlib.Core.List.{List, [], ◌∷◌, ◌++◌}
use native.Mathlib.Omega.{arith}
use jupiter_faucet_suite.Common.Tests.{leb, if◌then◌else◌}
use jupiter_faucet_suite.Common.Lists.{length, length-append, All}
use native.Mathlib.Nat.{pow-suc}

abbrev pub u32_max : ℕ
u32_max = 4_294_967_295

abbrev pub u64_max : ℕ
u64_max = 18_446_744_073_709_551_615

abbrev pub u128_max : ℕ
u128_max = 340_282_366_920_938_463_463_374_607_431_768_211_455

-- `a.saturating_add(b)` in u64.
abbrev pub sat_add : ℕ → ℕ → ℕ
sat_add a b = min (a + b) u64_max

-- `a.saturating_mul(b)` in u64.
abbrev pub sat_mul : ℕ → ℕ → ℕ
sat_mul a b = min (a * b) u64_max

-- `a.saturating_add(b)` and `a.saturating_mul(b)` in u128.
abbrev pub sat_add128 : ℕ → ℕ → ℕ
sat_add128 a b = min (a + b) u128_max

abbrev pub sat_mul128 : ℕ → ℕ → ℕ
sat_mul128 a b = min (a * b) u128_max

-- `a.checked_add(b)` in u64.
abbrev pub checked_add : ℕ → ℕ → Option ℕ
checked_add a b = if leb (a + b) u64_max then some (a + b) else none

-- `a.checked_sub(b)` and `a.checked_mul(b)` in u64.
abbrev pub checked_sub : ℕ → ℕ → Option ℕ
checked_sub a b = if leb b a then some (a - b) else none

abbrev pub checked_mul : ℕ → ℕ → Option ℕ
checked_mul a b = if leb (a * b) u64_max then some (a * b) else none

-- `x as u64` from a wider word.
abbrev pub as_u64 : ℕ → ℕ
as_u64 x = x % 18_446_744_073_709_551_616

-- The last `k` base-256 digits of `n`, most significant first.
unfoldable pub be_bytes : ℕ → ℕ → List ℕ
be_bytes zero n = []
be_bytes (suc k) n = be_bytes k (n / 256) ++ (n % 256) ∷ []

-- The first `k` base-256 digits of `n`, least significant first (`to_le_bytes`).
unfoldable pub le_bytes : ℕ → ℕ → List ℕ
le_bytes zero n = []
le_bytes (suc k) n = n % 256 ∷ le_bytes k (n / 256)

-- The number that a big-endian byte string stands for (`from_be_bytes`).
unfoldable pub from_be_bytes : ℕ → List ℕ → ℕ
from_be_bytes acc [] = acc
from_be_bytes acc (b ∷ bs) = from_be_bytes (acc * 256 + b) bs

pub length-be_bytes : (k n : ℕ) → length (be_bytes k n) ≡ k
unfolding be_bytes
length-be_bytes zero n = refl
length-be_bytes (suc k) n =
    omega (arith, length-append (be_bytes k (n / 256)) (n % 256 ∷ []), length-be_bytes k (n / 256))

from_be_bytes-snoc :
    (acc : ℕ) (xs : List ℕ) (b : ℕ)
    → from_be_bytes acc (xs ++ b ∷ []) ≡ from_be_bytes acc xs * 256 + b
unfolding from_be_bytes
from_be_bytes-snoc acc [] b = refl
from_be_bytes-snoc acc (x ∷ xs) b = from_be_bytes-snoc (acc * 256 + x) xs b

-- Decoding the encoded bytes gives the number back when it fits in them.
pub from_be_bytes-be_bytes : (k n : ℕ) → n < 256 ^ k → from_be_bytes 0 (be_bytes k n) ≡ n
unfolding be_bytes from_be_bytes
from_be_bytes-be_bytes zero n h = omega arith
from_be_bytes-be_bytes (suc k) n h =
    let fits : n < 256 ^ k * 256 = rw (pow-suc) at h in
    rw (from_be_bytes-snoc 0 (be_bytes k (n / 256)) (n % 256))
      (omega (arith, from_be_bytes-be_bytes k (n / 256) (omega arith)))

-- So two numbers that fit are told apart by their bytes.
pub be_bytes_injective :
    (k a b : ℕ) → a < 256 ^ k → b < 256 ^ k → be_bytes k a ≡ be_bytes k b → a ≡ b
be_bytes_injective k a b ha hb e =
    sym (from_be_bytes-be_bytes k a ha) ∙ ap (from_be_bytes 0) e ∙ from_be_bytes-be_bytes k b hb

snoc-append : (xs ys : List ℕ) (b : ℕ) → (xs ++ b ∷ []) ++ ys ≡ xs ++ b ∷ ys
snoc-append [] ys b = refl
snoc-append (x ∷ xs) ys b = ap (λ (t : List ℕ). x ∷ t) (snoc-append xs ys b)

append-nil : (xs : List ℕ) → xs ++ [] ≡ xs
append-nil [] = refl
append-nil (x ∷ xs) = ap (λ (t : List ℕ). x ∷ t) (append-nil xs)

be_bytes-snoc :
    (k acc b : ℕ) → b < 256 → be_bytes (suc k) (acc * 256 + b) ≡ be_bytes k acc ++ b ∷ []
unfolding be_bytes
be_bytes-snoc k acc b h =
    let q : (acc * 256 + b) / 256 ≡ acc = omega arith in
    let r : (acc * 256 + b) % 256 ≡ b = omega arith in rw (q, r) refl

-- Encoding the number that some bytes spell gives the bytes back, after the digits of `acc`.
pub be_bytes-from_be_bytes :
    (k acc : ℕ) (bs : List ℕ)
    → All (λ b. b < 256) bs
    → be_bytes (length bs + k) (from_be_bytes acc bs) ≡ be_bytes k acc ++ bs
unfolding from_be_bytes
be_bytes-from_be_bytes k acc [] h =
    rw (append-nil (be_bytes k acc)) (ap (λ (n : ℕ). be_bytes n acc) (omega arith))
be_bytes-from_be_bytes k acc (b ∷ bs) (h, t) =
    let ih : be_bytes (length bs + suc k) (from_be_bytes (acc * 256 + b) bs)
        ≡ be_bytes (suc k) (acc * 256 + b) ++ bs =
      be_bytes-from_be_bytes (suc k) (acc * 256 + b) bs t in
    let e : suc (length bs) + k ≡ length bs + suc k = omega arith in
    ap (λ (n : ℕ). be_bytes n (from_be_bytes (acc * 256 + b) bs)) e
    ∙ ih
    ∙ ap (λ (t : List ℕ). t ++ bs) (be_bytes-snoc k acc b h)
    ∙ snoc-append (be_bytes k acc) bs b

byte_step : (acc b p n : ℕ) → b < 256 → n < (acc * 256 + b + 1) * p → n < (acc + 1) * (p * 256)
byte_step acc b p n h k =
    let m : (acc * 256 + b + 1) * p ≤ (acc * 256 + 256) * p = grind arith in grind arith

-- The number that some bytes spell fits in them.
pub from_be_bytes-bound :
    (acc : ℕ) (bs : List ℕ)
    → All (λ b. b < 256) bs
    → from_be_bytes acc bs < (acc + 1) * 256 ^ length bs
unfolding from_be_bytes
from_be_bytes-bound acc [] h = omega arith
from_be_bytes-bound acc (b ∷ bs) (h, t) =
    let ih : from_be_bytes (acc * 256 + b) bs < (acc * 256 + b + 1) * 256 ^ length bs =
      from_be_bytes-bound (acc * 256 + b) bs t in
    rw (pow-suc) (byte_step acc b (256 ^ length bs) (from_be_bytes (acc * 256 + b) bs) h ih)
