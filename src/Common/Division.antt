-- ===== src/Common/Division.antt =====
-- Rounded-down quotients of products, as the canisters' shares are computed.
use Prim.Native.Nat.{ℕ, ◌+◌, ◌*◌, ◌/◌, ◌≤◌, ◌<◌}
use native.Mathlib.Omega.{arith}
use jupiter_faucet_suite.Common.Words.{u64_max, u128_max}

pub div_floor : (a b : ℕ) → 0 < b → (a / b * b ≤ a) × (a < (a / b + 1) * b)
div_floor a b h = omega arith

-- The product of two u64 fits in u128.
pub words_product : (a b : ℕ) → a ≤ u64_max → b ≤ u64_max → a * b ≤ u128_max
words_product a b ha hb = grind arith

pub div_mono : (a b d : ℕ) → 0 < d → a ≤ b → a / d ≤ b / d
div_mono a b d h le = grind (arith, div_floor a d h, div_floor b d h)

pub part_le : (raw x d : ℕ) → 0 < d → x ≤ d → raw * x / d ≤ raw
part_le raw x d h le = grind (arith, div_floor (raw * x) d h)
