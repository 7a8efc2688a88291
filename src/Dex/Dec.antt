-- ===== src/Dex/Dec.antt =====
-- `math.LegacyDec` of cosmossdk.io/math, which is not part of the repository: a decimal is its raw
-- integer, scaled by 10^18. What the code uses of it is a parameter, with the documented behaviour.
use earth_network_chain.Base.{ℕ, ◌+◌, ◌*◌, ◌%◌, ◌^◌, ◌≤◌, ◌<◌, ◌≡◌}

-- The raw integer of 1.
abbrev pub one_dec : ℕ
one_dec = 10 ^ 18

pub record DecMath : Type 0 where
  pub mul : ℕ → ℕ → ℕ
  pub quo : ℕ → ℕ → ℕ
  pub ceil : ℕ → ℕ

-- `Mul` rounds the exact result to a nearest decimal, `Quo` to at most half a decimal above it, and `Ceil` rounds up to a whole one.
pub record IsDecMath (m : DecMath) : Type 0 where
  pub mul_le : (a b : ℕ) → 2 * (m.mul a b * one_dec) ≤ 2 * (a * b) + one_dec
  pub le_mul : (a b : ℕ) → 2 * (a * b) ≤ 2 * (m.mul a b * one_dec) + one_dec
  pub quo_le : (a b : ℕ) → 0 < b → 2 * (m.quo a b * b) ≤ 2 * (a * one_dec) + b
  pub le_ceil : (a : ℕ) → a ≤ m.ceil a
  pub ceil_lt : (a : ℕ) → m.ceil a < a + one_dec
  pub ceil_whole : (a : ℕ) → m.ceil a % one_dec ≡ 0
