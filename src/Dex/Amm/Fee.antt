-- ===== src/Dex/Amm/Fee.antt =====
-- `feeOf` and `splitFee` of x/dex/keeper/amm.go.
use native.Mathlib.Nat.{mul-le-mul_left}
use earth_network_chain.Base.{ℕ, ◌+◌, ◌*◌, ◌≤◌, ◌≡◌, arith}
use earth_network_chain.Dex.Dec.{DecMath, IsDecMath, one_dec}
use earth_network_chain.Dex.Amm.{one_hundred_percent, fee_of, split_fee}

pub split_fee_lem :
    (fee : ℕ)
    → ((split_fee fee).0 + (split_fee fee).1 ≡ fee)
      × ((split_fee fee).1 ≤ (split_fee fee).0)
      × ((split_fee fee).0 ≤ (split_fee fee).1 + 1)
unfolding split_fee
split_fee_lem fee = omega arith

module _ (m : DecMath) (laws : IsDecMath m) where
  -- The first product is exact: the amount is a whole number.
  mul_exact : (amount fee : ℕ) → m.mul (amount * one_dec) fee ≡ amount * fee
  mul_exact amount fee =
      omega (arith, laws.mul_le (amount * one_dec) fee, laws.le_mul (amount * one_dec) fee)

  -- A swap fee of at most 100% charges at most the amount.
  pub fee_of_le : (amount fee : ℕ) → fee ≤ one_hundred_percent → fee_of m amount fee ≤ amount
  unfolding fee_of
  fee_of_le amount fee h = omega (
    arith,
    mul_exact amount fee,
    mul-le-mul_left amount h,
    laws.quo_le (m.mul (amount * one_dec) fee) one_hundred_percent (omega arith),
    laws.ceil_lt (m.quo (m.mul (amount * one_dec) fee) one_hundred_percent),
  )
