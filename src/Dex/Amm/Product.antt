-- ===== src/Dex/Amm/Product.antt =====
-- `swapTokenForHub` and `swapHubForToken` of x/dex/keeper/amm.go: the reserves before and after.
use native.Mathlib.Nat.{div-le_of_le-mul, mul-le-mul_left, mul-le-mul_right, div-mul-le_self}
use earth_network_chain.Base.{ℕ, ◌+◌, ◌-◌, ◌*◌, ◌/◌, ◌≤◌, ◌≡◌, refl, ap, arith}
use earth_network_chain.Dex.Dec.{DecMath, IsDecMath}
use earth_network_chain.Dex.Amm.{
  one_hundred_percent, fee_of, HopResult, swap_token_for_hub, swap_hub_for_token,
}
use earth_network_chain.Dex.Amm.Fee.{fee_of_le}

-- A quotient whose numerator is a part of the divisor.
part_le : (r a b : ℕ) → a ≤ b → r * a / b ≤ r
part_le r a b h = div-le_of_le-mul b (omega (arith, mul-le-mul_left r h))

-- The product of the reserves after an output at the constant-product rate.
product_of :
    (r : HopResult) (effective re rt : ℕ)
    → r.new_reserve_token + r.amount_out ≡ rt
    → r.amount_out * (re + effective) ≤ rt * effective
    → re + effective ≤ r.new_reserve_erth
    → re * rt ≤ r.new_reserve_erth * r.new_reserve_token
product_of r effective re rt split rate kept =
    omega
      (arith, mul-le-mul_right r.new_reserve_token kept, ap (λ (t : ℕ). t * (re + effective)) split)

module _ (m : DecMath) (laws : IsDecMath m) (re rt amount fee : ℕ)
    (valid : fee ≤ one_hundred_percent) where
  -- Of a token to ERTH swap: what leaves the pool is what the reserve falls by, the gross output is
  -- the trader's part and the fee, the burn is a part of the fee, and the gross output is within
  -- the reserve.
  pub swap_token_for_hub_accounts :
      let r = swap_token_for_hub m re rt amount fee in
      (r.new_reserve_erth + r.amount_out + r.burn_erth ≡ re)
      × (r.new_reserve_token ≡ rt + amount)
      × (r.amount_out + r.fee_erth ≡ r.volume_erth)
      × (r.burn_erth ≤ r.fee_erth)
      × (r.volume_erth ≤ re)
  unfolding swap_token_for_hub
  swap_token_for_hub_accounts =
      let within : gross ≤ re = part_le re amount (rt + amount) (omega arith) in
      let part : fee_of m gross fee ≤ gross = fee_of_le m laws gross fee valid in
      (omega arith, refl, omega arith, omega arith, within)
    where
      gross : ℕ
      gross = re * amount / (rt + amount)

  -- Of an ERTH to token swap: the input enters the ERTH reserve less the burn, the output leaves
  -- the token reserve, and the burn is a part of the fee, which is within the input.
  pub swap_hub_for_token_accounts :
      let r = swap_hub_for_token m re rt amount fee in
      (r.new_reserve_erth + r.burn_erth ≡ re + amount)
      × (r.new_reserve_token + r.amount_out ≡ rt)
      × (r.burn_erth ≤ r.fee_erth)
      × (r.fee_erth ≤ amount)
  unfolding swap_hub_for_token
  swap_hub_for_token_accounts =
      let part : fee_of m amount fee ≤ amount = fee_of_le m laws amount fee valid in
      let within : rt * effective / (re + effective) ≤ rt =
        part_le rt effective (re + effective) (omega arith) in
      (omega arith, omega arith, omega arith, part)
    where
      effective : ℕ
      effective = amount - fee_of m amount fee

  -- A token to ERTH swap never lowers the product of the reserves, for a swap fee of at most 100%.
  pub swap_token_for_hub_product :
      let r = swap_token_for_hub m re rt amount fee in
      re * rt ≤ r.new_reserve_erth * r.new_reserve_token
  unfolding swap_token_for_hub
  swap_token_for_hub_product =
      let acc = swap_token_for_hub_accounts in
      let kept : re ≤ new_erth + gross = omega (arith, acc) in
      omega
        (arith, mul-le-mul_right (rt + amount) kept, div-mul-le_self (re * amount) (rt + amount))
    where
      gross : ℕ
      gross = re * amount / (rt + amount)

      new_erth : ℕ
      new_erth = (swap_token_for_hub m re rt amount fee).new_reserve_erth

  -- The output of an ERTH to token swap against the input that is left after the fee, and the
  -- part of the input that stays in the reserve.
  pub swap_hub_for_token_rate :
      let r = swap_hub_for_token m re rt amount fee in
      (r.amount_out * (re + (amount - r.fee_erth)) ≤ rt * (amount - r.fee_erth))
      × (re + (amount - r.fee_erth) ≤ r.new_reserve_erth)
      × (r.amount_out ≤ rt)
  unfolding swap_hub_for_token
  swap_hub_for_token_rate =
      let part : fee_of m amount fee ≤ amount = fee_of_le m laws amount fee valid in
      (
        div-mul-le_self (rt * (amount - fee_of m amount fee)) (re + (amount - fee_of m amount fee)),
        omega arith,
        part_le rt (amount - fee_of m amount fee) (re + (amount - fee_of m amount fee))
            (omega arith),
      )

  -- An ERTH to token swap never lowers the product of the reserves, for a swap fee of at most 100%.
  pub swap_hub_for_token_product :
      let r = swap_hub_for_token m re rt amount fee in
      re * rt ≤ r.new_reserve_erth * r.new_reserve_token
  swap_hub_for_token_product =
      let rate = swap_hub_for_token_rate in
      let split = swap_hub_for_token_accounts.1 in
      product_of (swap_hub_for_token m re rt amount fee)
        (amount - (swap_hub_for_token m re rt amount fee).fee_erth) re rt split rate.0 rate.1
