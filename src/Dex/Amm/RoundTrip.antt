-- ===== src/Dex/Amm/RoundTrip.antt =====
-- A swap of ERTH for a token and of that token back, with the pricing of x/dex/keeper/amm.go.
use native.Mathlib.Nat.{mul-le-mul_right, div-le_of_le-mul}
use earth_network_chain.Base.{ℕ, ◌+◌, ◌-◌, ◌*◌, ◌/◌, ◌≤◌, ◌≡◌, ap, arith}
use earth_network_chain.Dex.Dec.{DecMath, IsDecMath}
use earth_network_chain.Dex.Amm.{
  one_hundred_percent, HopResult, swap_token_for_hub, swap_hub_for_token,
}
use earth_network_chain.Dex.Amm.Product.{swap_hub_for_token_accounts, swap_hub_for_token_rate}

-- What `out` tokens, bought at the constant-product rate, can be sold back for.
sold_back :
    (r1 rt re effective out amount : ℕ)
    → out * (re + effective) ≤ rt * effective
    → out ≤ rt
    → r1 ≤ re + amount
    → effective ≤ amount
    → r1 * out ≤ amount * rt
sold_back r1 rt re effective out amount rate within kept part = omega (
  arith,
  mul-le-mul_right out kept,
  mul-le-mul_right (amount - effective) within,
  rate,
  ap (λ (t : ℕ). t * out) whole,
  ap (λ (t : ℕ). t * rt) whole,
)
  where
    whole : amount ≡ effective + (amount - effective)
    whole = omega arith

sold_le :
    (m : DecMath) (r1 t1 out t a fee : ℕ)
    → t1 + out ≡ t
    → r1 * out ≤ a * t
    → (swap_token_for_hub m r1 t1 out fee).amount_out ≤ a
unfolding swap_token_for_hub
sold_le m r1 t1 out t a fee e h =
    let gross : r1 * out / (t1 + out) ≤ a = div-le_of_le-mul (t1 + out) (rw e (omega arith)) in
    omega arith

-- ERTH swapped for a token and the token swapped straight back, the first at any swap fee of at most 100%
-- and the second at any, returns at most the ERTH that was put in.
pub round_trip_le :
    (m : DecMath) (re rt amount fee fee' : ℕ)
    → IsDecMath m
    → fee ≤ one_hundred_percent
    → let r = swap_hub_for_token m re rt amount fee in
      let back = swap_token_for_hub m r.new_reserve_erth r.new_reserve_token r.amount_out fee' in
      back.amount_out ≤ amount
round_trip_le m re rt amount fee fee' laws valid =
    let acc = swap_hub_for_token_accounts m laws re rt amount fee valid in
    let rate = swap_hub_for_token_rate m laws re rt amount fee valid in
    let whole =
      sold_back r.new_reserve_erth rt re (amount - r.fee_erth) r.amount_out amount rate.0 rate.2
        (omega (arith, acc)) (omega arith) in
    sold_le m r.new_reserve_erth r.new_reserve_token r.amount_out rt amount fee' acc.1 whole
  where
    r : HopResult
    r = swap_hub_for_token m re rt amount fee
