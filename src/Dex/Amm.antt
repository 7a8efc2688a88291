-- ===== src/Dex/Amm.antt =====
-- x/dex/keeper/amm.go: the pricing of a swap and of a deposit, on non-negative `math.Int`s. A
-- difference below stops at 0, which a fee of at most the amount never meets (Amm/Fee).
pub mod Sqrt
pub mod Fee
pub mod Product
pub mod RoundTrip
use earth_network_chain.Base.{
  ℕ, zero, suc, ◌+◌, ◌-◌, ◌*◌, ◌/◌, ◌%◌, ◌^◌, Bool, true, false, not, ◌&&◌, leb, ◌==◌,
  if◌then◌else◌, Result, ok, err, Error, invalid_operands,
}
use earth_network_chain.Dex.Dec.{DecMath, one_dec}

-- `oneHundredPercent`.
abbrev pub one_hundred_percent : ℕ
one_hundred_percent = 100 * one_dec

-- `math.MaxBitLen`: an `Int` has at most 256 bits.
abbrev pub max_int : ℕ
max_int = 2 ^ 256

-- `big.Int.Sqrt`, digit by digit: `f` base-4 digits are read.
unfoldable pub sqrt_digits : ℕ → ℕ → ℕ
sqrt_digits zero n = 0
sqrt_digits (suc f) n =
    let r = 2 * sqrt_digits f (n / 4) in if leb ((r + 1) * (r + 1)) n then r + 1 else r

-- The product of two `Int`s has at most 512 bits, so 256 digits are enough.
unfoldable pub sqrt : ℕ → ℕ
unfolding sqrt_digits
sqrt n = sqrt_digits 256 n

-- `initialShares`.
unfoldable pub initial_shares : ℕ → ℕ → ℕ
initial_shares reserve_erth reserve_token = sqrt (reserve_erth * reserve_token)

-- `mulDivRound`. A negative or nil operand does not exist here.
unfoldable pub mul_div_round : ℕ → ℕ → ℕ → Bool → Result ℕ
mul_div_round a b c up =
    if c == 0
    then err invalid_operands
    else let q = a * b / c in
      let q' = if up && not (a * b % c == 0) then q + 1 else q in
      if leb max_int q' then err invalid_operands else ok q'

-- `mulDiv`.
unfoldable pub mul_div : ℕ → ℕ → ℕ → Result ℕ
unfolding mul_div_round
mul_div a b c = mul_div_round a b c false

-- `mulDivUp`.
unfoldable pub mul_div_up : ℕ → ℕ → ℕ → Result ℕ
unfolding mul_div_round
mul_div_up a b c = mul_div_round a b c true

-- `hopResult`.
pub record HopResult : Type 0 where
  pub amount_out : ℕ
  pub burn_erth : ℕ
  pub fee_erth : ℕ
  pub volume_erth : ℕ
  pub new_reserve_erth : ℕ
  pub new_reserve_token : ℕ

-- `splitFee`: the burned half and the pool half.
unfoldable pub split_fee : ℕ → ℕ × ℕ
split_fee fee = let burn = (fee + 1) / 2 in (burn, fee - burn)

module _ (m : DecMath) where
  -- `feeOf`.
  unfoldable pub fee_of : ℕ → ℕ → ℕ
  fee_of amount swap_fee =
      m.ceil (m.quo (m.mul (amount * one_dec) swap_fee) one_hundred_percent) / one_dec

  -- `swapTokenForHub`.
  unfoldable pub swap_token_for_hub : ℕ → ℕ → ℕ → ℕ → HopResult
  unfolding split_fee
  swap_token_for_hub reserve_erth reserve_token amount_token_in swap_fee =
      let gross = reserve_erth * amount_token_in / (reserve_token + amount_token_in) in
      let fee = fee_of gross swap_fee in
      let user = gross - fee in
      record {
        amount_out = user;
        burn_erth = (split_fee fee).0;
        fee_erth = fee;
        volume_erth = gross;
        new_reserve_erth = reserve_erth - user - (split_fee fee).0;
        new_reserve_token = reserve_token + amount_token_in;
      }

  -- `swapHubForToken`.
  unfoldable pub swap_hub_for_token : ℕ → ℕ → ℕ → ℕ → HopResult
  unfolding split_fee
  swap_hub_for_token reserve_erth reserve_token amount_erth_in swap_fee =
      let fee = fee_of amount_erth_in swap_fee in
      let effective = amount_erth_in - fee in
      let token_out = reserve_token * effective / (reserve_erth + effective) in
      record {
        amount_out = token_out;
        burn_erth = (split_fee fee).0;
        fee_erth = fee;
        volume_erth = amount_erth_in;
        new_reserve_erth = reserve_erth + amount_erth_in - (split_fee fee).0;
        new_reserve_token = reserve_token - token_out;
      }
