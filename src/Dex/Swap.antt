-- ===== src/Dex/Swap.antt =====
-- x/dex/keeper/msg_server_swap.go: a swap routes through the ERTH hub in one hop or two. An error
-- leaves no state, as the transaction's writes are discarded.
pub mod Hops
pub mod Books
use text.Mathlib.Text.{◌==◌ as str_eq}
use Prim.Native.String.{String}
use earth_network_chain.Base.{
  ℕ, ◌+◌, Bool, true, false, not, ◌||◌, ltb, ◌==◌, if◌then◌else◌, Option, none, some, Result, ok,
  err, Error, guard, fail_if, or_err, ◌>>=◌, ◌>>◌, pool_cap, pool_not_found, insufficient_pool,
  invalid_amount, invalid_denom, shielded_only, slippage, bank_refused,
}
use earth_network_chain.Dex.Dec.{DecMath}
use earth_network_chain.Dex.Amm.{HopResult, swap_token_for_hub, swap_hub_for_token}
use earth_network_chain.Dex.Store.{Pool, Dex, within_pool_cap, pool_for_token, set_pool}
use earth_network_chain.Dex.Rewards.{settle_pool_rewards, apply_volume}

-- What a hop returns: the output, the ERTH burned and the whole ERTH fee.
pub record Hop : Type 0 where
  pub out : ℕ
  pub burn : ℕ
  pub fee : ℕ
  pub store : Dex

-- The pool with the reserves that a hop leaves.
abbrev pub priced : Pool → HopResult → Pool
priced pool r = record pool {
  reserve_erth = r.new_reserve_erth;
  reserve_token = r.new_reserve_token;
}

abbrev pub hop_of : HopResult → Dex → Hop
hop_of r s = record { out = r.amount_out; burn = r.burn_erth; fee = r.fee_erth; store = s }

module _ (m : DecMath) (now : ℕ) where
  -- The second half of both hops: the reserves and the volume are written back.
  unfoldable pub book_hop : Pool → HopResult → Dex → Result Hop
  book_hop pool r s =
      let traded = apply_volume m now (priced pool r) r.volume_erth s in
      set_pool pool.pool_id traded.0 traded.1 >>= λ s'. ok (hop_of r s')

  -- `hopTokenToHub`.
  unfoldable pub hop_token_to_hub : String → ℕ → ℕ → Dex → Result Hop
  unfolding book_hop
  hop_token_to_hub token_denom amount_in swap_fee s = do
    guard (within_pool_cap amount_in) pool_cap
    pool ← or_err (pool_for_token token_denom s) pool_not_found
    let settled = settle_pool_rewards m now pool.pool_id pool s
    let r = swap_token_for_hub m settled.0.reserve_erth settled.0.reserve_token amount_in swap_fee
    fail_if (r.amount_out == 0 || r.new_reserve_erth == 0) insufficient_pool
    book_hop settled.0 r settled.1

  -- `hopHubToToken`.
  unfoldable pub hop_hub_to_token : String → ℕ → ℕ → Dex → Result Hop
  unfolding book_hop
  hop_hub_to_token token_denom amount_erth_in swap_fee s = do
    guard (within_pool_cap amount_erth_in) pool_cap
    pool ← or_err (pool_for_token token_denom s) pool_not_found
    let settled = settle_pool_rewards m now pool.pool_id pool s
    let r =
        swap_hub_for_token m settled.0.reserve_erth settled.0.reserve_token amount_erth_in swap_fee
    fail_if (r.amount_out == 0 || r.new_reserve_token == 0) insufficient_pool
    book_hop settled.0 r settled.1
