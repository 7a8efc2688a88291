-- ===== src/Dex/Tests.antt =====
-- Runs of the swaps, deposits and rewards of x/dex on a store with one pool.
use Prim.Native.String.{String}
use earth_network_chain.Dex.Owed.{owed}
use earth_network_chain.Dex.Swap.Books.{IsNamed}
use text.Mathlib.TextEquality.{eq_iff}
use text.Mathlib.Text.{◌==◌ as str_eq}
use earth_network_chain.Base.{
  Bool-cases, inl, inr, some_injective, no_value, sym, ap, ◌∙◌, ℕ, ◌+◌, ◌*◌, ◌≤◌, ◌<◌, ◌≡◌, ◌≢◌,
  refl, some, [], ◌∷◌, ok, err, arith, Result,
}
use earth_network_chain.Base.Int.{pos_part}
use earth_network_chain.Dex.Dec.{one_dec}
use earth_network_chain.Dex.Amm.{
  mul_div, mul_div_up, mul_div_round, split_fee, fee_of, initial_shares, swap_token_for_hub,
  swap_hub_for_token,
}
use earth_network_chain.Dex.Amm.Sqrt.{initial_shares_lem}
use earth_network_chain.Dex.Amm.Product.{swap_token_for_hub_product}
use earth_network_chain.Dex.Amm.RoundTrip.{round_trip_le}
use earth_network_chain.Dex.Store.{Pool, Dex, pool_for_token, set_pool}
use earth_network_chain.Dex.Twap.Additive.{price, advance_price_cumulative_additive}
use earth_network_chain.Dex.Twap.{
  get_price_cumulative, advance_price_cumulative, next_cumulative, spot_price,
}
use earth_network_chain.Dex.Rewards.{
  distribute_lp_rewards, settle_pool_rewards, apply_volume, sweep_stale_pools, set_pool_volume,
  advance_volume_index, cap_volume, schedule_stale,
}
use earth_network_chain.Dex.Rewards.Backed.{IsBacked, get-IsOpen}
use earth_network_chain.Dex.Rewards.Settle.{Settles, settle_pool_rewards-Settles}
use earth_network_chain.Dex.Rewards.Distribute.{distribute_lp_rewards-IsBacked}
use earth_network_chain.Dex.Rewards.Sweep.{sweep_stale_pools-IsBacked}
use earth_network_chain.Dex.Swap.{Hop, book_hop, hop_token_to_hub, hop_hub_to_token}
use earth_network_chain.Dex.Swap.Hops.{
  owed_erth, Repriced, hop_token_to_hub_lem, hop_hub_to_token_lem,
}
use earth_network_chain.Dex.Bank.{account, held}
use earth_network_chain.Dex.Exact.{Swapped, swap_exact_in_fees, route, escrow, pay, burn_fee}
use earth_network_chain.Dex.Exact.Solvent.{swap_exact_in_fees-solvent}
use earth_network_chain.Base.Maps.{get}
use earth_network_chain.Dex.Deposit.{Priced, Deposited, price_deposit, price_payout, price_branch}
use earth_network_chain.Dex.Deposit.Add.{Coin, MsgAddLiquidity, match_pair, add_liquidity}
use earth_network_chain.Dex.Deposit.Add.Solvent.{Deposits, add_liquidity-Deposits}
use earth_network_chain.Dex.Deposit.Fair.{IsFair, price_deposit-IsFair, price_payout-price_deposit}
use earth_network_chain.Dex.Fixtures.{
  half_up, half_up-IsDecMath, funds, funds-IsBank, one_pool, market, market-IsBacked, holdings,
}

initial_shares_lem_example :
    let r = initial_shares 200 50 in (r * r ≤ 200 * 50) × (200 * 50 < (r + 1) * (r + 1))
initial_shares_lem_example = initial_shares_lem 200 50 (omega arith) (omega arith)

swap_token_for_hub_product_example :
    let r = swap_token_for_hub half_up 1000 2000 500 one_dec in
    1000 * 2000 ≤ r.new_reserve_erth * r.new_reserve_token
swap_token_for_hub_product_example =
    swap_token_for_hub_product half_up half_up-IsDecMath 1000 2000 500 one_dec (omega arith)

round_trip_le_example :
    let r = swap_hub_for_token half_up 1000 2000 500 one_dec in
    let back =
      swap_token_for_hub half_up r.new_reserve_erth r.new_reserve_token r.amount_out one_dec in
    back.amount_out ≤ 500
round_trip_le_example =
    round_trip_le half_up 1000 2000 500 one_dec one_dec half_up-IsDecMath (omega arith)

settle_pool_rewards-Settles_example :
    let (p', s') = settle_pool_rewards half_up 99 1 one_pool market in
    Settles half_up 99 1 one_pool market p' s'
settle_pool_rewards-Settles_example =
    settle_pool_rewards-Settles half_up 99 1 one_pool market
      (get-IsOpen 1 one_pool market market-IsBacked refl)

distribute_lp_rewards-IsBacked_example :
    let (taken, s') = distribute_lp_rewards 10 market in
    IsBacked s'
    × (taken ≤ 10)
    × (pos_part s'.pending_lp_rewards ≡ 4 + taken)
    × (s'.pools ≡ market.pools)
distribute_lp_rewards-IsBacked_example = distribute_lp_rewards-IsBacked 10 market market-IsBacked

sweep_stale_pools-IsBacked_example : IsBacked (sweep_stale_pools half_up 99 market)
sweep_stale_pools-IsBacked_example = sweep_stale_pools-IsBacked half_up 99 market market-IsBacked

-- The pool of the market, settled.
abbrev settled_pool : Pool × Dex
settled_pool = settle_pool_rewards half_up 99 1 one_pool market

settled_lem : Settles half_up 99 1 one_pool market (settled_pool.0) (settled_pool.1)
settled_lem =
    settle_pool_rewards-Settles half_up 99 1 one_pool market
      (get-IsOpen 1 one_pool market market-IsBacked refl)

abbrev succeeded : {A : Type 0} → A → Result A → A
succeeded a (ok r) = r
succeeded a (err e) = a

abbrev no_hop : Hop
no_hop = record { out = 0; burn = 0; fee = 0; store = market }

abbrev sold : Hop
sold = succeeded no_hop (hop_token_to_hub half_up 99 "anml" 5000 one_dec market)

hop_token_to_hub_lem_example :
    IsBacked sold.store
    × (owed_erth sold.store + sold.out + sold.burn ≡ owed_erth market)
    × (sold.burn ≤ sold.fee)
    × Repriced "anml" 5000 0 market sold.store
unfolding hop_token_to_hub pool_for_token settle_pool_rewards advance_price_cumulative
    next_cumulative spot_price swap_token_for_hub book_hop apply_volume advance_volume_index
    cap_volume set_pool_volume schedule_stale set_pool split_fee fee_of
hop_token_to_hub_lem_example =
    hop_token_to_hub_lem half_up 99 half_up-IsDecMath "anml" 5000 one_dec market sold (omega arith)
      market-IsBacked refl

abbrev bought : Hop
bought = succeeded no_hop (hop_hub_to_token half_up 99 "anml" 5000 one_dec market)

hop_hub_to_token_lem_example :
    IsBacked bought.store
    × (owed_erth bought.store + bought.burn ≡ owed_erth market + 5000)
    × (bought.burn ≤ bought.fee)
    × Repriced "anml" 0 bought.out market bought.store
unfolding hop_hub_to_token pool_for_token settle_pool_rewards advance_price_cumulative
    next_cumulative spot_price swap_hub_for_token book_hop apply_volume advance_volume_index
    cap_volume set_pool_volume schedule_stale set_pool split_fee fee_of
hop_hub_to_token_lem_example =
    hop_hub_to_token_lem half_up 99 half_up-IsDecMath "anml" 5000 one_dec market bought
      (omega arith) market-IsBacked refl

abbrev swapped : Swapped funds
swapped =
    succeeded (record { hop = no_hop; bank = holdings })
      (swap_exact_in_fees funds half_up 99 (account 1) (account 2) "anml" 5000 "uerth" 2000 market
        holdings)

account-ne_held : (a : ℕ) → account a ≢ held
account-ne_held a e = cc

market-IsNamed : IsNamed market
unfolding pool_for_token
market-IsNamed t p e = elim (Bool-cases (str_eq t "anml")) [
  | inl same ↦
      let found : one_pool ≡ p = some_injective (rw (same, pool_for_token) at e) in
      sym (ap (λ (x : Pool). x.token_denom) found) ∙ sym ((eq_iff t "anml").0 same)
  | inr other ↦ absurd (no_value (rw (other, pool_for_token) at e))
]

swap_exact_in_fees-solvent_example :
    IsBacked swapped.hop.store
    × (0 < swapped.hop.out)
    × (2000 ≤ swapped.hop.out)
    × (swapped.hop.burn ≤ swapped.hop.fee)
    × IsNamed swapped.hop.store
    × ((d : String) → swapped.bank d + owed d market ≡ holdings d + owed d swapped.hop.store)
unfolding swap_exact_in_fees route escrow pay burn_fee hop_token_to_hub pool_for_token
    settle_pool_rewards advance_price_cumulative next_cumulative spot_price swap_token_for_hub
    book_hop apply_volume advance_volume_index cap_volume set_pool_volume schedule_stale set_pool
    split_fee fee_of
swap_exact_in_fees-solvent_example =
    swap_exact_in_fees-solvent funds funds-IsBank half_up 99 (account 1) (account 2) "anml" 5000
      "uerth" 2000 market holdings swapped half_up-IsDecMath (omega arith) (account-ne_held 1)
      (account-ne_held 2) market-IsBacked market-IsNamed refl

-- A deposit of 1001 and 3000 into a pool of 1000000 and 2000000 with 1000 shares.
abbrev deposited : Priced
deposited = record { shares = 1; erth = 1000; token = 2000 }

price_deposit-IsFair_example : IsFair 1000 1000000 2000000 1001 3000 deposited
unfolding price_deposit mul_div mul_div_up mul_div_round
price_deposit-IsFair_example = price_deposit-IsFair 1000 1000000 2000000 1001 3000 deposited refl

price_payout-price_deposit_example : (1000 ≤ 1000) × (2000 ≤ 2000)
unfolding price_deposit price_payout mul_div mul_div_up mul_div_round
price_payout-price_deposit_example =
    price_payout-price_deposit 1000 1000000 2000000 1001 3000 deposited (1000, 2000) refl refl

-- The market, its price last observed at second 10.
abbrev observed : Dex
observed = record market { price_observed_at = (1, 10) ∷ [] }

advance_price_cumulative_additive_example :
    (get_price_cumulative half_up 1 (advance_price_cumulative half_up 40 1 one_pool observed)
      ≡ (price half_up 1 one_pool * 30, 40))
    × (get_price_cumulative half_up 1 (
          advance_price_cumulative half_up 40 1 one_pool
            (advance_price_cumulative half_up 25 1 one_pool observed))
        ≡ (price half_up 1 one_pool * 30, 40))
unfolding spot_price
advance_price_cumulative_additive_example =
    advance_price_cumulative_additive half_up 1 one_pool 25 40 observed (omega arith) (omega arith)
      (omega arith)

abbrev topped_up : MsgAddLiquidity
topped_up = record {
  creator = "ada";
  pool_id = 1;
  amount_a = record { denom = "anml"; amount = 8000 };
  amount_b = record { denom = "uerth"; amount = 5000 };
  min_shares = some (some 3);
}

abbrev topped : Deposited funds
topped =
    succeeded (record { price = deposited; store = market; bank = holdings })
      (add_liquidity funds half_up (λ a. some 7) 99 topped_up market holdings)

add_liquidity-Deposits_example :
    (creator : ℕ) × (pool : Pool) × (pair : Coin × Coin) × (some 7 ≡ some creator)
    × (get 1 market.pools ≡ some pool)
    × (match_pair topped_up.amount_a topped_up.amount_b "uerth" pool.token_denom ≡ ok pair)
    × Deposits funds half_up 99 1 market holdings pair.0.amount pair.1.amount
        (some (some 3))
        creator
        topped
unfolding add_liquidity price_branch price_deposit settle_pool_rewards mul_div mul_div_up set_pool
add_liquidity-Deposits_example =
    add_liquidity-Deposits funds half_up (λ a. some 7) 99 topped_up market holdings topped
      funds-IsBank market-IsBacked refl
