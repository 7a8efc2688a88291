-- ===== src/Dex/Twap.antt =====
-- x/dex/keeper/twap.go: the cumulative price accumulator. A price is a `LegacyDec`, its raw integer.
pub mod Additive
use earth_network_chain.Base.{
  ℕ, ◌+◌, ◌-◌, ◌*◌, not, ◌&&◌, ◌||◌, ltb, ◌==◌, if◌then◌else◌, Option, none, some,
}
use earth_network_chain.Base.Maps.{Map, set, get_or}
use earth_network_chain.Dex.Dec.{DecMath, one_dec}
use earth_network_chain.Dex.Store.{Pool, Dex}

module _ (m : DecMath) where
  -- `spotPrice`: `none` where a side is empty.
  unfoldable pub spot_price : Pool → Option ℕ
  spot_price pool =
      if pool.reserve_erth == 0 || pool.reserve_token == 0
      then none
      else some (m.quo (pool.reserve_erth * one_dec) (pool.reserve_token * one_dec))

  -- `getPriceCumulative`: the accumulator and the second it was last brought forward, 0 if never.
  abbrev pub get_price_cumulative : ℕ → Dex → ℕ × ℕ
  get_price_cumulative id s = (get_or id 0 s.price_cumulative, get_or id 0 s.price_observed_at)

  -- The accumulator after `advancePriceCumulative`: unchanged for a pool with no price, or where the
  -- clock has not moved.
  unfoldable pub next_cumulative : ℕ → ℕ → Pool → Dex → Map ℕ
  unfolding spot_price
  next_cumulative now id pool s =
      let (cum, observed) = get_price_cumulative id s in
      elim (spot_price pool) [
        | none ↦ s.price_cumulative
        | some price ↦
            if not (observed == 0) && ltb observed now
            then set id (cum + price * (now - observed)) s.price_cumulative
            else if observed == 0
            then set id cum s.price_cumulative
            else s.price_cumulative
      ]

  -- `advancePriceCumulative` at block time `now`: the clock moves in every case.
  unfoldable pub advance_price_cumulative : ℕ → ℕ → Pool → Dex → Dex
  unfolding next_cumulative
  advance_price_cumulative now id pool s = record s {
    price_cumulative = next_cumulative now id pool s;
    price_observed_at = set id now s.price_observed_at;
  }
