-- ===== src/Dex/Store.antt =====
-- The x/dex keeper's store (x/dex/keeper/keeper.go), its getters, and the one writer of a pool
-- record, SetPool of x/dex/keeper/solvency.go. Amounts are non-negative `math.Int`s, never nil.
use text.Mathlib.Text.{◌==◌ as str_eq, starts_with}
use Prim.Native.String.{String}
use earth_network_chain.Base.{
  ℕ, ◌+◌, ◌-◌, ◌^◌, ◌≤◌, ◌≡◌, arith, Bool, false, ◌||◌, ltb, leb, ◌==◌, if◌then◌else◌, Option, none,
  some, List, [], ◌∷◌, Result, ok, err, pool_cap, lp_share_denom,
}
use earth_network_chain.Base.Int.{ℤ}
use earth_network_chain.Base.Maps.{Map, get, set}

-- `Pool`. `reserve_erth` is denominated in the hub asset.
pub record Pool : Type 0 where
  pub pool_id : ℕ
  pub reserve_erth : ℕ
  pub token_denom : String
  pub reserve_token : ℕ
  pub volume_weight : ℕ
  pub last_traded_day : ℕ

-- The part of `Params` that the modelled code reads.
pub record Params : Type 0 where
  pub swap_fee : ℕ
  pub volume_depth_cap_per_day : ℕ
  pub lp_unbonding_seconds : ℕ

-- `VolumeDepthCapPerDayOrDefault`.
abbrev pub volume_depth_cap_per_day_or_default : Params → ℕ
volume_depth_cap_per_day_or_default p =
    if p.volume_depth_cap_per_day == 0 then 2 else p.volume_depth_cap_per_day

-- `Keeper`: its collections. An item that was never set reads as its getter's default, 0.
pub record Dex : Type 0 where
  pub params : Params
  pub hub_denom : String
  pub pools : Map Pool
  pub pool_by_token : List (String × ℕ)
  pub total_pool_erth : ℕ
  pub dirty_pools : List ℕ
  pub lp_reward_index : ℕ
  pub lp_total_volume : ℕ
  pub pool_lp_index : Map ℕ
  pub pending_lp_rewards : ℤ
  pub volume_index : ℕ
  pub volume_index_day : ℕ
  pub pool_stale_due : Map ℕ
  pub pool_stale_queue : List (ℕ × ℕ)
  pub price_cumulative : Map ℕ
  pub price_observed_at : Map ℕ

-- `MaxPoolAmount`.
abbrev pub max_pool_amount : ℕ
max_pool_amount = 2 ^ 120

-- `WithinPoolCap`.
abbrev pub within_pool_cap : ℕ → Bool
within_pool_cap a = leb a max_pool_amount

-- `overCap`.
abbrev pub over_cap : ℕ → Bool
over_cap a = ltb max_pool_amount a

-- `IsLPShareDenom`.
abbrev pub is_lp_share_denom : String → Bool
is_lp_share_denom denom = starts_with denom "dexlp/"

-- The collection `PoolByToken`.
abbrev pub pool_by_token_get : String → List (String × ℕ) → Option ℕ
pool_by_token_get denom [] = none
pool_by_token_get denom ((d, id) ∷ m) =
    if str_eq denom d then some id else pool_by_token_get denom m

-- `PoolForToken`: every failure is reported as ErrPoolNotFound by the callers.
unfoldable pub pool_for_token : String → Dex → Option Pool
pool_for_token denom s = elim (pool_by_token_get denom s.pool_by_token) [
  | none ↦ none
  | some id ↦ get id s.pools
]

-- The ERTH reserve that the store holds for a pool, 0 for a new one.
abbrev pub stored_erth : ℕ → Dex → ℕ
stored_erth id s = elim (get id s.pools) [ none ↦ 0 | some p ↦ p.reserve_erth ]

-- The store that `SetPool` leaves. The running total is clamped at 0, as the difference is.
abbrev pub with_pool : ℕ → Pool → Dex → Dex
with_pool id pool s = record s {
  total_pool_erth = s.total_pool_erth + pool.reserve_erth - stored_erth id s;
  dirty_pools = id ∷ s.dirty_pools;
  pools = set id pool s.pools;
}

-- `SetPool`.
unfoldable pub set_pool : ℕ → Pool → Dex → Result Dex
set_pool id pool s =
    if over_cap pool.reserve_erth || over_cap pool.reserve_token
    then err pool_cap
    else if is_lp_share_denom pool.token_denom || is_lp_share_denom s.hub_denom
    then err lp_share_denom
    else ok (with_pool id pool s)

-- A pool that SetPool accepts is within the cap.
pub set_pool-ok :
    (id : ℕ) (pool : Pool) (s s' : Dex)
    → set_pool id pool s ≡ ok s'
    → (s' ≡ with_pool id pool s)
      × (pool.reserve_erth ≤ max_pool_amount)
      × (pool.reserve_token ≤ max_pool_amount)
unfolding set_pool
set_pool-ok id pool s s' e = ground arith

-- Nor does it accept one that holds LP shares.
pub set_pool-assets :
    (id : ℕ) (pool : Pool) (s s' : Dex)
    → set_pool id pool s ≡ ok s'
    → (is_lp_share_denom pool.token_denom ≡ false) × (is_lp_share_denom s.hub_denom ≡ false)
unfolding set_pool
set_pool-assets id pool s s' e = ground arith
