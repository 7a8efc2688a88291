-- ===== src/Dex/Rewards/Backed.antt =====
-- The ledger of the LP rewards of x/dex: the predicate that what is booked as pending covers what
-- every pool could collect, whatever the order, and that the running sums are the pools' sums.
use earth_network_chain.Base.{ℕ, ◌+◌, ◌-◌, ◌*◌, ◌≤◌, ◌≡◌, some, arith, ok}
use earth_network_chain.Base.Int.{pos_part, neg_part}
use earth_network_chain.Base.Maps.{
  get, remove, get_or, sum_by, IsDistinct, Every, sum_by-set, sum_by-remove, set-IsDistinct,
  set-Every, get-Every,
}
use earth_network_chain.Dex.Store.{Pool, Dex, set_pool, with_pool, set_pool-ok}
use earth_network_chain.Dex.Rewards.{index_precision}

abbrev pub volume : ℕ → Pool → ℕ
volume id p = p.volume_weight

abbrev pub erth : ℕ → Pool → ℕ
erth id p = p.reserve_erth

-- What a pool could collect, scaled by the index precision.
abbrev pub claim : Dex → ℕ → Pool → ℕ
claim s id p = p.volume_weight * (s.lp_reward_index - get_or id 0 s.pool_lp_index)

abbrev pub Keyed : ℕ → Pool → Type 0
Keyed id p = p.pool_id ≡ id

pub record IsBacked (s : Dex) : Type 0 where
  pub distinct : IsDistinct s.pools
  pub keys : Every Keyed s.pools
  pub indexed : (id : ℕ) → get_or id 0 s.pool_lp_index ≤ s.lp_reward_index
  pub volumes : s.lp_total_volume ≡ sum_by volume s.pools
  pub reserves : s.total_pool_erth ≡ sum_by erth s.pools
  pub nonneg : neg_part s.pending_lp_rewards ≡ 0
  pub covered : sum_by (claim s) s.pools ≤ index_precision * pos_part s.pending_lp_rewards

-- The same while pool `id` is held outside the store as `p`, its record there out of date but for
-- the reserve that the running total counts.
pub record IsOpen (id : ℕ) (p : Pool) (s : Dex) : Type 0 where
  pub distinct : IsDistinct s.pools
  pub keys : Every Keyed s.pools
  pub own : p.pool_id ≡ id
  pub indexed : (j : ℕ) → get_or j 0 s.pool_lp_index ≤ s.lp_reward_index
  pub volumes : s.lp_total_volume ≡ sum_by volume (remove id s.pools) + p.volume_weight
  pub reserves : s.total_pool_erth ≡ sum_by erth s.pools
  pub nonneg : neg_part s.pending_lp_rewards ≡ 0
  pub covered :
      sum_by (claim s) (remove id s.pools) + claim s id p
      ≤ index_precision * pos_part s.pending_lp_rewards

-- Reading a pool opens it.
pub get-IsOpen :
    (id : ℕ) (p : Pool) (s : Dex) → IsBacked s → get id s.pools ≡ some p → IsOpen id p s
get-IsOpen id p s h e = record {
  distinct = h.distinct;
  keys = h.keys;
  own = get-Every Keyed id p s.pools h.keys e;
  indexed = h.indexed;
  volumes = ground (arith, sum_by-remove volume id s.pools, h.volumes);
  reserves = h.reserves;
  nonneg = h.nonneg;
  covered = ground (arith, sum_by-remove (claim s) id s.pools, h.covered);
}

pub with_pool-IsBacked : (id : ℕ) (p : Pool) (s : Dex) → IsOpen id p s → IsBacked (with_pool id p s)
with_pool-IsBacked id p s h = record {
  distinct = set-IsDistinct id p s.pools h.distinct;
  keys = set-Every Keyed id p s.pools h.own h.keys;
  indexed = h.indexed;
  volumes =
      omega (arith, sum_by-set volume id p s.pools, sum_by-remove volume id s.pools, h.volumes);
  reserves =
      ground (arith, sum_by-set erth id p s.pools, sum_by-remove erth id s.pools, h.reserves);
  nonneg = h.nonneg;
  covered =
      omega
        (arith, sum_by-set (claim s) id p s.pools, sum_by-remove (claim s) id s.pools, h.covered);
}

-- Writing it back with SetPool closes it.
pub set_pool-IsBacked :
    (id : ℕ) (p : Pool) (s s' : Dex) → IsOpen id p s → set_pool id p s ≡ ok s' → IsBacked s'
set_pool-IsBacked id p s s' h e = rw ((set_pool-ok id p s s' e).0) (with_pool-IsBacked id p s h)
