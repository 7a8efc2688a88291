-- ===== src/Dex/Rewards/Settle.antt =====
-- `settlePoolRewards` of x/dex/keeper/lp_rewards.go on the ledger of the LP rewards.
use native.Mathlib.Nat.{div-mul-le_self}
use earth_network_chain.Base.{
  ℕ, ◌+◌, ◌*◌, ◌≤◌, ◌≡◌, ◌≢◌, refl, arith, inl, inr, ◌==◌, Bool-cases, mul-sub_self,
}
use earth_network_chain.Base.Int.{pos, pos_part, neg_part, ◌-ℤ◌, -ℤ_pos}
use earth_network_chain.Base.Maps.{
  set, remove, get_or, sum_by, sum_by-congr, Every-map, remove-ne, get_or-set, get_or-set_self,
}
use earth_network_chain.Dex.Dec.{DecMath}
use earth_network_chain.Dex.Store.{Pool, Dex}
use earth_network_chain.Dex.Twap.{advance_price_cumulative}
use earth_network_chain.Dex.Rewards.{index_precision, owed_to, settle_pool_rewards}
use earth_network_chain.Dex.Rewards.Backed.{IsOpen, claim}

-- A pool that has settled has nothing left to collect.
abbrev pub IsSettled : ℕ → Dex → Type 0
IsSettled id s = get_or id 0 s.pool_lp_index ≡ s.lp_reward_index

-- The store once `owed` is taken out of the pending pile for pool `id`.
abbrev collected : ℕ → ℕ → Dex → Dex
collected id owed s = record s {
  pending_lp_rewards = s.pending_lp_rewards -ℤ pos owed;
  pool_lp_index = set id s.lp_reward_index s.pool_lp_index;
}

module _ (id : ℕ) (p : Pool) (s : Dex) (h : IsOpen id p s) where
  owed_le : index_precision * owed_to id p s ≤ claim s id p
  owed_le = omega (arith, div-mul-le_self (claim s id p) index_precision)

  others_same :
      (owed : ℕ)
      → sum_by (claim (collected id owed s)) (remove id s.pools)
        ≡ sum_by (claim s) (remove id s.pools)
  others_same owed = sum_by-congr (claim (collected id owed s)) (claim s) (remove id s.pools) (
      Every-map (λ j v. j ≢ id) _ (remove id s.pools)
        (λ j v ne. ground (arith, get_or-set j id s.lp_reward_index 0 s.pool_lp_index))
        (remove-ne id s.pools h.distinct))

  settled : (owed : ℕ) → IsSettled id (collected id owed s)
  settled owed = get_or-set_self id s.lp_reward_index 0 s.pool_lp_index

  settled-claim : (owed : ℕ) (p' : Pool) → claim (collected id owed s) id p' ≡ 0
  settled-claim owed p' = mul-sub_self p'.volume_weight _ _ (settled owed)

  taken :
      (neg_part (collected id (owed_to id p s) s).pending_lp_rewards ≡ 0)
      × (pos_part (collected id (owed_to id p s) s).pending_lp_rewards + owed_to id p s
          ≡ pos_part s.pending_lp_rewards)
  taken = -ℤ_pos s.pending_lp_rewards (owed_to id p s) h.nonneg (omega (arith, owed_le, h.covered))

  collected-IsOpen :
      IsOpen id
        (record p { reserve_erth = p.reserve_erth + owed_to id p s })
        (collected id (owed_to id p s) s)
  collected-IsOpen = record {
    distinct = h.distinct;
    keys = h.keys;
    own = h.own;
    indexed = λ j. ground (arith, get_or-set j id s.lp_reward_index 0 s.pool_lp_index, h.indexed j);
    volumes = h.volumes;
    reserves = h.reserves;
    nonneg = taken.0;
    covered = omega (
      arith,
      others_same (owed_to id p s),
      taken,
      owed_le,
      h.covered,
      settled-claim (owed_to id p s) (record p { reserve_erth = p.reserve_erth + owed_to id p s }),
    );
  }

module _ (m : DecMath) (now id : ℕ) (p : Pool) (s : Dex) where
  -- The price accumulator is no part of the rewards.
  advance-IsOpen : IsOpen id p s → IsOpen id p (advance_price_cumulative m now id p s)
  unfolding advance_price_cumulative
  advance-IsOpen h = record {
    distinct = h.distinct;
    keys = h.keys;
    own = h.own;
    indexed = h.indexed;
    volumes = h.volumes;
    reserves = h.reserves;
    nonneg = h.nonneg;
    covered = h.covered;
  }

  -- What a settlement moves: ERTH from the pending pile to the pool's reserve, and nothing else of
  -- the pool or of the other pools.
  pub record Settles (p' : Pool) (s' : Dex) : Type 0 where
    pub opened : IsOpen id p' s'
    pub settled : IsSettled id s'
    pub moved :
        p'.reserve_erth + pos_part s'.pending_lp_rewards
        ≡ p.reserve_erth + pos_part s.pending_lp_rewards
    pub earned : p.reserve_erth ≤ p'.reserve_erth
    pub token : p'.reserve_token ≡ p.reserve_token
    pub weight : p'.volume_weight ≡ p.volume_weight
    pub denom : p'.token_denom ≡ p.token_denom
    pub pools : s'.pools ≡ s.pools
    pub by_token : s'.pool_by_token ≡ s.pool_by_token
    pub volume_total : s'.lp_total_volume ≡ s.lp_total_volume

  -- Settling a pool, from a backed state in which the pool is open, keeps the rewards backed,
  -- leaves the pool nothing to collect, moves ERTH from the pending pile to the pool's reserve
  -- without creating or losing any, and touches no token reserve, volume or other pool.
  pub settle_pool_rewards-Settles :
      IsOpen id p s → let (p', s') = settle_pool_rewards m now id p s in Settles p' s'
  unfolding settle_pool_rewards advance_price_cumulative
  settle_pool_rewards-Settles h =
      elim (Bool-cases (s.lp_reward_index == get_or id 0 s.pool_lp_index)) [
        | inl same ↦ rw same (record {
          opened = advance-IsOpen h;
          settled = ground arith;
          moved = refl;
          earned = omega arith;
          token = refl;
          weight = refl;
          denom = refl;
          pools = refl;
          by_token = refl;
          volume_total = refl;
        })
        | inr behind ↦ rw behind (record {
          opened = collected-IsOpen id p (advance_price_cumulative m now id p s) (advance-IsOpen h);
          settled = settled id p (advance_price_cumulative m now id p s) (advance-IsOpen h) 0;
          moved =
              omega (arith, taken id p (advance_price_cumulative m now id p s) (advance-IsOpen h));
          earned = omega arith;
          token = refl;
          weight = refl;
          denom = refl;
          pools = refl;
          by_token = refl;
          volume_total = refl;
        })
      ]

-- Nor does a settlement touch the hub's denom.
pub settle-hub_denom :
    (m : DecMath) (now id : ℕ) (p : Pool) (s : Dex)
    → (settle_pool_rewards m now id p s).1.hub_denom ≡ s.hub_denom
unfolding settle_pool_rewards advance_price_cumulative
settle-hub_denom m now id p s =
    elim (Bool-cases (s.lp_reward_index == get_or id 0 s.pool_lp_index)) [
      | inl same ↦ rw same refl
      | inr behind ↦ rw behind refl
    ]
