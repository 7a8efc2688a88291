-- ===== src/Dex/Rewards/Distribute.antt =====
-- `DistributeLPRewards` of x/dex/keeper/lp_rewards.go on the ledger of the LP rewards.
use native.Mathlib.Nat.{div-mul-le_self}
use earth_network_chain.Base.{
  ℕ, ◌+◌, ◌-◌, ◌*◌, ◌/◌, ◌≤◌, ◌≡◌, refl, arith, inl, inr, ◌==◌, Bool-cases,
}
use earth_network_chain.Base.Int.{pos, pos_part, ◌+ℤ◌, +ℤ_pos}
use earth_network_chain.Base.Maps.{get_or, sum_by, sum_by-grow, Every-map}
use earth_network_chain.Dex.Store.{Pool, Dex}
use earth_network_chain.Dex.Rewards.{index_precision, distribute_lp_rewards}
use earth_network_chain.Dex.Rewards.Backed.{IsBacked, volume, claim, Keyed}

-- The store with the index raised by `delta` and `resolved` booked as pending.
abbrev raised : ℕ → ℕ → Dex → Dex
raised delta resolved s = record s {
  lp_reward_index = s.lp_reward_index + delta;
  pending_lp_rewards = s.pending_lp_rewards +ℤ pos resolved;
}

module _ (delta resolved : ℕ) (s : Dex) (h : IsBacked s) where
  claims_grow :
      sum_by (claim (raised delta resolved s)) s.pools
      ≡ sum_by (claim s) s.pools + delta * s.lp_total_volume
  claims_grow = rw h.volumes (
      sum_by-grow (claim (raised delta resolved s)) (claim s) volume delta s.pools
        (Every-map Keyed _ s.pools grown h.keys))
    where
      grown :
          (k : ℕ) (v : Pool)
          → Keyed k v
          → claim (raised delta resolved s) k v ≡ claim s k v + delta * v.volume_weight
      grown k v e =
          let e' : s.lp_reward_index + delta - get_or k 0 s.pool_lp_index
              ≡ s.lp_reward_index - get_or k 0 s.pool_lp_index + delta =
            omega (arith, h.indexed k) in
          rw e' (omega arith)

  raised-IsBacked :
      delta * s.lp_total_volume ≤ index_precision * resolved → IsBacked (raised delta resolved s)
  raised-IsBacked enough = record {
    distinct = h.distinct;
    keys = h.keys;
    indexed = λ id. omega (arith, h.indexed id);
    volumes = h.volumes;
    reserves = h.reserves;
    nonneg = (+ℤ_pos s.pending_lp_rewards resolved h.nonneg).0;
    covered = omega (arith, claims_grow, h.covered, +ℤ_pos s.pending_lp_rewards resolved h.nonneg);
  }

-- Distributing an amount keeps the rewards backed, takes no more than the amount, books exactly
-- what it took as pending, and moves no pool.
pub distribute_lp_rewards-IsBacked :
    (amount : ℕ) (s : Dex)
    → IsBacked s
    → let (taken, s') = distribute_lp_rewards amount s in
      IsBacked s'
      × (taken ≤ amount)
      × (pos_part s'.pending_lp_rewards ≡ pos_part s.pending_lp_rewards + taken)
      × (s'.pools ≡ s.pools)
unfolding distribute_lp_rewards
distribute_lp_rewards-IsBacked amount s h = elim (Bool-cases (amount == 0)) [
  | inl none_given ↦ rw none_given (h, omega arith, omega arith, refl)
  | inr given ↦ rw given (elim (Bool-cases (s.lp_total_volume == 0)) [
    | inl no_volume ↦ rw no_volume (h, omega arith, omega arith, refl)
    | inr some_volume ↦
        rw some_volume (elim (Bool-cases (amount * index_precision / s.lp_total_volume == 0)) [
          | inl too_small ↦ rw too_small (h, omega arith, omega arith, refl)
          | inr enough ↦
              let fits = div-mul-le_self (amount * index_precision) s.lp_total_volume in
              rw enough (
                raised-IsBacked _ _ s h (omega arith),
                omega arith,
                (+ℤ_pos s.pending_lp_rewards _ h.nonneg).1,
                refl,
              )
        ])
  ])
]
