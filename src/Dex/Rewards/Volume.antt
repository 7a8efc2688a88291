-- ===== src/Dex/Rewards/Volume.antt =====
-- `setPoolVolume`, `AdvanceVolumeIndex`, `scheduleStale` and `applyVolume` of
-- x/dex/keeper/lp_rewards.go on the ledger of the LP rewards.
use earth_network_chain.Base.{
  ℕ, ◌+◌, ◌*◌, ◌/◌, ◌≡◌, refl, Bool, true, false, arith, inl, inr, ◌==◌, Bool-cases, leb, ltb,
  mul-sub_self, List, ◌∙◌,
}
use earth_network_chain.Base.Maps.{Map}
use earth_network_chain.Dex.Dec.{DecMath}
use earth_network_chain.Dex.Store.{Pool, Dex}
use earth_network_chain.Dex.Rewards.{
  index_precision, day_of, set_pool_volume, advance_volume_index, schedule_stale, apply_volume,
  cap_volume, get_volume_index,
}
use earth_network_chain.Dex.Rewards.Backed.{IsOpen}
use earth_network_chain.Dex.Rewards.Settle.{IsSettled}

-- The store with its volume clock and stale queue replaced.
abbrev retimed : ℕ → ℕ → Map ℕ → List (ℕ × ℕ) → Dex → Dex
retimed index day due queue s = record s {
  volume_index = index;
  volume_index_day = day;
  pool_stale_due = due;
  pool_stale_queue = queue;
}

module _ (id : ℕ) (p : Pool) (s : Dex) (h : IsOpen id p s) where
  -- A settled pool may be given any volume.
  pub set_pool_volume-IsOpen :
      (v day : ℕ)
      → IsSettled id s
      → let (p', s') = set_pool_volume p v day s in IsOpen id p' s' × IsSettled id s'
  unfolding set_pool_volume
  set_pool_volume-IsOpen v day e = (
    record {
      distinct = h.distinct;
      keys = h.keys;
      own = h.own;
      indexed = h.indexed;
      volumes = omega (arith, h.volumes);
      reserves = h.reserves;
      nonneg = h.nonneg;
      covered = omega (arith, h.covered, mul-sub_self v _ _ e);
    },
    e,
  )

  -- The volume index, its day and the stale queue are no part of the accounting.
  pub retimed-IsOpen :
      (index day : ℕ) (due : Map ℕ) (queue : List (ℕ × ℕ))
      → IsOpen id p (retimed index day due queue s)
  retimed-IsOpen index day due queue = record {
    distinct = h.distinct;
    keys = h.keys;
    own = h.own;
    indexed = h.indexed;
    volumes = h.volumes;
    reserves = h.reserves;
    nonneg = h.nonneg;
    covered = h.covered;
  }

  pub schedule_stale-IsOpen : (now j : ℕ) (b : Bool) → IsOpen id p (schedule_stale now j b s)
  unfolding schedule_stale
  schedule_stale-IsOpen now j true = retimed-IsOpen _ _ _ _
  schedule_stale-IsOpen now j false = retimed-IsOpen _ _ _ _

  pub advance_volume_index-IsOpen : (now : ℕ) → IsOpen id p (advance_volume_index now s)
  unfolding advance_volume_index
  advance_volume_index-IsOpen now = elim (Bool-cases (s.volume_index_day == 0)) [
    | inl first ↦ rw first (retimed-IsOpen _ _ _ _)
    | inr later ↦ rw later (elim (Bool-cases (leb (day_of now) s.volume_index_day)) [
      | inl today ↦ rw today h
      | inr new_day ↦ rw new_day (retimed-IsOpen _ _ _ _)
    ])
  ]

-- What recording a trade leaves of the store: everything but the volumes and their clock.
pub record Traded (p p' : Pool) (s s' : Dex) : Type 0 where
  pub erth_same : p'.reserve_erth ≡ p.reserve_erth
  pub token_same : p'.reserve_token ≡ p.reserve_token
  pub denom_same : p'.token_denom ≡ p.token_denom
  pub pools_same : s'.pools ≡ s.pools
  pub by_token_same : s'.pool_by_token ≡ s.pool_by_token
  pub pending_same : s'.pending_lp_rewards ≡ s.pending_lp_rewards
  pub hub_same : s'.hub_denom ≡ s.hub_denom

schedule_stale_frame :
    (now j : ℕ) (b : Bool) (s : Dex)
    → let s' = schedule_stale now j b s in
      (s'.pools ≡ s.pools)
      × (s'.pool_by_token ≡ s.pool_by_token)
      × (s'.pending_lp_rewards ≡ s.pending_lp_rewards)
      × (s'.pool_lp_index ≡ s.pool_lp_index)
      × (s'.lp_reward_index ≡ s.lp_reward_index)
      × (s'.hub_denom ≡ s.hub_denom)
unfolding schedule_stale
schedule_stale_frame now j true s = (refl, refl, refl, refl, refl, refl)
schedule_stale_frame now j false s = (refl, refl, refl, refl, refl, refl)

advance_volume_index_frame :
    (now : ℕ) (s : Dex)
    → let s' = advance_volume_index now s in
      (s'.pools ≡ s.pools)
      × (s'.pool_by_token ≡ s.pool_by_token)
      × (s'.pending_lp_rewards ≡ s.pending_lp_rewards)
      × (s'.pool_lp_index ≡ s.pool_lp_index)
      × (s'.lp_reward_index ≡ s.lp_reward_index)
      × (s'.hub_denom ≡ s.hub_denom)
unfolding advance_volume_index
advance_volume_index_frame now s = elim (Bool-cases (s.volume_index_day == 0)) [
  | inl first ↦ rw first (refl, refl, refl, refl, refl, refl)
  | inr later ↦ rw later (elim (Bool-cases (leb (day_of now) s.volume_index_day)) [
    | inl today ↦ rw today (refl, refl, refl, refl, refl, refl)
    | inr new_day ↦ rw new_day (refl, refl, refl, refl, refl, refl)
  ])
]

-- Recording a trade of a settled pool keeps the rewards backed, and moves no reserve.
pub apply_volume-IsOpen :
    (m : DecMath) (now id amount : ℕ) (p : Pool) (s : Dex)
    → IsOpen id p s
    → IsSettled id s
    → let (p', s') = apply_volume m now p amount s in IsOpen id p' s' × Traded p p' s s'
unfolding apply_volume set_pool_volume
apply_volume-IsOpen m now id amount p s h e =
    let s1 = advance_volume_index now s in
    let f1 = advance_volume_index_frame now s in
    let e1 : IsSettled id s1 = rw (f1.3, f1.4) e in
    let v = cap_volume s1 p (p.volume_weight + amount * get_volume_index s1 / index_precision) in
    let h2 =
      (set_pool_volume-IsOpen id p s1 (advance_volume_index-IsOpen id p s h now) v (day_of now)
        e1).0 in
    (
      schedule_stale-IsOpen id _ _ h2 now p.pool_id (ltb 0 v),
      record {
        erth_same = refl;
        token_same = refl;
        denom_same = refl;
        pools_same = (f2 v).0 ∙ f1.0;
        by_token_same = (f2 v).1 ∙ f1.1;
        pending_same = (f2 v).2 ∙ f1.2;
        hub_same = (f2 v).5 ∙ f1.5;
      },
    )
  where
    f2 :
        (v : ℕ)
        → let s2 = (set_pool_volume p v (day_of now) (advance_volume_index now s)).1 in
          let s' = schedule_stale now p.pool_id (ltb 0 v) s2 in
          (s'.pools ≡ s2.pools)
          × (s'.pool_by_token ≡ s2.pool_by_token)
          × (s'.pending_lp_rewards ≡ s2.pending_lp_rewards)
          × (s'.pool_lp_index ≡ s2.pool_lp_index)
          × (s'.lp_reward_index ≡ s2.lp_reward_index)
          × (s'.hub_denom ≡ s2.hub_denom)
    f2 v =
        schedule_stale_frame now p.pool_id (ltb 0 v)
          (set_pool_volume p v (day_of now) (advance_volume_index now s)).1
