-- ===== src/Dex/Rewards/Sweep.antt =====
-- The EndBlocker's passes of x/dex/keeper/lp_rewards.go: `SweepStalePools` and
-- `MaybeRebaseVolumeIndex`, on the ledger of the LP rewards.
use earth_network_chain.Base.{
  ℕ, ◌*◌, ◌/◌, ◌≡◌, refl, false, ok, err, inl, inr, ◌==◌, Bool-cases, Option-cases, ltb, List, [],
  ◌∷◌, Result, ◌>>=◌,
}
use earth_network_chain.Base.Maps.{get}
use earth_network_chain.Dex.Dec.{DecMath}
use earth_network_chain.Dex.Store.{Pool, Dex, set_pool}
use earth_network_chain.Dex.Rewards.{
  index_precision, day_of, get_volume_index, expire_pool_volume, settle_pool_rewards, rebase_pool,
  rebase_pools, rebase_volume_index, maybe_rebase_volume_index, volume_index_rebase_factor,
  dequeued, sweep_entries, sweep_stale_pools, take_due, pool_stale_sweep_limit,
  volume_index_rebase_at, queue_ids,
}
use earth_network_chain.Dex.Rewards.Backed.{IsBacked, IsOpen, get-IsOpen, set_pool-IsBacked}
use earth_network_chain.Dex.Rewards.Settle.{settle_pool_rewards-Settles}
use earth_network_chain.Dex.Rewards.Volume.{set_pool_volume-IsOpen, schedule_stale-IsOpen}

-- A result keeps the rewards backed, if it is a store.
pub Keeps : Result Dex → Type 0
Keeps (ok s') = IsBacked s'
Keeps (err e) = Unit {0}

Keeps-ok : (s : Dex) → IsBacked s → Keeps (ok s)
unfolding Keeps
Keeps-ok s h = h

Keeps-bind :
    (r : Result Dex) (f : Dex → Result Dex)
    → Keeps r
    → ((s : Dex) → IsBacked s → Keeps (f s))
    → Keeps (r >>= f)
unfolding Keeps
Keeps-bind (ok s) f k next = next s k
Keeps-bind (err e) f k next = tt

-- The state that is kept where a failed pass is discarded.
kept-IsBacked :
    (r : Result Dex) (s : Dex) → Keeps r → IsBacked s → IsBacked (elim r [ ok s' ↦ s' | err e ↦ s ])
unfolding Keeps
kept-IsBacked (ok s') s k h = k
kept-IsBacked (err e) s k h = h

set_pool-Keeps : (id : ℕ) (p : Pool) (s : Dex) → IsOpen id p s → Keeps (set_pool id p s)
unfolding Keeps
set_pool-Keeps id p s h = go (set_pool id p s) refl
  where
    go : (r : Result Dex) → set_pool id p s ≡ r → Keeps r
    go (ok s') e = set_pool-IsBacked id p s s' h e
    go (err _) e = tt

module _ (m : DecMath) (now : ℕ) where
  expire_pool_volume-Keeps : (id : ℕ) (s : Dex) → IsBacked s → Keeps (expire_pool_volume m now id s)
  unfolding expire_pool_volume
  expire_pool_volume-Keeps id s h = elim (Option-cases (get id s.pools)) [
    | inl gone ↦ rw (gone, expire_pool_volume) (Keeps-ok s h)
    | inr (p, e) ↦
        rw (e, expire_pool_volume)
          (elim (Bool-cases (p.volume_weight == 0)) [
            | inl idle ↦ rw idle (Keeps-ok s h)
            | inr live ↦
                let st = settle_pool_rewards-Settles m now id p s (get-IsOpen id p s h e) in
                rw live (
                  set_pool-Keeps id _ _
                    (set_pool_volume-IsOpen id _ _ st.opened 0 (day_of now) st.settled).0)
          ])
  ]

  rebase_pool-Keeps : (id : ℕ) (s : Dex) → IsBacked s → Keeps (rebase_pool m now id s)
  unfolding rebase_pool
  rebase_pool-Keeps id s h = elim (Option-cases (get id s.pools)) [
    | inl gone ↦ rw (gone, rebase_pool) (Keeps-ok s h)
    | inr (p, e) ↦
        let st = settle_pool_rewards-Settles m now id p s (get-IsOpen id p s h e) in
        let p1 = (settle_pool_rewards m now id p s).0 in
        let s1 = (settle_pool_rewards m now id p s).1 in
        let scaled = p1.volume_weight / volume_index_rebase_factor in
        let op =
          (set_pool_volume-IsOpen id p1 s1 st.opened scaled p1.last_traded_day st.settled).0 in
        rw (e, rebase_pool)
          (elim (Bool-cases (scaled == 0)) [
            | inl gone ↦
                rw gone (set_pool-Keeps id _ _ (schedule_stale-IsOpen id _ _ op now id false))
            | inr left ↦ rw left (set_pool-Keeps id _ _ op)
          ])
  ]

  rebase_pools-Keeps : (ids : List ℕ) (s : Dex) → IsBacked s → Keeps (rebase_pools m now ids s)
  unfolding rebase_pools
  rebase_pools-Keeps [] s h = Keeps-ok s h
  rebase_pools-Keeps (id ∷ ids) s h =
      Keeps-bind (rebase_pool m now id s) (rebase_pools m now ids) (rebase_pool-Keeps id s h)
        (λ s' k. rebase_pools-Keeps ids s' k)

  indexed-IsBacked :
      (s : Dex) (index : ℕ) → IsBacked s → IsBacked (record s { volume_index = index })
  indexed-IsBacked s index h = record {
    distinct = h.distinct;
    keys = h.keys;
    indexed = h.indexed;
    volumes = h.volumes;
    reserves = h.reserves;
    nonneg = h.nonneg;
    covered = h.covered;
  }

  dequeued-IsBacked : (e : ℕ × ℕ) (s : Dex) → IsBacked s → IsBacked (dequeued e s)
  dequeued-IsBacked (at, id) s h = record {
    distinct = h.distinct;
    keys = h.keys;
    indexed = h.indexed;
    volumes = h.volumes;
    reserves = h.reserves;
    nonneg = h.nonneg;
    covered = h.covered;
  }

  -- The rebase of the volume index keeps the rewards backed, whether it is due or not, and where it
  -- fails.
  pub maybe_rebase_volume_index-IsBacked :
      (s : Dex) → IsBacked s → IsBacked (maybe_rebase_volume_index m now s)
  unfolding maybe_rebase_volume_index rebase_volume_index
  maybe_rebase_volume_index-IsBacked s h =
      elim (Bool-cases (ltb (get_volume_index s) (index_precision * volume_index_rebase_at))) [
        | inl early ↦ rw (early, maybe_rebase_volume_index, rebase_volume_index) h
        | inr due ↦
            rw (due, maybe_rebase_volume_index, rebase_volume_index)
              (kept-IsBacked _ s
                (Keeps-bind (rebase_pools m now (queue_ids s.pool_stale_queue) s) _
                  (rebase_pools-Keeps (queue_ids s.pool_stale_queue) s h)
                  (λ s' k.
                    Keeps-ok _
                      (indexed-IsBacked s' (get_volume_index s / volume_index_rebase_factor) k)))
                h)
      ]

  sweep_entries-IsBacked :
      (due : List (ℕ × ℕ)) (s : Dex) → IsBacked s → IsBacked (sweep_entries m now due s)
  unfolding sweep_entries
  sweep_entries-IsBacked [] s h = h
  sweep_entries-IsBacked ((at, id) ∷ due) s h =
      let h' = dequeued-IsBacked (at, id) s h in
      sweep_entries-IsBacked due _ (
        kept-IsBacked (expire_pool_volume m now id (dequeued (at, id) s)) (dequeued (at, id) s)
          (expire_pool_volume-Keeps id (dequeued (at, id) s) h') h')

  -- The stale sweep keeps the rewards backed, whichever of its pools fail.
  pub sweep_stale_pools-IsBacked : (s : Dex) → IsBacked s → IsBacked (sweep_stale_pools m now s)
  unfolding sweep_stale_pools
  sweep_stale_pools-IsBacked s h =
      sweep_entries-IsBacked (take_due pool_stale_sweep_limit now s.pool_stale_queue) s h
