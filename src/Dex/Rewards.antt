-- ===== src/Dex/Rewards.antt =====
-- x/dex/keeper/lp_rewards.go: LP rewards are distributed by a global index over the pools' scaled
-- volume, and settled into a pool's ERTH reserve when the pool is next touched.
pub mod Backed
pub mod Settle
pub mod Distribute
pub mod Volume
pub mod Sweep
use earth_network_chain.Base.{
  ℕ, zero, suc, ◌+◌, ◌-◌, ◌*◌, ◌/◌, ◌^◌, min, Bool, true, false, ltb, leb, ◌==◌, ◌&&◌, ◌||◌,
  if◌then◌else◌, Option, none, some, List, [], ◌∷◌, Result, ok, err, ◌>>=◌,
}
use earth_network_chain.Base.Int.{ℤ, pos, ◌+ℤ◌, ◌-ℤ◌}
use earth_network_chain.Base.Maps.{Map, get, set, remove, get_or}
use earth_network_chain.Dex.Dec.{DecMath}
use earth_network_chain.Dex.Store.{Pool, Params, Dex, volume_depth_cap_per_day_or_default, set_pool}
use earth_network_chain.Dex.Twap.{advance_price_cumulative}

-- `lpIndexPrecision` and `volumeIndexPrecision`.
abbrev pub index_precision : ℕ
index_precision = 10 ^ 18

abbrev pub volume_window_days : ℕ
volume_window_days = 7

abbrev pub volume_decay_window_days : ℕ
volume_decay_window_days = 14

abbrev pub volume_index_max_catch_up_days : ℕ
volume_index_max_catch_up_days = 90

abbrev pub volume_index_rebase_factor : ℕ
volume_index_rebase_factor = 1_000_000

abbrev pub volume_index_rebase_at : ℕ
volume_index_rebase_at = 1_000_000

abbrev pub pool_stale_seconds : ℕ
pool_stale_seconds = 60 * 24 * 60 * 60

abbrev pub pool_stale_sweep_limit : ℕ
pool_stale_sweep_limit = 50

-- `dayOf`.
abbrev pub day_of : ℕ → ℕ
day_of now = now / 86400

-- `getVolumeIndex`.
abbrev pub get_volume_index : Dex → ℕ
get_volume_index s = if s.volume_index == 0 then index_precision else s.volume_index

-- The loop of `AdvanceVolumeIndex`.
unfoldable pub grow_index : ℕ → ℕ → ℕ
grow_index zero idx = idx
grow_index (suc steps) idx =
    grow_index steps (idx * volume_decay_window_days / (volume_decay_window_days - 1))

-- `AdvanceVolumeIndex`.
unfoldable pub advance_volume_index : ℕ → Dex → Dex
advance_volume_index now s =
    if s.volume_index_day == 0
    then record s { volume_index_day = day_of now }
    else if leb (day_of now) s.volume_index_day
    then s
    else record s {
      volume_index =
          grow_index (min (day_of now - s.volume_index_day) volume_index_max_catch_up_days)
            (get_volume_index s);
      volume_index_day = day_of now;
    }

-- `volumeCap`.
abbrev pub volume_cap : Pool → ℕ → ℕ
volume_cap pool per_day = pool.reserve_erth * per_day * volume_window_days

-- `capVolume`.
unfoldable pub cap_volume : Dex → Pool → ℕ → ℕ
cap_volume s pool scaled =
    let cap =
      volume_cap pool (volume_depth_cap_per_day_or_default s.params)
      * get_volume_index s
      / index_precision in
    if ltb cap scaled then cap else scaled

-- `setPoolVolume`. The denominator is clamped at 0, as the truncated difference is.
unfoldable pub set_pool_volume : Pool → ℕ → ℕ → Dex → Pool × Dex
set_pool_volume pool v day s = (
  record pool { volume_weight = v; last_traded_day = day },
  record s { lp_total_volume = s.lp_total_volume + v - pool.volume_weight },
)

-- `DistributeLPRewards`: the amount it took, and the store.
unfoldable pub distribute_lp_rewards : ℕ → Dex → ℕ × Dex
distribute_lp_rewards amount s =
    if amount == 0
    then (0, s)
    else if s.lp_total_volume == 0
    then (0, s)
    else if amount * index_precision / s.lp_total_volume == 0
    then (0, s)
    else let delta = amount * index_precision / s.lp_total_volume in
      let resolved = (delta * s.lp_total_volume + index_precision - 1) / index_precision in
      (
        resolved,
        record s {
          lp_reward_index = s.lp_reward_index + delta;
          pending_lp_rewards = s.pending_lp_rewards +ℤ pos resolved;
        },
      )

-- A key set ordered by due time, then id.
abbrev pub queue_insert : ℕ × ℕ → List (ℕ × ℕ) → List (ℕ × ℕ)
queue_insert (at, id) [] = (at, id) ∷ []
queue_insert (at, id) ((a, i) ∷ q) =
    if ltb at a || (at == a && ltb id i)
    then (at, id) ∷ (a, i) ∷ q
    else if at == a && id == i
    then (a, i) ∷ q
    else (a, i) ∷ queue_insert (at, id) q

abbrev pub queue_remove : ℕ × ℕ → List (ℕ × ℕ) → List (ℕ × ℕ)
queue_remove (at, id) [] = []
queue_remove (at, id) ((a, i) ∷ q) =
    if at == a && id == i then q else (a, i) ∷ queue_remove (at, id) q

-- `scheduleStale` at block time `now`.
unfoldable pub schedule_stale : ℕ → ℕ → Bool → Dex → Dex
schedule_stale now id has_volume s =
    if has_volume
    then record s {
      pool_stale_due = set id (now + pool_stale_seconds) cleared_due;
      pool_stale_queue = queue_insert (now + pool_stale_seconds, id) cleared_queue;
    }
    else record s { pool_stale_due = cleared_due; pool_stale_queue = cleared_queue }
  where
    cleared_due : Map ℕ
    cleared_due = remove id s.pool_stale_due

    cleared_queue : List (ℕ × ℕ)
    cleared_queue = elim (get id s.pool_stale_due) [
      | none ↦ s.pool_stale_queue
      | some due ↦ queue_remove (due, id) s.pool_stale_queue
    ]

-- `initPoolLpIndex`.
unfoldable pub init_pool_lp_index : ℕ → Dex → Dex
init_pool_lp_index id s = record s { pool_lp_index = set id s.lp_reward_index s.pool_lp_index }

-- What `settlePoolRewards` owes a pool. A difference that is not positive owes nothing.
abbrev pub owed_to : ℕ → Pool → Dex → ℕ
owed_to id pool s =
    pool.volume_weight * (s.lp_reward_index - get_or id 0 s.pool_lp_index) / index_precision

module _ (m : DecMath) where
  -- `settlePoolRewards` at block time `now`.
  unfoldable pub settle_pool_rewards : ℕ → ℕ → Pool → Dex → Pool × Dex
  unfolding advance_price_cumulative
  settle_pool_rewards now id pool s =
      let s' = advance_price_cumulative m now id pool s in
      if s'.lp_reward_index == get_or id 0 s'.pool_lp_index then (pool, s') else (
        record pool { reserve_erth = pool.reserve_erth + owed_to id pool s' },
        record s' {
          pending_lp_rewards = s'.pending_lp_rewards -ℤ pos (owed_to id pool s');
          pool_lp_index = set id s'.lp_reward_index s'.pool_lp_index;
        },
      )

  -- `applyVolume` at block time `now`.
  unfoldable pub apply_volume : ℕ → Pool → ℕ → Dex → Pool × Dex
  unfolding advance_volume_index cap_volume set_pool_volume schedule_stale
  apply_volume now pool erth_amount s =
      let s1 = advance_volume_index now s in
      let v =
        cap_volume s1 pool
          (pool.volume_weight + erth_amount * get_volume_index s1 / index_precision) in
      let (pool', s2) = set_pool_volume pool v (day_of now) s1 in
      (pool', schedule_stale now pool.pool_id (ltb 0 v) s2)

  -- `expirePoolVolume` at block time `now`.
  unfoldable pub expire_pool_volume : ℕ → ℕ → Dex → Result Dex
  unfolding settle_pool_rewards set_pool_volume set_pool
  expire_pool_volume now id s = elim (get id s.pools) [
    | none ↦ ok s
    | some pool ↦
        if pool.volume_weight == 0
        then ok s
        else let (pool1, s1) = settle_pool_rewards now id pool s in
          let (pool2, s2) = set_pool_volume pool1 0 (day_of now) s1 in set_pool id pool2 s2
  ]

-- The due entries that `SweepStalePools` collects: in due order, `limit` of them at most.
unfoldable pub take_due : ℕ → ℕ → List (ℕ × ℕ) → List (ℕ × ℕ)
take_due zero now q = []
take_due (suc limit) now [] = []
take_due (suc limit) now ((at, id) ∷ q) =
    let rest = take_due limit now q in if ltb now at then [] else (at, id) ∷ rest

-- An entry taken off the queue and off the due map.
abbrev pub dequeued : ℕ × ℕ → Dex → Dex
dequeued (at, id) s = record s {
  pool_stale_queue = queue_remove (at, id) s.pool_stale_queue;
  pool_stale_due = remove id s.pool_stale_due;
}

-- The ids of the queue's entries.
abbrev pub queue_ids : List (ℕ × ℕ) → List ℕ
queue_ids [] = []
queue_ids ((at, id) ∷ q) = id ∷ queue_ids q

module _ (m : DecMath) (now : ℕ) where
  -- The loop of `SweepStalePools`: `safeexec.Cached` drops what a failed entry wrote.
  unfoldable pub sweep_entries : List (ℕ × ℕ) → Dex → Dex
  sweep_entries [] s = s
  sweep_entries ((at, id) ∷ due) s =
      sweep_entries due (elim (expire_pool_volume m now id (dequeued (at, id) s)) [
        | ok s' ↦ s'
        | err e ↦ dequeued (at, id) s
      ])

  -- `SweepStalePools`.
  unfoldable pub sweep_stale_pools : Dex → Dex
  unfolding sweep_entries take_due
  sweep_stale_pools s = sweep_entries (take_due pool_stale_sweep_limit now s.pool_stale_queue) s

  -- One pool of `RebaseVolumeIndex`.
  unfoldable pub rebase_pool : ℕ → Dex → Result Dex
  rebase_pool id s = elim (get id s.pools) [
    | none ↦ ok s
    | some pool ↦
        let (pool1, s1) = settle_pool_rewards m now id pool s in
        let scaled = pool1.volume_weight / volume_index_rebase_factor in
        let (pool2, s2) = set_pool_volume pool1 scaled pool1.last_traded_day s1 in
        set_pool id pool2 (if scaled == 0 then schedule_stale now id false s2 else s2)
  ]

  unfoldable pub rebase_pools : List ℕ → Dex → Result Dex
  rebase_pools [] s = ok s
  rebase_pools (id ∷ ids) s = rebase_pool id s >>= rebase_pools ids

  -- `RebaseVolumeIndex`.
  unfoldable pub rebase_volume_index : Dex → Result Dex
  rebase_volume_index s =
      if ltb (get_volume_index s) (index_precision * volume_index_rebase_at)
      then ok s
      else (rebase_pools (queue_ids s.pool_stale_queue) s >>= λ s'.
          ok (record s' { volume_index = get_volume_index s / volume_index_rebase_factor }))

  -- `MaybeRebaseVolumeIndex`: a failed rebase is discarded whole.
  unfoldable pub maybe_rebase_volume_index : Dex → Dex
  maybe_rebase_volume_index s = elim (rebase_volume_index s) [ ok s' ↦ s' | err e ↦ s ]
