-- ===== src/Allocation/Votes/Lapses.antt =====
-- The leases of x/allocation: `SweepLapses` and `lapse` of keeper/lease.go. `fails` says which item's
-- call panics or runs out of gas, so that `safeexec.Cached` drops its writes.
use earth_network_chain.Base.{
  ℕ, zero, suc, ◌+◌, ◌*◌, ◌/◌, Bool, false, not, ◌&&◌, ◌||◌, ltb, leb, ◌==◌, if◌then◌else◌, Option,
  none, some, List, [], ◌∷◌, length, Result, ok, err, ◌>>=◌, lease_left_behind, out_of_fuel,
}
use earth_network_chain.Base.Maps.{get}
use earth_network_chain.Allocation.State.{Stream, Store, stream_of, with_stream, nanos_per_second}
use earth_network_chain.Allocation.Coins.{Coins}
use earth_network_chain.Allocation.Emission.{next_lapse, settle_to}
use earth_network_chain.Allocation.Votes.{lapse_insert, lapse_remove, split_record, write_voter}

-- A day, in seconds.
abbrev pub lapse_retry_seconds : ℕ
lapse_retry_seconds = 24 * 60 * 60

-- `LapseRetryAt`.
abbrev pub lapse_retry_at : ℕ → ℕ → ℕ
lapse_retry_at now t = (if ltb t now then now else t) + lapse_retry_seconds

-- The leases due at exactly `t`: the walk of `lapse`.
abbrev pub due_at : ℕ → List (ℕ × ℕ) → List ℕ
due_at t [] = []
due_at t (e ∷ q) = let rest = due_at t q in if e.0 == t then e.1 ∷ rest else rest

-- The stream with another lease queue.
abbrev pub requeued : Stream → List (ℕ × ℕ) → Store → Store
requeued st q s = with_stream st (record (stream_of st s) { voter_lapses = q }) s

-- One lease of `lapse`, where its call goes through.
unfoldable pub retire : ℕ → Stream → ℕ → ℕ → Store → Store
unfolding write_voter
retire now st t addr s =
    let x = stream_of st s in
    let s1 = requeued st (lapse_remove (t, addr) x.voter_lapses) s in
    elim (get addr x.voters) [
      | none ↦ s1
      | some v ↦
          if ltb t v.expires_at || not (v.epoch == x.epoch)
          then s1
          else write_voter now st addr (split_record [] 0 0) [] false s1
    ]

-- One lease of `lapse`, where its call fails: it is filed again a day on.
abbrev pub refile : ℕ → Stream → ℕ → ℕ → Store → Store
refile now st t addr s =
    requeued st
      (lapse_insert (lapse_retry_at now t, addr)
        (lapse_remove (t, addr) (stream_of st s).voter_lapses))
      s

module _ (fails : ℕ → ℕ → Store → Bool) where
  -- One lease of `lapse`.
  unfoldable pub lapse_one : ℕ → Stream → ℕ → ℕ → Store → Store
  unfolding retire
  lapse_one now st t addr s =
      if fails t addr s then refile now st t addr s else retire now st t addr s

  -- The loop of `lapse`.
  unfoldable pub lapse_each : ℕ → Stream → ℕ → List ℕ → Store → Store
  unfolding lapse_one
  lapse_each now st t [] s = s
  lapse_each now st t (addr ∷ due) s = lapse_each now st t due (lapse_one now st t addr s)

  -- `lapse`.
  unfoldable pub lapse : ℕ → Stream → ℕ → Store → Store
  unfolding lapse_each
  lapse now st t s = lapse_each now st t (due_at t (stream_of st s).voter_lapses) s

  module _ (k : Coins) where
    open k use {State}

    -- The settlement before a lapse.
    unfoldable pub settle_before : Stream → ℕ → Store → State → Result (Store × State)
    unfolding settle_to
    settle_before st at s b =
        let last = (stream_of st s).last_upkeep in
        if not (last == 0) && ltb last at then settle_to k at st s b else ok (s, b)

    -- The loop of `SweepLapses`, after a lapse at `prev`, to the block time `nanos`, whose seconds are
    -- `now`.
    unfoldable pub sweep_loop :
        ℕ → ℕ → ℕ → Option ℕ → Stream → Store → State → Result (Store × State)
    unfolding next_lapse settle_before lapse settle_to
    sweep_loop zero nanos now prev st s b = err out_of_fuel
    sweep_loop (suc fuel) nanos now prev st s b = elim (next_lapse (stream_of st s) now) [
      | none ↦ settle_to k nanos st s b
      | some next ↦
          if elim prev [ none ↦ false | some p ↦ leb next p ]
          then err lease_left_behind
          else settle_before st (next * nanos_per_second) s b >>= λ r.
              sweep_loop fuel nanos now (some next) st (lapse now st next (r.0)) (r.1)
    ]

    -- `SweepLapses`: each round takes a lease off the queue's due part at least.
    unfoldable pub sweep_lapses : ℕ → Stream → Store → State → Result (Store × State)
    unfolding sweep_loop
    sweep_lapses nanos st s b =
        sweep_loop (suc (length (stream_of st s).voter_lapses)) nanos (nanos / nanos_per_second)
          none st s b
