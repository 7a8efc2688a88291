-- ===== src/Allocation/Emission.antt =====
-- The reward index of a stream and the emission that it mints: `AdvanceIndex`, `advanceIndexTo`,
-- `settleTo`, `ceilQuo` and `mintEmission` of x/allocation/keeper/allocation.go, `heldTarget` and
-- `nextLapse` of keeper/lease.go.
use earth_network_chain.Base.{
  ℕ, ◌+◌, ◌-◌, ◌*◌, ◌/◌, not, ◌&&◌, ◌||◌, ltb, leb, ◌==◌, if◌then◌else◌, Option, none, some, [],
  ◌∷◌, Result, ok, or_err, ◌>>=◌, bank_refused,
}
use earth_network_chain.Base.Int.{pos_part}
use earth_network_chain.Allocation.State.{
  Stream, StreamState, Store, stream_of, with_stream, index_precision, emission_per_second,
  nanos_per_second,
}
use earth_network_chain.Allocation.Coins.{Coins}

-- `ceilQuo`.
unfoldable pub ceil_quo : ℕ → ℕ → ℕ
ceil_quo n d = (n + d - 1) / d

-- `nextLapse`: the first lease of the stream, where it is due at `t`.
unfoldable pub next_lapse : StreamState → ℕ → Option ℕ
next_lapse x t = elim x.voter_lapses [ [] ↦ none | e ∷ q ↦ if leb e.0 t then some e.0 else none ]

-- `heldTarget`.
unfoldable pub held_target : StreamState → ℕ → ℕ
unfolding next_lapse
held_target x now = elim (next_lapse x (now / nanos_per_second)) [
  | none ↦ now
  | some t ↦ if ltb (t * nanos_per_second) now then t * nanos_per_second else now
]

module _ (k : Coins) where
  open k use {State, mint_coins}

  -- `mintEmission`.
  unfoldable pub mint_emission : ℕ → ℕ → Store → State → Result (Store × State)
  mint_emission reward collectable s b = do
    b' ← or_err (mint_coins reward b) bank_refused
    ok (record s { residue = s.residue + (reward - collectable) }, b')

  -- The emission of the nanoseconds between two settlements.
  abbrev pub reward_of : ℕ → ℕ → ℕ
  reward_of last now = emission_per_second * (now - last) / nanos_per_second

  -- The index and the mint of `settleTo`, for a stream that was settled before.
  unfoldable pub accrue : ℕ → Stream → Store → State → Result (Store × State)
  unfolding mint_emission ceil_quo
  accrue now st s b =
      let x = stream_of st s in
      let total = pos_part x.total_weight in
      let reward = reward_of x.last_upkeep now in
      let delta = reward * index_precision / total in
      if total == 0 || reward == 0
      then ok (s, b)
      else mint_emission reward (ceil_quo (delta * total) index_precision)
          (with_stream st (record x { reward_index = x.reward_index + delta }) s) b

  -- `settleTo`.
  unfoldable pub settle_to : ℕ → Stream → Store → State → Result (Store × State)
  unfolding accrue
  settle_to now st s b =
      let last = (stream_of st s).last_upkeep in
      if not (last == 0) && leb now last
      then ok (s, b)
      else ((if last == 0 then ok (s, b) else accrue now st s b) >>= λ r.
          ok (with_stream st (record (stream_of st (r.0)) { last_upkeep = now }) (r.0), r.1))

  -- `advanceIndexTo`; `AdvanceIndex` calls it with the block time.
  unfoldable pub advance_index_to : ℕ → Stream → Store → State → Result (Store × State)
  unfolding settle_to held_target
  advance_index_to now st s b =
      let x = stream_of st s in
      settle_to (if x.last_upkeep == 0 then now else held_target x now) st s b
