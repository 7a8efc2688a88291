-- ===== src/Allocation/Removal.antt =====
-- How options leave x/allocation: `SweepPrunableOptions` and `pruneOption` of keeper/prune.go,
-- `RemoveGroundworksOption` of keeper/removal.go.
use earth_network_chain.Base.{
  ℕ, zero, suc, Bool, true, false, not, ltb, ◌==◌, if◌then◌else◌, none, some, List, [], ◌∷◌, Result,
  ok, err, or_err, guard, ◌>>=◌, ◌>>◌, bank_refused, invalid_signer,
}
use earth_network_chain.Base.Int.{ℤ, pos, pos_part, ◌-ℤ◌}
use earth_network_chain.Base.Maps.{get, remove}
use earth_network_chain.Allocation.State.{
  Stream, groundworks, is_integrated, AllocationOption, Store, stream_of, with_stream,
  option_prune_sweep_limit,
}
use earth_network_chain.Allocation.Coins.{Coins}
use earth_network_chain.Allocation.Options.{prunable, prune_remove, set_option, settle_option}
use earth_network_chain.Allocation.Emission.{advance_index_to}

-- The due entries that `SweepPrunableOptions` collects, `limit` of them at most.
abbrev pub prune_entries : ℕ → ℕ → List (ℕ × Stream × ℕ) → List (ℕ × Stream × ℕ)
prune_entries zero now q = []
prune_entries (suc limit) now [] = []
prune_entries (suc limit) now (e ∷ q) =
    let rest = prune_entries limit now q in if ltb now e.0 then [] else e ∷ rest

-- An entry taken off the queue and off the due map.
abbrev pub unscheduled : ℕ × Stream × ℕ → Store → Store
unscheduled (at, st, id) s =
    let x = stream_of st s in
    with_stream st (record x { prune_due = remove id x.prune_due })
      (record s { prune_queue = prune_remove (at, st, id) s.prune_queue })

-- The record and the handler entry of an option deleted, and its balance off the running sum.
abbrev pub deleted : Stream → ℕ → AllocationOption → Store → Store
deleted st id o s =
    let x = stream_of st s in
    with_stream st
      (record x {
        options = remove id x.options;
        integrated_options = remove id x.integrated_options;
      })
      (record s { summed_accrued = s.summed_accrued -ℤ pos o.accumulated })

-- A struck option: no weight, no balance, off the total and off the handler set.
abbrev pub struck : AllocationOption → AllocationOption
struck o = record o { removed = true; amount_allocated = pos 0; accumulated = 0 }

abbrev pub released : ℤ → AllocationOption → Store → Store
released weight o s =
    let x = stream_of groundworks s in
    with_stream groundworks
      (record x {
        total_weight = if pos_part weight == 0 then x.total_weight else x.total_weight -ℤ weight;
        integrated_options =
            if is_integrated o.kind then remove o.id x.integrated_options else x.integrated_options;
      })
      s

-- `safeexec.Item`: the writes of a call that fails are dropped.
abbrev pub isolated : {A : Type 0} → A → Result A → A
isolated a (ok r) = r
isolated a (err e) = a

module _ (k : Coins) where
  open k use {State, burn_coins, record_burn}

  -- Burning a forfeited balance, where there is any.
  unfoldable pub burn_forfeited : ℕ → State → Result State
  burn_forfeited n b =
      if n == 0
      then ok b
      else (or_err (burn_coins n b) bank_refused >>= λ b'. or_err (record_burn n b') bank_refused)

  -- `pruneOption`.
  unfoldable pub prune_option : Stream → ℕ → Store → State → Result (Store × State)
  unfolding prunable burn_forfeited
  prune_option st id s b = elim (get id (stream_of st s).options) [
    | none ↦ ok (s, b)
    | some o ↦
        if not (prunable o)
        then ok (s, b)
        else (burn_forfeited o.accumulated b >>= λ b'. ok (deleted st id o s, b'))
  ]

  -- The walk of `SweepPrunableOptions` over the entries that it collected.
  unfoldable pub prune_each : List (ℕ × Stream × ℕ) → Store → State → Store × State
  unfolding prune_option
  prune_each [] s b = (s, b)
  prune_each ((at, st, id) ∷ q) s b =
      let s1 = unscheduled (at, st, id) s in
      let r = isolated (s1, b) (prune_option st id s1 b) in prune_each q (r.0) (r.1)

  -- `SweepPrunableOptions`.
  unfoldable pub sweep_prunable_options : ℕ → Store → State → Store × State
  unfolding prune_each
  sweep_prunable_options now s b =
      prune_each (prune_entries option_prune_sweep_limit now s.prune_queue) s b

  -- Whether `caller` is the registered chamber.
  abbrev pub is_chamber : ℕ → Store → Bool
  is_chamber caller s = elim s.chamber [ none ↦ false | some c ↦ caller == c ]

  -- The part of `RemoveGroundworksOption` that follows its early returns.
  unfoldable pub strike : ℕ → ℕ → AllocationOption → Store → State → Result (Store × State)
  unfolding advance_index_to set_option settle_option burn_forfeited
  strike nanos now o s b = do
    r ← advance_index_to k nanos groundworks s b
    let settled = settle_option o (stream_of groundworks (r.0)).reward_index
    let s2 = set_option now groundworks (struck settled) (r.0)
    b2 ← burn_forfeited settled.accumulated (r.1)
    ok (released settled.amount_allocated settled s2, b2)

  -- `RemoveGroundworksOption`.
  unfoldable pub remove_groundworks_option : ℕ → ℕ → ℕ → ℕ → Store → State → Result (Store × State)
  unfolding strike
  remove_groundworks_option nanos now caller id s b = do
    guard (is_chamber caller s) invalid_signer
    elim (get id (stream_of groundworks s).options) [
      | none ↦ ok (s, b)
      | some o ↦ if o.removed then ok (s, b) else strike nanos now o s b
    ]
