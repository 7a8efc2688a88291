-- ===== src/Allocation/Options.antt =====
-- The option records of x/allocation: `setOption`, `settleOption`, `appendOption` and
-- `DrawFromOption` of keeper/allocation.go, `prunable` and `refreshPruneSchedule` of keeper/prune.go.
use earth_network_chain.Base.{
  ℕ, suc, ◌+◌, ◌-◌, ◌*◌, ◌/◌, Bool, true, not, ◌&&◌, ◌||◌, ltb, ◌==◌, if◌then◌else◌, Option, none,
  some, List, [], ◌∷◌,
}
use earth_network_chain.Base.Int.{ℤ, pos, pos_part, neg_part, sub_ℕ, ◌+ℤ◌, ◌-ℤ◌}
use earth_network_chain.Base.Maps.{get, set, remove}
use earth_network_chain.Allocation.State.{
  Stream, key, is_integrated, AllocationOption, StreamState, Store, stream_of, with_stream,
  index_precision, ppm_denominator, option_idle_grace,
}

abbrev pub is_zero : ℤ → Bool
is_zero z = pos_part z == 0 && neg_part z == 0

-- `prunable`.
unfoldable pub prunable : AllocationOption → Bool
prunable o = o.removed || (not (is_integrated o.kind) && is_zero o.amount_allocated)

abbrev pub before : ℕ × Stream × ℕ → ℕ × Stream × ℕ → Bool
before (at, st, id) (a, t, i) =
    ltb at a || (at == a && (ltb (key st) (key t) || (key st == key t && ltb id i)))

abbrev pub same_entry : ℕ × Stream × ℕ → ℕ × Stream × ℕ → Bool
same_entry (at, st, id) (a, t, i) = at == a && (key st == key t && id == i)

-- `PruneQueue.Set` and `PruneQueue.Remove`.
abbrev pub prune_insert : ℕ × Stream × ℕ → List (ℕ × Stream × ℕ) → List (ℕ × Stream × ℕ)
prune_insert e [] = e ∷ []
prune_insert e (f ∷ q) =
    if before e f then e ∷ f ∷ q else if same_entry e f then f ∷ q else f ∷ prune_insert e q

abbrev pub prune_remove : ℕ × Stream × ℕ → List (ℕ × Stream × ℕ) → List (ℕ × Stream × ℕ)
prune_remove e [] = []
prune_remove e (f ∷ q) = if same_entry e f then q else f ∷ prune_remove e q

-- `refreshPruneSchedule` at block time `now`, in seconds.
unfoldable pub refresh_prune_schedule : ℕ → Stream → AllocationOption → Store → Store
unfolding prunable
refresh_prune_schedule now st o s =
    if prunable o
    then (elim (get o.id x.prune_due) [ some due ↦ s | none ↦ scheduled ])
    else (elim (get o.id x.prune_due) [ some due ↦ cleared due | none ↦ s ])
  where
    x : StreamState
    x = stream_of st s

    scheduled : Store
    scheduled =
        with_stream st (record x { prune_due = set o.id (now + option_idle_grace) x.prune_due })
          (record s {
            prune_queue = prune_insert (now + option_idle_grace, st, o.id) s.prune_queue;
          })

    cleared : ℕ → Store
    cleared due =
        with_stream st (record x { prune_due = remove o.id x.prune_due })
          (record s { prune_queue = prune_remove (due, st, o.id) s.prune_queue })

abbrev pub amount_of : Option AllocationOption → ℤ
amount_of none = pos 0
amount_of (some o) = o.amount_allocated

abbrev pub accrued_of : Option AllocationOption → ℕ
accrued_of none = 0
accrued_of (some o) = o.accumulated

-- The writes of `setOption` before the schedule: both running sums and the record.
abbrev pub recorded : Stream → AllocationOption → Store → Store
recorded st o s =
    let x = stream_of st s in
    let prev = get o.id x.options in
    with_stream st
      (record x {
        summed_weight = x.summed_weight +ℤ (o.amount_allocated -ℤ amount_of prev);
        options = set o.id o x.options;
      })
      (record s { summed_accrued = s.summed_accrued +ℤ sub_ℕ o.accumulated (accrued_of prev) })

-- `setOption`. A difference that is zero is written too, and adds nothing.
unfoldable pub set_option : ℕ → Stream → AllocationOption → Store → Store
unfolding refresh_prune_schedule
set_option now st o s = refresh_prune_schedule now st o (recorded st o s)

-- `settleOption`: an option with no positive weight accrues nothing.
unfoldable pub settle_option : AllocationOption → ℕ → AllocationOption
settle_option o index = record o {
  accumulated =
      if pos_part o.amount_allocated == 0
      then o.accumulated
      else o.accumulated
        + pos_part o.amount_allocated * (index - o.last_reward_index) / index_precision;
  last_reward_index = index;
}

-- `appendOption`, with `nextOptionID`: the id and the store.
unfoldable pub append_option : ℕ → Stream → AllocationOption → Store → ℕ × Store
unfolding set_option
append_option now st o s =
    let x = stream_of st s in
    let id = suc x.option_seq in
    let fresh = record o {
      id = id;
      amount_allocated = pos 0;
      accumulated = 0;
      last_reward_index = x.reward_index;
    } in
    let s1 = set_option now st fresh (with_stream st (record x { option_seq = id }) s) in
    let y = stream_of st s1 in
    (
      id,
      if is_integrated o.kind
          then with_stream st (record y { integrated_options = set id true y.integrated_options })
              s1
          else s1,
    )

-- `DrawFromOption`, for a `ppm` of at most `ppm_denominator`: what the caller is to pay out, and
-- the store.
unfoldable pub draw_from_option : ℕ → Stream → ℕ → ℕ → Store → ℕ × Store
unfolding set_option settle_option
draw_from_option now st id ppm s = elim (get id (stream_of st s).options) [
  | none ↦ (0, s)
  | some o ↦
      let settled = settle_option o (stream_of st s).reward_index in
      let drawn = settled.accumulated * ppm / ppm_denominator in
      (drawn, set_option now st (record settled { accumulated = settled.accumulated - drawn }) s)
]
