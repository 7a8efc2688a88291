-- ===== src/Allocation/Writes.antt =====
-- `setOption` on the ledger of x/allocation.
use earth_network_chain.Base.{
  ℕ, ◌+◌, ◌*◌, ◌≤◌, ◌≡◌, refl, some, arith, Bool-cases, Option-cases, List, inl, inr,
}
use earth_network_chain.Base.Int.{ℤ, pos_part, neg_part, ◌-ℤ◌, ◌+ℤ◌, +ℤ-sub_ℕ, +ℤ-sub}
use earth_network_chain.Base.Maps.{
  Map, get, set, sum_by, at, sum_by-set, sum_by-remove, set-IsDistinct, set-Every, get-Every,
}
use earth_network_chain.Allocation.State.{
  Stream, caretaker, groundworks, AllocationOption, StreamState, Store, stream_of, with_stream,
  index_precision,
}
use earth_network_chain.Allocation.Coins.{Coins}
use earth_network_chain.Allocation.Options.{
  amount_of, accrued_of, recorded, refresh_prune_schedule, set_option, prunable,
}
use earth_network_chain.Allocation.Booked.{
  weight, balance, claim, balances, IsKept, IsBooked, IsAgreed, IsSolvent, with_stream-IsSolvent,
  with_stream-IsAgreed,
}

-- The prune schedule is no part of the ledger.
refresh_prune_schedule-IsSolvent :
    (k : Coins) (now : ℕ) (st : Stream) (o : AllocationOption) (free : ℕ) (s : Store) (b : k.State)
    → IsSolvent k free s b
    → IsSolvent k free (refresh_prune_schedule now st o s) b
unfolding refresh_prune_schedule
refresh_prune_schedule-IsSolvent k now st o free s b h = elim (Bool-cases (prunable o)) [
  | inl idle ↦ elim (Option-cases (get o.id (stream_of st s).prune_due)) [
    | inl absent ↦ rw (idle, absent) (moved _ _)
    | inr present ↦ rw (idle, present.1) h
  ]
  | inr live ↦ elim (Option-cases (get o.id (stream_of st s).prune_due)) [
    | inl absent ↦ rw (live, absent) h
    | inr present ↦ rw (live, present.1) (moved _ _)
  ]
]
  where
    moved :
        (due : Map ℕ) (q : List (ℕ × Stream × ℕ))
        → IsSolvent k free
            (with_stream st
              (record (stream_of st s) { prune_due = due })
              (record s { prune_queue = q }))
            b
    moved due q =
        let hx = h.booked st in
        with_stream-IsSolvent k st (record (stream_of st s) { prune_due = due }) s.summed_accrued
          s.residue free free q s b b h
          (record {
            distinct = hx.distinct;
            kept = hx.kept;
            summed = hx.summed;
            summed_nonneg = hx.summed_nonneg;
          })
          h.accrued_nonneg refl (omega arith)

-- What a write of `setOption` changes of the running sums.
module _ (o : AllocationOption) (x : StreamState) (hx : IsBooked x) where
  old_amount : pos_part (amount_of (get o.id x.options)) ≡ at weight o.id x.options
  old_amount = elim (Option-cases (get o.id x.options)) [
    | inl e ↦ rw (e, at) refl
    | inr e ↦ rw (e.1, at) refl
  ]

  old_balance : accrued_of (get o.id x.options) ≡ at balance o.id x.options
  old_balance = elim (Option-cases (get o.id x.options)) [
    | inl e ↦ rw (e, at) refl
    | inr e ↦ rw (e.1, at) refl
  ]

  old_nonneg : neg_part (amount_of (get o.id x.options)) ≡ 0
  old_nonneg = elim (Option-cases (get o.id x.options)) [
    | inl e ↦ rw e refl
    | inr e ↦ rw e.1 (get-Every (IsKept x.reward_index) o.id (e.0) x.options hx.kept e.1).nonneg
  ]

  -- A part is no more than the whole.
  old_fits : (f : ℕ → AllocationOption → ℕ) → at f o.id x.options ≤ sum_by f x.options
  old_fits f = omega (arith, sum_by-remove f o.id x.options)

  set-IsBooked :
      IsKept x.reward_index o.id o
      → IsBooked (record x {
        summed_weight = x.summed_weight +ℤ (o.amount_allocated -ℤ amount_of (get o.id x.options));
        options = set o.id o x.options;
      })
  set-IsBooked kept =
      let moved =
        +ℤ-sub x.summed_weight (amount_of (get o.id x.options)) o.amount_allocated hx.summed_nonneg
          old_nonneg kept.nonneg (omega (arith, old_amount, old_fits weight, hx.summed)) in
      record {
        distinct = set-IsDistinct o.id o x.options hx.distinct;
        kept = set-Every (IsKept x.reward_index) o.id o x.options kept hx.kept;
        summed = omega (arith, moved, old_amount, hx.summed, sum_by-set weight o.id o x.options);
        summed_nonneg = moved.0;
      }

-- One stream's part is no more than both.
pub of_total :
    (f : StreamState → ℕ) (st : Stream) (s : Store)
    → f (stream_of st s) ≤ f s.caretaker_state + f s.groundworks_state
of_total f caretaker s = omega arith
of_total f groundworks s = omega arith

-- Writing an option keeps the module solvent where what the option holds and could still collect,
-- with what is free after, is covered by what it held and could collect, with what was free before.
pub set_option-IsSolvent :
    (k : Coins) (now : ℕ) (st : Stream) (o : AllocationOption) (free free' : ℕ) (s : Store)
    (b : k.State)
    → IsSolvent k free s b
    → IsKept (stream_of st s).reward_index o.id o
    → index_precision * (o.accumulated + free') + claim (stream_of st s).reward_index o.id o
      ≤ index_precision * (at balance o.id (stream_of st s).options + free)
        + at (claim (stream_of st s).reward_index) o.id (stream_of st s).options
    → IsSolvent k free' (set_option now st o s) b
unfolding set_option
set_option-IsSolvent k now st o free free' s b h kept le =
    let x = stream_of st s in
    let hx = h.booked st in
    let fits : at balance o.id x.options ≤ pos_part s.summed_accrued =
      omega (arith, old_fits o x hx balance, h.accrued, of_total balances st s) in
    let moved =
      +ℤ-sub_ℕ s.summed_accrued (accrued_of (get o.id x.options)) o.accumulated h.accrued_nonneg
        (omega (arith, old_balance o x hx, fits)) in
    refresh_prune_schedule-IsSolvent k now st o free' _ b (
      with_stream-IsSolvent k st _ _ s.residue free free' s.prune_queue s b b h
        (set-IsBooked o x hx kept) moved.0
        (omega (arith, moved, old_balance o x hx, sum_by-set balance o.id o x.options))
        (omega (
          arith,
          le,
          moved,
          old_balance o x hx,
          sum_by-set (claim x.reward_index) o.id o x.options,
        )))

pub at-some :
    (f : ℕ → AllocationOption → ℕ) (id : ℕ) (o : AllocationOption) (m : Map AllocationOption)
    → get id m ≡ some o
    → at f id m ≡ f id o
at-some f id o m e = rw (e, at) refl

-- The same for an option that was read from the store.
pub set_option-over :
    (k : Coins) (now : ℕ) (st : Stream) (id : ℕ) (old o : AllocationOption) (free free' : ℕ)
    (s : Store) (b : k.State)
    → IsSolvent k free s b
    → get id (stream_of st s).options ≡ some old
    → IsKept (stream_of st s).reward_index id o
    → index_precision * (o.accumulated + free') + claim (stream_of st s).reward_index id o
      ≤ index_precision * (old.accumulated + free) + claim (stream_of st s).reward_index id old
    → IsSolvent k free' (set_option now st o s) b
set_option-over k now st id old o free free' s b h e kept le =
    let x = stream_of st s in
    let e' : get o.id x.options ≡ some old = rw kept.own e in
    set_option-IsSolvent k now st o free free' s b h
      (record { own = refl; nonneg = kept.nonneg; current = kept.current; idle = kept.idle })
      (omega (
        arith,
        le,
        at-some balance o.id old x.options e',
        at-some (claim x.reward_index) o.id old x.options e',
      ))

refresh_prune_schedule-IsAgreed :
    (now : ℕ) (st : Stream) (o : AllocationOption) (s : Store) (j : Stream)
    → IsAgreed (stream_of j s)
    → IsAgreed (stream_of j (refresh_prune_schedule now st o s))
unfolding refresh_prune_schedule
refresh_prune_schedule-IsAgreed now st o s j h = elim (Bool-cases (prunable o)) [
  | inl idle ↦ elim (Option-cases (get o.id (stream_of st s).prune_due)) [
    | inl absent ↦ rw (idle, absent) (moved _ _)
    | inr present ↦ rw (idle, present.1) h
  ]
  | inr live ↦ elim (Option-cases (get o.id (stream_of st s).prune_due)) [
    | inl absent ↦ rw (live, absent) h
    | inr present ↦ rw (live, present.1) (moved _ _)
  ]
]
  where
    moved :
        (due : Map ℕ) (q : List (ℕ × Stream × ℕ))
        → IsAgreed (
            stream_of j (
              with_stream st
                (record (stream_of st s) { prune_due = due })
                (record s { prune_queue = q })))
    moved due q =
        with_stream-IsAgreed st (record (stream_of st s) { prune_due = due }) s.summed_accrued
          s.residue q s (λ t. record { total = t.total; total_nonneg = t.total_nonneg }) j h

-- Writing an option back with the weight that it had keeps the totals what the options hold.
pub set_option-IsAgreed :
    (now : ℕ) (st : Stream) (id : ℕ) (old o : AllocationOption) (s : Store)
    → get id (stream_of st s).options ≡ some old
    → o.id ≡ id
    → pos_part o.amount_allocated ≡ pos_part old.amount_allocated
    → (j : Stream) → IsAgreed (stream_of j s)
    → IsAgreed (stream_of j (set_option now st o s))
unfolding set_option
set_option-IsAgreed now st id old o s e own same j h =
    let x = stream_of st s in
    let e' : get o.id x.options ≡ some old = rw own e in
    refresh_prune_schedule-IsAgreed now st o _ j (
      with_stream-IsAgreed st _ _ s.residue s.prune_queue s
        (λ t. record {
          total = omega (
            arith,
            t.total,
            same,
            sum_by-set weight o.id o x.options,
            at-some weight o.id old x.options e',
          );
          total_nonneg = t.total_nonneg;
        })
        j h)

refresh_prune_schedule-keeps :
    (P : Map AllocationOption → ℤ → Type 0) (now : ℕ) (st : Stream) (o : AllocationOption)
    (s : Store) (j : Stream)
    → P (stream_of j s).options (stream_of j s).total_weight
    → let y = stream_of j (refresh_prune_schedule now st o s) in P y.options y.total_weight
unfolding refresh_prune_schedule
refresh_prune_schedule-keeps P now st o s j h = elim (Bool-cases (prunable o)) [
  | inl idle ↦ elim (Option-cases (get o.id (stream_of st s).prune_due)) [
    | inl absent ↦ rw (idle, absent) (moved st _ _ j h)
    | inr present ↦ rw (idle, present.1) h
  ]
  | inr live ↦ elim (Option-cases (get o.id (stream_of st s).prune_due)) [
    | inl absent ↦ rw (live, absent) h
    | inr present ↦ rw (live, present.1) (moved st _ _ j h)
  ]
]
  where
    moved :
        (i : Stream) (due : Map ℕ) (q : List (ℕ × Stream × ℕ)) (j : Stream)
        → P (stream_of j s).options (stream_of j s).total_weight
        → let y = stream_of j (
            with_stream i
              (record (stream_of i s) { prune_due = due })
              (record s { prune_queue = q })) in
          P y.options y.total_weight
    moved caretaker due q caretaker h = h
    moved caretaker due q groundworks h = h
    moved groundworks due q caretaker h = h
    moved groundworks due q groundworks h = h

-- What holds of a stream's options and total once the records are written holds after the write.
pub set_option-keeps :
    (P : Map AllocationOption → ℤ → Type 0) (now : ℕ) (st : Stream) (o : AllocationOption)
    (s : Store) (j : Stream)
    → (let y = stream_of j (recorded st o s) in P y.options y.total_weight)
    → let y = stream_of j (set_option now st o s) in P y.options y.total_weight
unfolding set_option
set_option-keeps P now st o s j h = refresh_prune_schedule-keeps P now st o (recorded st o s) j h
