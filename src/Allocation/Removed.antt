-- ===== src/Allocation/Removed.antt =====
-- `pruneOption` and `SweepPrunableOptions` on the ledger of x/allocation.
use earth_network_chain.Base.{
  ℕ, ◌+◌, ◌≡◌, refl, sym, subst, true, ◌==◌, ==_iff, some, arith, Bool-cases, Option-cases, List,
  [], ◌∷◌, inl, inr, Result, ok, err, or_err, >>=-eq-ok, >>=-ok-eq, or_err-ok, bank_refused,
}
use earth_network_chain.Base.Int.{pos_part, -ℤ_pos}
use earth_network_chain.Base.Maps.{
  get, remove, sum_by-remove, remove-IsDistinct, remove-Every, get-Every,
}
use earth_network_chain.Allocation.State.{
  Stream, AllocationOption, Store, stream_of, option_prune_sweep_limit,
}
use earth_network_chain.Allocation.Coins.{Coins, IsCoins}
use earth_network_chain.Allocation.Options.{prunable, prune_remove}
use earth_network_chain.Allocation.Removal.{
  burn_forfeited, deleted, prune_option, unscheduled, prune_each, prune_entries,
  sweep_prunable_options, isolated,
}
use earth_network_chain.Allocation.Booked.{
  weight, balance, claim, balances, IsKept, with_stream-IsSolvent, with_stream-IsAgreed,
}
use earth_network_chain.Allocation.Writes.{at-some, of_total}
use earth_network_chain.Allocation.Claims.{IsHealthy}

pub burn_forfeited-takes :
    (k : Coins)
    → IsCoins k
    → (n : ℕ) (b b' : k.State) → burn_forfeited k n b ≡ ok b'
    → k.held b' + n ≡ k.held b
unfolding burn_forfeited
burn_forfeited-takes k hk n b b' q = elim (Bool-cases (n == 0)) [
  | inl nothing ↦
      let q' = rw nothing at q in
      let e : b ≡ b' = cc in let z : n ≡ 0 = (==_iff n 0).0 nothing in rw (sym e) (omega arith)
  | inr something ↦
      let (c, ec, qc) = >>=-eq-ok (or_err (k.burn_coins n b) bank_refused) _ (rw something at q) in
      let t = hk.burn_takes n b c (or_err-ok _ bank_refused ec) in
      let u = hk.record_keeps n c b' (or_err-ok _ bank_refused qc) in omega arith
]

-- Deleting an option with no weight keeps the ledger, once its balance is burned.
module _ (k : Coins) (st : Stream) (id : ℕ) (o : AllocationOption) (s : Store) (b b' : k.State)
    (h : IsHealthy k s b) (e : get id (stream_of st s).options ≡ some o)
    (idle : pos_part o.amount_allocated ≡ 0) (burned : k.held b' + o.accumulated ≡ k.held b) where
  deleted-IsHealthy : IsHealthy k (deleted st id o s) b'
  deleted-IsHealthy =
      let x = stream_of st s in
      let hx = h.solvent.booked st in
      let bal = at-some balance id o x.options e in
      let wei = at-some weight id o x.options e in
      let moved = -ℤ_pos s.summed_accrued o.accumulated h.solvent.accrued_nonneg (
        omega (
          arith,
          bal,
          sum_by-remove balance id x.options,
          h.solvent.accrued,
          of_total balances st s,
        )) in
      record {
        solvent =
            with_stream-IsSolvent k st _ _ s.residue 0 0 s.prune_queue s b b' h.solvent
              (record {
                distinct = remove-IsDistinct id x.options hx.distinct;
                kept = remove-Every (IsKept x.reward_index) id x.options hx.kept;
                summed = omega (arith, hx.summed, wei, idle, sum_by-remove weight id x.options);
                summed_nonneg = hx.summed_nonneg;
              })
              moved.0 (omega (arith, moved, bal, sum_by-remove balance id x.options))
              (omega
                (arith, moved, bal, burned, sum_by-remove (claim x.reward_index) id x.options));
        agreed = λ j.
            with_stream-IsAgreed st _ _ s.residue s.prune_queue s
              (λ t. record {
                total = omega (arith, t.total, wei, idle, sum_by-remove weight id x.options);
                total_nonneg = t.total_nonneg;
              })
              j (h.agreed j);
      }

-- An option that may be pruned holds no weight.
prunable-idle :
    (o : AllocationOption) (index id : ℕ)
    → IsKept index id o
    → prunable o ≡ true
    → pos_part o.amount_allocated ≡ 0
unfolding prunable
prunable-idle o index id h e = elim (Bool-cases o.removed) [
  | inl gone ↦ h.idle gone
  | inr here ↦ ground arith
]

-- `pruneOption` on any option, where it succeeds, keeps the module solvent and its totals in
-- agreement with the options.
pub prune_option-IsHealthy :
    (k : Coins)
    → IsCoins k
    → (st : Stream) (id : ℕ) (s : Store) (b : k.State) (r : Store × k.State) → IsHealthy k s b
    → prune_option k st id s b ≡ ok r
    → IsHealthy k (r.0) (r.1)
unfolding prune_option
prune_option-IsHealthy k hk st id s b r h q =
    elim (Option-cases (get id (stream_of st s).options)) [
      | inl absent ↦ kept (rw (absent, prune_option) at q)
      | inr present ↦
          let o = present.0 in
          let q0 = rw (present.1, prune_option) at q in
          elim (Bool-cases (prunable o)) [
            | inl dead ↦
                let (b', eb, eq) = >>=-ok-eq (burn_forfeited k o.accumulated b) _ (rw dead at q0) in
                let x = stream_of st s in
                let g =
                  get-Every (IsKept x.reward_index) id o x.options (h.solvent.booked st).kept
                    present.1 in
                subst (λ j. IsHealthy k (j.0) (j.1)) eq
                  (deleted-IsHealthy k st id o s b b' h present.1 (prunable-idle o _ _ g dead)
                    (burn_forfeited-takes k hk o.accumulated b b' eb))
            | inr live ↦ kept (rw live at q0)
          ]
    ]
  where
    kept : ok (s, b) ≡ ok r → IsHealthy k (r.0) (r.1)
    kept e = let eq : (s, b) ≡ r = cc in subst (λ j. IsHealthy k (j.0) (j.1)) eq h

unscheduled-IsHealthy :
    (k : Coins) (e : ℕ × Stream × ℕ) (s : Store) (b : k.State)
    → IsHealthy k s b
    → IsHealthy k (unscheduled e s) b
unscheduled-IsHealthy k (due, st, id) s b h =
    let x = stream_of st s in
    let hx = h.solvent.booked st in
    record {
      solvent =
          with_stream-IsSolvent k st (record x { prune_due = remove id x.prune_due })
            s.summed_accrued s.residue 0 0 (prune_remove (due, st, id) s.prune_queue) s b b
            h.solvent
            (record {
              distinct = hx.distinct;
              kept = hx.kept;
              summed = hx.summed;
              summed_nonneg = hx.summed_nonneg;
            })
            h.solvent.accrued_nonneg refl (omega arith);
      agreed = λ j.
          with_stream-IsAgreed st (record x { prune_due = remove id x.prune_due }) s.summed_accrued
            s.residue (prune_remove (due, st, id) s.prune_queue) s
            (λ t. record { total = t.total; total_nonneg = t.total_nonneg }) j (h.agreed j);
    }

isolated-IsHealthy :
    (k : Coins) (s : Store) (b : k.State) (r : Result (Store × k.State))
    → IsHealthy k s b
    → ((v : Store × k.State) → r ≡ ok v → IsHealthy k (v.0) (v.1))
    → let v = isolated (s, b) r in IsHealthy k (v.0) (v.1)
isolated-IsHealthy k s b (ok v) h f = f v refl
isolated-IsHealthy k s b (err e) h f = h

prune_each-IsHealthy :
    (k : Coins)
    → IsCoins k
    → (q : List (ℕ × Stream × ℕ)) (s : Store) (b : k.State) → IsHealthy k s b
    → let r = prune_each k q s b in IsHealthy k (r.0) (r.1)
unfolding prune_each
prune_each-IsHealthy k hk [] s b h = h
prune_each-IsHealthy k hk ((due, st, id) ∷ q) s b h = prune_each-IsHealthy k hk q _ _ (
    isolated-IsHealthy k _ b (prune_option k st id (unscheduled (due, st, id) s) b)
      (unscheduled-IsHealthy k (due, st, id) s b h)
      (λ v e.
        prune_option-IsHealthy k hk st id _ b v (unscheduled-IsHealthy k (due, st, id) s b h) e))

-- The sweep of every block keeps the module solvent and its totals in agreement with the options,
-- whichever of its removals fail.
pub sweep_prunable_options-IsHealthy :
    (k : Coins)
    → IsCoins k
    → (now : ℕ) (s : Store) (b : k.State) → IsHealthy k s b
    → let r = sweep_prunable_options k now s b in IsHealthy k (r.0) (r.1)
unfolding sweep_prunable_options
sweep_prunable_options-IsHealthy k hk now s b h =
    prune_each-IsHealthy k hk (prune_entries option_prune_sweep_limit now s.prune_queue) s b h
