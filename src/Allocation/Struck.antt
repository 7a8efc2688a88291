-- ===== src/Allocation/Struck.antt =====
-- `RemoveGroundworksOption` on the ledger of x/allocation.
use earth_network_chain.Base.{
  ℕ, ◌+◌, ◌≡◌, refl, sym, subst, ◌∙◌, ap, ◌==◌, ==_iff, if◌then◌else◌, some, arith, Bool-cases,
  Option-cases, inl, inr, ok, guard, >>=-eq-ok, >>=-ok-eq, invalid_signer,
}
use earth_network_chain.Base.Int.{ℤ, pos_part, neg_part, ◌-ℤ◌, -ℤ_nonneg}
use earth_network_chain.Base.Maps.{Map, get, sum_by, sum_by-set, get-Every}
use earth_network_chain.Allocation.State.{
  caretaker, groundworks, AllocationOption, Store, stream_of,
}
use earth_network_chain.Allocation.Coins.{Coins, IsCoins}
use earth_network_chain.Allocation.Options.{settle_option, set_option}
use earth_network_chain.Allocation.Emission.{advance_index_to}
use earth_network_chain.Allocation.Removal.{
  burn_forfeited, struck, released, strike, is_chamber, remove_groundworks_option,
}
use earth_network_chain.Allocation.Booked.{
  weight, IsKept, IsAgreed, IsSolvent, with_stream-IsSolvent, by_stream,
}
use earth_network_chain.Allocation.Writes.{at-some, set_option-over, set_option-keeps}
use earth_network_chain.Allocation.Settle.{settle_option-covered}
use earth_network_chain.Allocation.Index.{settle_to-Advances}
use earth_network_chain.Allocation.Claims.{IsHealthy, spend-IsSolvent}
use earth_network_chain.Allocation.Removed.{burn_forfeited-takes}

-- What the total must be while a weight is taken off it.
abbrev Owing : ℕ → Map AllocationOption → ℤ → Type 0
Owing w m t = (sum_by weight m + w ≡ pos_part t) × (neg_part t ≡ 0)

-- Striking an option, then taking its weight off the total.
module _ (k : Coins) (now : ℕ) (id : ℕ) (o : AllocationOption) (s : Store) (b b' : k.State)
    (h : IsHealthy k s b) (e : get id s.groundworks_state.options ≡ some o)
    (burned : k.held b' + (settle_option o s.groundworks_state.reward_index).accumulated
      ≡ k.held b) where
  abbrev settled : AllocationOption
  settled = settle_option o s.groundworks_state.reward_index

  own : IsKept s.groundworks_state.reward_index id o
  own =
      get-Every (IsKept s.groundworks_state.reward_index) id o s.groundworks_state.options
        (h.solvent.booked groundworks).kept e

  settled_nonneg : neg_part settled.amount_allocated ≡ 0
  unfolding settle_option
  settled_nonneg = own.nonneg

  struck-IsSolvent : IsSolvent k 0 (set_option now groundworks (struck settled) s) b'
  struck-IsSolvent =
      let c = settle_option-covered o s.groundworks_state.reward_index id own in
      spend-IsSolvent k settled.accumulated 0 _ b b'
        (set_option-over k now groundworks id o (struck settled) 0 (0 + settled.accumulated) s b
          h.solvent e
          (record { own = c.0.own; nonneg = refl; current = c.0.current; idle = λ r. refl })
          (omega (arith, c)))
        burned

  struck-Owing :
      let y = (set_option now groundworks (struck settled) s).groundworks_state in
      Owing (pos_part settled.amount_allocated) y.options y.total_weight
  unfolding settle_option
  struck-Owing =
      let a = h.agreed groundworks in
      let e' : get o.id s.groundworks_state.options ≡ some o =
        subst (λ n. get n s.groundworks_state.options ≡ some o) (sym own.own) e in
      set_option-keeps (Owing (pos_part settled.amount_allocated)) now groundworks (struck settled)
        s groundworks
        (
          omega (
            arith,
            a.total,
            at-some weight o.id o s.groundworks_state.options e',
            sum_by-set weight o.id (struck settled) s.groundworks_state.options,
          ),
          a.total_nonneg,
        )

  struck-caretaker :
      let y = (set_option now groundworks (struck settled) s).caretaker_state in
      Owing 0 y.options y.total_weight
  struck-caretaker =
      let a = h.agreed caretaker in
      set_option-keeps (Owing 0) now groundworks (struck settled) s caretaker
        (omega (arith, a.total), a.total_nonneg)

-- The total once the weight is off.
total_less : ℤ → ℤ → ℤ
total_less w t = if pos_part w == 0 then t else t -ℤ w

total_less_lem :
    (w t : ℤ) (m : Map AllocationOption)
    → neg_part w ≡ 0
    → Owing (pos_part w) m t
    → (pos_part (total_less w t) ≡ sum_by weight m) × (neg_part (total_less w t) ≡ 0)
unfolding total_less
total_less_lem w t m n o = elim (Bool-cases (pos_part w == 0)) [
  | inl nothing ↦
      let z : pos_part w ≡ 0 = (==_iff (pos_part w) 0).0 nothing in
      rw nothing (omega (arith, o), o.1)
  | inr something ↦
      let l = -ℤ_nonneg t w o.1 n (omega (arith, o)) in rw something (omega (arith, o, l), l.0)
]

released-IsHealthy :
    (k : Coins) (w : ℤ) (o : AllocationOption) (s : Store) (b : k.State)
    → neg_part w ≡ 0
    → IsSolvent k 0 s b
    → Owing (pos_part w) s.groundworks_state.options s.groundworks_state.total_weight
    → Owing 0 s.caretaker_state.options s.caretaker_state.total_weight
    → IsHealthy k (released w o s) b
unfolding total_less
released-IsHealthy k w o s b n h g c =
    let hx = h.booked groundworks in
    let l = total_less_lem w s.groundworks_state.total_weight s.groundworks_state.options n g in
    record {
      solvent =
          with_stream-IsSolvent k groundworks _ s.summed_accrued s.residue 0 0 s.prune_queue s b b h
            (record {
              distinct = hx.distinct;
              kept = hx.kept;
              summed = hx.summed;
              summed_nonneg = hx.summed_nonneg;
            })
            h.accrued_nonneg refl (omega arith);
      agreed =
          by_stream (λ j. IsAgreed (stream_of j (released w o s)))
            (record { total = omega (arith, c); total_nonneg = c.1 })
            (record { total = l.0; total_nonneg = l.1 });
    }

-- Striking an option at the chamber's instruction, where the call succeeds, keeps the module solvent
-- and its totals in agreement with the options.
pub remove_groundworks_option-IsHealthy :
    (k : Coins)
    → IsCoins k
    → (nanos now caller id : ℕ) (s : Store) (b : k.State) (r : Store × k.State) → IsHealthy k s b
    → remove_groundworks_option k nanos now caller id s b ≡ ok r
    → IsHealthy k (r.0) (r.1)
unfolding remove_groundworks_option strike advance_index_to
remove_groundworks_option-IsHealthy k hk nanos now caller id s b r h q =
    let (u0, e0, q0) = >>=-eq-ok (guard (is_chamber k caller s) invalid_signer) _ q in
    elim (Option-cases (get id (stream_of groundworks s).options)) [
      | inl absent ↦ kept (rw (absent, remove_groundworks_option) at q0)
      | inr present ↦
          let o = present.0 in
          let q1 = rw (present.1, remove_groundworks_option) at q0 in
          elim (Bool-cases o.removed) [
            | inl gone ↦ kept (rw gone at q1)
            | inr live ↦ going o present.1 (rw live at q1)
          ]
    ]
  where
    kept : ok (s, b) ≡ ok r → IsHealthy k (r.0) (r.1)
    kept e = let eq : (s, b) ≡ r = cc in subst (λ j. IsHealthy k (j.0) (j.1)) eq h

    going :
        (o : AllocationOption)
        → get id (stream_of groundworks s).options ≡ some o
        → strike k nanos now o s b ≡ ok r
        → IsHealthy k (r.0) (r.1)
    going o eo q1 =
        let (m, em, q2) = >>=-eq-ok (advance_index_to k nanos groundworks s b) _ q1 in
        let v = settle_to-Advances k hk _ groundworks 0 s b m h.solvent (h.agreed groundworks) em in
        let hm : IsHealthy k (m.0) (m.1) = record {
          solvent = v.solvent;
          agreed = λ j. v.agreed j (h.agreed j);
        } in
        let here : get id m.0.groundworks_state.options ≡ some o = ap (get id) v.options ∙ eo in
        let settled = settle_option o m.0.groundworks_state.reward_index in
        let (b2, eb, eq) = >>=-ok-eq (burn_forfeited k settled.accumulated (m.1)) _ q2 in
        let burned = burn_forfeited-takes k hk settled.accumulated (m.1) b2 eb in
        subst (λ j. IsHealthy k (j.0) (j.1)) eq
          (released-IsHealthy k settled.amount_allocated settled _ b2
            (settled_nonneg k now id o (m.0) (m.1) b2 hm here burned)
            (struck-IsSolvent k now id o (m.0) (m.1) b2 hm here burned)
            (struck-Owing k now id o (m.0) (m.1) b2 hm here burned)
            (struck-caretaker k now id o (m.0) (m.1) b2 hm here burned))
