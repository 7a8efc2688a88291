-- ===== src/Allocation/Votes/Lapsed.antt =====
-- `SweepLapses` on the ledger and the votes of x/allocation.
use earth_network_chain.Base.{
  ℕ, zero, suc, ◌*◌, ◌/◌, ◌≡◌, refl, subst, Bool, false, not, ◌&&◌, ◌||◌, ltb, leb, ◌==◌, Option,
  none, some, List, [], ◌∷◌, length, arith, Bool-cases, Option-cases, inl, inr, ok, >>=-eq-ok,
}
use earth_network_chain.Base.Maps.{get}
use earth_network_chain.Allocation.State.{Stream, Store, stream_of, nanos_per_second}
use earth_network_chain.Allocation.Coins.{Coins, IsCoins}
use earth_network_chain.Allocation.Emission.{next_lapse}
use earth_network_chain.Allocation.Booked.{IsAgreed, with_stream-IsSolvent}
use earth_network_chain.Allocation.Votes.{lapse_remove, split_record}
use earth_network_chain.Allocation.Votes.Written.{
  IsVoted, IsStanding, with_stream-each, write_voter-IsStanding,
}
use earth_network_chain.Allocation.Votes.Settled.{settle_to-IsStanding}
use earth_network_chain.Allocation.Votes.Lapses.{
  due_at, requeued, retire, lapse_one, lapse_each, lapse, settle_before, sweep_loop, sweep_lapses,
}

module _ (k : Coins) (st : Stream) (b : k.State) where
  -- The queue is no part of the ledger or of the votes.
  requeued-IsStanding :
      (q : List (ℕ × ℕ)) (s : Store) → IsStanding k s b → IsStanding k (requeued st q s) b
  requeued-IsStanding q s h =
      let hx = h.healthy.solvent.booked st in
      let a = h.healthy.agreed st in
      let v = h.votes st in
      record {
        healthy = record {
          solvent =
              with_stream-IsSolvent k st _ _ _ 0 0 _ s b b h.healthy.solvent
                (record {
                  distinct = hx.distinct;
                  kept = hx.kept;
                  summed = hx.summed;
                  summed_nonneg = hx.summed_nonneg;
                })
                h.healthy.solvent.accrued_nonneg refl (omega arith);
          agreed =
              with_stream-each IsAgreed st _ s
                (record { total = a.total; total_nonneg = a.total_nonneg })
                (λ j ne. h.healthy.agreed j);
        };
        votes =
            with_stream-each IsVoted st _ s
              (record { distinct = v.distinct; voted = v.voted; past = v.past })
              (λ j ne. h.votes j);
      }

  retire-IsStanding :
      (now t addr : ℕ) (s : Store) → IsStanding k s b → IsStanding k (retire now st t addr s) b
  unfolding retire
  retire-IsStanding now t addr s h = elim (Option-cases (get addr (stream_of st s).voters)) [
    | inl absent ↦ rw (absent, retire) off
    | inr (v, e) ↦
        elim (Bool-cases (ltb t v.expires_at || not (v.epoch == (stream_of st s).epoch))) [
          | inl kept ↦ rw (e, retire, kept) off
          | inr lapsed ↦
              rw (e, retire, lapsed)
                (write_voter-IsStanding k st b _ now addr (split_record [] 0 0) [] false off
                  (λ id. refl))
        ]
  ]
    where
      off : IsStanding k (requeued st (lapse_remove (t, addr) (stream_of st s).voter_lapses) s) b
      off = requeued-IsStanding (lapse_remove (t, addr) (stream_of st s).voter_lapses) s h

  module _ (fails : ℕ → ℕ → Store → Bool) (now : ℕ) where
    lapse_one-IsStanding :
        (t addr : ℕ) (s : Store)
        → IsStanding k s b
        → IsStanding k (lapse_one fails now st t addr s) b
    unfolding lapse_one
    lapse_one-IsStanding t addr s h = elim (Bool-cases (fails t addr s)) [
      | inl failed ↦ rw failed (requeued-IsStanding _ s h)
      | inr retired ↦ rw retired (retire-IsStanding now t addr s h)
    ]

    lapse_each-IsStanding :
        (t : ℕ) (addrs : List ℕ) (s : Store)
        → IsStanding k s b
        → IsStanding k (lapse_each fails now st t addrs s) b
    unfolding lapse_each
    lapse_each-IsStanding t [] s h = h
    lapse_each-IsStanding t (addr ∷ addrs) s h =
        lapse_each-IsStanding t addrs (lapse_one fails now st t addr s)
          (lapse_one-IsStanding t addr s h)

    lapse-IsStanding :
        (t : ℕ) (s : Store) → IsStanding k s b → IsStanding k (lapse fails now st t s) b
    unfolding lapse
    lapse-IsStanding t s h = lapse_each-IsStanding t (due_at t (stream_of st s).voter_lapses) s h

module _ (fails : ℕ → ℕ → Store → Bool) (k : Coins) (hk : IsCoins k) (st : Stream) where
  settle_before-IsStanding :
      (at : ℕ) (s : Store) (b : k.State) (r : Store × k.State)
      → IsStanding k s b
      → settle_before fails k st at s b ≡ ok r
      → IsStanding k (r.0) (r.1)
  unfolding settle_before
  settle_before-IsStanding at s b r h q =
      let last = (stream_of st s).last_upkeep in
      elim (Bool-cases (not (last == 0) && ltb last at)) [
        | inl behind ↦ settle_to-IsStanding k hk at st s b r h (rw behind at q)
        | inr settled ↦
            let q' = rw settled at q in
            let eq : (s, b) ≡ r = cc in subst (λ j. IsStanding k (j.0) (j.1)) eq h
      ]

  sweep_loop-IsStanding :
      (fuel nanos now : ℕ) (prev : Option ℕ) (s : Store) (b : k.State) (r : Store × k.State)
      → IsStanding k s b
      → sweep_loop fails k fuel nanos now prev st s b ≡ ok r
      → IsStanding k (r.0) (r.1)
  unfolding sweep_loop
  sweep_loop-IsStanding zero nanos now prev s b r h q = cc
  sweep_loop-IsStanding (suc fuel) nanos now prev s b r h q =
      elim (Option-cases (next_lapse (stream_of st s) now)) [
        | inl drained ↦ settle_to-IsStanding k hk nanos st s b r h (rw (drained, sweep_loop) at q)
        | inr (t, e) ↦ elim (Bool-cases (elim prev [ none ↦ false | some p ↦ leb t p ])) [
          | inl behind ↦ cc (rw (e, sweep_loop, behind) at q)
          | inr ahead ↦
              let q' = rw (e, sweep_loop, ahead) at q in
              let (m, em, q2) =
                >>=-eq-ok (settle_before fails k st (t * nanos_per_second) s b) _ q' in
              sweep_loop-IsStanding fuel nanos now (some t) (lapse fails now st t (m.0)) (m.1) r
                (lapse-IsStanding k st (m.1) fails now t (m.0)
                  (settle_before-IsStanding (t * nanos_per_second) s b m h em))
                q2
        ]
      ]

  -- `SweepLapses`, where it succeeds, whichever leases fail to retire, keeps the module solvent, its
  -- totals in agreement with the options, and every live option's weight the sum of what the voters
  -- of the epoch put on it.
  pub sweep_lapses-IsStanding :
      (nanos : ℕ) (s : Store) (b : k.State) (r : Store × k.State)
      → IsStanding k s b
      → sweep_lapses fails k nanos st s b ≡ ok r
      → IsStanding k (r.0) (r.1)
  unfolding sweep_lapses
  sweep_lapses-IsStanding nanos s b r h q =
      sweep_loop-IsStanding (suc (length (stream_of st s).voter_lapses)) nanos
        (nanos / nanos_per_second) none s b r h q
