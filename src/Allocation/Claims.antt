-- ===== src/Allocation/Claims.antt =====
-- `ClaimAllocation` on the ledger of x/allocation.
use earth_network_chain.Base.{
  ℕ, ◌+◌, ◌≡◌, refl, sym, subst, ◌∙◌, ap, not, ◌==◌, ==_iff, some, true, false, arith, Bool-cases,
  Option-cases, guard-ok, inl, inr, ok, or_err, guard, >>=-eq-ok, >>=-ok-eq, or_err-ok,
  bank_refused, option_not_found, not_claimable, invalid_signer,
}
use earth_network_chain.Base.Maps.{get, get-Every, get-set_self}
use earth_network_chain.Allocation.State.{
  Stream, caretaker, groundworks, AllocationOption, is_integrated, Store, stream_of,
}
use earth_network_chain.Allocation.Coins.{Coins, IsCoins}
use earth_network_chain.Allocation.Options.{
  settle_option, set_option, refresh_prune_schedule, prunable,
}
use earth_network_chain.Allocation.Emission.{advance_index_to}
use earth_network_chain.Allocation.Payout.{pay_out, claim_allocation, may_claim}
use earth_network_chain.Allocation.Booked.{IsKept, IsAgreed, IsSolvent}
use earth_network_chain.Allocation.Writes.{set_option-over, set_option-IsAgreed}
use earth_network_chain.Allocation.Settle.{settle_option-covered}
use earth_network_chain.Allocation.Index.{settle_to-Advances}

-- The module is solvent and each stream's total agrees with its options.
pub record IsHealthy (k : Coins) (s : Store) (b : k.State) : Type 0 where
  pub solvent : IsSolvent k 0 s b
  pub agreed : (st : Stream) → IsAgreed (stream_of st s)

-- Coins that leave the account are taken from what is free.
pub spend-IsSolvent :
    (k : Coins) (n free : ℕ) (s : Store) (b b' : k.State)
    → IsSolvent k (free + n) s b
    → k.held b' + n ≡ k.held b
    → IsSolvent k free s b'
spend-IsSolvent k n free s b b' h e = record {
  booked = h.booked;
  accrued = h.accrued;
  accrued_nonneg = h.accrued_nonneg;
  covered = omega (arith, h.covered, e);
}

pub pay_out-takes :
    (k : Coins)
    → IsCoins k
    → (a n : ℕ) (b b' : k.State) → pay_out k a n b ≡ ok b'
    → k.held b' + n ≡ k.held b
unfolding pay_out
pay_out-takes k hk a n b b' q = elim (Bool-cases (n == 0)) [
  | inl nothing ↦
      let q' = rw nothing at q in
      let e : b ≡ b' = cc in let z : n ≡ 0 = (==_iff n 0).0 nothing in rw (sym e) (omega arith)
  | inr something ↦ hk.send_takes a n b b' (or_err-ok _ bank_refused (rw something at q))
]

-- A claim leaves the module solvent and its totals in agreement.
pub claim_allocation-IsHealthy :
    (k : Coins)
    → IsCoins k
    → (nanos now creator : ℕ) (st : Stream) (id : ℕ) (s : Store) (b : k.State) (r : Store × k.State)
    → IsHealthy k s b
    → claim_allocation k nanos now creator st id s b ≡ ok r
    → IsHealthy k (r.0) (r.1)
unfolding claim_allocation advance_index_to
claim_allocation-IsHealthy k hk nanos now creator st id s b r h q =
    let (o, eo, q0) = >>=-eq-ok (or_err (get id (stream_of st s).options) option_not_found) _ q in
    let (u0, e0, q1) = >>=-eq-ok (guard (not (is_integrated o.kind)) not_claimable) _ q0 in
    let (u1, e1, q2) = >>=-eq-ok (guard (may_claim creator o) invalid_signer) _ q1 in
    let (m, em, q3) = >>=-eq-ok (advance_index_to k nanos st s b) _ q2 in
    let v = settle_to-Advances k hk _ st 0 s b m h.solvent (h.agreed st) em in
    let index = (stream_of st (m.0)).reward_index in
    let settled = settle_option o index in
    let (b2, eb, eq) = >>=-ok-eq (pay_out k settled.recipient settled.accumulated (m.1)) _ q3 in
    let here : get id (stream_of st (m.0)).options ≡ some o =
      ap (get id) v.options ∙ or_err-ok _ option_not_found eo in
    let kept = get-Every (IsKept index) id o _ (v.solvent.booked st).kept here in
    let c = settle_option-covered o index id kept in
    let paid = record settled { accumulated = 0 } in
    subst (λ j. IsHealthy k (j.0) (j.1)) eq
      (record {
        solvent =
            spend-IsSolvent k settled.accumulated 0 _ (m.1) b2
              (set_option-over k now st id o paid 0 (0 + settled.accumulated) (m.0) (m.1) v.solvent
                here
                (record {
                  own = c.0.own;
                  nonneg = c.0.nonneg;
                  current = c.0.current;
                  idle = c.0.idle;
                })
                (omega (arith, c)))
              (pay_out-takes k hk settled.recipient settled.accumulated (m.1) b2 eb);
        agreed = λ j.
            set_option-IsAgreed now st id o paid (m.0) here c.0.own refl j
              (v.agreed j (h.agreed j));
      })

-- `setOption` leaves the option it writes in its stream.
set_option-stored :
    (now : ℕ) (st : Stream) (o : AllocationOption) (s : Store)
    → get o.id (stream_of st (set_option now st o s)).options ≡ some o
unfolding set_option refresh_prune_schedule
set_option-stored now caretaker o s = elim (Bool-cases (prunable o)) [
  | inl idle ↦ elim (Option-cases (get o.id s.caretaker_state.prune_due)) [
    | inl absent ↦ rw (idle, absent) (get-set_self o.id o s.caretaker_state.options)
    | inr present ↦ rw (idle, present.1) (get-set_self o.id o s.caretaker_state.options)
  ]
  | inr live ↦ elim (Option-cases (get o.id s.caretaker_state.prune_due)) [
    | inl absent ↦ rw (live, absent) (get-set_self o.id o s.caretaker_state.options)
    | inr present ↦ rw (live, present.1) (get-set_self o.id o s.caretaker_state.options)
  ]
]
set_option-stored now groundworks o s = elim (Bool-cases (prunable o)) [
  | inl idle ↦ elim (Option-cases (get o.id s.groundworks_state.prune_due)) [
    | inl absent ↦ rw (idle, absent) (get-set_self o.id o s.groundworks_state.options)
    | inr present ↦ rw (idle, present.1) (get-set_self o.id o s.groundworks_state.options)
  ]
  | inr live ↦ elim (Option-cases (get o.id s.groundworks_state.prune_due)) [
    | inl absent ↦ rw (live, absent) (get-set_self o.id o s.groundworks_state.options)
    | inr present ↦ rw (live, present.1) (get-set_self o.id o s.groundworks_state.options)
  ]
]

-- What a claim does: `advanced` is the state once the stream's index is brought up, and `settled`
-- the option with what it has accrued up to that index.
pub record Claims (k : Coins) (nanos creator : ℕ) (st : Stream) (id : ℕ) (s : Store) (b : k.State)
    (r : Store × k.State) : Type 0 where
  pub option : AllocationOption
  pub there : get id (stream_of st s).options ≡ some option
  pub claimable : is_integrated option.kind ≡ false
  pub allowed : may_claim creator option ≡ true
  pub advanced : Store × k.State
  pub advances : advance_index_to k nanos st s b ≡ ok advanced
  pub settled : AllocationOption
  pub settles : settled ≡ settle_option option (stream_of st advanced.0).reward_index
  pub pays : pay_out k settled.recipient settled.accumulated advanced.1 ≡ ok r.1
  pub taken : k.held r.1 + settled.accumulated ≡ k.held advanced.1
  pub cleared : get id (stream_of st r.0).options ≡ some (record settled { accumulated = 0 })
  pub healthy : IsHealthy k r.0 r.1

-- A claim that goes through, from a state that is solvent and whose totals agree with the options, is
-- one of a claimable option by someone who may claim it. It brings the stream's index up and settles
-- the option to that index, pays the option's recipient exactly the balance that this leaves it, the
-- account falling by as much, stores the option with no balance left, and leaves the module solvent
-- and its totals in agreement, for a bank that pays what it is told to.
pub claim_allocation-Claims :
    (k : Coins)
    → IsCoins k
    → (nanos now creator : ℕ) (st : Stream) (id : ℕ) (s : Store) (b : k.State) (r : Store × k.State)
    → IsHealthy k s b
    → claim_allocation k nanos now creator st id s b ≡ ok r
    → Claims k nanos creator st id s b r
unfolding claim_allocation
claim_allocation-Claims k hk nanos now creator st id s b r h q =
    let healthy = claim_allocation-IsHealthy k hk nanos now creator st id s b r h q in
    let (o, eo, q0) = >>=-eq-ok (or_err (get id (stream_of st s).options) option_not_found) _ q in
    let (u0, e0, q1) = >>=-eq-ok (guard (not (is_integrated o.kind)) not_claimable) _ q0 in
    let (u1, e1, q2) = >>=-eq-ok (guard (may_claim creator o) invalid_signer) _ q1 in
    let (m, em, q3) = >>=-eq-ok (advance_index_to k nanos st s b) _ q2 in
    let settled = settle_option o (stream_of st (m.0)).reward_index in
    let (b2, eb, eq) = >>=-ok-eq (pay_out k settled.recipient settled.accumulated (m.1)) _ q3 in
    finish healthy o (or_err-ok _ option_not_found eo)
      (guard-ok (not (is_integrated o.kind)) not_claimable e0)
      (guard-ok (may_claim creator o) invalid_signer e1) m em b2 eb eq
  where
    finish :
        IsHealthy k r.0 r.1
        → (o : AllocationOption) → get id (stream_of st s).options ≡ some o
        → not (is_integrated o.kind) ≡ true
        → may_claim creator o ≡ true
        → (m : Store × k.State) → advance_index_to k nanos st s b ≡ ok m
        → (b2 : k.State)
        → pay_out k
            (settle_option o (stream_of st m.0).reward_index).recipient
            (settle_option o (stream_of st m.0).reward_index).accumulated
            m.1
          ≡ ok b2
        → (
          set_option now st
              (record (settle_option o (stream_of st m.0).reward_index) { accumulated = 0 })
              m.0,
          b2,
        )
          ≡ r
        → Claims k nanos creator st id s b r
    finish healthy o there kind may m em b2 eb eq =
        let settled = settle_option o (stream_of st m.0).reward_index in
        let pays : pay_out k settled.recipient settled.accumulated m.1 ≡ ok r.1 =
          eb ∙ ap (λ j. ok (j.1)) eq in
        record {
          option = o;
          there = there;
          claimable = ground (arith, kind);
          allowed = may;
          advanced = m;
          advances = em;
          settled = settled;
          settles = refl;
          pays = pays;
          taken = pay_out-takes k hk settled.recipient settled.accumulated m.1 r.1 pays;
          cleared =
              subst
                (λ j.
                  get id (stream_of st (j.0)).options ≡ some (record settled { accumulated = 0 }))
                eq
                (subst
                  (λ j.
                    get j
                      (stream_of st
                        (set_option now st (record settled { accumulated = 0 }) m.0)).options
                    ≡ some (record settled { accumulated = 0 }))
                  (settled-own o there)
                  (set_option-stored now st (record settled { accumulated = 0 }) m.0));
          healthy = healthy;
        }
      where
        settled-own : (o : AllocationOption) → get id (stream_of st s).options ≡ some o → o.id ≡ id
        settled-own o there = (get-Every (IsKept _) id o _ (h.solvent.booked st).kept there).own
