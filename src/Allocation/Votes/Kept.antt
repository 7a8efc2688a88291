-- ===== src/Allocation/Votes/Kept.antt =====
-- The calls of x/allocation that are no votes, against the votes: a claim, a strike and the sweep of
-- idle options.
use earth_network_chain.Base.{
  ℕ, ◌≡◌, refl, sym, subst, ap, ◌∙◌, true, not, ◌==◌, ==_iff, some, Bool-cases, Option-cases, inl,
  inr, ok, guard, or_err, >>=-eq-ok, >>=-ok-eq, or_err-ok, option_not_found, not_claimable,
  invalid_signer,
}
use earth_network_chain.Base.Int.{ℤ}
use earth_network_chain.Base.Maps.{Map, get, set, get-set, get-Every}
use earth_network_chain.Allocation.State.{
  Stream, caretaker, groundworks, is_integrated, AllocationOption, StreamState, Store, stream_of,
}
use earth_network_chain.Allocation.Coins.{Coins, IsCoins}
use earth_network_chain.Allocation.Options.{set_option, settle_option}
use earth_network_chain.Allocation.Emission.{advance_index_to}
use earth_network_chain.Allocation.Payout.{claim_allocation, pay_out, may_claim}
use earth_network_chain.Allocation.Removal.{
  burn_forfeited, struck, strike, is_chamber, remove_groundworks_option,
}
use earth_network_chain.Allocation.Booked.{IsKept}
use earth_network_chain.Allocation.Index.{settle_to-Advances}
use earth_network_chain.Allocation.Claims.{claim_allocation-IsHealthy}
use earth_network_chain.Allocation.Struck.{remove_groundworks_option-IsHealthy}
use earth_network_chain.Allocation.Votes.Moves.{live, live_part, set_option-keeps_stream}
use earth_network_chain.Allocation.Votes.Written.{IsVoted, IsStanding}
use earth_network_chain.Allocation.Votes.Settled.{
  Each, with_stream-Each, advance_index_to-IsStanding,
}

abbrev Voted : Store → Type 0
Voted s = Each (λ j. IsVoted) s

-- No option has come alive, or changed its weight.
abbrev IsSubset : Map AllocationOption → Map AllocationOption → Type 0
IsSubset m' m = (i n : ℕ) → live i m' ≡ some n → live i m ≡ some n

subset-IsVoted :
    (x : StreamState) (w : ℤ) (m : Map AllocationOption)
    → IsSubset m x.options
    → IsVoted x
    → IsVoted (record x { summed_weight = w; options = m })
subset-IsVoted x w m sub h = record {
  distinct = h.distinct;
  voted = λ id n there. h.voted id n (sub id n there);
  past = h.past;
}

resummed-Voted : (acc : ℤ) (s : Store) → Voted s → Voted (record s { summed_accrued = acc })
resummed-Voted acc s h caretaker = h caretaker
resummed-Voted acc s h groundworks = h groundworks

set_option-Voted :
    (now : ℕ) (st : Stream) (o : AllocationOption) (s : Store)
    → IsSubset (set o.id o (stream_of st s).options) (stream_of st s).options
    → Voted s
    → Voted (set_option now st o s)
set_option-Voted now st o s sub h j =
    set_option-keeps_stream IsVoted
      (λ x due v. record { distinct = v.distinct; voted = v.voted; past = v.past }) now st o s j
      (with_stream-Each (λ i. IsVoted) st _ _ (λ v. subset-IsVoted (stream_of st s) _ _ sub (h st))
        (resummed-Voted _ s h) j)

-- An option written back with the weight that it had.
same-IsSubset :
    (o old : AllocationOption) (m : Map AllocationOption)
    → get o.id m ≡ some old
    → o.removed ≡ old.removed
    → o.amount_allocated ≡ old.amount_allocated
    → IsSubset (set o.id o m) m
same-IsSubset o old m e er ea i n there = elim (Bool-cases (i == o.id)) [
  | inl same ↦
      let ei : i ≡ o.id = (==_iff i o.id).0 same in
      let now : live_part (some o) ≡ some n =
        sym (ap live_part (get-set i o.id o m) ∙ rw same refl) ∙ there in
      ap (λ k. live k m) ei ∙ ap live_part e ∙ rw (← er, ← ea) now
  | inr other ↦ sym (ap live_part (get-set i o.id o m) ∙ rw other refl) ∙ there
]

-- A struck option is not live.
struck-IsSubset :
    (o : AllocationOption) (m : Map AllocationOption) → o.removed ≡ true → IsSubset (set o.id o m) m
struck-IsSubset o m gone i n there = elim (Bool-cases (i == o.id)) [
  | inl same ↦
      let now : live_part (some o) ≡ some n =
        sym (ap live_part (get-set i o.id o m) ∙ rw same refl) ∙ there in
      cc (rw gone at now)
  | inr other ↦ sym (ap live_part (get-set i o.id o m) ∙ rw other refl) ∙ there
]

module _ (k : Coins) (hk : IsCoins k) where
  -- `ClaimAllocation`, where it succeeds, keeps the votes in agreement too.
  pub claim_allocation-IsStanding :
      (nanos now creator : ℕ) (st : Stream) (id : ℕ) (s : Store) (b : k.State) (r : Store × k.State)
      → IsStanding k s b
      → claim_allocation k nanos now creator st id s b ≡ ok r
      → IsStanding k (r.0) (r.1)
  unfolding claim_allocation settle_option advance_index_to
  claim_allocation-IsStanding nanos now creator st id s b r h q =
      let (o, eo, q0) = >>=-eq-ok (or_err (get id (stream_of st s).options) option_not_found) _ q in
      let (u0, e0, q1) = >>=-eq-ok (guard (not (is_integrated o.kind)) not_claimable) _ q0 in
      let (u1, e1, q2) = >>=-eq-ok (guard (may_claim creator o) invalid_signer) _ q1 in
      let (m, em, q3) = >>=-eq-ok (advance_index_to k nanos st s b) _ q2 in
      let hm = advance_index_to-IsStanding k hk nanos st s b m h em in
      let v = settle_to-Advances k hk _ st 0 s b m h.healthy.solvent (h.healthy.agreed st) em in
      let settled = settle_option o (stream_of st (m.0)).reward_index in
      let (b2, eb, eq) = >>=-ok-eq (pay_out k settled.recipient settled.accumulated (m.1)) _ q3 in
      let here : get id (stream_of st (m.0)).options ≡ some o =
        ap (get id) v.options ∙ or_err-ok _ option_not_found eo in
      let own =
        (get-Every (IsKept (stream_of st (m.0)).reward_index) id o _
          (hm.healthy.solvent.booked st).kept here).own in
      let here' : get o.id (stream_of st (m.0)).options ≡ some o =
        ap (λ i. get i (stream_of st (m.0)).options) own ∙ here in
      record {
        healthy = claim_allocation-IsHealthy k hk nanos now creator st id s b r h.healthy q;
        votes =
            subst (λ j. Voted (j.0)) eq
              (set_option-Voted now st (record settled { accumulated = 0 }) (m.0)
                (same-IsSubset (record settled { accumulated = 0 }) o (stream_of st (m.0)).options
                  here' refl refl)
                hm.votes);
      }

  strike-Voted :
      (nanos now : ℕ) (o : AllocationOption) (s : Store) (b : k.State) (r : Store × k.State)
      → IsStanding k s b
      → strike k nanos now o s b ≡ ok r
      → Voted (r.0)
  unfolding strike
  strike-Voted nanos now o s b r h q =
      let (m, em, q2) = >>=-eq-ok (advance_index_to k nanos groundworks s b) _ q in
      let hm = advance_index_to-IsStanding k hk nanos groundworks s b m h em in
      let settled = settle_option o m.0.groundworks_state.reward_index in
      let (b2, eb, eq) = >>=-ok-eq (burn_forfeited k settled.accumulated (m.1)) _ q2 in
      subst (λ j. Voted (j.0)) eq
        (with_stream-Each (λ j. IsVoted) groundworks _ _
          (λ v. record { distinct = v.distinct; voted = v.voted; past = v.past })
          (set_option-Voted now groundworks (struck settled) (m.0)
            (struck-IsSubset (struck settled) m.0.groundworks_state.options refl) hm.votes))

  -- `RemoveGroundworksOption`, where it succeeds, keeps the votes in agreement too.
  pub remove_groundworks_option-IsStanding :
      (nanos now caller id : ℕ) (s : Store) (b : k.State) (r : Store × k.State)
      → IsStanding k s b
      → remove_groundworks_option k nanos now caller id s b ≡ ok r
      → IsStanding k (r.0) (r.1)
  unfolding remove_groundworks_option
  remove_groundworks_option-IsStanding nanos now caller id s b r h q =
      let (u0, e0, q0) = >>=-eq-ok (guard (is_chamber k caller s) invalid_signer) _ q in
      record {
        healthy = remove_groundworks_option-IsHealthy k hk nanos now caller id s b r h.healthy q;
        votes = elim (Option-cases (get id (stream_of groundworks s).options)) [
          | inl absent ↦ kept (rw (absent, remove_groundworks_option) at q0)
          | inr (o, e) ↦
              let q1 = rw (e, remove_groundworks_option) at q0 in
              elim (Bool-cases o.removed) [
                | inl gone ↦ kept (rw gone at q1)
                | inr present ↦ strike-Voted nanos now o s b r h (rw present at q1)
              ]
        ];
      }
    where
      kept : ok (s, b) ≡ ok r → Voted (r.0)
      kept e = let eq : (s, b) ≡ r = cc in subst (λ j. Voted (j.0)) eq h.votes
