-- ===== src/Allocation/Votes/Reset.antt =====
-- `resetAllocations` of x/allocation: every option loses its weight, and every vote its epoch.
use earth_network_chain.Base.{
  ℕ, suc, ◌≤◌, ◌≡◌, ◌≢◌, refl, sym, subst, ap, ◌∙◌, true, false, ◌==◌, ==_iff, ==_self, none, some,
  List, [], ◌∷◌, arith, Bool-cases, Option-cases, inl, inr, ◌⊎◌, ok, or_err, >>=-eq-ok, >>=-ok-eq,
  or_err-ok, option_not_found,
}
use earth_network_chain.Base.Int.{pos, pos_part}
use earth_network_chain.Base.Maps.{
  Map, get, set, get-set, sum_by, Every, Every-map, IsDistinct, get-Every,
}
use earth_network_chain.Allocation.State.{Stream, AllocationOption, Voter, Store, stream_of}
use earth_network_chain.Allocation.Coins.{Coins, IsCoins}
use earth_network_chain.Allocation.Options.{set_option, settle_option}
use earth_network_chain.Allocation.Emission.{advance_index_to}
use earth_network_chain.Allocation.Payout.{option_ids, reset_options, next_epoch, reset_allocations}
use earth_network_chain.Allocation.Booked.{
  weight, IsKept, IsAgreed, IsSolvent, with_stream-IsSolvent, stream_of-with_stream,
}
use earth_network_chain.Allocation.Writes.{set_option-over}
use earth_network_chain.Allocation.Settle.{settle_option-covered}
use earth_network_chain.Allocation.Votes.{is_member}
use earth_network_chain.Allocation.Votes.Moves.{
  live, live_part, Votes, votes_of, set_option-keeps_stream, set_option-other,
}
use earth_network_chain.Allocation.Votes.Written.{support, IsVoted, IsStanding, with_stream-each}
use earth_network_chain.Allocation.Votes.Settled.{advance_index_to-IsStanding}

-- Options that are not in a list have no weight.
abbrev Weightless : List ℕ → Map AllocationOption → Type 0
Weightless ids m =
    (i : ℕ) (o : AllocationOption)
    → get i m ≡ some o
    → (is_member i ids ≡ true) ⊎ (pos_part o.amount_allocated ≡ 0)

option_ids-Weightless : (m : Map AllocationOption) → Weightless (option_ids m) m
option_ids-Weightless [] i o e = cc
option_ids-Weightless ((j, p) ∷ m) i o e = elim (Bool-cases (i == j)) [
  | inl same ↦ inl (rw same refl)
  | inr other ↦ later (option_ids-Weightless m i o (rw other at e))
]
  where
    later :
        (is_member i (option_ids m) ≡ true) ⊎ (pos_part o.amount_allocated ≡ 0)
        → (is_member i (option_ids ((j, p) ∷ m)) ≡ true) ⊎ (pos_part o.amount_allocated ≡ 0)
    later (inl h) = inl (ground (arith, h))
    later (inr h) = inr h

sum_by-empty : (m : Map AllocationOption) → IsDistinct m → Weightless [] m → sum_by weight m ≡ 0
sum_by-empty [] d h = refl
sum_by-empty ((j, p) ∷ m) (d0, d) h =
    let first : pos_part p.amount_allocated ≡ 0 = none_left (h j p (rw (==_self j) refl)) in
    let rest = sum_by-empty m d (λ i o e. h i o (there i o e)) in omega (arith, first, rest)
  where
    none_left : {n : ℕ} → (false ≡ true) ⊎ (n ≡ 0) → n ≡ 0
    none_left (inl e) = cc
    none_left (inr e) = e

    there : (i : ℕ) (o : AllocationOption) → get i m ≡ some o → get i ((j, p) ∷ m) ≡ some o
    there i o e = elim (Bool-cases (i == j)) [
      | inl same ↦ let gone : get i m ≡ none = ap (λ k. get k m) ((==_iff i j).0 same) ∙ d0 in cc
      | inr other ↦ rw other e
    ]

live_empty : (id n : ℕ) (m : Map AllocationOption) → Weightless [] m → live id m ≡ some n → n ≡ 0
live_empty id n m h e = elim (Option-cases (get id m)) [
  | inl absent ↦ let e' : none ≡ some n = sym (ap live_part absent) ∙ e in cc
  | inr (o, here) ↦ from o (h id o here) (sym (ap live_part here) ∙ e)
]
  where
    from :
        (o : AllocationOption)
        → (false ≡ true) ⊎ (pos_part o.amount_allocated ≡ 0)
        → live_part (some o) ≡ some n
        → n ≡ 0
    from o (inl f) q = cc
    from o (inr z) q = elim (Bool-cases o.removed) [
      | inl gone ↦ let q' = rw gone at q in cc
      | inr alive ↦ let q' = rw alive at q in cc
    ]

-- No voter of an epoch that is past puts anything on an option.
past_support :
    (epoch id : ℕ) (voters : Map Voter)
    → Every (λ a v. v.epoch ≤ epoch) voters
    → sum_by (support (suc epoch) id) voters ≡ 0
past_support epoch id [] h = refl
past_support epoch id ((a, v) ∷ voters) (h0, h) =
    let old : (v.epoch == suc epoch) ≡ false = ground (arith, h0) in
    rw old (omega (arith, past_support epoch id voters h))

module _ (k : Coins) (st : Stream) (b : k.State) (s0 : Store) where
  -- The ledger while the options lose their weight.
  record Emptied (ids : List ℕ) (s : Store) : Type 0 where
    solvent : IsSolvent k 0 s b
    same : votes_of (stream_of st s) ≡ votes_of (stream_of st s0)
    other : (j : Stream) → j ≢ st → stream_of j s ≡ stream_of j s0
    empty : Weightless ids (stream_of st s).options

  module _ (now id : ℕ) (ids : List ℕ) (s : Store) (t : Emptied (id ∷ ids) s) (o : AllocationOption)
      (e : get id (stream_of st s).options ≡ some o) where
    abbrev emptied : AllocationOption
    emptied = record (settle_option o (stream_of st s).reward_index) { amount_allocated = pos 0 }

    kept : IsKept (stream_of st s).reward_index id o
    kept =
        get-Every (IsKept (stream_of st s).reward_index) id o (stream_of st s).options
          (t.solvent.booked st).kept e

    emptied-IsSolvent : IsSolvent k 0 (set_option now st emptied s) b
    unfolding settle_option
    emptied-IsSolvent =
        let c = settle_option-covered o (stream_of st s).reward_index id kept in
        set_option-over k now st id o emptied 0 0 s b t.solvent e
          (record { own = kept.own; nonneg = refl; current = omega arith; idle = λ r. refl })
          (omega (arith, c))

    emptied-Weightless : Weightless ids (stream_of st (set_option now st emptied s)).options
    unfolding settle_option
    emptied-Weightless =
        set_option-keeps_stream (λ x. Weightless ids x.options) (λ x due h. h) now st emptied s st
          (subst (λ x. Weightless ids x.options)
            (sym (stream_of-with_stream st _ _ s.residue s.prune_queue s))
            (subst (λ n. Weightless ids (set n emptied (stream_of st s).options)) (sym kept.own)
              written))
      where
        left :
            (i : ℕ) (p : AllocationOption)
            → (i == id) ≡ false
            → (is_member i (id ∷ ids) ≡ true) ⊎ (pos_part p.amount_allocated ≡ 0)
            → (is_member i ids ≡ true) ⊎ (pos_part p.amount_allocated ≡ 0)
        left i p ne (inl h) = inl (rw ne at h)
        left i p ne (inr h) = inr h

        written : Weightless ids (set id emptied (stream_of st s).options)
        written i p there = elim (Bool-cases (i == id)) [
          | inl same ↦
              let there' : some emptied ≡ some p =
                sym (get-set i id emptied (stream_of st s).options ∙ rw same refl) ∙ there in
              let ep : emptied ≡ p = cc in inr (rw (← ep) refl)
          | inr other ↦ left i p other (
              t.empty i p
                (sym (get-set i id emptied (stream_of st s).options ∙ rw other refl) ∙ there))
        ]

    emptied-Emptied : Emptied ids (set_option now st emptied s)
    emptied-Emptied = record {
      solvent = emptied-IsSolvent;
      same =
          set_option-keeps_stream (λ x. votes_of x ≡ votes_of (stream_of st s)) (λ x due h. h) now
            st emptied s st (ap votes_of (stream_of-with_stream st _ _ s.residue s.prune_queue s))
          ∙ t.same;
      other = λ j ne. set_option-other now st j emptied s ne ∙ t.other j ne;
      empty = emptied-Weightless;
    }

  reset_options-Emptied :
      (now index : ℕ) (ids : List ℕ) (s s' : Store)
      → index ≡ (stream_of st s0).reward_index
      → Emptied ids s
      → reset_options now st index ids s ≡ ok s'
      → Emptied [] s'
  unfolding reset_options
  reset_options-Emptied now index [] s s' ei t q = let e : s ≡ s' = cc in subst (Emptied []) e t
  reset_options-Emptied now index (id ∷ ids) s s' ei t q =
      let (o, eo, q1) = >>=-eq-ok (or_err (get id (stream_of st s).options) option_not_found) _ q in
      let ei' : index ≡ (stream_of st s).reward_index = ei ∙ ap index_of (sym t.same) in
      let t' : Emptied ids
          (set_option now st (record (settle_option o index) { amount_allocated = pos 0 }) s) =
        subst
          (λ i.
            Emptied ids
              (set_option now st (record (settle_option o i) { amount_allocated = pos 0 }) s))
          (sym ei') (emptied-Emptied now id ids s t o (or_err-ok _ option_not_found eo)) in
      reset_options-Emptied now index ids
        (set_option now st (record (settle_option o index) { amount_allocated = pos 0 }) s) s' ei t'
        q1
    where
      index_of : Votes → ℕ
      index_of v = v.reward_index

  -- The next epoch, with no weight on any option and no vote that counts.
  next_epoch-IsStanding :
      (s : Store) → IsStanding k s0 b → Emptied [] s → IsStanding k ((next_epoch st s).1) b
  next_epoch-IsStanding s h t =
      let hx = t.solvent.booked st in
      record {
        healthy = record {
          solvent =
              with_stream-IsSolvent k st _ _ _ 0 0 _ s b b t.solvent
                (record {
                  distinct = hx.distinct;
                  kept = hx.kept;
                  summed = hx.summed;
                  summed_nonneg = hx.summed_nonneg;
                })
                t.solvent.accrued_nonneg refl (omega arith);
          agreed =
              with_stream-each IsAgreed st _ s
                (record {
                  total = sym (sum_by-empty (stream_of st s).options hx.distinct t.empty);
                  total_nonneg = refl;
                })
                (λ j ne. subst IsAgreed (sym (t.other j ne)) (h.healthy.agreed j));
        };
        votes =
            with_stream-each IsVoted st _ s
              (record {
                distinct = subst (λ v. IsDistinct v.voters) (sym t.same) (h.votes st).distinct;
                voted = λ id n there. sym (
                    subst (λ v. sum_by (support (suc v.epoch) id) v.voters ≡ n) (sym t.same)
                      (past_support (stream_of st s0).epoch id (stream_of st s0).voters
                          (h.votes st).past
                        ∙ sym (live_empty id n (stream_of st s).options t.empty there)));
                past =
                    subst (λ v. Every (λ a w. w.epoch ≤ suc v.epoch) v.voters) (sym t.same)
                      (Every-map (λ a w. w.epoch ≤ (stream_of st s0).epoch) _
                        (stream_of st s0).voters (λ a w g. omega arith) (h.votes st).past);
              })
              (λ j ne. subst IsVoted (sym (t.other j ne)) (h.votes j));
      }

-- `resetAllocations`, where it succeeds, keeps the module solvent, its totals, and every live option's
-- weight the sum of what the voters of the new epoch put on it.
pub reset_allocations-IsStanding :
    (k : Coins)
    → IsCoins k
    → (nanos now : ℕ) (st : Stream) (s : Store) (b : k.State) (r : (ℕ × Store) × k.State)
    → IsStanding k s b
    → reset_allocations k nanos now st s b ≡ ok r
    → IsStanding k ((r.0).1) (r.1)
unfolding reset_allocations
reset_allocations-IsStanding k hk nanos now st s b r h q =
    let (m, em, q1) = >>=-eq-ok (advance_index_to k nanos st s b) _ q in
    let hm = advance_index_to-IsStanding k hk nanos st s b m h em in
    let x = stream_of st (m.0) in
    let (s1, e1, eq) =
      >>=-ok-eq (reset_options now st x.reward_index (option_ids x.options) (m.0)) _ q1 in
    subst (λ j. IsStanding k ((j.0).1) (j.1)) eq
      (next_epoch-IsStanding k st (m.1) (m.0) s1 hm (
        reset_options-Emptied k st (m.1) (m.0) now x.reward_index (option_ids x.options) (m.0) s1
          refl
          (record {
            solvent = hm.healthy.solvent;
            same = refl;
            other = λ j ne. refl;
            empty = option_ids-Weightless x.options;
          })
          e1))
