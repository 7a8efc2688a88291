-- ===== src/Allocation/Votes/Pruned.antt =====
-- `SweepPrunableOptions` of x/allocation against the votes.
use earth_network_chain.Base.{
  ℕ, ◌≡◌, sym, ap, ◌∙◌, ◌==◌, ==_iff, none, some, List, [], ◌∷◌, arith, Bool-cases, Option-cases,
  inl, inr, Result, ok, err, ◌>>=◌,
}
use earth_network_chain.Base.Int.{ℤ}
use earth_network_chain.Base.Maps.{
  Map, get, remove, get-remove_ne, get-remove_self, IsDistinct, remove-IsDistinct,
}
use earth_network_chain.Allocation.State.{
  Stream, caretaker, groundworks, AllocationOption, StreamState, Store, stream_of,
  option_prune_sweep_limit,
}
use earth_network_chain.Allocation.Coins.{Coins, IsCoins}
use earth_network_chain.Allocation.Options.{prunable}
use earth_network_chain.Allocation.Removal.{
  isolated, burn_forfeited, deleted, unscheduled, prune_option, prune_entries, prune_each,
  sweep_prunable_options,
}
use earth_network_chain.Allocation.Removed.{sweep_prunable_options-IsHealthy}
use earth_network_chain.Allocation.Votes.Moves.{live, live_part}
use earth_network_chain.Allocation.Votes.Written.{IsVoted, IsStanding}
use earth_network_chain.Allocation.Votes.Settled.{Each, with_stream-Each}

-- The votes of a stream whose options have an id each.
record IsListed (x : StreamState) : Type 0 where
  votes : IsVoted x
  listed : IsDistinct x.options

abbrev Listed : Store → Type 0
Listed s = Each (λ j. IsListed) s

live_removed :
    (id i n : ℕ) (m : Map AllocationOption)
    → IsDistinct m
    → live i (remove id m) ≡ some n
    → live i m ≡ some n
live_removed id i n m d there = elim (Bool-cases (i == id)) [
  | inl same ↦
      let gone : live i (remove id m) ≡ none =
        ap (λ j. live j (remove id m)) ((==_iff i id).0 same)
        ∙ ap live_part (get-remove_self id m d) in
      cc
  | inr other ↦ sym (ap live_part (get-remove_ne i id m (ground arith))) ∙ there
]

rest-Listed :
    (q : List (ℕ × Stream × ℕ)) (acc : ℤ) (s : Store)
    → Listed s
    → Listed (record s { prune_queue = q; summed_accrued = acc })
rest-Listed q acc s h caretaker = h caretaker
rest-Listed q acc s h groundworks = h groundworks

unscheduled-Listed : (e : ℕ × Stream × ℕ) (s : Store) → Listed s → Listed (unscheduled e s)
unscheduled-Listed (at, st, id) s h =
    with_stream-Each (λ j. IsListed) st _ _
      (λ v. record {
        votes = record {
          distinct = (h st).votes.distinct;
          voted = (h st).votes.voted;
          past = (h st).votes.past;
        };
        listed = (h st).listed;
      })
      (rest-Listed _ s.summed_accrued s h)

deleted-Listed :
    (st : Stream) (id : ℕ) (o : AllocationOption) (s : Store)
    → Listed s
    → Listed (deleted st id o s)
deleted-Listed st id o s h =
    with_stream-Each (λ j. IsListed) st _ _
      (λ v. record {
        votes = record {
          distinct = (h st).votes.distinct;
          past = (h st).votes.past;
          voted = λ i n there.
              (h st).votes.voted i n
                (live_removed id i n (stream_of st s).options (h st).listed there);
        };
        listed = remove-IsDistinct id (stream_of st s).options (h st).listed;
      })
      (rest-Listed s.prune_queue _ s h)

module _ (k : Coins) where
  prune_option-Listed :
      (st : Stream) (id : ℕ) (s : Store) (b : k.State)
      → Listed s
      → Listed ((isolated (s, b) (prune_option k st id s b)).0)
  unfolding prune_option
  prune_option-Listed st id s b h = elim (Option-cases (get id (stream_of st s).options)) [
    | inl absent ↦ rw (absent, prune_option) h
    | inr (o, e) ↦ elim (Bool-cases (prunable o)) [
      | inr alive ↦ rw (e, prune_option, alive) h
      | inl idle ↦ rw (e, prune_option, idle) (burned o (burn_forfeited k o.accumulated b))
    ]
  ]
    where
      burned :
          (o : AllocationOption) (m : Result k.State)
          → Listed
              ((isolated {A = Store × k.State} (s, b) (m >>= λ b'. ok (deleted st id o s, b'))).0)
      burned o (err why) = h
      burned o (ok b') = deleted-Listed st id o s h

  prune_each-Listed :
      (q : List (ℕ × Stream × ℕ)) (s : Store) (b : k.State)
      → Listed s
      → Listed ((prune_each k q s b).0)
  unfolding prune_each
  prune_each-Listed [] s b h = h
  prune_each-Listed ((at, st, id) ∷ q) s b h =
      let s1 = unscheduled (at, st, id) s in
      let r = isolated (s1, b) (prune_option k st id s1 b) in
      prune_each-Listed q (r.0) (r.1)
        (prune_option-Listed st id s1 b (unscheduled-Listed (at, st, id) s h))

  -- `SweepPrunableOptions` keeps the votes in agreement too, whichever removals fail.
  pub sweep_prunable_options-IsStanding :
      IsCoins k
      → (now : ℕ) (s : Store) (b : k.State) → IsStanding k s b
      → let r = sweep_prunable_options k now s b in IsStanding k (r.0) (r.1)
  unfolding sweep_prunable_options
  sweep_prunable_options-IsStanding hk now s b h =
      let listed =
        prune_each-Listed (prune_entries option_prune_sweep_limit now s.prune_queue) s b
          (λ j. record { votes = h.votes j; listed = (h.healthy.solvent.booked j).distinct }) in
      record {
        healthy = sweep_prunable_options-IsHealthy k hk now s b h.healthy;
        votes = λ j. (listed j).votes;
      }
