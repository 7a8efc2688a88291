-- ===== src/Allocation/Votes/History.antt =====
-- The calls of x/allocation one after the other, as they come in blocks.
use earth_network_chain.Base.{ℕ, ◌≡◌, true, Bool, Result, ok, List}
use earth_network_chain.Allocation.State.{Stream, AllocationWeight, OptionWeight, Store}
use earth_network_chain.Allocation.Coins.{Coins, IsCoins}
use earth_network_chain.Allocation.Payout.{claim_allocation, reset_allocations}
use earth_network_chain.Allocation.Removal.{sweep_prunable_options, remove_groundworks_option}
use earth_network_chain.Allocation.Solvency.{assert_hot_invariants}
use earth_network_chain.Allocation.Hot.{assert_hot_invariants-IsHealthy}
use earth_network_chain.Allocation.Votes.External.{
  apply_split, set_voter_split, set_weighted_voter, move_voter, resync_voter,
}
use earth_network_chain.Allocation.Votes.Lapses.{sweep_lapses}
use earth_network_chain.Allocation.Votes.Written.{IsStanding}
use earth_network_chain.Allocation.Votes.Filed.{
  apply_split-IsStanding, set_voter_split-IsStanding, set_weighted_voter-IsStanding,
  move_voter-IsStanding, resync_voter-IsStanding,
}
use earth_network_chain.Allocation.Votes.Lapsed.{sweep_lapses-IsStanding}
use earth_network_chain.Allocation.Votes.Kept.{
  claim_allocation-IsStanding, remove_groundworks_option-IsStanding,
}
use earth_network_chain.Allocation.Votes.Reset.{reset_allocations-IsStanding}
use earth_network_chain.Allocation.Votes.Pruned.{sweep_prunable_options-IsStanding}

module _ (k : Coins) (weight_of : Stream → ℕ → Result ℕ) where
  -- One call that succeeds, at a block time `nanos` whose seconds are `now`, or a sweep. A call that
  -- fails leaves no writes.
  pub data Step : Store × k.State → Store × k.State → Type 0 where
    vote :
        (nanos now lease_seconds : ℕ) (st : Stream) (voter weight : ℕ) (ps : List AllocationWeight)
        (s : Store) (b : k.State) (r : Store × k.State)
        → apply_split k weight_of nanos now lease_seconds st voter ps s b ≡ ok (weight, r.0, r.1)
        → Step (s, b) r
    file :
        (nanos now : ℕ) (st : Stream) (voter weight : ℕ) (ps : List AllocationWeight) (s : Store)
        (b : k.State) (r : Store × k.State)
        → set_voter_split k weight_of nanos now st voter ps weight s b ≡ ok r
        → Step (s, b) r
    aggregate :
        (nanos now : ℕ) (st : Stream) (addr : ℕ) (ws : List OptionWeight) (s : Store) (b : k.State)
        (r : Store × k.State)
        → set_weighted_voter k weight_of nanos now st addr ws s b ≡ ok r
        → Step (s, b) r
    move :
        (nanos now : ℕ) (st : Stream) (from to : ℕ) (s : Store) (b : k.State) (r : Store × k.State)
        → move_voter k weight_of nanos now st from to s b ≡ ok r
        → Step (s, b) r
    resync :
        (nanos now : ℕ) (st : Stream) (addr : ℕ) (s : Store) (b : k.State) (r : Store × k.State)
        → resync_voter k weight_of nanos now st addr s b ≡ ok r
        → Step (s, b) r
    begin_block :
        (fails : ℕ → ℕ → Store → Bool) (nanos : ℕ) (st : Stream) (s : Store) (b : k.State)
        (r : Store × k.State)
        → sweep_lapses fails k nanos st s b ≡ ok r
        → Step (s, b) r
    claim :
        (nanos now creator : ℕ) (st : Stream) (id : ℕ) (s : Store) (b : k.State)
        (r : Store × k.State)
        → claim_allocation k nanos now creator st id s b ≡ ok r
        → Step (s, b) r
    remove :
        (nanos now caller id : ℕ) (s : Store) (b : k.State) (r : Store × k.State)
        → remove_groundworks_option k nanos now caller id s b ≡ ok r
        → Step (s, b) r
    reset :
        (nanos now : ℕ) (st : Stream) (s : Store) (b : k.State) (r : (ℕ × Store) × k.State)
        → reset_allocations k nanos now st s b ≡ ok r
        → Step (s, b) ((r.0).1, r.1)
    prune : (now : ℕ) (s : Store) (b : k.State) → Step (s, b) (sweep_prunable_options k now s b)

  -- Any number of calls.
  pub data Reach (x : Store × k.State) : Store × k.State → Type 0 where
    start : Reach x x
    after : {y z : Store × k.State} → Reach x y → Step y z → Reach x z

  module _ (hk : IsCoins k) where
    step-IsStanding :
        (x y : Store × k.State) → Step x y → IsStanding k (x.0) (x.1) → IsStanding k (y.0) (y.1)
    step-IsStanding x y (vote nanos now lease st voter weight ps s b r q) h =
        apply_split-IsStanding k hk weight_of nanos now st b s h lease voter ps (weight, r.0, r.1) q
    step-IsStanding x y (file nanos now st voter weight ps s b r q) h =
        set_voter_split-IsStanding k hk weight_of nanos now st b s h voter weight ps r q
    step-IsStanding x y (aggregate nanos now st addr ws s b r q) h =
        set_weighted_voter-IsStanding k hk weight_of nanos now st b s h addr ws r q
    step-IsStanding x y (move nanos now st from to s b r q) h =
        move_voter-IsStanding k hk weight_of nanos now st b s h from to r q
    step-IsStanding x y (resync nanos now st addr s b r q) h =
        resync_voter-IsStanding k hk weight_of nanos now st b s h addr r q
    step-IsStanding x y (begin_block fails nanos st s b r q) h =
        sweep_lapses-IsStanding fails k hk st nanos s b r h q
    step-IsStanding x y (claim nanos now creator st id s b r q) h =
        claim_allocation-IsStanding k hk nanos now creator st id s b r h q
    step-IsStanding x y (remove nanos now caller id s b r q) h =
        remove_groundworks_option-IsStanding k hk nanos now caller id s b r h q
    step-IsStanding x y (reset nanos now st s b r q) h =
        reset_allocations-IsStanding k hk nanos now st s b r h q
    step-IsStanding x y (prune now s b) h = sweep_prunable_options-IsStanding k hk now s b h

    reach-IsStanding :
        (x y : Store × k.State) → Reach x y → IsStanding k (x.0) (x.1) → IsStanding k (y.0) (y.1)
    reach-IsStanding x y start h = h
    reach-IsStanding x z (after {y} path step) h =
        step-IsStanding y z step (reach-IsStanding x y path h)

    -- From a state that is solvent, its totals and votes in agreement, after any number of votes,
    -- re-filings, moves, resyncs, lease sweeps, claims, strikes, resets and sweeps of idle options, in any
    -- order and at any times, the EndBlocker's check AssertHotInvariants passes.
    pub reach-assert_hot_invariants :
        (x y : Store × k.State)
        → IsStanding k (x.0) (x.1)
        → Reach x y
        → assert_hot_invariants k (y.0) (y.1) ≡ true
    reach-assert_hot_invariants x y h path =
        assert_hot_invariants-IsHealthy k (y.0) (y.1) (reach-IsStanding x y path h).healthy
