-- ===== src/Allocation/Votes/Tests.antt =====
-- Runs of the votes of x/allocation: a voter with a lease on the store of Allocation.Tests.
use earth_network_chain.Base.{
  true, ℕ, ◌+◌, ◌≡◌, refl, false, ◌==◌, if◌then◌else◌, some, Result, ok, List, [], ◌∷◌, arith,
  Bool-cases, inl, inr,
}
use earth_network_chain.Base.Int.{◌-ℤ◌}
use earth_network_chain.Allocation.State.{
  Stream, caretaker, groundworks, AllocationWeight, StreamState, Store, stream_of,
}
use earth_network_chain.Allocation.Tests.{
  purse, purse-IsCoins, two_options, stream, start, start-IsHealthy,
}
use earth_network_chain.Allocation.Removal.{isolated, sweep_prunable_options}
use earth_network_chain.Allocation.Emission.{
  settle_to, ceil_quo, accrue, mint_emission, advance_index_to, held_target, next_lapse,
}
use earth_network_chain.Allocation.Booked.{IsBooked, IsAgreed, by_stream}
use earth_network_chain.Allocation.Votes.{split_record}
use earth_network_chain.Allocation.Votes.External.{
  validate_split, validate_shares, apply_split, set_weighted_voter, move_voter, resync_voter,
}
use earth_network_chain.Allocation.Votes.Splits.{IsSplit, validate_split-IsSplit}
use earth_network_chain.Allocation.Votes.Filed.{apply_split-IsStanding}
use earth_network_chain.Allocation.Payout.{reset_allocations, reset_options}
use earth_network_chain.Allocation.Votes.Reset.{reset_allocations-IsStanding}
use earth_network_chain.Allocation.Votes.Lapses.{sweep_lapses, sweep_loop, settle_before}
use earth_network_chain.Allocation.Votes.Drain.{Drains, sweep_lapses-Drains}
use earth_network_chain.Allocation.Votes.Lapsed.{sweep_lapses-IsStanding}
use earth_network_chain.Allocation.Votes.History.{
  Reach, after, begin_block, prune, reach-assert_hot_invariants,
}
use earth_network_chain.Allocation.Votes.History
use earth_network_chain.Allocation.Solvency.{assert_hot_invariants}
use earth_network_chain.Allocation.Votes.Moves.{live}
use earth_network_chain.Allocation.Votes.Written.{IsVoted, IsStanding}

-- Voter 7 has put its weight of 3 on option 1, until second 2.
abbrev voted_stream : StreamState
voted_stream = record (stream two_options 3) {
  voters = (7, split_record (record { option_id = 1; percent = 100 } ∷ []) 3 2) ∷ [];
  voter_lapses = (2, 7) ∷ [];
}

abbrev voted : Store
voted = record start { groundworks_state = voted_stream }

voted_votes : (id n : ℕ) → live id two_options ≡ some n → n ≡ (if id == 1 then 3 else 0) + 0 + 0
voted_votes id n e = elim (Bool-cases (id == 1)) [
  | inl first ↦ let e' = rw first at e in rw first cc
  | inr other ↦ elim (Bool-cases (id == 2)) [
    | inl second ↦ let e' = rw (other, second) at e in rw other cc
    | inr absent ↦ let e' = rw (other, absent) at e in cc
  ]
]

voted-IsStanding : IsStanding purse voted 5
voted-IsStanding = record {
  healthy = record {
    solvent = record {
      booked =
          by_stream (λ j. IsBooked (stream_of j voted)) (start-IsHealthy.solvent.booked caretaker)
            (let h = start-IsHealthy.solvent.booked groundworks in
              record {
                distinct = h.distinct;
                kept = h.kept;
                summed = h.summed;
                summed_nonneg = h.summed_nonneg;
              });
      accrued = refl;
      accrued_nonneg = refl;
      covered = omega arith;
    };
    agreed =
        by_stream (λ j. IsAgreed (stream_of j voted)) (record { total = refl; total_nonneg = refl })
          (record { total = refl; total_nonneg = refl });
  };
  votes =
      by_stream (λ j. IsVoted (stream_of j voted))
        (record { distinct = tt; voted = λ id n e. cc; past = tt })
        (record { distinct = (refl, tt); voted = voted_votes; past = (omega arith, tt) });
}

-- A weight source that gives every voter 4.
abbrev four : Stream → ℕ → Result ℕ
four st voter = ok 4

-- Half on each option.
abbrev halves : List AllocationWeight
halves = record { option_id = 1; percent = 50 } ∷ record { option_id = 2; percent = 50 } ∷ []

halves-IsSplit : IsSplit two_options halves
halves-IsSplit = record {
  short = omega arith;
  shares = (
    record { positive = omega arith; bounded = omega arith; unseen = refl; live = (_, refl, refl) },
    (
      record {
        positive = omega arith;
        bounded = omega arith;
        unseen = refl;
        live = (_, refl, refl);
      },
      tt,
    ),
  );
  whole = inr refl;
}

validate_split-IsSplit_example :
    (validate_split two_options halves ≡ ok tt → IsSplit two_options halves)
    × (IsSplit two_options halves → validate_split two_options halves ≡ ok tt)
validate_split-IsSplit_example = validate_split-IsSplit two_options halves

halves_valid : validate_split two_options halves ≡ ok tt
unfolding validate_split validate_shares
halves_valid = refl

abbrev applied : ℕ × Store × ℕ
applied =
    isolated (0, voted, 5) (apply_split purse four 3000000000 3 60 groundworks 8 halves voted 5)

apply_split-IsStanding_example : IsStanding purse (applied.1) (applied.2)
unfolding apply_split validate_split validate_shares advance_index_to held_target next_lapse
    settle_to accrue mint_emission ceil_quo
apply_split-IsStanding_example =
    apply_split-IsStanding purse purse-IsCoins four 3000000000 3 groundworks 5 voted
      voted-IsStanding 60 8 halves applied refl

-- The stream reset: no option keeps its weight, and no vote counts.
abbrev after_reset : (ℕ × Store) × ℕ
after_reset = isolated ((0, voted), 5) (reset_allocations purse 3000000000 3 groundworks voted 5)

reset_allocations-IsStanding_example : IsStanding purse ((after_reset.0).1) (after_reset.1)
unfolding reset_allocations reset_options advance_index_to held_target next_lapse settle_to accrue
    mint_emission ceil_quo
reset_allocations-IsStanding_example =
    reset_allocations-IsStanding purse purse-IsCoins 3000000000 3 groundworks voted 5 after_reset
      voted-IsStanding refl

abbrev weighted : Store × ℕ
weighted =
    isolated (voted, 5)
      (set_weighted_voter purse four 3000000000 3 groundworks 9
        (record { option_id = 2; weight = 6 } ∷ []) voted 5)

abbrev moved : Store × ℕ
moved = isolated (voted, 5) (move_voter purse four 3000000000 3 groundworks 7 8 voted 5)

abbrev resynced : Store × ℕ
resynced = isolated (voted, 5) (resync_voter purse four 3000000000 3 groundworks 7 voted 5)

-- The account mints what it is told to.
purse-mints : (n b : ℕ) → (b' : ℕ) × (some (b + n) ≡ some b')
purse-mints n b = (b + n, refl)

sweep_lapses-Drains_example :
    Drains
      (λ t a s. false)
      purse
      purse-mints
      groundworks
      3
      (sweep_lapses (λ t a s. false) purse 3000000000 groundworks voted 5)
sweep_lapses-Drains_example =
    sweep_lapses-Drains (λ t a s. false) purse purse-mints groundworks 3000000000 voted 5 (tt, tt)

-- The lease of voter 7 lapses at second 2.
abbrev swept : Store × ℕ
swept = isolated (voted, 5) (sweep_lapses (λ t a s. false) purse 3000000000 groundworks voted 5)

sweep_lapses-IsStanding_example : IsStanding purse (swept.0) (swept.1)
unfolding sweep_lapses sweep_loop settle_before next_lapse settle_to accrue mint_emission ceil_quo
    ◌-ℤ◌
sweep_lapses-IsStanding_example =
    sweep_lapses-IsStanding (λ t a s. false) purse purse-IsCoins groundworks 3000000000 voted 5
      swept voted-IsStanding refl

-- A sweep of the leases at second 3, then one of the idle options.
reach-assert_hot_invariants_example :
    assert_hot_invariants purse
      (sweep_prunable_options purse 3 (swept.0) (swept.1)).0
      (sweep_prunable_options purse 3 (swept.0) (swept.1)).1
    ≡ true
unfolding sweep_lapses sweep_loop settle_before next_lapse settle_to accrue mint_emission ceil_quo
    ◌-ℤ◌
reach-assert_hot_invariants_example =
    reach-assert_hot_invariants purse four purse-IsCoins (voted, 5)
      (sweep_prunable_options purse 3 (swept.0) (swept.1)) voted-IsStanding
      (after
        (after History.start
          (begin_block (λ t a s. false) 3000000000 groundworks voted 5 swept refl))
        (prune 3 (swept.0) (swept.1)))
