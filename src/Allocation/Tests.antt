-- ===== src/Allocation/Tests.antt =====
-- Runs of x/allocation on a store with two groundworks options.
use earth_network_chain.Base.{
  ℕ, ◌+◌, ◌-◌, ◌≡◌, refl, false, ltb, if◌then◌else◌, Option, none, some, [], ◌∷◌, arith,
}
use earth_network_chain.Base.Int.{pos}
use earth_network_chain.Base.Maps.{Map}
use earth_network_chain.Allocation.State.{
  groundworks, address, AllocationOption, StreamState, Store, stream_of,
}
use earth_network_chain.Allocation.Coins.{Coins, IsCoins}
use earth_network_chain.Allocation.Options.{draw_from_option, settle_option, prunable}
use earth_network_chain.Allocation.Emission.{
  settle_to, ceil_quo, accrue, mint_emission, advance_index_to, held_target, next_lapse,
}
use earth_network_chain.Allocation.Payout.{claim_allocation, pay_out}
use earth_network_chain.Allocation.Removal.{
  isolated, prune_option, burn_forfeited, sweep_prunable_options, remove_groundworks_option, strike,
}
use earth_network_chain.Allocation.Booked.{IsBooked, IsAgreed, IsSolvent, by_stream}
use earth_network_chain.Allocation.Settle.{draw_from_option-IsSolvent}
use earth_network_chain.Allocation.Index.{Advances, settle_to-Advances}
use earth_network_chain.Allocation.Claims.{IsHealthy, Claims, claim_allocation-Claims}
use earth_network_chain.Allocation.Removed.{sweep_prunable_options-IsHealthy}
use earth_network_chain.Allocation.Struck.{remove_groundworks_option-IsHealthy}

-- An account that holds one number of coins.
abbrev pub take : ℕ → ℕ → Option ℕ
take n b = if ltb b n then none else some (b - n)

abbrev pub purse : Coins
purse = record {
  State = ℕ;
  held = λ b. b;
  mint_coins = λ n b. some (b + n);
  burn_coins = take;
  record_burn = λ n b. some b;
  send_to_account = λ a n b. take n b;
}

take-takes : (n b b' : ℕ) → take n b ≡ some b' → b' + n ≡ b
take-takes n b b' e = ground arith

pub purse-IsCoins : IsCoins purse
purse-IsCoins = record {
  mint_adds = λ n b b' e. ground arith;
  burn_takes = take-takes;
  record_keeps = λ n b b' e. ground arith;
  send_takes = λ a. take-takes;
}

abbrev pub option : ℕ → ℕ → ℕ → AllocationOption
option id amount accumulated = record {
  id = id;
  kind = address;
  recipient = 7;
  claimer = none;
  amount_allocated = pos amount;
  accumulated = accumulated;
  last_reward_index = 0;
  removed = false;
}

abbrev pub stream : Map AllocationOption → ℕ → StreamState
stream options total = record {
  options = options;
  integrated_options = [];
  reward_index = 0;
  total_weight = pos total;
  summed_weight = pos total;
  last_upkeep = 1000000000;
  epoch = 0;
  option_seq = 2;
  prune_due = [];
  voters = [];
  voter_lapses = [];
}

-- Option 1 has weight 3; option 2 has none, and a balance of 5 that the account holds.
abbrev pub two_options : Map AllocationOption
two_options = (1, option 1 3 0) ∷ (2, option 2 0 5) ∷ []

abbrev pub start : Store
start = record {
  caretaker_state = stream [] 0;
  groundworks_state = stream two_options 3;
  summed_accrued = pos 5;
  residue = 0;
  prune_queue = (1, groundworks, 2) ∷ [];
  chamber = some 9;
}

pub start-IsHealthy : IsHealthy purse start 5
start-IsHealthy = record {
  solvent = record {
    booked =
        by_stream (λ j. IsBooked (stream_of j start))
          (record { distinct = tt; kept = tt; summed = refl; summed_nonneg = refl })
          (record {
            distinct = (refl, (refl, tt));
            kept = (
              record { own = refl; nonneg = refl; current = omega arith; idle = λ e. ground arith },
              (
                record {
                  own = refl;
                  nonneg = refl;
                  current = omega arith;
                  idle = λ e. ground arith;
                },
                tt,
              ),
            );
            summed = refl;
            summed_nonneg = refl;
          });
    accrued = refl;
    accrued_nonneg = refl;
    covered = omega arith;
  };
  agreed =
      by_stream (λ j. IsAgreed (stream_of j start)) (record { total = refl; total_nonneg = refl })
        (record { total = refl; total_nonneg = refl });
}

-- Two seconds later, the stream settled.
abbrev advanced : Store × ℕ
advanced = isolated (start, 5) (settle_to purse 3000000000 groundworks start 5)

two_seconds : advanced.1 ≡ 2000005
unfolding settle_to accrue mint_emission ceil_quo
two_seconds = refl

settle_to-Advances_example : Advances purse groundworks 0 start 5 (advanced.0) (advanced.1)
unfolding settle_to accrue mint_emission ceil_quo
settle_to-Advances_example =
    settle_to-Advances purse purse-IsCoins 3000000000 groundworks 0 start 5 advanced
      start-IsHealthy.solvent (start-IsHealthy.agreed groundworks) refl

draw_from_option-IsSolvent_example :
    let r = draw_from_option 3 groundworks 2 500000 start in IsSolvent purse (0 + r.0) (r.1) 5
draw_from_option-IsSolvent_example =
    draw_from_option-IsSolvent purse 3 groundworks 2 500000 0 start 5 (omega arith)
      start-IsHealthy.solvent

abbrev claimed : Store × ℕ
claimed = isolated (start, 5) (claim_allocation purse 3000000000 3 4 groundworks 1 start 5)

claimed_coins : claimed.1 ≡ 6
unfolding claim_allocation advance_index_to held_target next_lapse settle_to accrue mint_emission
    ceil_quo settle_option pay_out
claimed_coins = refl

claim_allocation-Claims_example : Claims purse 3000000000 4 groundworks 1 start 5 claimed
unfolding claim_allocation advance_index_to held_target next_lapse settle_to accrue mint_emission
    ceil_quo settle_option pay_out
claim_allocation-Claims_example =
    claim_allocation-Claims purse purse-IsCoins 3000000000 3 4 groundworks 1 start 5 claimed
      start-IsHealthy refl

-- Option 2 pruned: its balance of 5 is burned.
abbrev pruned : Store × ℕ
pruned = isolated (start, 1) (prune_option purse groundworks 2 start 5)

pruned_coins : pruned.1 ≡ 0
unfolding prune_option prunable burn_forfeited
pruned_coins = refl

sweep_prunable_options-IsHealthy_example :
    let r = sweep_prunable_options purse 2 start 5 in IsHealthy purse (r.0) (r.1)
sweep_prunable_options-IsHealthy_example =
    sweep_prunable_options-IsHealthy purse purse-IsCoins 2 start 5 start-IsHealthy

-- Option 1 struck by the chamber after two seconds.
abbrev removed : Store × ℕ
removed = isolated (start, 5) (remove_groundworks_option purse 3000000000 3 9 1 start 5)

removed_coins : removed.1 ≡ 6
unfolding remove_groundworks_option strike advance_index_to held_target next_lapse settle_to accrue
    mint_emission ceil_quo settle_option burn_forfeited
removed_coins = refl

remove_groundworks_option-IsHealthy_example : IsHealthy purse (removed.0) (removed.1)
unfolding remove_groundworks_option strike advance_index_to held_target next_lapse settle_to accrue
    mint_emission ceil_quo settle_option burn_forfeited
remove_groundworks_option-IsHealthy_example =
    remove_groundworks_option-IsHealthy purse purse-IsCoins 3000000000 3 9 1 start 5 removed
      start-IsHealthy refl
