-- ===== src/Allocation/Votes/External.antt =====
-- The ways in for votes: keeper/external_voters.go of x/allocation. `weight_of` is the weight source
-- of a stream, an interface that other modules implement.
use earth_network_chain.Base.{
  ℕ, ◌+◌, Bool, false, not, ◌&&◌, ◌||◌, ltb, ◌==◌, if◌then◌else◌, none, some, List, [], ◌∷◌, length,
  Result, ok, fail_if, or_err, ◌>>=◌, ◌>>◌, bad_percentages, option_removed, option_not_found,
  no_weight,
}
use earth_network_chain.Base.Maps.{Map, get, remove}
use earth_network_chain.Allocation.State.{
  Stream, caretaker, groundworks, AllocationWeight, OptionWeight, Voter, AllocationOption, Store,
  stream_of, with_stream,
}
use earth_network_chain.Allocation.Coins.{Coins}
use earth_network_chain.Allocation.Emission.{advance_index_to}
use earth_network_chain.Allocation.Votes.{
  is_member, max_voter_options, weight_contributions, is_empty, write_voter, resync_voter_at,
}

-- One share of `ValidateSplit`, after the options already seen.
abbrev pub validate_share : Map AllocationOption → List ℕ → AllocationWeight → Result (Unit {0})
validate_share options seen w = do
  fail_if (w.percent == 0) bad_percentages
  fail_if (ltb 100 w.percent) bad_percentages
  fail_if (is_member w.option_id seen) bad_percentages
  opt ← or_err (get w.option_id options) option_not_found
  fail_if opt.removed option_removed

-- The loop of `ValidateSplit`: the sum of the shares.
unfoldable pub validate_shares :
    Map AllocationOption → List ℕ → ℕ → List AllocationWeight → Result ℕ
validate_shares options seen sum [] = ok sum
validate_shares options seen sum (w ∷ ws) = do
  validate_share options seen w
  validate_shares options (w.option_id ∷ seen) (sum + w.percent) ws

-- `ValidateSplit`, for a valid stream.
unfoldable pub validate_split : Map AllocationOption → List AllocationWeight → Result (Unit {0})
unfolding validate_shares
validate_split options percentages = do
  fail_if (ltb max_voter_options (length percentages)) bad_percentages
  sum ← validate_shares options [] 0 percentages
  fail_if (not (is_empty percentages) && not (sum == 100)) bad_percentages

-- `writeWeightedVoter`.
abbrev pub weighted_record : List OptionWeight → ℕ → Voter
weighted_record ws sum = record {
  percentages = [];
  weight = sum;
  epoch = 0;
  option_weights = ws;
  expires_at = 0;
}

unfoldable pub write_weighted_voter : ℕ → Stream → ℕ → List OptionWeight → ℕ → Store → Store
unfolding write_voter
write_weighted_voter now st addr ws sum s =
    write_voter now st addr (weighted_record ws sum) (weight_contributions ws) (not (is_empty ws)) s

-- The loops of `SetWeightedVoter` and `SetWeightedVoterSettled`: the weights above zero, and their sum.
abbrev pub positive_weights : List OptionWeight → List OptionWeight
positive_weights [] = []
positive_weights (w ∷ ws) =
    let rest = positive_weights ws in if w.weight == 0 then rest else w ∷ rest

abbrev pub weights_sum : List OptionWeight → ℕ
weights_sum [] = 0
weights_sum (w ∷ ws) = w.weight + weights_sum ws

-- Whether an option occurs twice.
abbrev pub has_duplicate : List ℕ → List OptionWeight → Bool
has_duplicate seen [] = false
has_duplicate seen (w ∷ ws) = is_member w.option_id seen || has_duplicate (w.option_id ∷ seen) ws

-- `SetWeightedVoterSettled`.
unfoldable pub set_weighted_voter_settled : ℕ → Stream → ℕ → List OptionWeight → Store → Store
unfolding write_weighted_voter
set_weighted_voter_settled now st addr weights s =
    write_weighted_voter now st addr (positive_weights weights) (weights_sum weights) s

module _ (k : Coins) (weight_of : Stream → ℕ → Result ℕ) where
  open k use {State}

  -- `SetVoterSplit` at block time `nanos`, whose seconds are `now`.
  unfoldable pub set_voter_split :
      ℕ → ℕ → Stream → ℕ → List AllocationWeight → ℕ → Store → State → Result (Store × State)
  unfolding advance_index_to resync_voter_at
  set_voter_split nanos now st voter percentages weight s b = do
    validate_split (stream_of st s).options percentages
    fail_if (not (is_empty percentages) && weight == 0) no_weight
    r ← advance_index_to k nanos st s b
    ok (resync_voter_at now st voter percentages weight 0 (r.0), r.1)

  -- The lease end of a split: only a Groundworks split has one.
  abbrev pub lease_end : ℕ → ℕ → Stream → List AllocationWeight → ℕ
  lease_end now lease_seconds caretaker percentages = 0
  lease_end now lease_seconds groundworks percentages =
      if is_empty percentages then 0 else now + lease_seconds

  -- `ApplySplit`: the weight, the store and the bank.
  unfoldable pub apply_split :
      ℕ → ℕ → ℕ → Stream → ℕ → List AllocationWeight → Store → State → Result (ℕ × Store × State)
  unfolding advance_index_to resync_voter_at
  apply_split nanos now lease_seconds st voter percentages s b = do
    validate_split (stream_of st s).options percentages
    weight ← weight_of st voter
    fail_if (not (is_empty percentages) && weight == 0) no_weight
    r ← advance_index_to k nanos st s b
    ok (
      weight,
      resync_voter_at now st voter percentages weight (lease_end now lease_seconds st percentages)
          (r.0),
      r.1,
    )

  -- `ResyncVoter`, once the stream is settled.
  unfoldable pub resync_settled : ℕ → Stream → ℕ → Store → Result Store
  unfolding resync_voter_at
  resync_settled now st addr s =
      let x = stream_of st s in
      elim (get addr x.voters) [
        | none ↦ ok s
        | some v ↦
            if not (v.epoch == x.epoch)
            then ok (with_stream st (record x { voters = remove addr x.voters }) s)
            else if not (is_empty v.option_weights)
            then ok s
            else weight_of st addr >>= λ weight.
                ok (resync_voter_at now st addr v.percentages weight 0 s)
      ]

  -- `ResyncVoter`.
  unfoldable pub resync_voter : ℕ → ℕ → Stream → ℕ → Store → State → Result (Store × State)
  unfolding advance_index_to resync_settled
  resync_voter nanos now st addr s b = do
    r ← advance_index_to k nanos st s b
    s' ← resync_settled now st addr (r.0)
    ok (s', r.1)

  -- `SetWeightedVoter`, for weights that are not negative.
  unfoldable pub set_weighted_voter :
      ℕ → ℕ → Stream → ℕ → List OptionWeight → Store → State → Result (Store × State)
  unfolding advance_index_to write_weighted_voter
  set_weighted_voter nanos now st addr weights s b = do
    fail_if (has_duplicate [] weights) bad_percentages
    r ← advance_index_to k nanos st s b
    ok (
      write_weighted_voter now st addr (positive_weights weights) (weights_sum weights) (r.0),
      r.1,
    )

  -- `MoveVoter`, once the stream is settled.
  unfoldable pub move_settled : ℕ → Stream → ℕ → ℕ → Store → Store
  unfolding resync_voter_at
  move_settled now st from to s = elim (get from (stream_of st s).voters) [
    | none ↦ s
    | some old ↦
        let s1 = resync_voter_at now st from [] 0 0 s in
        if not (old.epoch == (stream_of st s).epoch)
        then s1
        else resync_voter_at now st to old.percentages old.weight 0 s1
  ]

  -- `MoveVoter`.
  unfoldable pub move_voter : ℕ → ℕ → Stream → ℕ → ℕ → Store → State → Result (Store × State)
  unfolding advance_index_to move_settled
  move_voter nanos now st from to s b = do
    r ← advance_index_to k nanos st s b
    ok (move_settled now st from to (r.0), r.1)
