-- ===== src/Allocation/Votes/Filed.antt =====
-- The ways in for votes of x/allocation keep the module solvent, its totals and the votes in
-- agreement.
use earth_network_chain.Base.{
  ◌≤◌, ℕ, ◌≡◌, refl, sym, subst, ap, ◌∙◌, Bool, true, false, not, ◌&&◌, ◌||◌, ◌==◌, ==_iff, some,
  List, [], ◌∷◌, arith, Bool-cases, Option-cases, inl, inr, Result, ok, fail_if, >>=-eq-ok,
  >>=-ok-eq, no_weight, bad_percentages,
}
use earth_network_chain.Base.Maps.{remove-Every, get, remove, at, sum_by-remove, remove-IsDistinct}
use earth_network_chain.Allocation.State.{
  Stream, AllocationWeight, OptionWeight, Voter, StreamState, Store, stream_of, with_stream,
}
use earth_network_chain.Allocation.Coins.{Coins, IsCoins}
use earth_network_chain.Allocation.Emission.{advance_index_to}
use earth_network_chain.Allocation.Votes.{
  split_contributions, weight_contributions, existing_split, is_empty, split_record,
  resync_voter_at, resync_voter_keep,
}
use earth_network_chain.Allocation.Votes.External.{
  validate_split, weighted_record, write_weighted_voter, positive_weights, weights_sum,
  has_duplicate, set_voter_split, apply_split, resync_settled, resync_voter, set_weighted_voter,
  move_settled, move_voter,
}
use earth_network_chain.Allocation.Booked.{IsAgreed, with_stream-IsSolvent}
use earth_network_chain.Allocation.Votes.Moves.{given}
use earth_network_chain.Allocation.Votes.Written.{
  kept_given, support, with_stream-each, IsVoted, IsStanding, write_voter-IsStanding,
}
use earth_network_chain.Allocation.Votes.Settled.{advance_index_to-IsStanding}

-- A split at no weight puts nothing on an option.
given_weightless : (id : ℕ) (ps : List AllocationWeight) → given id (split_contributions ps 0) ≡ 0
given_weightless id [] = refl
given_weightless id (w ∷ ws) = ground (arith, given_weightless id ws)

-- What a split record puts on an option is its split, where it is kept, and else nothing.
split-kept_given :
    (id : ℕ) (ps : List AllocationWeight) (weight expires_at : ℕ)
    → kept_given id (split_record ps weight expires_at) (not (is_empty ps) && not (weight == 0))
      ≡ given id (split_contributions ps weight)
split-kept_given id [] weight expires_at = refl
split-kept_given id (w ∷ ws) weight expires_at = elim (Bool-cases (weight == 0)) [
  | inl none_left ↦
      let z : weight ≡ 0 = (==_iff weight 0).0 none_left in
      rw none_left
        (sym (ap (λ n. given id (split_contributions (w ∷ ws) n)) z ∙ given_weightless id (w ∷ ws)))
  | inr some_left ↦ rw some_left refl
]

-- A split that is kept at weight zero puts nothing on an option.
zero-kept_given :
    (id : ℕ) (ps : List AllocationWeight) (keep : Bool)
    → kept_given id (split_record ps 0 0) keep ≡ 0
zero-kept_given id ps true = given_weightless id ps
zero-kept_given id ps false = refl

weighted-kept_given :
    (id sum : ℕ) (ws : List OptionWeight)
    → kept_given id (weighted_record ws sum) (not (is_empty ws))
      ≡ given id (weight_contributions ws)
weighted-kept_given id sum [] = refl
weighted-kept_given id sum (w ∷ ws) = refl

module _ (k : Coins) (st : Stream) (b : k.State) (now addr : ℕ) (s : Store)
    (h : IsStanding k s b) where
  pub resync_voter_at-IsStanding :
      (ps : List AllocationWeight) (weight expires_at : ℕ)
      → IsStanding k (resync_voter_at now st addr ps weight expires_at s) b
  unfolding resync_voter_at
  resync_voter_at-IsStanding ps weight expires_at =
      let qs = existing_split (stream_of st s).options ps in
      write_voter-IsStanding k st b s now addr (split_record qs weight expires_at)
        (split_contributions qs weight) (not (is_empty qs) && not (weight == 0)) h
        (λ id. split-kept_given id qs weight expires_at)

  -- `resyncVoterKeep` keeps the module solvent, its totals, and every option's weight the sum of what
  -- the voters of the epoch put on it, a vote that is kept at weight zero included.
  pub resync_voter_keep-IsStanding :
      (ps : List AllocationWeight) (weight : ℕ) (keep_zero : Bool)
      → IsStanding k (resync_voter_keep now st addr ps weight keep_zero s) b
  unfolding resync_voter_keep
  resync_voter_keep-IsStanding ps weight keep_zero =
      elim (Bool-cases (not keep_zero || not (weight == 0))) [
        | inl replayed ↦ rw replayed (resync_voter_at-IsStanding ps weight 0)
        | inr kept ↦
            let qs = existing_split (stream_of st s).options ps in
            rw kept (
              write_voter-IsStanding k st b s now addr (split_record qs 0 0) [] (not (is_empty qs))
                h (λ id. zero-kept_given id qs (not (is_empty qs))))
      ]

  pub write_weighted_voter-IsStanding :
      (ws : List OptionWeight) (sum : ℕ)
      → IsStanding k (write_weighted_voter now st addr ws sum s) b
  unfolding write_weighted_voter
  write_weighted_voter-IsStanding ws sum =
      write_voter-IsStanding k st b s now addr (weighted_record ws sum) (weight_contributions ws)
        (not (is_empty ws)) h (λ id. weighted-kept_given id sum ws)

-- Dropping a record of an older epoch.
stale-IsVoted :
    (x : StreamState) (addr : ℕ) (v : Voter)
    → IsVoted x
    → get addr x.voters ≡ some v
    → (v.epoch == x.epoch) ≡ false
    → IsVoted (record x { voters = remove addr x.voters })
stale-IsVoted x addr v h e stale = record {
  distinct = remove-IsDistinct addr x.voters h.distinct;
  past = remove-Every (λ a w. w.epoch ≤ x.epoch) addr x.voters h.past;
  voted = λ id n there.
      let nothing : at (support x.epoch id) addr x.voters ≡ 0 = rw (e, at, stale) refl in
      omega (arith, h.voted id n there, nothing, sum_by-remove (support x.epoch id) addr x.voters);
}

stale-IsStanding :
    (k : Coins) (st : Stream) (b : k.State) (addr : ℕ) (s : Store) (v : Voter)
    → IsStanding k s b
    → get addr (stream_of st s).voters ≡ some v
    → (v.epoch == (stream_of st s).epoch) ≡ false
    → IsStanding k
        (with_stream st
          (record (stream_of st s) { voters = remove addr (stream_of st s).voters })
          s)
        b
stale-IsStanding k st b addr s v h e stale =
    let hx = h.healthy.solvent.booked st in
    let a = h.healthy.agreed st in
    record {
      healthy = record {
        solvent =
            with_stream-IsSolvent k st _ _ _ 0 0 _ s b b h.healthy.solvent
              (record {
                distinct = hx.distinct;
                kept = hx.kept;
                summed = hx.summed;
                summed_nonneg = hx.summed_nonneg;
              })
              h.healthy.solvent.accrued_nonneg refl (omega arith);
        agreed =
            with_stream-each IsAgreed st _ s
              (record { total = a.total; total_nonneg = a.total_nonneg })
              (λ j ne. h.healthy.agreed j);
      };
      votes =
          with_stream-each IsVoted st _ s
            (stale-IsVoted (stream_of st s) addr v (h.votes st) e stale) (λ j ne. h.votes j);
    }

module _ (k : Coins) (weight_of : Stream → ℕ → Result ℕ) (st : Stream) (b : k.State)
    (now addr : ℕ) where
  resync_settled-IsStanding :
      (s : Store)
      → IsStanding k s b
      → (s' : Store) → resync_settled k weight_of now st addr s ≡ ok s'
      → IsStanding k s' b
  unfolding resync_settled
  resync_settled-IsStanding s h s' q = elim (Option-cases (get addr (stream_of st s).voters)) [
    | inl absent ↦ kept h (rw (absent, resync_settled) at q)
    | inr (v, e) ↦ elim (Bool-cases (v.epoch == (stream_of st s).epoch)) [
      | inr stale ↦
          kept (stale-IsStanding k st b addr s v h e stale) (rw (e, resync_settled, stale) at q)
      | inl current ↦ elim (Bool-cases (is_empty v.option_weights)) [
        | inr weighted ↦ kept h (rw (e, resync_settled, current, weighted) at q)
        | inl split ↦
            let q' = rw (e, resync_settled, current, split) at q in
            let (weight, ew, eq) = >>=-ok-eq (weight_of st addr) _ q' in
            subst (λ z. IsStanding k z b) eq
              (resync_voter_at-IsStanding k st b now addr s h v.percentages weight 0)
      ]
    ]
  ]
    where
      kept : {t : Store} → IsStanding k t b → ok t ≡ ok s' → IsStanding k s' b
      kept {t} hold e = let same : t ≡ s' = cc in subst (λ z. IsStanding k z b) same hold

  move_settled-IsStanding :
      (to : ℕ) (s : Store)
      → IsStanding k s b
      → IsStanding k (move_settled k weight_of now st addr to s) b
  unfolding move_settled
  move_settled-IsStanding to s h = elim (Option-cases (get addr (stream_of st s).voters)) [
    | inl absent ↦ rw (absent, move_settled) h
    | inr (v, e) ↦ elim (Bool-cases (v.epoch == (stream_of st s).epoch)) [
      | inr stale ↦
          rw (e, move_settled, stale) (resync_voter_at-IsStanding k st b now addr s h [] 0 0)
      | inl current ↦
          rw (e, move_settled, current)
            (resync_voter_at-IsStanding k st b now to _
              (resync_voter_at-IsStanding k st b now addr s h [] 0 0) v.percentages v.weight 0)
    ]
  ]

module _ (k : Coins) (hk : IsCoins k) (weight_of : Stream → ℕ → Result ℕ) (nanos now : ℕ)
    (st : Stream) (b : k.State) (s : Store) (h : IsStanding k s b) where
  -- `SetVoterSplit`, where it succeeds, keeps the module solvent, its
  -- totals in agreement with the options, and every live option's weight the sum of what the voters
  -- of the epoch put on it.
  pub set_voter_split-IsStanding :
      (voter weight : ℕ) (ps : List AllocationWeight) (r : Store × k.State)
      → set_voter_split k weight_of nanos now st voter ps weight s b ≡ ok r
      → IsStanding k (r.0) (r.1)
  unfolding set_voter_split
  set_voter_split-IsStanding voter weight ps r q =
      let (u0, e0, q0) = >>=-eq-ok (validate_split (stream_of st s).options ps) _ q in
      let (u1, e1, q1) = >>=-eq-ok (fail_if (not (is_empty ps) && weight == 0) no_weight) _ q0 in
      let (m, em, eq) = >>=-ok-eq (advance_index_to k nanos st s b) _ q1 in
      subst (λ j. IsStanding k (j.0) (j.1)) eq
        (resync_voter_at-IsStanding k st (m.1) now voter (m.0)
          (advance_index_to-IsStanding k hk nanos st s b m h em) ps weight 0)

  -- `ApplySplit`, where it succeeds, whatever weight the stream's source gives, keeps the module solvent, its
  -- totals in agreement with the options, and every live option's weight the sum of what the voters
  -- of the epoch put on it.
  pub apply_split-IsStanding :
      (lease_seconds voter : ℕ) (ps : List AllocationWeight) (r : ℕ × Store × k.State)
      → apply_split k weight_of nanos now lease_seconds st voter ps s b ≡ ok r
      → IsStanding k (r.1) (r.2)
  unfolding apply_split
  apply_split-IsStanding lease_seconds voter ps r q =
      let (u0, e0, q0) = >>=-eq-ok (validate_split (stream_of st s).options ps) _ q in
      let (weight, ew, q1) = >>=-eq-ok (weight_of st voter) _ q0 in
      let (u1, e1, q2) = >>=-eq-ok (fail_if (not (is_empty ps) && weight == 0) no_weight) _ q1 in
      let (m, em, eq) = >>=-ok-eq (advance_index_to k nanos st s b) _ q2 in
      subst (λ j. IsStanding k (j.1) (j.2)) eq
        (resync_voter_at-IsStanding k st (m.1) now voter (m.0)
          (advance_index_to-IsStanding k hk nanos st s b m h em) ps weight _)

  -- `SetWeightedVoter`, where it succeeds, keeps the module solvent, its
  -- totals in agreement with the options, and every live option's weight the sum of what the voters
  -- of the epoch put on it.
  pub set_weighted_voter-IsStanding :
      (addr : ℕ) (ws : List OptionWeight) (r : Store × k.State)
      → set_weighted_voter k weight_of nanos now st addr ws s b ≡ ok r
      → IsStanding k (r.0) (r.1)
  unfolding set_weighted_voter
  set_weighted_voter-IsStanding addr ws r q =
      let (u0, e0, q0) = >>=-eq-ok (fail_if (has_duplicate [] ws) bad_percentages) _ q in
      let (m, em, eq) = >>=-ok-eq (advance_index_to k nanos st s b) _ q0 in
      subst (λ j. IsStanding k (j.0) (j.1)) eq
        (write_weighted_voter-IsStanding k st (m.1) now addr (m.0)
          (advance_index_to-IsStanding k hk nanos st s b m h em) (positive_weights ws)
          (weights_sum ws))

  -- `MoveVoter`, where it succeeds, keeps the module solvent, its
  -- totals in agreement with the options, and every live option's weight the sum of what the voters
  -- of the epoch put on it.
  pub move_voter-IsStanding :
      (from to : ℕ) (r : Store × k.State)
      → move_voter k weight_of nanos now st from to s b ≡ ok r
      → IsStanding k (r.0) (r.1)
  unfolding move_voter
  move_voter-IsStanding from to r q =
      let (m, em, eq) = >>=-ok-eq (advance_index_to k nanos st s b) _ q in
      subst (λ j. IsStanding k (j.0) (j.1)) eq
        (move_settled-IsStanding k weight_of st (m.1) now from to (m.0)
          (advance_index_to-IsStanding k hk nanos st s b m h em))

  -- `ResyncVoter`, where it succeeds, a record of an older epoch included, keeps the module solvent, its
  -- totals in agreement with the options, and every live option's weight the sum of what the voters
  -- of the epoch put on it.
  pub resync_voter-IsStanding :
      (addr : ℕ) (r : Store × k.State)
      → resync_voter k weight_of nanos now st addr s b ≡ ok r
      → IsStanding k (r.0) (r.1)
  unfolding resync_voter
  resync_voter-IsStanding addr r q =
      let (m, em, q0) = >>=-eq-ok (advance_index_to k nanos st s b) _ q in
      let (s', es, eq) = >>=-ok-eq (resync_settled k weight_of now st addr (m.0)) _ q0 in
      subst (λ j. IsStanding k (j.0) (j.1)) eq
        (resync_settled-IsStanding k weight_of st (m.1) now addr (m.0)
          (advance_index_to-IsStanding k hk nanos st s b m h em) s' es)
