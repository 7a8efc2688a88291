-- ===== src/Allocation/Votes/Written.antt =====
-- `writeVoter` of x/allocation: an option's weight is what its stream's voters put on it.
use earth_network_chain.Base.{
  ◌≤◌, ℕ, ◌+◌, ◌≡◌, ◌≢◌, refl, sym, subst, ap, ◌∙◌, Bool, true, false, ◌&&◌, ◌==◌, ==_self,
  if◌then◌else◌, Option, none, some, List, [], arith, Bool-cases, Option-cases, inl, inr,
}
use earth_network_chain.Base.Int.{ℤ, neg_part, ◌+ℤ◌, ◌-ℤ◌}
use earth_network_chain.Base.Maps.{
  Every, set-Every, remove-Every, Map, get, set, remove, sum_by, at, sum_by-set, sum_by-remove,
  IsDistinct, set-IsDistinct, remove-IsDistinct,
}
use earth_network_chain.Allocation.State.{
  Stream, caretaker, groundworks, Voter, StreamState, Store, stream_of, with_stream,
}
use earth_network_chain.Allocation.Coins.{Coins}
use earth_network_chain.Allocation.Booked.{IsAgreed, with_stream-IsSolvent}
use earth_network_chain.Allocation.Claims.{IsHealthy}
use earth_network_chain.Allocation.Votes.{
  Contribution, voter_contributions, taken_off, with_lease, filed, move_each, write_voter,
}
use earth_network_chain.Allocation.Votes.Moves.{given, live, Moves, Covers, Tracked, Votes}
use earth_network_chain.Allocation.Votes.Loops.{take_each-Moves, put_each-Moves}

-- What a voter puts on an option in an epoch.
abbrev pub support : ℕ → ℕ → ℕ → Voter → ℕ
support epoch id addr v = if v.epoch == epoch then given id (voter_contributions v) else 0

-- Each option that was not struck has the weight that the voters of the epoch put on it, and no vote
-- is of an epoch to come.
pub record IsVoted (x : StreamState) : Type 0 where
  pub distinct : IsDistinct x.voters
  pub voted : (id n : ℕ) → live id x.options ≡ some n → n ≡ sum_by (support x.epoch id) x.voters
  pub past : Every (λ addr v. v.epoch ≤ x.epoch) x.voters

-- The module is solvent, its totals agree with the options, and the options with the votes.
pub record IsStanding (k : Coins) (s : Store) (b : k.State) : Type 0 where
  pub healthy : IsHealthy k s b
  pub votes : (st : Stream) → IsVoted (stream_of st s)

-- What comes off is what the stored record puts on.
given-taken_off :
    (epoch id addr : ℕ) (voters : Map Voter)
    → given id (taken_off epoch (get addr voters)) ≡ at (support epoch id) addr voters
given-taken_off epoch id addr voters = elim (Option-cases (get addr voters)) [
  | inl absent ↦ rw (absent, at, taken_off) refl
  | inr (v, e) ↦ elim (Bool-cases (v.epoch == epoch)) [
    | inl now ↦ rw (e, at, taken_off, now) refl
    | inr past ↦ rw (e, at, taken_off, past) refl
  ]
]

-- The lease is no part of what a record puts on the options.
voter_contributions-with_lease :
    (epoch : ℕ) (old : Option Voter) (rec : Voter)
    → voter_contributions (with_lease epoch old rec) ≡ voter_contributions rec
voter_contributions-with_lease epoch none rec = refl
voter_contributions-with_lease epoch (some old) rec =
    elim (Bool-cases (rec.expires_at == 0 && old.epoch == epoch)) [
      | inl kept ↦ rw kept refl
      | inr new ↦ rw new refl
    ]

-- The voters after a record was written or removed.
abbrev revoted : ℕ → ℕ → Option Voter → Voter → Bool → Map Voter → Map Voter
revoted addr epoch old rec keep voters =
    if keep
    then set addr (record (with_lease epoch old rec) { epoch = epoch }) voters
    else remove addr voters

-- What the record to be written puts on an option, where it is kept.
abbrev pub kept_given : ℕ → Voter → Bool → ℕ
kept_given id rec keep = if keep then given id (voter_contributions rec) else 0

sum_by-revoted :
    (addr epoch id : ℕ) (old : Option Voter) (rec : Voter) (keep : Bool) (voters : Map Voter)
    → sum_by (support epoch id) (revoted addr epoch old rec keep voters)
        + at (support epoch id) addr voters
      ≡ sum_by (support epoch id) voters + kept_given id rec keep
sum_by-revoted addr epoch id old rec true voters =
    sum_by-set (support epoch id) addr (record (with_lease epoch old rec) { epoch = epoch }) voters
    ∙ ap (λ n. sum_by (support epoch id) voters + n)
        (rw (==_self epoch) (ap (given id) (voter_contributions-with_lease epoch old rec)))
sum_by-revoted addr epoch id old rec false voters =
    omega (arith, sum_by-remove (support epoch id) addr voters)

revoted-IsDistinct :
    (addr epoch : ℕ) (old : Option Voter) (rec : Voter) (keep : Bool) (voters : Map Voter)
    → IsDistinct voters
    → IsDistinct (revoted addr epoch old rec keep voters)
revoted-IsDistinct addr epoch old rec true voters h = set-IsDistinct addr _ voters h
revoted-IsDistinct addr epoch old rec false voters h = remove-IsDistinct addr voters h

revoted-past :
    (addr epoch : ℕ) (old : Option Voter) (rec : Voter) (keep : Bool) (voters : Map Voter)
    → Every (λ a v. v.epoch ≤ epoch) voters
    → Every (λ a v. v.epoch ≤ epoch) (revoted addr epoch old rec keep voters)
revoted-past addr epoch old rec true voters h =
    set-Every (λ a v. v.epoch ≤ epoch) addr _ voters (omega arith) h
revoted-past addr epoch old rec false voters h = remove-Every (λ a v. v.epoch ≤ epoch) addr voters h

-- What holds of the stream that is replaced and of the other one holds of each.
pub with_stream-each :
    (P : StreamState → Type 0) (st : Stream) (x : StreamState) (s : Store)
    → P x
    → ((j : Stream) → j ≢ st → P (stream_of j s))
    → (j : Stream) → P (stream_of j (with_stream st x s))
with_stream-each P caretaker x s h f caretaker = h
with_stream-each P caretaker x s h f groundworks = f groundworks (λ e. cc)
with_stream-each P groundworks x s h f caretaker = f caretaker (λ e. cc)
with_stream-each P groundworks x s h f groundworks = h

module _ (k : Coins) (st : Stream) (b : k.State) (s : Store) (now addr : ℕ) (rec : Voter)
    (add : List Contribution) (keep : Bool) (h : IsStanding k s b)
    (files : (id : ℕ) → kept_given id rec keep ≡ given id add) where
  abbrev before : StreamState
  before = stream_of st s

  abbrev off : List Contribution
  off = taken_off before.epoch (get addr before.voters)

  abbrev taken : ℤ × Store
  taken = move_each now st before.reward_index ◌-ℤ◌ off before.total_weight s

  abbrev put : ℤ × Store
  put = move_each now st before.reward_index ◌+ℤ◌ add (taken.0) (taken.1)

  start : Tracked k st b s before.total_weight s
  start = record {
    solvent = h.healthy.solvent;
    sum = (h.healthy.agreed st).total;
    nonneg = (h.healthy.agreed st).total_nonneg;
    same = refl;
    other = λ j ne. refl;
  }

  covered : Covers off before.options
  covered id n there = omega (
    arith,
    (h.votes st).voted id n there,
    given-taken_off before.epoch id addr before.voters,
    sum_by-remove (support before.epoch id) addr before.voters,
  )

  after_take :
      Tracked k st b s (taken.0) (taken.1)
      × Moves off [] before.options (stream_of st (taken.1)).options
  after_take =
      take_each-Moves k st b s now before.reward_index off before.total_weight s refl start covered

  after_put :
      Tracked k st b s (put.0) (put.1)
      × Moves [] add (stream_of st (taken.1)).options (stream_of st (put.1)).options
  after_put =
      put_each-Moves k st b s now before.reward_index add (taken.0) (taken.1)
        (ap index_of (sym after_take.0.same)) after_take.0
    where
      index_of : Votes → ℕ
      index_of v = v.reward_index

  abbrev after : StreamState
  after = filed addr before.epoch (get addr before.voters) rec keep (put.0) (stream_of st (put.1))

  after-IsVoted : IsVoted after
  after-IsVoted = record {
    distinct =
        subst
          (λ v. IsDistinct (revoted addr before.epoch (get addr before.voters) rec keep v.voters))
          (sym after_put.0.same)
          (revoted-IsDistinct addr before.epoch (get addr before.voters) rec keep before.voters
            (h.votes st).distinct);
    past =
        subst
          (λ v.
            Every (λ a w. w.epoch ≤ v.epoch)
              (revoted addr before.epoch (get addr before.voters) rec keep v.voters))
          (sym after_put.0.same)
          (revoted-past addr before.epoch (get addr before.voters) rec keep before.voters
            (h.votes st).past);
    voted = λ id n' there.
        let (n1, mid, e2) = after_put.1 id n' there in
        let (n, first, e1) = after_take.1 id n1 mid in
        subst
          (λ v.
            n'
            ≡ sum_by (support v.epoch id)
                (revoted addr before.epoch (get addr before.voters) rec keep v.voters))
          (sym after_put.0.same)
          (omega (
            arith,
            e1,
            e2,
            files id,
            (h.votes st).voted id n first,
            given-taken_off before.epoch id addr before.voters,
            sum_by-revoted addr before.epoch id (get addr before.voters) rec keep before.voters,
          ));
  }

  after-IsAgreed : IsAgreed after
  after-IsAgreed =
      let no : (neg_part (put.0) == 0) ≡ true = ground (arith, after_put.0.nonneg) in
      rw no (record { total = after_put.0.sum; total_nonneg = after_put.0.nonneg })

  pub write_voter-IsStanding : IsStanding k (write_voter now st addr rec add keep s) b
  unfolding write_voter
  write_voter-IsStanding =
      let t = after_put.0 in
      let hx = t.solvent.booked st in
      record {
        healthy = record {
          solvent =
              with_stream-IsSolvent k st after _ _ 0 0 _ (put.1) b b t.solvent
                (record {
                  distinct = hx.distinct;
                  kept = hx.kept;
                  summed = hx.summed;
                  summed_nonneg = hx.summed_nonneg;
                })
                t.solvent.accrued_nonneg refl (omega arith);
          agreed =
              with_stream-each IsAgreed st after (put.1) after-IsAgreed
                (λ j ne. subst IsAgreed (sym (t.other j ne)) (h.healthy.agreed j));
        };
        votes =
            with_stream-each IsVoted st after (put.1) after-IsVoted
              (λ j ne. subst IsVoted (sym (t.other j ne)) (h.votes j));
      }
