-- ===== src/Allocation/Votes/Moves.antt =====
-- The loops of `writeVoter` on the ledger of x/allocation.
use earth_network_chain.Base.{
  ℕ, ◌+◌, ◌≤◌, ◌≡◌, ◌≢◌, refl, sym, subst, ap, ◌∙◌, true, false, ◌==◌, if◌then◌else◌, Option, none,
  some, List, [], ◌∷◌, mul-sub_self, arith, Bool-cases, Option-cases, inl, inr,
}
use earth_network_chain.Base.Int.{ℤ, pos_part, neg_part, ◌+ℤ◌, ◌-ℤ◌}
use earth_network_chain.Base.Maps.{Map, get, set, get-set, sum_by, sum_by-set, get-Every}
use earth_network_chain.Allocation.State.{
  Stream, caretaker, groundworks, AllocationOption, Voter, StreamState, Store, stream_of,
  with_stream,
}
use earth_network_chain.Allocation.Coins.{Coins}
use earth_network_chain.Allocation.Options.{
  settle_option, set_option, refresh_prune_schedule, recorded, prunable, amount_of,
}
use earth_network_chain.Allocation.Booked.{weight, claim, IsKept, IsSolvent, stream_of-with_stream}
use earth_network_chain.Allocation.Writes.{at-some, set_option-over}
use earth_network_chain.Allocation.Settle.{settle_option-covered}
use earth_network_chain.Allocation.Votes.{Contribution}

-- What contributions put on an option.
abbrev pub given : ℕ → List Contribution → ℕ
given id [] = 0
given id (c ∷ cs) = (if id == c.option then c.amt else 0) + given id cs

-- The weight of an option that was not struck.
abbrev pub live_part : Option AllocationOption → Option ℕ
live_part none = none
live_part (some o) = if o.removed then none else some (pos_part o.amount_allocated)

abbrev pub live : ℕ → Map AllocationOption → Option ℕ
live id m = live_part (get id m)

live-set :
    (i id : ℕ) (o : AllocationOption) (m : Map AllocationOption)
    → o.removed ≡ false
    → live i (set id o m) ≡ (if i == id then some (pos_part o.amount_allocated) else live i m)
live-set i id o m present = elim (Bool-cases (i == id)) [
  | inl same ↦ ap live_part (get-set i id o m) ∙ rw (same, present) refl
  | inr other ↦ ap live_part (get-set i id o m) ∙ rw other refl
]

-- The prune schedule is all that `refreshPruneSchedule` writes.
refresh_prune_schedule-keeps_stream :
    (P : StreamState → Type 0)
    → ((x : StreamState) (due : Map ℕ) → P x → P (record x { prune_due = due }))
    → (now : ℕ) (st : Stream) (o : AllocationOption) (s : Store) (j : Stream) → P (stream_of j s)
    → P (stream_of j (refresh_prune_schedule now st o s))
unfolding refresh_prune_schedule
refresh_prune_schedule-keeps_stream P f now st o s j h = elim (Bool-cases (prunable o)) [
  | inl idle ↦ elim (Option-cases (get o.id (stream_of st s).prune_due)) [
    | inl absent ↦ rw (idle, absent) (moved st j _ _ h)
    | inr present ↦ rw (idle, present.1) h
  ]
  | inr live ↦ elim (Option-cases (get o.id (stream_of st s).prune_due)) [
    | inl absent ↦ rw (live, absent) h
    | inr present ↦ rw (live, present.1) (moved st j _ _ h)
  ]
]
  where
    moved :
        (i j : Stream) (due : Map ℕ) (q : List (ℕ × Stream × ℕ))
        → P (stream_of j s)
        → P (
            stream_of j (
              with_stream i
                (record (stream_of i s) { prune_due = due })
                (record s { prune_queue = q })))
    moved caretaker caretaker due q h = f s.caretaker_state due h
    moved caretaker groundworks due q h = h
    moved groundworks caretaker due q h = h
    moved groundworks groundworks due q h = f s.groundworks_state due h

-- What holds of a stream however its prune schedule stands holds after a write of an option where it
-- holds once the record is written.
pub set_option-keeps_stream :
    (P : StreamState → Type 0)
    → ((x : StreamState) (due : Map ℕ) → P x → P (record x { prune_due = due }))
    → (now : ℕ) (st : Stream) (o : AllocationOption) (s : Store) (j : Stream)
    → P (stream_of j (recorded st o s))
    → P (stream_of j (set_option now st o s))
unfolding set_option
set_option-keeps_stream P f now st o s j h =
    refresh_prune_schedule-keeps_stream P f now st o (recorded st o s) j h

with_stream-other :
    (st j : Stream) (x : StreamState) (s : Store)
    → j ≢ st
    → stream_of j (with_stream st x s) ≡ stream_of j s
with_stream-other caretaker caretaker x s ne = absurd (ne refl)
with_stream-other caretaker groundworks x s ne = refl
with_stream-other groundworks caretaker x s ne = refl
with_stream-other groundworks groundworks x s ne = absurd (ne refl)

resummed-other :
    (j : Stream) (acc : ℤ) (s : Store)
    → stream_of j (record s { summed_accrued = acc }) ≡ stream_of j s
resummed-other caretaker acc s = refl
resummed-other groundworks acc s = refl

requeued-other :
    (j : Stream) (q : List (ℕ × Stream × ℕ)) (s : Store)
    → stream_of j (record s { prune_queue = q }) ≡ stream_of j s
requeued-other caretaker q s = refl
requeued-other groundworks q s = refl

refresh_prune_schedule-other :
    (now : ℕ) (st j : Stream) (o : AllocationOption) (s : Store)
    → j ≢ st
    → stream_of j (refresh_prune_schedule now st o s) ≡ stream_of j s
unfolding refresh_prune_schedule
refresh_prune_schedule-other now st j o s ne = elim (Bool-cases (prunable o)) [
  | inl idle ↦ elim (Option-cases (get o.id (stream_of st s).prune_due)) [
    | inl absent ↦ rw (idle, absent) (with_stream-other st j _ _ ne ∙ requeued-other j _ s)
    | inr present ↦ rw (idle, present.1) refl
  ]
  | inr live ↦ elim (Option-cases (get o.id (stream_of st s).prune_due)) [
    | inl absent ↦ rw (live, absent) refl
    | inr present ↦ rw (live, present.1) (with_stream-other st j _ _ ne ∙ requeued-other j _ s)
  ]
]

-- A write of an option leaves the other stream.
pub set_option-other :
    (now : ℕ) (st j : Stream) (o : AllocationOption) (s : Store)
    → j ≢ st
    → stream_of j (set_option now st o s) ≡ stream_of j s
unfolding set_option
set_option-other now st j o s ne =
    refresh_prune_schedule-other now st j o (recorded st o s) ne
    ∙ with_stream-other st j _ _ ne
    ∙ resummed-other j _ s

-- What the loops leave of a stream: all but the options' weights and balances.
pub record Votes : Type 0 where
  pub voters : Map Voter
  pub epoch : ℕ
  pub reward_index : ℕ
  pub total_weight : ℤ
  pub voter_lapses : List (ℕ × ℕ)

abbrev pub votes_of : StreamState → Votes
votes_of x = record {
  voters = x.voters;
  epoch = x.epoch;
  reward_index = x.reward_index;
  total_weight = x.total_weight;
  voter_lapses = x.voter_lapses;
}

-- The options after some contributions came off and others went on.
abbrev pub Moves :
    List Contribution → List Contribution → Map AllocationOption → Map AllocationOption → Type 0
Moves off on m m' =
    (id n' : ℕ)
    → live id m' ≡ some n'
    → (n : ℕ) × (live id m ≡ some n) × (n' + given id off ≡ n + given id on)

-- The stored options cover what is to come off.
abbrev pub Covers : List Contribution → Map AllocationOption → Type 0
Covers cs m = (id n : ℕ) → live id m ≡ some n → given id cs ≤ n

module _ (k : Coins) (st : Stream) (b : k.State) (s0 : Store) where
  -- The ledger while the total is carried along.
  pub record Tracked (total : ℤ) (s : Store) : Type 0 where
    pub solvent : IsSolvent k 0 s b
    pub sum : pos_part total ≡ sum_by weight (stream_of st s).options
    pub nonneg : neg_part total ≡ 0
    pub same : votes_of (stream_of st s) ≡ votes_of (stream_of st s0)
    pub other : (j : Stream) → j ≢ st → stream_of j s ≡ stream_of j s0

  -- An option written with another weight, and the total that follows it.
  module _ (now id : ℕ) (o : AllocationOption) (a' total total' : ℤ) (s : Store)
      (t : Tracked total s) (e : get id (stream_of st s).options ≡ some o)
      (present : o.removed ≡ false) (nonneg' : neg_part a' ≡ 0) (total_nonneg : neg_part total' ≡ 0)
      (follows : pos_part total' + pos_part o.amount_allocated ≡ pos_part total + pos_part a') where
    abbrev pub index : ℕ
    index = (stream_of st s).reward_index

    abbrev pub reweighed : AllocationOption
    reweighed = record (settle_option o index) { amount_allocated = a' }

    kept : IsKept index id o
    kept = get-Every (IsKept index) id o (stream_of st s).options (t.solvent.booked st).kept e

    own : reweighed.id ≡ id
    unfolding settle_option
    own = kept.own

    -- A settled option with another weight can collect nothing yet.
    unclaimed : claim index id reweighed ≡ 0
    unfolding settle_option
    unclaimed = mul-sub_self (pos_part a') index index refl

    struck_kept : reweighed.removed ≡ false
    unfolding settle_option
    struck_kept = present

    settled_at : reweighed.last_reward_index ≤ index
    unfolding settle_option
    settled_at = omega arith

    reweighed-IsSolvent : IsSolvent k 0 (set_option now st reweighed s) b
    reweighed-IsSolvent =
        let c = settle_option-covered o index id kept in
        set_option-over k now st id o reweighed 0 0 s b t.solvent e
          (record {
            own = own;
            nonneg = nonneg';
            current = settled_at;
            idle = λ r. gone r struck_kept;
          })
          (omega (arith, c, unclaimed))
      where
        gone : reweighed.removed ≡ true → reweighed.removed ≡ false → pos_part a' ≡ 0
        gone p q = cc

    reweighed_stream :
        (P : StreamState → Type 0)
        → ((x : StreamState) (due : Map ℕ) → P x → P (record x { prune_due = due }))
        → ((w : ℤ)
            → P (record (stream_of st s) {
              summed_weight = w;
              options = set id reweighed (stream_of st s).options;
            }))
        → P (stream_of st (set_option now st reweighed s))
    reweighed_stream P f h = set_option-keeps_stream P f now st reweighed s st (
        subst P (sym (stream_of-with_stream st _ _ s.residue s.prune_queue s)) (
          subst
            (λ i. P (record (stream_of st s) {
              summed_weight =
                  (stream_of st s).summed_weight
                  +ℤ (a' -ℤ amount_of (get reweighed.id (stream_of st s).options));
              options = set i reweighed (stream_of st s).options;
            }))
            (sym own) (h _)))

    pub reweighed_live :
        (i : ℕ)
        → live i (stream_of st (set_option now st reweighed s)).options
          ≡ (if i == id then some (pos_part a') else live i (stream_of st s).options)
    reweighed_live i =
        reweighed_stream
          (λ x.
            live i x.options
            ≡ (if i == id then some (pos_part a') else live i (stream_of st s).options))
          (λ x due h. h) (λ w. live-set i id reweighed (stream_of st s).options struck_kept)

    pub reweighed-Tracked : Tracked total' (set_option now st reweighed s)
    reweighed-Tracked = record {
      solvent = reweighed-IsSolvent;
      sum =
          reweighed_stream (λ x. pos_part total' ≡ sum_by weight x.options) (λ x due h. h)
            (λ w. omega (
              arith,
              follows,
              t.sum,
              sum_by-set weight id reweighed (stream_of st s).options,
              at-some weight id o (stream_of st s).options e,
            ));
      nonneg = total_nonneg;
      same =
          reweighed_stream (λ x. votes_of x ≡ votes_of (stream_of st s)) (λ x due h. h) (λ w. refl)
          ∙ t.same;
      other = λ j ne. set_option-other now st j reweighed s ne ∙ t.other j ne;
    }
