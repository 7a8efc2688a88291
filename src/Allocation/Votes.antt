-- ===== src/Allocation/Votes.antt =====
-- Votes of x/allocation: `writeVoter`, `resyncVoter` and the splits of keeper/allocation.go, and the
-- ways in of keeper/external_voters.go.
pub mod External
pub mod Moves
pub mod Loops
pub mod Written
pub mod Settled
pub mod Filed
pub mod Lapses
pub mod Queue
pub mod Sweep
pub mod Drain
pub mod Lapsed
pub mod Splits
pub mod Kept
pub mod Pruned
pub mod Reset
pub mod History
mod Tests
use earth_network_chain.Base.{
  ℕ, zero, suc, ◌+◌, ◌*◌, ◌/◌, Bool, true, false, not, ◌&&◌, ◌||◌, ltb, leb, ◌==◌, if◌then◌else◌,
  Option, none, some, List, [], ◌∷◌, length, Result, ok, err, fail_if, guard, or_err, ◌>>=◌, ◌>>◌,
  bad_percentages, option_removed, option_not_found, no_weight,
}
use earth_network_chain.Base.Int.{ℤ, pos, neg_part, ◌+ℤ◌, ◌-ℤ◌}
use earth_network_chain.Base.Maps.{Map, get, set, remove, has}
use earth_network_chain.Allocation.State.{
  Stream, caretaker, groundworks, AllocationWeight, OptionWeight, Voter, AllocationOption,
  StreamState, Store, stream_of, with_stream,
}
use earth_network_chain.Allocation.Coins.{Coins}
use earth_network_chain.Allocation.Options.{set_option, settle_option}
use earth_network_chain.Allocation.Emission.{advance_index_to}

abbrev pub max_voter_options : ℕ
max_voter_options = 20

-- `contribution`.
pub record Contribution : Type 0 where
  pub option : ℕ
  pub amt : ℕ

-- `splitContributions`.
abbrev pub split_contributions : List AllocationWeight → ℕ → List Contribution
split_contributions [] weight = []
split_contributions (w ∷ ws) weight =
    record { option = w.option_id; amt = weight * w.percent / 100 } ∷ split_contributions ws weight

-- The contributions of absolute option weights.
abbrev pub weight_contributions : List OptionWeight → List Contribution
weight_contributions [] = []
weight_contributions (w ∷ ws) =
    record { option = w.option_id; amt = w.weight } ∷ weight_contributions ws

-- `voterContributions`.
abbrev pub voter_contributions : Voter → List Contribution
voter_contributions v = elim v.option_weights [
  | [] ↦ split_contributions v.percentages v.weight
  | ◌∷◌ w ws ↦ weight_contributions (w ∷ ws)
]

-- `existingSplit`.
abbrev pub existing_split : Map AllocationOption → List AllocationWeight → List AllocationWeight
existing_split options [] = []
existing_split options (w ∷ ws) =
    let rest = existing_split options ws in if has w.option_id options then w ∷ rest else rest

-- `VoterLapses.Set` and `VoterLapses.Remove`, within one stream.
abbrev pub lapse_insert : ℕ × ℕ → List (ℕ × ℕ) → List (ℕ × ℕ)
lapse_insert e [] = e ∷ []
lapse_insert e (f ∷ q) =
    if ltb (e.0) (f.0) || (e.0 == f.0 && ltb (e.1) (f.1))
    then e ∷ f ∷ q
    else if e.0 == f.0 && e.1 == f.1
    then f ∷ q
    else f ∷ lapse_insert e q

abbrev pub lapse_remove : ℕ × ℕ → List (ℕ × ℕ) → List (ℕ × ℕ)
lapse_remove e [] = []
lapse_remove e (f ∷ q) =
    let rest = lapse_remove e q in if e.0 == f.0 && e.1 == f.1 then rest else f ∷ rest

-- One contribution moved, off an option (`op` a subtraction) or onto it, and the running total.
unfoldable pub move_one : ℕ → Stream → ℕ → (ℤ → ℤ → ℤ) → Contribution → ℤ → Store → ℤ × Store
unfolding set_option settle_option
move_one now st index op c total s = elim (get c.option (stream_of st s).options) [
  | none ↦ (total, s)
  | some o ↦ if o.removed then (total, s) else (
    op total (pos c.amt),
    set_option now st
        (record (settle_option o index) { amount_allocated = op o.amount_allocated (pos c.amt) }) s,
  )
]

-- The two loops of `writeVoter`.
unfoldable pub move_each : ℕ → Stream → ℕ → (ℤ → ℤ → ℤ) → List Contribution → ℤ → Store → ℤ × Store
unfolding move_one
move_each now st index op [] total s = (total, s)
move_each now st index op (c ∷ cs) total s =
    let r = move_one now st index op c total s in move_each now st index op cs (r.0) (r.1)

-- What comes off: the stored record's contributions, where it belongs to the current epoch.
abbrev pub taken_off : ℕ → Option Voter → List Contribution
taken_off epoch none = []
taken_off epoch (some old) = if old.epoch == epoch then voter_contributions old else []

-- The record with the lease of the stored one, where it has none of its own.
abbrev pub with_lease : ℕ → Option Voter → Voter → Voter
with_lease epoch none rec = rec
with_lease epoch (some old) rec =
    if rec.expires_at == 0 && old.epoch == epoch
    then record rec { expires_at = old.expires_at }
    else rec

-- The lapse queue without the stored record's lease, then with the new one's.
abbrev pub without_lease : ℕ → Option Voter → List (ℕ × ℕ) → List (ℕ × ℕ)
without_lease addr none q = q
without_lease addr (some old) q =
    if old.expires_at == 0 then q else lapse_remove (old.expires_at, addr) q

abbrev pub queue_lease : ℕ → Voter → List (ℕ × ℕ) → List (ℕ × ℕ)
queue_lease addr rec q = if rec.expires_at == 0 then q else lapse_insert (rec.expires_at, addr) q

-- The last writes of `writeVoter`: the total, and the record or its removal.
abbrev pub filed : ℕ → ℕ → Option Voter → Voter → Bool → ℤ → StreamState → StreamState
filed addr epoch old rec keep total y =
    let rec' = with_lease epoch old rec in
    let q = without_lease addr old y.voter_lapses in
    record y {
      total_weight = if neg_part total == 0 then total else pos 0;
      voters =
          if keep then set addr (record rec' { epoch = epoch }) y.voters else remove addr y.voters;
      voter_lapses = if keep then queue_lease addr rec' q else q;
    }

-- `writeVoter`.
unfoldable pub write_voter : ℕ → Stream → ℕ → Voter → List Contribution → Bool → Store → Store
unfolding move_each
write_voter now st addr rec add keep s =
    let x = stream_of st s in
    let old = get addr x.voters in
    let p = move_each now st x.reward_index ◌-ℤ◌ (taken_off x.epoch old) x.total_weight s in
    let r = move_each now st x.reward_index ◌+ℤ◌ add (p.0) (p.1) in
    with_stream st (filed addr x.epoch old rec keep (r.0) (stream_of st (r.1))) (r.1)

abbrev pub is_member : ℕ → List ℕ → Bool
is_member i [] = false
is_member i (j ∷ js) = i == j || is_member i js

abbrev pub is_empty : {A : Type 0} → List A → Bool
is_empty [] = true
is_empty (x ∷ xs) = false

-- A record without a lease of its own and without option weights.
abbrev pub split_record : List AllocationWeight → ℕ → ℕ → Voter
split_record percentages weight expires_at = record {
  percentages = percentages;
  weight = weight;
  epoch = 0;
  option_weights = [];
  expires_at = expires_at;
}

-- `resyncVoterAt`; `resyncVoter` calls it with the lease end 0, and `ClearVoter` that with nothing.
unfoldable pub resync_voter_at : ℕ → Stream → ℕ → List AllocationWeight → ℕ → ℕ → Store → Store
unfolding write_voter
resync_voter_at now st addr percentages weight expires_at s =
    let ps = existing_split (stream_of st s).options percentages in
    write_voter now st addr (split_record ps weight expires_at) (split_contributions ps weight)
      (not (is_empty ps) && not (weight == 0)) s

-- `resyncVoterKeep`.
unfoldable pub resync_voter_keep : ℕ → Stream → ℕ → List AllocationWeight → ℕ → Bool → Store → Store
unfolding resync_voter_at write_voter
resync_voter_keep now st addr percentages weight keep_zero s =
    let ps = existing_split (stream_of st s).options percentages in
    if not keep_zero || not (weight == 0)
    then resync_voter_at now st addr percentages weight 0 s
    else write_voter now st addr (split_record ps 0 0) [] (not (is_empty ps)) s
