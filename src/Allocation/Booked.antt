-- ===== src/Allocation/Booked.antt =====
-- The ledger of x/allocation: what the running sums of the store count, and what the options could
-- still collect at the index.
use earth_network_chain.Base.{ℕ, ◌+◌, ◌-◌, ◌*◌, ◌≤◌, ◌≡◌, refl, true, arith, List}
use earth_network_chain.Base.Int.{ℤ, pos_part, neg_part}
use earth_network_chain.Base.Maps.{sum_by, IsDistinct, Every}
use earth_network_chain.Allocation.State.{
  Stream, caretaker, groundworks, AllocationOption, StreamState, Store, stream_of, with_stream,
  index_precision,
}
use earth_network_chain.Allocation.Coins.{Coins}

abbrev pub weight : ℕ → AllocationOption → ℕ
weight id o = pos_part o.amount_allocated

abbrev pub balance : ℕ → AllocationOption → ℕ
balance id o = o.accumulated

-- What an option could still collect at an index, scaled by the index precision.
abbrev pub claim : ℕ → ℕ → AllocationOption → ℕ
claim index id o = pos_part o.amount_allocated * (index - o.last_reward_index)

abbrev pub claims : StreamState → ℕ
claims x = sum_by (claim x.reward_index) x.options

abbrev pub balances : StreamState → ℕ
balances x = sum_by balance x.options

pub record IsKept (index id : ℕ) (o : AllocationOption) : Type 0 where
  pub own : o.id ≡ id
  pub nonneg : neg_part o.amount_allocated ≡ 0
  pub current : o.last_reward_index ≤ index
  pub idle : o.removed ≡ true → pos_part o.amount_allocated ≡ 0

pub record IsBooked (x : StreamState) : Type 0 where
  pub distinct : IsDistinct x.options
  pub kept : Every (IsKept x.reward_index) x.options
  pub summed : pos_part x.summed_weight ≡ sum_by weight x.options
  pub summed_nonneg : neg_part x.summed_weight ≡ 0

-- The total that the emission is split over is what the options hold.
pub record IsAgreed (x : StreamState) : Type 0 where
  pub total : pos_part x.total_weight ≡ sum_by weight x.options
  pub total_nonneg : neg_part x.total_weight ≡ 0

-- A statement of both streams, from that of each.
pub by_stream : (P : Stream → Type 0) → P caretaker → P groundworks → (j : Stream) → P j
by_stream P c g caretaker = c
by_stream P c g groundworks = g

module _ (k : Coins) where
  -- The module account holds the balances, the residue, all that the options could still collect,
  -- and `free` more.
  pub record IsSolvent (free : ℕ) (s : Store) (b : k.State) : Type 0 where
    pub booked : (st : Stream) → IsBooked (stream_of st s)
    pub accrued :
        pos_part s.summed_accrued ≡ balances s.caretaker_state + balances s.groundworks_state
    pub accrued_nonneg : neg_part s.summed_accrued ≡ 0
    pub covered :
        claims s.caretaker_state
          + claims s.groundworks_state
          + index_precision * (pos_part s.summed_accrued + s.residue + free)
        ≤ index_precision * k.held b

  -- Replacing one stream, the running sum and the residue.
  pub with_stream-IsSolvent :
      (st : Stream) (x : StreamState) (acc : ℤ) (res free free' : ℕ) (q : List (ℕ × Stream × ℕ))
      (s : Store) (b b' : k.State)
      → IsSolvent free s b
      → IsBooked x
      → neg_part acc ≡ 0
      → pos_part acc + balances (stream_of st s) ≡ pos_part s.summed_accrued + balances x
      → claims x + index_precision * (pos_part acc + res + free') + index_precision * k.held b
        ≤ claims (stream_of st s)
          + index_precision * (pos_part s.summed_accrued + s.residue + free)
          + index_precision * k.held b'
      → IsSolvent free'
          (with_stream st x (record s { summed_accrued = acc; residue = res; prune_queue = q }))
          b'
  with_stream-IsSolvent caretaker x acc res free free' q s b b' h hx na ea ec = record {
    booked = by_stream (λ j. IsBooked (stream_of j _)) hx (h.booked groundworks);
    accrued = omega (arith, h.accrued);
    accrued_nonneg = na;
    covered = omega (arith, h.covered);
  }
  with_stream-IsSolvent groundworks x acc res free free' q s b b' h hx na ea ec = record {
    booked = by_stream (λ j. IsBooked (stream_of j _)) (h.booked caretaker) hx;
    accrued = omega (arith, h.accrued);
    accrued_nonneg = na;
    covered = omega (arith, h.covered);
  }

-- Replacing one stream leaves the agreement of the other.
pub with_stream-IsAgreed :
    (st : Stream) (x : StreamState) (acc : ℤ) (res : ℕ) (q : List (ℕ × Stream × ℕ)) (s : Store)
    → (IsAgreed (stream_of st s) → IsAgreed x)
    → (j : Stream) → IsAgreed (stream_of j s)
    → IsAgreed (
        stream_of j
          (with_stream st x (record s { summed_accrued = acc; residue = res; prune_queue = q })))
with_stream-IsAgreed caretaker x acc res q s f caretaker h = f h
with_stream-IsAgreed caretaker x acc res q s f groundworks h = h
with_stream-IsAgreed groundworks x acc res q s f caretaker h = h
with_stream-IsAgreed groundworks x acc res q s f groundworks h = f h

pub stream_of-with_stream :
    (st : Stream) (x : StreamState) (acc : ℤ) (res : ℕ) (q : List (ℕ × Stream × ℕ)) (s : Store)
    → stream_of st
        (with_stream st x (record s { summed_accrued = acc; residue = res; prune_queue = q }))
      ≡ x
stream_of-with_stream caretaker x acc res q s = refl
stream_of-with_stream groundworks x acc res q s = refl
