-- ===== src/Allocation/State.antt =====
-- The store of x/allocation: the records of proto/earth/allocation/v1/allocation.proto and the
-- collections of x/allocation/keeper/keeper.go, read with the zero defaults of allocation.go.
use earth_network_chain.Base.{ℕ, ◌*◌, Bool, true, false, Option, List}
use earth_network_chain.Base.Int.{ℤ}
use earth_network_chain.Base.Maps.{Map}

-- `StreamId` without its invalid default.
pub data Stream : Type 0 where
  caretaker groundworks : Stream

-- The number that a stream is stored under.
abbrev pub key : Stream → ℕ
key caretaker = 1
key groundworks = 2

-- `AllocationKind` without its invalid default.
pub data AllocationKind : Type 0 where
  address integrated : AllocationKind

abbrev pub is_integrated : AllocationKind → Bool
is_integrated address = false
is_integrated integrated = true

-- `AllocationOption`, less the names it is shown under. `accumulated` is never negative: an index
-- does not fall, and a draw takes at most the whole balance.
pub record AllocationOption : Type 0 where
  pub id : ℕ
  pub kind : AllocationKind
  pub recipient : ℕ
  pub claimer : Option ℕ
  pub amount_allocated : ℤ
  pub accumulated : ℕ
  pub last_reward_index : ℕ
  pub removed : Bool

-- `AllocationWeight`: a share of a split, in percent.
pub record AllocationWeight : Type 0 where
  pub option_id : ℕ
  pub percent : ℕ

-- `OptionWeight`.
pub record OptionWeight : Type 0 where
  pub option_id : ℕ
  pub weight : ℕ

-- `Voter`.
pub record Voter : Type 0 where
  pub percentages : List AllocationWeight
  pub weight : ℕ
  pub epoch : ℕ
  pub option_weights : List OptionWeight
  pub expires_at : ℕ

-- What the store holds of one stream. `voter_lapses` is in the order of the keys.
pub record StreamState : Type 0 where
  pub options : Map AllocationOption
  pub integrated_options : Map Bool
  pub reward_index : ℕ
  pub total_weight : ℤ
  pub summed_weight : ℤ
  pub last_upkeep : ℕ
  pub epoch : ℕ
  pub option_seq : ℕ
  pub prune_due : Map ℕ
  pub voters : Map Voter
  pub voter_lapses : List (ℕ × ℕ)

-- The store: `prune_queue` holds (due, stream, id) in the order of the keys.
pub record Store : Type 0 where
  pub caretaker_state : StreamState
  pub groundworks_state : StreamState
  pub summed_accrued : ℤ
  pub residue : ℕ
  pub prune_queue : List (ℕ × Stream × ℕ)
  pub chamber : Option ℕ

abbrev pub stream_of : Stream → Store → StreamState
stream_of caretaker s = s.caretaker_state
stream_of groundworks s = s.groundworks_state

abbrev pub with_stream : Stream → StreamState → Store → Store
with_stream caretaker x s = record s { caretaker_state = x }
with_stream groundworks x s = record s { groundworks_state = x }

-- 1e18.
abbrev pub index_precision : ℕ
index_precision = 1000000000000000000

abbrev pub emission_per_second : ℕ
emission_per_second = 1000000

abbrev pub ppm_denominator : ℕ
ppm_denominator = 1000000

abbrev pub nanos_per_second : ℕ
nanos_per_second = 1000000000

-- Thirty days, in seconds.
abbrev pub option_idle_grace : ℕ
option_idle_grace = 30 * 24 * 60 * 60

abbrev pub option_prune_sweep_limit : ℕ
option_prune_sweep_limit = 20
