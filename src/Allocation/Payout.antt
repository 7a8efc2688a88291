-- ===== src/Allocation/Payout.antt =====
-- `ClaimAllocation` of x/allocation/keeper/msg_server_claim_allocation.go, with `PayOut` of
-- keeper/keeper.go, and `resetAllocations` of keeper/allocation.go.
use earth_network_chain.Base.{
  ℕ, suc, Bool, true, not, ◌==◌, if◌then◌else◌, none, some, List, [], ◌∷◌, Result, ok, or_err,
  guard, ◌>>=◌, ◌>>◌, bank_refused, option_not_found, not_claimable, invalid_signer,
}
use earth_network_chain.Base.Int.{pos}
use earth_network_chain.Base.Maps.{Map, get}
use earth_network_chain.Allocation.State.{
  Stream, is_integrated, AllocationOption, Store, stream_of, with_stream,
}
use earth_network_chain.Allocation.Coins.{Coins}
use earth_network_chain.Allocation.Options.{set_option, settle_option}
use earth_network_chain.Allocation.Emission.{advance_index_to}

-- `streamOptionIDs`.
abbrev pub option_ids : Map AllocationOption → List ℕ
option_ids [] = []
option_ids (e ∷ m) = e.0 ∷ option_ids m

-- The walk of `resetAllocations`: every option settled, then without weight.
unfoldable pub reset_options : ℕ → Stream → ℕ → List ℕ → Store → Result Store
unfolding set_option settle_option
reset_options now st index [] s = ok s
reset_options now st index (id ∷ ids) s = do
  o ← or_err (get id (stream_of st s).options) option_not_found
  reset_options now st index ids
      (set_option now st (record (settle_option o index) { amount_allocated = pos 0 }) s)

-- The part of `resetAllocations` that follows the walk: no weight, and the next epoch.
abbrev pub next_epoch : Stream → Store → ℕ × Store
next_epoch st s =
    let x = stream_of st s in
    (suc x.epoch, with_stream st (record x { total_weight = pos 0; epoch = suc x.epoch }) s)

-- Whether `creator` may trigger the claim of an option.
abbrev pub may_claim : ℕ → AllocationOption → Bool
may_claim creator o = elim o.claimer [ none ↦ true | some c ↦ creator == c ]

module _ (k : Coins) where
  open k use {State, send_to_account}

  -- `resetAllocations` at block time `nanos`, whose seconds are `now`.
  unfoldable pub reset_allocations : ℕ → ℕ → Stream → Store → State → Result ((ℕ × Store) × State)
  unfolding advance_index_to reset_options
  reset_allocations nanos now st s b = do
    r ← advance_index_to k nanos st s b
    let x = stream_of st (r.0)
    s1 ← reset_options now st x.reward_index (option_ids x.options) (r.0)
    ok (next_epoch st s1, r.1)

  -- `PayOut`.
  unfoldable pub pay_out : ℕ → ℕ → State → Result State
  pay_out recipient amount b =
      if amount == 0 then ok b else or_err (send_to_account recipient amount b) bank_refused

  -- `ClaimAllocation`.
  unfoldable pub claim_allocation : ℕ → ℕ → ℕ → Stream → ℕ → Store → State → Result (Store × State)
  unfolding advance_index_to pay_out set_option settle_option
  claim_allocation nanos now creator st id s b = do
    o ← or_err (get id (stream_of st s).options) option_not_found
    guard (not (is_integrated o.kind)) not_claimable
    guard (may_claim creator o) invalid_signer
    r ← advance_index_to k nanos st s b
    let settled = settle_option o (stream_of st (r.0)).reward_index
    b2 ← pay_out settled.recipient settled.accumulated (r.1)
    ok (set_option now st (record settled { accumulated = 0 }) (r.0), b2)
