-- ===== src/Lib.antt =====
-- A model of the core of the Earth chain (a Cosmos SDK application in Go): the exchange x/dex, the
-- emission streams of x/allocation, the Merkle tree of zk/merkle and the nullifier tree of zk/indexed,
-- with theorems on each.
--
-- How the parts interact. x/allocation mints the chain's emission while it moves a stream's reward
-- index, and owes it to the stream's options in proportion to their weight. One of those options is
-- resolved by x/dex, which distributes what it is given over its pools with an index of its own
-- (DistributeLPRewards) and settles a pool's part into its ERTH reserve before every trade, deposit
-- or sweep that touches the pool. A withdrawal from a pool of x/dex escrows its shares and waits in
-- a queue, from which the EndBlocker's sweep prices and pays it once it is due. zk/merkle is the
-- tree of the notes of x/shielded and of the identities of x/personhood, and zk/indexed keeps a
-- sorted linked list in the leaves of such a tree, so that a value can be shown to be absent. x/dex
-- and x/allocation keep running sums that their EndBlockers compare with the bank's balances, and
-- halt the chain where they disagree.
--
-- Which file models which part. State is passed explicitly: a keeper's collections are a record, an
-- operation takes the record and returns the new one, and a fallible operation returns a `Result`. An
-- error carries no state, as the caller discards the writes of a call that failed.
--   Base: lists, Boolean tests, integers, collections (`collections.Map` as an association list) and
--     results that the other files share.
--   Zk/Merkle: zk/merkle/merkle.go. `append`, `update`, `path` and `root_from_path` are the methods of
--     `Tree` and `RootFromPath`; `set_loop`, `path_loop` and `root_loop` are their loops.
--   Zk/Indexed: zk/indexed/indexed.go, over an index of values that is an interface (`Index`), and in
--     Zk/Indexed/Memory the index of zk/indexed/mem.go.
--   Dex/Amm: x/dex/keeper/amm.go, function by function.
--   Dex/Store: the collections of x/dex/keeper/keeper.go, the caps of x/dex/types/keys.go, and SetPool
--     of x/dex/keeper/solvency.go.
--   Dex/Twap: the accumulator of x/dex/keeper/twap.go.
--   Dex/Rewards: x/dex/keeper/lp_rewards.go, function by function.
--   Dex/Swap, Dex/Exact: x/dex/keeper/msg_server_swap.go, the hops (`hop_token_to_hub`,
--     `hop_hub_to_token`) and the whole swap (`swap_exact_in_fees`).
--   Dex/Deposit: `deposit` and `burnResidue` of x/dex/keeper/msg_server_add_liquidity.go, and the
--     pricing of x/dex/keeper/lp_unbonding.go; in Dex/Deposit/Add the handler `AddLiquidity`.
--   Dex/Create: x/dex/keeper/msg_server_create_pool.go, with the lock of x/dex/keeper/auction.go.
--   Dex/Notes: SplitNoteValues of x/shielded/types/rules.go and MintNoteSplit of
--     x/shielded/keeper/notes.go.
--   Dex/Unbonding: the queue of withdrawals of x/dex/keeper/lp_unbonding.go and, in Unbonding/Start,
--     x/dex/keeper/msg_server_remove_liquidity.go; Unbonding/Payout has `payoutUnbonding`, and
--     Unbonding/Sweep `retryUnbonding` and `SweepMaturedUnbondings`.
--   Allocation/State, Options, Emission, Payout, Removal, Solvency: x/allocation/keeper, its store,
--     allocation.go, lease.go (`heldTarget` and `nextLapse`), msg_server_claim_allocation.go, prune.go,
--     removal.go and invariants.go.
--   Allocation/Votes: writeVoter and the resyncs of allocation.go, in Votes/External the calls of
--     external_voters.go and in Votes/Lapses the sweep of lease.go. Votes/History is a step relation
--     over the calls of the module, one after the other, without the creation of an option.
--   The other files below Dex, Zk and Allocation hold the invariants and the proofs, and each
--   Tests file the runs on concrete states.
--
-- Numbers and bounds. A `math.Int` that is never negative is a natural number, and one that can be is
-- an integer of Base/Int. The 256 bits of an `Int`, past which Go panics, are checked only where the
-- source checks them (`mulDivRound`). The digit-wise square root reads 256 base-4 digits, and so every
-- product of two `Int`s. A difference on natural numbers stops at 0: the invariants keep each one
-- from getting there. Every loop is structural, over a list that was collected first, over the tree's
-- 32 levels, or over at most 90 days, but for the sweep of the leases: its fuel is one round more than
-- the queue has leases. Addresses and public keys are natural numbers, but in the queue of the
-- withdrawals byte strings, and block time is in seconds or nanoseconds as in the source.
--
-- What is a parameter. `math.LegacyDec` (Dex/Dec: its rounding, `Ceil`), the bank and the burn
-- recorder (Dex/Bank, Allocation/Coins: a transfer that succeeds moves exactly its amount), the
-- hashes of two tree nodes and of a leaf of zk/indexed (any functions: where a proof of membership or
-- of absence rests on them, a theorem gives the collision), the address codec and the printing of a number
-- (Dex/Unbonding: any functions), the mint of one note and the room in the tree of notes (Dex/Notes: a
-- mint takes exactly its amount), the weight source of a stream of x/allocation, and which
-- retirement of a lease panics or runs out of gas (any functions).
--
-- What is not modelled: events and logs, the parsing of addresses and numbers, a storage read that
-- fails, queries and genesis; in x/dex the auctions, the burn of the protocol's liquidity and the
-- private messages; in x/allocation the stake hooks and the integrated handlers; and the other
-- modules, the application's wiring and the proof systems.
pub mod Base
pub mod Zk
pub mod Dex
pub mod Allocation
