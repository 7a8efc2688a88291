-- ===== src/Dex/Unbonding/Sweep.antt =====
-- `SweepMaturedUnbondings` and `retryUnbonding` of x/dex/keeper/lp_unbonding.go. Events and logs are
-- left out, and with them the flag `capped`.
pub mod Listed
pub mod Conserves
pub mod Retried
pub mod Escrow
pub mod Plain
pub mod Stays
pub mod Progress
use earth_network_chain.Base.{
  ℕ, zero, suc, ◌+◌, ◌-◌, ◌^◌, ◌%◌, Bool, true, false, ltb, leb, if◌then◌else◌, Option, none, some,
  List, [], ◌∷◌, Result, ok, err, Error, note_budget,
}
use earth_network_chain.Dex.Dec.{DecMath}
use earth_network_chain.Dex.Bank.{Bank}
use earth_network_chain.Dex.Notes.{Notes}
use earth_network_chain.Dex.Unbonding.{
  LpUnbonding, UnbondKey, Queue, Book, Codec, has_entry, put_entry, set_lp_unbonding,
  remove_lp_unbonding, lp_unbond_sweep_limit, lp_unbond_note_budget, lp_unbond_retry_delay,
}
use earth_network_chain.Dex.Unbonding.Payout.{Paid, payout_unbonding}

-- The first loop of `SweepMaturedUnbondings`: the due entries, `limit` of them at most.
unfoldable pub due_entries : ℕ → ℕ → Queue → Queue
due_entries zero now q = []
due_entries (suc limit) now [] = []
due_entries (suc limit) now (e ∷ q) =
    let rest = due_entries limit now q in if ltb now e.0.time then [] else e ∷ rest

-- The slots that `retryUnbonding` tries.
abbrev pub retry_slots : ℕ
retry_slots = 60

-- `entry.PayoutAttempts++`, on 32 bits.
abbrev pub failed_again : LpUnbonding → LpUnbonding
failed_again u = record u { payout_attempts = (u.payout_attempts + 1) % 2 ^ 32 }

abbrev pub key_at : ℕ → UnbondKey → UnbondKey
key_at time key = record key { time = time }

-- The first free key from a time on, of `slots` tried.
unfoldable pub free_key : ℕ → ℕ → UnbondKey → Queue → Option UnbondKey
free_key zero time key q = none
free_key (suc slots) time key q =
    let rest = free_key slots (time + 1) key q in
    if has_entry (key_at time key) q then rest else some (key_at time key)

-- `errors.Is(err, errNoteBudget)`.
abbrev pub is_note_budget : Error → Bool
is_note_budget note_budget = true
is_note_budget _ = false

module _ {k : Bank} where
  -- `retryUnbonding` at block time `now`.
  unfoldable pub retry_unbonding : ℕ → UnbondKey → LpUnbonding → Book k → Book k
  unfolding free_key
  retry_unbonding now key u st =
      let again = failed_again u in
      elim (free_key retry_slots (now + lp_unbond_retry_delay again.payout_attempts) key
        st.lp_unbondings) [
          | none ↦ record st { lp_unbondings = put_entry key again st.lp_unbondings }
          | some next ↦
              set_lp_unbonding next (record again { completion_time = next.time })
                (remove_lp_unbonding key st)
        ]

module _ (k : Bank) (notes : Notes k) (codec : Codec) (m : DecMath) (now : ℕ) where
  -- What a payout leaves, its entry taken off the queue.
  abbrev pub paid_out : UnbondKey → Paid k → Book k → Book k
  paid_out key p st = remove_lp_unbonding key (record st { dex = p.store; bank = p.bank })

  -- The second loop of `SweepMaturedUnbondings`, with the notes it has minted: `safeexec.Cached`
  -- drops what a failed payout wrote.
  unfoldable pub sweep_due : Queue → ℕ → Book k → ℕ × Book k
  unfolding payout_unbonding retry_unbonding
  sweep_due [] minted st = (minted, st)
  sweep_due (e ∷ due) minted st = elim (leb lp_unbond_note_budget minted) [
    | true ↦ (minted, st)
    | false ↦
        elim (payout_unbonding k notes codec m now e.1 (lp_unbond_note_budget - minted) st.dex
          st.bank) [
            | ok p ↦ sweep_due due (minted + p.minted) (paid_out e.0 p st)
            | err why ↦ elim (is_note_budget why) [
              | true ↦ (minted, st)
              | false ↦ sweep_due due minted (retry_unbonding now e.0 e.1 st)
            ]
          ]
  ]

  -- `SweepMaturedUnbondings`.
  unfoldable pub sweep_matured_unbondings : Book k → ℕ × Book k
  unfolding sweep_due due_entries
  sweep_matured_unbondings st =
      sweep_due (due_entries lp_unbond_sweep_limit now st.lp_unbondings) 0 st
