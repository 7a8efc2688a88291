-- ===== src/Dex/Unbonding/Tests.antt =====
-- Runs of the withdrawals of x/dex on a store with one pool and three entries in the queue.
use Prim.Native.String.{String}
use earth_network_chain.Base.{
  ℕ, ◌+◌, ◌*◌, ◌≡◌, ◌≢◌, refl, true, none, some, [], ◌∷◌, Result, ok, err, arith,
}
use earth_network_chain.Dex.Store.{set_pool}
use earth_network_chain.Dex.Notes.{Notes, IsNotes, split_note_values, max_note_value}
use earth_network_chain.Dex.Notes.Split.{SplitOutcome, split_note_values-SplitOutcome}
use earth_network_chain.Dex.Fixtures.{
  half_up, funds, funds-IsBank, market, market-IsBacked, holdings, take_funds, take_funds-takes,
}
use earth_network_chain.Dex.Unbonding.{
  LpUnbonding, UnbondKey, Book, Codec, get_entry, lp_unbond_retry_delay,
}
use earth_network_chain.Dex.Unbonding.Payout.{
  Paid, recipient, notes_needed, pay_legs, send_leg, payout_unbonding,
}
use earth_network_chain.Dex.Deposit.{price_payout}
use earth_network_chain.Dex.Amm.{mul_div}
use earth_network_chain.Dex.Rewards.{settle_pool_rewards}
use earth_network_chain.Dex.Unbonding.Payout.Exact.{PaysOut, payout_unbonding-PaysOut}
use earth_network_chain.Dex.Unbonding.Sweep.{due_entries, free_key, sweep_matured_unbondings}
use earth_network_chain.Dex.Unbonding.Sweep.Conserves.{IsOrderly}
use earth_network_chain.Dex.Unbonding.Sweep.Escrow.{Swept, sweep_matured_unbondings-Swept}
use earth_network_chain.Dex.Unbonding.Sweep.Progress.{IsServed, sweep_matured_unbondings-head}
use earth_network_chain.Dex.Unbonding.Start.{MsgRemoveLiquidity, remove_liquidity}
use earth_network_chain.Dex.Unbonding.Start.Begun.{Begins, remove_liquidity-Begins}

split_note_values-SplitOutcome_example :
    SplitOutcome (2 * max_note_value + 5) (split_note_values (2 * max_note_value + 5))
split_note_values-SplitOutcome_example = split_note_values-SplitOutcome (2 * max_note_value + 5)

abbrev minter : Notes funds
minter = record {
  check_capacity = λ n b. true;
  mint_note = λ denom n pc ct. take_funds denom n;
  check_note_out = λ denom pc ct b. true;
}

minter-IsNotes : IsNotes funds minter
minter-IsNotes = record { mint_takes = λ denom d pc ct. take_funds-takes denom d }

abbrev codec : Codec
codec = record {
  string_to_bytes = λ s. some s;
  bytes_to_string = λ s. some s;
  acc_address = λ bytes. 7;
  format_uint = λ n. "1";
}

-- A withdrawal of shares of pool 1.
abbrev withdrawal : String → ℕ → ℕ → LpUnbonding
withdrawal who shares at = record {
  address = who;
  pool_id = 1;
  share_denom = "dexlp/1";
  shares = shares;
  completion_time = at;
  pc = "";
  ciphertext = "";
  erth_pc = "";
  erth_ciphertext = "";
  withdrawal_id = "";
  payout_attempts = 0;
}

abbrev entry_at : String → ℕ → ℕ → UnbondKey × LpUnbonding
entry_at who shares at = (record { time = at; pool = 1; owner = who }, withdrawal who shares at)

-- One that is due and can be paid, one that is due and asks for more shares than there are, and
-- one that is not due.
abbrev waiting : Book funds
waiting = record {
  dex = market;
  bank = holdings;
  lp_unbondings = entry_at "ada" 10 50 ∷ entry_at "bo" 5000 60 ∷ entry_at "cy" 3 700 ∷ [];
  lp_unbondings_by_addr = [];
}

waiting-IsOrderly : IsOrderly funds waiting
waiting-IsOrderly = record { backed = market-IsBacked; unique = (refl, (refl, (refl, tt))) }

abbrev paid_or : Paid funds → Result (Paid funds) → Paid funds
paid_or none_paid (ok p) = p
paid_or none_paid (err e) = none_paid

abbrev nothing_paid : Paid funds
nothing_paid = record { legs = (0, 0); minted = 0; store = market; bank = holdings }

abbrev paid : Paid funds
paid =
    paid_or nothing_paid
      (payout_unbonding funds minter codec half_up 99 (withdrawal "ada" 10 50) 256 market holdings)

payout_unbonding-PaysOut_example :
    PaysOut funds half_up 99 (withdrawal "ada" 10 50) market holdings 256 paid
unfolding payout_unbonding recipient price_payout mul_div settle_pool_rewards notes_needed set_pool
    pay_legs send_leg
payout_unbonding-PaysOut_example =
    payout_unbonding-PaysOut funds minter codec half_up 99 (withdrawal "ada" 10 50) 256 market
      holdings paid funds-IsBank minter-IsNotes market-IsBacked refl

sweep_matured_unbondings-Swept_example :
    Swept funds waiting (sweep_matured_unbondings funds minter codec half_up 99 waiting)
sweep_matured_unbondings-Swept_example =
    sweep_matured_unbondings-Swept funds minter codec half_up 99 funds-IsBank minter-IsNotes waiting
      waiting-IsOrderly

-- Something is there.
some-ne_none : {A : Type 0} {x : A} → some x ≢ none
some-ne_none p = cc

sweep_matured_unbondings-head_example :
    (get_entry
        (entry_at "ada" 10 50).0
        (sweep_matured_unbondings funds minter codec half_up 99 waiting).1.lp_unbondings
      ≡ none)
    × IsServed funds minter codec half_up 99
        (entry_at "ada" 10 50)
        (due_entries 49 99 (entry_at "bo" 5000 60 ∷ entry_at "cy" 3 700 ∷ []))
        waiting
        (sweep_matured_unbondings funds minter codec half_up 99 waiting).1
unfolding free_key lp_unbond_retry_delay
sweep_matured_unbondings-head_example =
    sweep_matured_unbondings-head funds minter codec half_up 99 (entry_at "ada" 10 50)
      (entry_at "bo" 5000 60 ∷ entry_at "cy" 3 700 ∷ []) waiting refl (omega arith)
      waiting-IsOrderly.unique some-ne_none

abbrev leaving : MsgRemoveLiquidity
leaving = record {
  creator = "ada";
  pool_id = 1;
  share_denom = "dexlp/1";
  shares = 20;
  pc = "";
  ciphertext = "";
}

abbrev begun_or : Book funds → Result (ℕ × Book funds) → ℕ × Book funds
begun_or st (ok r) = r
begun_or st (err e) = (0, st)

abbrev begun : ℕ × Book funds
begun = begun_or waiting (remove_liquidity funds minter codec 99 leaving waiting)

remove_liquidity-Begins_example : Begins funds codec 99 leaving waiting begun
unfolding remove_liquidity
remove_liquidity-Begins_example =
    remove_liquidity-Begins funds codec 99 leaving waiting minter begun funds-IsBank
      waiting-IsOrderly refl
