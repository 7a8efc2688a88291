-- ===== src/Dex/Unbonding/Payout.antt =====
-- `payoutUnbonding` of x/dex/keeper/lp_unbonding.go. An error of `mulDiv` keeps its own kind.
pub mod Legs
pub mod Exact
use text.Mathlib.Text.{◌==◌ as str_eq}
use Prim.Native.String.{String}
use earth_network_chain.Base.{
  ℕ, ◌+◌, ◌-◌, Bool, true, false, not, ltb, ◌==◌, ◌&&◌, ◌||◌, if◌then◌else◌, Result, ok, err, guard,
  fail_if, or_err, ◌>>=◌, ◌>>◌, pool_not_found, bank_refused, invalid_unbonding, note_budget,
  bad_address,
}
use earth_network_chain.Base.Maps.{get}
use earth_network_chain.Dex.Dec.{DecMath}
use earth_network_chain.Dex.Store.{Pool, Dex, set_pool}
use earth_network_chain.Dex.Rewards.{settle_pool_rewards}
use earth_network_chain.Dex.Bank.{Bank}
use earth_network_chain.Dex.Deposit.{price_payout}
use earth_network_chain.Dex.Notes.{Notes, count, split_note_values, mint_note_split}
use earth_network_chain.Dex.Unbonding.{LpUnbonding, Codec, lp_share_denom_of, lp_unbond_note_budget}

abbrev pub is_empty : String → Bool
is_empty s = str_eq s ""

-- A private withdrawal names no address.
abbrev pub is_private : LpUnbonding → Bool
is_private entry = is_empty entry.address

-- The first checks: the account's bytes, or nothing for a private withdrawal.
unfoldable pub recipient : Codec → LpUnbonding → Result String
recipient codec entry =
    if is_private entry
    then (fail_if (is_empty entry.withdrawal_id || is_empty entry.erth_pc || is_empty entry.pc)
          invalid_unbonding
        >> ok "")
    else or_err (codec.string_to_bytes entry.address) bad_address

-- The notes of one leg.
unfoldable pub leg_notes : ℕ → Result ℕ
leg_notes amount =
    if amount == 0 then ok 0 else (split_note_values amount >>= λ values. ok (count values))

-- The pool once both legs have left it.
abbrev pub withdrawn : Pool → ℕ × ℕ → Pool
withdrawn pool legs = record pool {
  reserve_erth = pool.reserve_erth - legs.0;
  reserve_token = pool.reserve_token - legs.1;
}

-- What a payout returns: the two legs, the notes it minted, and the state.
pub record Paid (k : Bank) : Type 0 where
  pub legs : ℕ × ℕ
  pub minted : ℕ
  pub store : Dex
  pub bank : k.State

module _ (k : Bank) (notes : Notes k) where
  -- The notes of the whole payout, `need`.
  unfoldable pub notes_needed : LpUnbonding → String → ℕ × ℕ → Result ℕ
  notes_needed entry token legs =
      if is_private entry
      then (leg_notes legs.0 >>= λ a. leg_notes legs.1 >>= λ b. ok (a + b))
      else if k.is_shielded_only token
      then leg_notes legs.1
      else ok 0

  -- A leg as notes.
  unfoldable pub mint_leg : String → ℕ → String → String → k.State → Result (ℕ × k.State)
  mint_leg denom amount pc ciphertext b =
      if amount == 0 then ok (0, b) else mint_note_split k notes denom amount pc ciphertext b

  -- A leg to an account: `NewCoins` drops an empty one.
  unfoldable pub send_leg : ℕ → String → ℕ → k.State → Result k.State
  send_leg to denom amount b =
      if amount == 0 then ok b else or_err (k.to_account to denom amount b) bank_refused

  -- A private withdrawal: both legs as notes.
  unfoldable pub pay_private :
      LpUnbonding → String → String → ℕ × ℕ → k.State → Result (ℕ × k.State)
  pay_private entry hub token legs b = do
    erth ← mint_leg hub legs.0 entry.erth_pc entry.erth_ciphertext b
    other ← mint_leg token legs.1 entry.pc entry.ciphertext erth.1
    ok (erth.0 + other.0, other.1)

  -- A shielded-only token: its leg as notes, the ERTH to the account.
  unfoldable pub pay_shielded :
      ℕ → LpUnbonding → String → String → ℕ × ℕ → k.State → Result (ℕ × k.State)
  pay_shielded to entry hub token legs b = do
    fail_if (not (legs.1 == 0) && is_empty entry.pc) invalid_unbonding
    minted ← mint_leg token legs.1 entry.pc entry.ciphertext b
    paid ← send_leg to hub legs.0 minted.1
    ok (minted.0, paid)

  unfoldable pub pay_account : ℕ → String → String → ℕ × ℕ → k.State → Result (ℕ × k.State)
  pay_account to hub token legs b = do
    sent ← send_leg to hub legs.0 b
    paid ← send_leg to token legs.1 sent
    ok (0, paid)

  -- The two legs, in the order that they are paid: how many notes they took.
  unfoldable pub pay_legs :
      ℕ → LpUnbonding → String → String → ℕ × ℕ → k.State → Result (ℕ × k.State)
  unfolding pay_private pay_shielded pay_account
  pay_legs to entry hub token legs b =
      if is_private entry
      then pay_private entry hub token legs b
      else if k.is_shielded_only token
      then pay_shielded to entry hub token legs b
      else pay_account to hub token legs b

  -- `payoutUnbonding` at block time `now`, with `budget` notes left.
  unfoldable pub payout_unbonding :
      Codec → DecMath → ℕ → LpUnbonding → ℕ → Dex → k.State → Result (Paid k)
  payout_unbonding codec m now entry budget s b = do
    addr ← recipient codec entry
    fail_if (entry.shares == 0) invalid_unbonding
    guard (str_eq entry.share_denom (lp_share_denom_of codec entry.pool_id)) invalid_unbonding
    pool ← or_err (get entry.pool_id s.pools) pool_not_found
    let settled = settle_pool_rewards m now entry.pool_id pool s
    legs ←
        price_payout entry.shares (k.share_supply b entry.pool_id) settled.0.reserve_erth
          settled.0.reserve_token
    need ← notes_needed entry pool.token_denom legs
    fail_if (ltb budget need && ltb budget lp_unbond_note_budget) note_budget
    b1 ← or_err (k.burn_coins entry.share_denom entry.shares b) bank_refused
    s' ← set_pool entry.pool_id (withdrawn settled.0 legs) settled.1
    paid ← pay_legs (codec.acc_address addr) entry s.hub_denom pool.token_denom legs b1
    ok (record { legs = legs; minted = paid.0; store = s'; bank = paid.1 })
