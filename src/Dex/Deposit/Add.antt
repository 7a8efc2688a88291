-- ===== src/Dex/Deposit/Add.antt =====
-- The handler of x/dex/keeper/msg_server_add_liquidity.go: an account's deposit.
pub mod Branch
pub mod Solvent
use text.Mathlib.Text.{◌==◌ as str_eq}
use Prim.Native.String.{String}
use earth_network_chain.Base.{
  ℕ, Bool, ◌||◌, ◌&&◌, ◌==◌, if◌then◌else◌, Option, none, some, Result, ok, err, fail_if, or_err,
  ◌>>=◌, ◌>>◌, pool_not_found, invalid_denom, shielded_only, bad_address,
}
use earth_network_chain.Base.Maps.{get}
use earth_network_chain.Dex.Dec.{DecMath}
use earth_network_chain.Dex.Store.{Dex}
use earth_network_chain.Dex.Bank.{Bank}
use earth_network_chain.Dex.Deposit.{Deposited, deposit}

-- `sdk.Coin`.
pub record Coin : Type 0 where
  pub denom : String
  pub amount : ℕ

-- `MsgAddLiquidity`; `min_shares` as `check_min_shares` reads it.
pub record MsgAddLiquidity : Type 0 where
  pub creator : String
  pub pool_id : ℕ
  pub amount_a : Coin
  pub amount_b : Coin
  pub min_shares : Option (Option ℕ)

-- `matchPair`: the ERTH and the token side.
unfoldable pub match_pair : Coin → Coin → String → String → Result (Coin × Coin)
match_pair a b erth_denom token_denom =
    if str_eq a.denom erth_denom && str_eq b.denom token_denom
    then ok (a, b)
    else if str_eq a.denom token_denom && str_eq b.denom erth_denom
    then ok (b, a)
    else err invalid_denom

module _ (k : Bank) where
  open k use {State, from_account, is_shielded_only}

  -- `SendCoinsFromAccountToModule` of two coins, of which `NewCoins` drops an empty one.
  unfoldable pub pull_coin : ℕ → String → ℕ → State → Option State
  pull_coin creator denom amount b =
      if amount == 0 then some b else from_account creator denom amount b

  unfoldable pub pull_pair : ℕ → String → String → ℕ → ℕ → State → Option State
  unfolding pull_coin
  pull_pair creator erth_denom token_denom erth token b =
      elim (pull_coin creator erth_denom erth b) [
        | none ↦ none
        | some b' ↦ pull_coin creator token_denom token b'
      ]

  -- `AddLiquidity` at block time `now`; `account_of` is the address codec with `AccAddress`.
  unfoldable pub add_liquidity :
      DecMath → (String → Option ℕ) → ℕ → MsgAddLiquidity → Dex → State → Result (Deposited k)
  unfolding match_pair pull_pair deposit
  add_liquidity m account_of now msg s b = do
    creator ← or_err (account_of msg.creator) bad_address
    pool ← or_err (get msg.pool_id s.pools) pool_not_found
    fail_if
        (is_shielded_only pool.token_denom
          || is_shielded_only msg.amount_a.denom
          || is_shielded_only msg.amount_b.denom)
        shielded_only
    pair ← match_pair msg.amount_a msg.amount_b s.hub_denom pool.token_denom
    deposit k m now msg.pool_id pair.0.denom pair.0.amount pair.1.denom pair.1.amount msg.min_shares
        (some creator) (pull_pair creator pair.0.denom pair.1.denom) s b
