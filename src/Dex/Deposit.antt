-- ===== src/Dex/Deposit.antt =====
-- x/dex/keeper/msg_server_add_liquidity.go: deposits into a pool; and the pricing of a withdrawal in
-- payoutUnbonding of x/dex/keeper/lp_unbonding.go.
pub mod Price
pub mod Fair
pub mod Add
use text.Mathlib.Text.{◌==◌ as str_eq}
use Prim.Native.String.{String}
use earth_network_chain.Base.{
  ℕ, ◌+◌, Bool, true, false, not, ◌||◌, ◌&&◌, ltb, leb, ◌==◌, if◌then◌else◌, Option, none, some,
  Result, ok, err, Error, min, guard, fail_if, or_err, ◌>>=◌, ◌>>◌, pool_cap, pool_not_found,
  insufficient_pool, invalid_amount, invalid_denom, zero_shares, slippage, bank_refused,
}
use earth_network_chain.Base.Maps.{get}
use earth_network_chain.Dex.Dec.{DecMath}
use earth_network_chain.Dex.Amm.{initial_shares, mul_div, mul_div_up}
use earth_network_chain.Dex.Store.{Pool, Dex, within_pool_cap, set_pool}
use earth_network_chain.Dex.Rewards.{settle_pool_rewards}
use earth_network_chain.Dex.Bank.{Bank}

-- The shares that a deposit mints, and what it takes of each side.
pub record Priced : Type 0 where
  pub shares : ℕ
  pub erth : ℕ
  pub token : ℕ

-- The branch of `deposit` for a pool with shares outstanding: shares by the scarcer side, each leg
-- taken in the pool ratio and rounded up.
unfoldable pub price_deposit : ℕ → ℕ → ℕ → ℕ → ℕ → Result Priced
price_deposit total reserve_erth reserve_token erth_in token_in = do
  fail_if (reserve_erth == 0 || reserve_token == 0) insufficient_pool
  from_erth ← mul_div erth_in total reserve_erth
  from_token ← mul_div token_in total reserve_token
  fail_if (min from_erth from_token == 0) zero_shares
  erth ← mul_div_up (min from_erth from_token) reserve_erth total
  token ← mul_div_up (min from_erth from_token) reserve_token total
  fail_if (erth == 0 || token == 0 || ltb erth_in erth || ltb token_in token) zero_shares
  ok (record { shares = min from_erth from_token; erth = erth; token = token })

-- The amounts that `payoutUnbonding` prices `shares` at, of `total` outstanding.
unfoldable pub price_payout : ℕ → ℕ → ℕ → ℕ → Result (ℕ × ℕ)
price_payout shares total reserve_erth reserve_token = do
  fail_if (total == 0 || ltb total shares) insufficient_pool
  erth ← mul_div shares reserve_erth total
  token ← mul_div shares reserve_token total
  ok (erth, token)

-- The check of `min_shares`: `none` is the empty text, `some none` one that is no number.
abbrev pub check_min_shares : Option (Option ℕ) → ℕ → Result (Unit {0})
check_min_shares none shares = ok tt
check_min_shares (some none) shares = err invalid_amount
check_min_shares (some (some least)) shares = fail_if (ltb shares least) slippage

module _ (k : Bank) where
  open k use {State, share_supply, burn_coins, record_burn, mint_shares}

  -- Burning one denom's residue, where there is any.
  abbrev burn_side : String → ℕ → State → Result State
  burn_side denom n b =
      if n == 0
      then ok b
      else (or_err (burn_coins denom n b) bank_refused >>= λ b'.
          or_err (record_burn denom n b') bank_refused)

  -- `burnResidue`: both sides of an empty pool's leftover reserves.
  unfoldable pub burn_residue : String → Pool → State → Result (Pool × State)
  burn_residue hub pool b = do
    b1 ← burn_side hub pool.reserve_erth b
    b2 ← burn_side pool.token_denom pool.reserve_token b1
    ok (record pool { reserve_erth = 0; reserve_token = 0 }, b2)

  -- The two branches of `deposit` on the share supply: the pool to add to, the price and the bank.
  unfoldable pub price_branch : String → ℕ → Pool → ℕ → ℕ → State → Result (Pool × Priced × State)
  price_branch hub total pool erth_in token_in b =
      if total == 0
      then (burn_residue hub pool b >>= λ r. ok (
        r.0,
        record { shares = initial_shares erth_in token_in; erth = erth_in; token = token_in },
        r.1,
      ))
      else (price_deposit total pool.reserve_erth pool.reserve_token erth_in token_in >>= λ p.
          ok (pool, p, b))

  -- The pool with a deposit added.
  abbrev pub with_deposit : Pool → Priced → Pool
  with_deposit pool p = record pool {
    reserve_erth = pool.reserve_erth + p.erth;
    reserve_token = pool.reserve_token + p.token;
  }

  -- What a deposit returns.
  pub record Deposited : Type 0 where
    pub price : Priced
    pub store : Dex
    pub bank : State

  -- `deposit`; `pull` moves what is taken into the dex's account.
  unfoldable pub deposit :
      DecMath
      → ℕ
      → ℕ
      → String
      → ℕ
      → String
      → ℕ
      → Option (Option ℕ)
      → Option ℕ
      → (ℕ → ℕ → State → Option State)
      → Dex
      → State
      → Result Deposited
  deposit m now id erth_denom erth_in token_denom token_in min_shares provider pull s b = do
    pool ← or_err (get id s.pools) pool_not_found
    let settled = settle_pool_rewards m now id pool s
    guard (str_eq erth_denom s.hub_denom && str_eq token_denom pool.token_denom) invalid_denom
    fail_if (erth_in == 0 || token_in == 0) invalid_amount
    guard (within_pool_cap erth_in && within_pool_cap token_in) pool_cap
    let total = share_supply b id
    guard (within_pool_cap total) pool_cap
    branch ← price_branch s.hub_denom total settled.0 erth_in token_in b
    let price = branch.1
    guard (within_pool_cap (total + price.shares)) pool_cap
    guard
        (within_pool_cap (branch.0.reserve_erth + price.erth)
          && within_pool_cap (branch.0.reserve_token + price.token))
        pool_cap
    fail_if (price.shares == 0) zero_shares
    check_min_shares min_shares price.shares
    b1 ← or_err (pull price.erth price.token branch.2) bank_refused
    b2 ← or_err (mint_shares provider id price.shares b1) bank_refused
    s' ← set_pool id (with_deposit branch.0 price) settled.1
    ok (record { price = price; store = s'; bank = b2 })
