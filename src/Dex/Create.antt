-- ===== src/Dex/Create.antt =====
-- x/dex/keeper/msg_server_create_pool.go: a new pool; and the lock on it, PoolCreationLocked of
-- x/dex/keeper/auction.go.
pub mod Booked
mod Tests
use text.Mathlib.Text.{◌==◌ as str_eq}
use Prim.Native.String.{String}
use earth_network_chain.Base.{
  ℕ, ◌+◌, ◌/◌, Bool, true, false, not, ◌||◌, ◌&&◌, ◌==◌, if◌then◌else◌, Option, none, some, List,
  [], ◌∷◌, Result, ok, err, guard, fail_if, or_err, ◌>>=◌, ◌>>◌, bank_refused, bad_address,
  invalid_amount, invalid_denom, lp_share_denom, pool_cap, pool_creation_locked, pool_exists,
  same_denom, shielded_only, zero_shares,
}
use earth_network_chain.Dex.Amm.{initial_shares}
use earth_network_chain.Dex.Store.{
  Pool, Dex, within_pool_cap, is_lp_share_denom, pool_by_token_get, set_pool,
}
use earth_network_chain.Dex.Rewards.{day_of, init_pool_lp_index}
use earth_network_chain.Dex.Bank.{Bank}
use earth_network_chain.Dex.Deposit.Add.{Coin, pull_pair}

-- `AuctionStatus`.
pub data AuctionStatus : Type 0 where
  unspecified pending opened settled : AuctionStatus

-- What the creation of a pool reads and writes besides the pools: the status of the auction, if one
-- is configured, and the next value of `PoolSeq`.
pub record Creation : Type 0 where
  pub auction : Option AuctionStatus
  pub pool_seq : ℕ

-- `PoolCreationLocked`.
unfoldable pub pool_creation_locked_by : Option AuctionStatus → Bool
pool_creation_locked_by none = false
pool_creation_locked_by (some settled) = false
pool_creation_locked_by (some _) = true

-- `MsgCreatePool`.
pub record MsgCreatePool : Type 0 where
  pub creator : String
  pub amount_a : Coin
  pub amount_b : Coin

-- The switch on the hub asset: the ERTH and the token side.
unfoldable pub hub_side : String → Coin → Coin → Result (Coin × Coin)
hub_side hub a b =
    if str_eq hub a.denom
    then ok (a, b)
    else if str_eq hub b.denom
    then ok (b, a)
    else err invalid_denom

-- `Set` of `PoolByToken`, on a token that it does not have.
abbrev pub pool_by_token_set : String → ℕ → List (String × ℕ) → List (String × ℕ)
pool_by_token_set denom id m = (denom, id) ∷ m

abbrev pub has_token : String → Dex → Bool
has_token denom s = elim (pool_by_token_get denom s.pool_by_token) [ none ↦ false | some id ↦ true ]

-- The pool that is created, at block time `now`.
abbrev pub new_pool : ℕ → ℕ → Coin → Coin → Pool
new_pool now id erth token = record {
  pool_id = id;
  reserve_erth = erth.amount;
  token_denom = token.denom;
  reserve_token = token.amount;
  volume_weight = 0;
  last_traded_day = day_of now;
}

-- The token's entry in `PoolByToken`.
abbrev pub listed : String → ℕ → Dex → Dex
listed denom id s = record s { pool_by_token = pool_by_token_set denom id s.pool_by_token }

module _ (k : Bank) where
  open k use {State, mint_shares, is_shielded_only}

  -- What `CreatePool` returns, with the state.
  pub record Created : Type 0 where
    pub id : ℕ
    pub shares : ℕ
    pub creation : Creation
    pub store : Dex
    pub bank : State

  -- The checks of the two coins.
  unfoldable pub check_coins : (String → Bool) → Coin → Coin → Result (Unit {0})
  check_coins valid_denom a b = do
    fail_if (str_eq a.denom b.denom) same_denom
    fail_if
        (not (valid_denom a.denom) || a.amount == 0 || not (valid_denom b.denom) || b.amount == 0)
        invalid_amount
    guard (within_pool_cap a.amount && within_pool_cap b.amount) pool_cap

  -- `CreatePool` at block time `now`; `account_of` is the address codec with `AccAddress`, and
  -- `valid_denom` the rest of `Coin.IsValid`.
  unfoldable pub create_pool :
      (String → Option ℕ)
      → (String → Bool)
      → ℕ
      → MsgCreatePool
      → Creation
      → Dex
      → State
      → Result Created
  unfolding pool_creation_locked_by hub_side check_coins set_pool init_pool_lp_index
  create_pool account_of valid_denom now msg c s b = do
    fail_if (is_shielded_only msg.amount_a.denom || is_shielded_only msg.amount_b.denom)
        shielded_only
    fail_if (pool_creation_locked_by c.auction) pool_creation_locked
    creator ← or_err (account_of msg.creator) bad_address
    check_coins valid_denom msg.amount_a msg.amount_b
    sides ← hub_side s.hub_denom msg.amount_a msg.amount_b
    let erth = sides.0
    let token = sides.1
    fail_if (is_lp_share_denom token.denom) lp_share_denom
    fail_if (has_token token.denom s) pool_exists
    let id = c.pool_seq
    b1 ← or_err (pull_pair k creator erth.denom token.denom erth.amount token.amount b) bank_refused
    let shares = initial_shares erth.amount token.amount
    fail_if (shares == 0) zero_shares
    b2 ← or_err (mint_shares (some creator) id shares b1) bank_refused
    s' ← set_pool id (new_pool now id erth token) s
    ok (record {
      id = id;
      shares = shares;
      creation = record c { pool_seq = id + 1 };
      store = init_pool_lp_index id (listed token.denom id s');
      bank = b2;
    })
