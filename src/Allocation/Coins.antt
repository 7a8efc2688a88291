-- ===== src/Allocation/Coins.antt =====
-- What x/allocation uses of the bank and of the burn recorder, in the hub denom: a parameter. Each
-- call returns the new state, or `none` for an error.
use earth_network_chain.Base.{ℕ, ◌+◌, Option, some, ◌≡◌}

pub record Coins : Type 1 where
  pub State : Type 0
  -- The allocation module account's balance.
  pub held : State → ℕ
  pub mint_coins : ℕ → State → Option State
  pub burn_coins : ℕ → State → Option State
  pub record_burn : ℕ → State → Option State
  pub send_to_account : ℕ → ℕ → State → Option State

-- A call that succeeds moves exactly its amount; recording a burn moves nothing.
pub record IsCoins (k : Coins) : Type 0 where
  pub mint_adds : (n : ℕ) (b b' : k.State) → k.mint_coins n b ≡ some b' → k.held b' ≡ k.held b + n
  pub burn_takes : (n : ℕ) (b b' : k.State) → k.burn_coins n b ≡ some b' → k.held b' + n ≡ k.held b
  pub record_keeps : (n : ℕ) (b b' : k.State) → k.record_burn n b ≡ some b' → k.held b' ≡ k.held b
  pub send_takes :
      (a n : ℕ) (b b' : k.State) → k.send_to_account a n b ≡ some b' → k.held b' + n ≡ k.held b
