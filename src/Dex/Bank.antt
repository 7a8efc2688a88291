-- ===== src/Dex/Bank.antt =====
-- What x/dex uses of the bank, the burn recorder and the shielded pool (its expected keepers): a
-- parameter. Each call returns the new state, or `none` for an error.
use Prim.Native.String.{String}
use text.Mathlib.Text.{◌==◌ as str_eq}
use earth_network_chain.Base.{ℕ, ◌+◌, Bool, if◌then◌else◌, Option, some, ◌≡◌}

-- `swapParty`: an ordinary account, a module, or the dex's own account.
pub data Party : Type 0 where
  account : ℕ → Party
  module_account : String → Party
  held : Party

pub record Bank : Type 1 where
  pub State : Type 0
  -- The dex module account's balance of a denom, and the supply of a pool's shares.
  pub balance : State → String → ℕ
  pub share_supply : State → ℕ → ℕ
  pub from_account : ℕ → String → ℕ → State → Option State
  pub from_module : String → String → ℕ → State → Option State
  pub to_account : ℕ → String → ℕ → State → Option State
  pub to_module : String → String → ℕ → State → Option State
  pub burn_coins : String → ℕ → State → Option State
  pub record_burn : String → ℕ → State → Option State
  -- `MintCoins` of a pool's shares, and sending them to a provider where there is one.
  pub mint_shares : Option ℕ → ℕ → ℕ → State → Option State
  pub is_shielded_only : String → Bool

-- The part of an amount that a denom sees.
abbrev pub part : String → String → ℕ → ℕ
part d denom amount = if str_eq denom d then amount else 0

-- A transfer moves exactly its amount, in its denom; recording a burn moves nothing, and minting a
-- pool's shares to an account leaves the dex account as it is.
pub record IsBank (k : Bank) : Type 0 where
  pub from_account_adds :
      (a : ℕ) (denom d : String) (n : ℕ) (b b' : k.State)
      → k.from_account a denom n b ≡ some b'
      → k.balance b' d ≡ k.balance b d + part d denom n
  pub from_module_adds :
      (a denom d : String) (n : ℕ) (b b' : k.State)
      → k.from_module a denom n b ≡ some b'
      → k.balance b' d ≡ k.balance b d + part d denom n
  pub to_account_takes :
      (a : ℕ) (denom d : String) (n : ℕ) (b b' : k.State)
      → k.to_account a denom n b ≡ some b'
      → k.balance b' d + part d denom n ≡ k.balance b d
  pub to_module_takes :
      (a denom d : String) (n : ℕ) (b b' : k.State)
      → k.to_module a denom n b ≡ some b'
      → k.balance b' d + part d denom n ≡ k.balance b d
  pub burn_takes :
      (denom d : String) (n : ℕ) (b b' : k.State)
      → k.burn_coins denom n b ≡ some b'
      → k.balance b' d + part d denom n ≡ k.balance b d
  pub record_keeps :
      (denom d : String) (n : ℕ) (b b' : k.State)
      → k.record_burn denom n b ≡ some b'
      → k.balance b' d ≡ k.balance b d
  pub mint_keeps :
      (d : String) (to id n : ℕ) (b b' : k.State)
      → k.mint_shares (some to) id n b ≡ some b'
      → k.balance b' d ≡ k.balance b d
