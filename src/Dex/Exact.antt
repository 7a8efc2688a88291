-- ===== src/Dex/Exact.antt =====
-- swapExactInFees of x/dex/keeper/msg_server_swap.go: the whole swap, with its transfers and burn.
pub mod Solvent
use text.Mathlib.Text.{◌==◌ as str_eq}
use Prim.Native.String.{String}
use earth_network_chain.Base.{
  ℕ, ◌+◌, Bool, true, false, not, ◌||◌, ◌&&◌, ltb, ◌==◌, if◌then◌else◌, Option, none, some, Result,
  ok, err, Error, guard, fail_if, or_err, ◌>>=◌, ◌>>◌, pool_cap, insufficient_pool, invalid_amount,
  invalid_denom, shielded_only, slippage, bank_refused,
}
use earth_network_chain.Dex.Dec.{DecMath}
use earth_network_chain.Dex.Store.{Dex, within_pool_cap}
use earth_network_chain.Dex.Bank.{Party, account, module_account, held, Bank}
use earth_network_chain.Dex.Swap.{Hop, hop_token_to_hub, hop_hub_to_token}

-- `isAccount`.
abbrev pub is_account : Party → Bool
is_account (account a) = true
is_account (module_account name) = false
is_account held = false

module _ (m : DecMath) (now : ℕ) where
  -- tokenA to ERTH to tokenB.
  unfoldable pub via_hub : String → ℕ → String → ℕ → Dex → Result Hop
  via_hub denom_in amount denom_out swap_fee s =
      hop_token_to_hub m now denom_in amount swap_fee s >>= λ first.
      hop_hub_to_token m now denom_out first.out swap_fee first.store >>= λ second. ok (record {
        out = second.out;
        burn = first.burn + second.burn;
        fee = first.fee + second.fee;
        store = second.store;
      })

  -- The switch on the two denoms.
  unfoldable pub route : String → ℕ → String → Dex → Result Hop
  route denom_in amount denom_out s =
      if str_eq denom_in s.hub_denom
      then hop_hub_to_token m now denom_out amount s.params.swap_fee s
      else if str_eq denom_out s.hub_denom
      then hop_token_to_hub m now denom_in amount s.params.swap_fee s
      else via_hub denom_in amount denom_out s.params.swap_fee s

module _ (k : Bank) where
  open k use {
    State, from_account, from_module, to_account, to_module, burn_coins, record_burn,
    is_shielded_only,
  }

  -- `escrow` and `pay` of a swapParty: nothing moves for the dex's own account.
  unfoldable pub escrow : Party → String → ℕ → State → Option State
  escrow (account a) denom n b = from_account a denom n b
  escrow (module_account name) denom n b = from_module name denom n b
  escrow held denom n b = some b

  unfoldable pub pay : Party → String → ℕ → State → Option State
  pay (account a) denom n b = to_account a denom n b
  pay (module_account name) denom n b = to_module name denom n b
  pay held denom n b = some b

  -- The burn at the end of a swap, and its record.
  unfoldable pub burn_fee : String → ℕ → State → Result State
  burn_fee hub burn b =
      if burn == 0
      then ok b
      else (or_err (burn_coins hub burn b) bank_refused >>= λ b'.
          or_err (record_burn hub burn b') bank_refused)

  -- What a swap returns.
  pub record Swapped : Type 0 where
    pub hop : Hop
    pub bank : State

  -- `swapExactInFees`.
  unfoldable pub swap_exact_in_fees :
      DecMath → ℕ → Party → Party → String → ℕ → String → ℕ → Dex → State → Result Swapped
  swap_exact_in_fees m now from to denom_in amount denom_out min_out s b = do
    fail_if (amount == 0) invalid_amount
    guard (within_pool_cap amount) pool_cap
    fail_if (str_eq denom_out denom_in) invalid_denom
    fail_if (is_account from && is_shielded_only denom_in) shielded_only
    fail_if (is_account to && is_shielded_only denom_out) shielded_only
    b1 ← or_err (escrow from denom_in amount b) bank_refused
    hop ← route m now denom_in amount denom_out s
    fail_if (hop.out == 0) insufficient_pool
    fail_if (ltb hop.out min_out) slippage
    b2 ← or_err (pay to denom_out hop.out b1) bank_refused
    b3 ← burn_fee s.hub_denom hop.burn b2
    ok (record { hop = hop; bank = b3 })
