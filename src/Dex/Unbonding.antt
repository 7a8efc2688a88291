-- ===== src/Dex/Unbonding.antt =====
-- x/dex/keeper/lp_unbonding.go and msg_server_remove_liquidity.go: the queue of liquidity
-- withdrawals. Times are Unix seconds below 2^63; a byte string is a `String` of its bytes.
pub mod Entries
pub mod Payout
pub mod Sweep
pub mod Start
mod Tests
use text.Mathlib.Text.{◌==◌ as str_eq, is_lt}
use Prim.Native.String.{String, compare, ◌++◌ as append}
use earth_network_chain.Base.{
  ℕ, zero, suc, ◌+◌, ◌-◌, ◌*◌, ◌^◌, ◌%◌, min, Bool, true, false, ltb, leb, ◌==◌, ◌&&◌, ◌||◌,
  if◌then◌else◌, Option, none, some, List, [], ◌∷◌,
}
use earth_network_chain.Dex.Store.{Dex}
use earth_network_chain.Dex.Bank.{Bank}

abbrev pub lp_unbond_sweep_limit : ℕ
lp_unbond_sweep_limit = 50

abbrev pub lp_unbond_note_budget : ℕ
lp_unbond_note_budget = 256

abbrev pub lp_unbond_retry_base_seconds : ℕ
lp_unbond_retry_base_seconds = 3600

abbrev pub lp_unbond_retry_max_shift : ℕ
lp_unbond_retry_max_shift = 8

-- `LpUnbondRetryDelay`.
unfoldable pub lp_unbond_retry_delay : ℕ → ℕ
lp_unbond_retry_delay attempts =
    lp_unbond_retry_base_seconds * 2 ^ min (attempts - 1) lp_unbond_retry_max_shift

-- The address codec, `AccAddress`, and the `%d` of fmt.
pub record Codec : Type 0 where
  pub string_to_bytes : String → Option String
  pub bytes_to_string : String → Option String
  pub acc_address : String → ℕ
  pub format_uint : ℕ → String

-- `LPShareDenom`.
abbrev pub lp_share_denom_of : Codec → ℕ → String
lp_share_denom_of codec id = append "dexlp/" (codec.format_uint id)

-- `LpUnbonding`.
pub record LpUnbonding : Type 0 where
  pub address : String
  pub pool_id : ℕ
  pub share_denom : String
  pub shares : ℕ
  pub completion_time : ℕ
  pub pc : String
  pub ciphertext : String
  pub erth_pc : String
  pub erth_ciphertext : String
  pub withdrawal_id : String
  pub payout_attempts : ℕ

-- The key of `LpUnbondings`: completion time, pool, and the provider's bytes or withdrawal's id.
pub record UnbondKey : Type 0 where
  pub time : ℕ
  pub pool : ℕ
  pub owner : String

abbrev pub key_eq : UnbondKey → UnbondKey → Bool
key_eq a b = a.time == b.time && a.pool == b.pool && str_eq a.owner b.owner

-- The order of the keys in the store.
abbrev pub key_lt : UnbondKey → UnbondKey → Bool
key_lt a b =
    ltb a.time b.time
    || (a.time == b.time
        && (ltb a.pool b.pool || (a.pool == b.pool && is_lt (compare a.owner b.owner))))

-- The collection `LpUnbondings`, in the order of its keys.
abbrev pub Queue : Type 0
Queue = List (UnbondKey × LpUnbonding)

abbrev pub get_entry : UnbondKey → Queue → Option LpUnbonding
get_entry key [] = none
get_entry key (e ∷ q) = if key_eq key e.0 then some e.1 else get_entry key q

abbrev pub has_entry : UnbondKey → Queue → Bool
has_entry key q = elim (get_entry key q) [ none ↦ false | some _ ↦ true ]

abbrev pub delete_entry : UnbondKey → Queue → Queue
delete_entry key [] = []
delete_entry key (e ∷ q) = if key_eq key e.0 then q else e ∷ delete_entry key q

abbrev pub replace_entry : UnbondKey → LpUnbonding → Queue → Queue
replace_entry key u [] = []
replace_entry key u (e ∷ q) = if key_eq key e.0 then (key, u) ∷ q else e ∷ replace_entry key u q

abbrev pub insert_entry : UnbondKey → LpUnbonding → Queue → Queue
insert_entry key u [] = (key, u) ∷ []
insert_entry key u (e ∷ q) = if key_lt key e.0 then (key, u) ∷ e ∷ q else e ∷ insert_entry key u q

-- `Set` of `LpUnbondings`.
abbrev pub put_entry : UnbondKey → LpUnbonding → Queue → Queue
put_entry key u q = if has_entry key q then replace_entry key u q else insert_entry key u q

-- The key of `LpUnbondingsByAddr`.
pub record AddrKey : Type 0 where
  pub addr : String
  pub due : ℕ
  pub of_pool : ℕ

-- `byAddrKey`.
abbrev pub by_addr_key : UnbondKey → AddrKey
by_addr_key key = record { addr = key.owner; due = key.time; of_pool = key.pool }

abbrev pub addr_key_eq : AddrKey → AddrKey → Bool
addr_key_eq a b = str_eq a.addr b.addr && a.due == b.due && a.of_pool == b.of_pool

-- The key set `LpUnbondingsByAddr`, whose order the code here does not read.
abbrev pub add_key : AddrKey → List AddrKey → List AddrKey
add_key key [] = key ∷ []
add_key key (j ∷ js) = if addr_key_eq key j then j ∷ js else j ∷ add_key key js

abbrev pub drop_key : AddrKey → List AddrKey → List AddrKey
drop_key key [] = []
drop_key key (j ∷ js) = if addr_key_eq key j then js else j ∷ drop_key key js

-- The keeper's state with its withdrawals, and the bank's.
pub record Book (k : Bank) : Type 0 where
  pub dex : Dex
  pub bank : k.State
  pub lp_unbondings : Queue
  pub lp_unbondings_by_addr : List AddrKey

module _ {k : Bank} where
  -- `setLpUnbonding`.
  unfoldable pub set_lp_unbonding : UnbondKey → LpUnbonding → Book k → Book k
  set_lp_unbonding key u st = record st {
    lp_unbondings = put_entry key u st.lp_unbondings;
    lp_unbondings_by_addr = add_key (by_addr_key key) st.lp_unbondings_by_addr;
  }

  -- `removeLpUnbonding`.
  unfoldable pub remove_lp_unbonding : UnbondKey → Book k → Book k
  remove_lp_unbonding key st = record st {
    lp_unbondings = delete_entry key st.lp_unbondings;
    lp_unbondings_by_addr = drop_key (by_addr_key key) st.lp_unbondings_by_addr;
  }
