-- ===== src/Dex/Unbonding/Start.antt =====
-- x/dex/keeper/msg_server_remove_liquidity.go: the start of a withdrawal; and
-- `checkWithdrawalNoteLegs` of x/dex/keeper/lp_unbonding.go.
pub mod Begun
use text.Mathlib.Text.{◌==◌ as str_eq}
use Prim.Native.String.{String}
use earth_network_chain.Base.{
  ℕ, ◌+◌, ◌*◌, ◌/◌, Bool, true, false, not, ltb, ◌==◌, ◌&&◌, ◌||◌, if◌then◌else◌, Option, none,
  some, Result, ok, err, guard, fail_if, or_err, ◌>>=◌, ◌>>◌, pool_not_found, bank_refused,
  bad_address, invalid_private_msg, invalid_denom, invalid_amount, no_free_time,
}
use earth_network_chain.Base.Maps.{get}
use earth_network_chain.Dex.Amm.{mul_div}
use earth_network_chain.Dex.Store.{Pool}
use earth_network_chain.Dex.Bank.{Bank}
use earth_network_chain.Dex.Notes.{Notes, max_note_value, max_split_notes}
use earth_network_chain.Dex.Unbonding.{
  LpUnbonding, UnbondKey, Queue, Book, Codec, get_entry, set_lp_unbonding, lp_share_denom_of,
}
use earth_network_chain.Dex.Unbonding.Payout.{is_empty}
use earth_network_chain.Dex.Unbonding.Sweep.{free_key}

-- `MsgRemoveLiquidity`.
pub record MsgRemoveLiquidity : Type 0 where
  pub creator : String
  pub pool_id : ℕ
  pub share_denom : String
  pub shares : ℕ
  pub pc : String
  pub ciphertext : String

-- `maxWithdrawalNoteLeg`.
abbrev pub max_withdrawal_note_leg : ℕ
max_withdrawal_note_leg = max_note_value * (max_split_notes / 4)

-- One leg of `checkWithdrawalNoteLegs`.
unfoldable pub check_leg : Bool → ℕ → ℕ → ℕ → Result (Unit {0})
check_leg on reserve shares total =
    if on
    then (mul_div shares reserve total >>= λ v.
        fail_if (ltb max_withdrawal_note_leg v) invalid_amount)
    else ok tt

-- `checkWithdrawalNoteLegs`.
unfoldable pub check_withdrawal_note_legs : Pool → ℕ → ℕ → Bool → Bool → Result (Unit {0})
unfolding check_leg
check_withdrawal_note_legs pool shares total erth_note token_note =
    if total == 0
    then ok tt
    else (check_leg erth_note pool.reserve_erth shares total
        >> check_leg token_note pool.reserve_token shares total)

-- The minute of keys after a retried withdrawal's.
abbrev pub later_slots : ℕ
later_slots = 60

-- The key to file under, and the entry to fold into.
unfoldable pub withdrawal_slot : UnbondKey → Queue → Result (UnbondKey × Option LpUnbonding)
unfolding free_key
withdrawal_slot key q = elim (get_entry key q) [
  | none ↦ ok (key, none)
  | some entry ↦
      if entry.payout_attempts == 0
      then ok (key, some entry)
      else elim (free_key later_slots (key.time + 1) key q) [
        | none ↦ err no_free_time
        | some next ↦ ok (next, none)
      ]
]

-- The entry that is filed. `Coin.Add` panics on two denoms, which fails the message.
unfoldable pub withdrawal_entry :
    Codec → MsgRemoveLiquidity → String → ℕ → Option LpUnbonding → Result LpUnbonding
withdrawal_entry codec msg creator completion none =
    or_err (codec.bytes_to_string creator) bad_address >>= λ canon. ok (record {
      address = canon;
      pool_id = msg.pool_id;
      share_denom = msg.share_denom;
      shares = msg.shares;
      completion_time = completion;
      pc = msg.pc;
      ciphertext = msg.ciphertext;
      erth_pc = "";
      erth_ciphertext = "";
      withdrawal_id = "";
      payout_attempts = 0;
    })
withdrawal_entry codec msg creator completion (some entry) = do
  guard (str_eq entry.pc msg.pc && str_eq entry.ciphertext msg.ciphertext) invalid_private_msg
  guard (str_eq entry.share_denom msg.share_denom) invalid_denom
  ok (record entry { shares = entry.shares + msg.shares })

module _ (k : Bank) (notes : Notes k) (codec : Codec) (now : ℕ) where
  -- Where the token leg goes: a note needs a pc, an account has none.
  unfoldable pub check_pc : Pool → MsgRemoveLiquidity → k.State → Result (Unit {0})
  check_pc pool msg b =
      if k.is_shielded_only pool.token_denom
      then guard (notes.check_note_out pool.token_denom msg.pc msg.ciphertext b) invalid_private_msg
      else fail_if (not (is_empty msg.pc) || not (is_empty msg.ciphertext)) invalid_private_msg

  -- The check of the legs, for a token that is paid as notes.
  unfoldable pub check_token_leg : Pool → ℕ → ℕ → Result (Unit {0})
  check_token_leg pool shares total =
      if k.is_shielded_only pool.token_denom
      then check_withdrawal_note_legs pool shares total false true
      else ok tt

  -- `RemoveLiquidity` at block time `now`: the completion time, and the state.
  unfoldable pub remove_liquidity : MsgRemoveLiquidity → Book k → Result (ℕ × Book k)
  unfolding check_pc withdrawal_slot withdrawal_entry check_token_leg set_lp_unbonding
  remove_liquidity msg st = do
    creator ← or_err (codec.string_to_bytes msg.creator) bad_address
    pool ← or_err (get msg.pool_id st.dex.pools) pool_not_found
    check_pc pool msg st.bank
    guard (str_eq msg.share_denom (lp_share_denom_of codec msg.pool_id)) invalid_denom
    fail_if (msg.shares == 0) invalid_amount
    b ←
        or_err (k.from_account (codec.acc_address creator) msg.share_denom msg.shares st.bank)
          bank_refused
    let completion = now + st.dex.params.lp_unbonding_seconds
    slot ←
        withdrawal_slot (record { time = completion; pool = msg.pool_id; owner = creator })
          st.lp_unbondings
    entry ← withdrawal_entry codec msg creator slot.0.time slot.1
    check_token_leg pool entry.shares (k.share_supply b msg.pool_id)
    ok (slot.0.time, set_lp_unbonding slot.0 entry (record st { bank = b }))
