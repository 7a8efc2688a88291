-- ===== src/Dex/Fixtures.antt =====
-- A decimal arithmetic, a bank, and a store of x/dex with one pool, for the runs of x/dex.
use Prim.Native.String.{String}
use text.Mathlib.Text.{◌==◌ as str_eq}
use text.Mathlib.TextEquality.{eq_iff}
use native.Mathlib.Nat.{div-add-mod', mod-lt}
use earth_network_chain.Base.{
  ℕ, ◌+◌, ◌-◌, ◌*◌, ◌/◌, ◌≤◌, ◌≡◌, refl, sym, ap, false, ltb, if◌then◌else◌, Option, none, some, [],
  ◌∷◌, arith, Bool-cases, inl, inr,
}
use earth_network_chain.Base.Int.{pos}
use earth_network_chain.Dex.Dec.{DecMath, IsDecMath, one_dec}
use earth_network_chain.Dex.Store.{Pool, Dex}
use earth_network_chain.Dex.Rewards.Backed.{IsBacked}
use earth_network_chain.Dex.Bank.{Bank, IsBank, part}

-- Round half up.
abbrev pub half_up : DecMath
half_up = record {
  mul = λ a b. (2 * (a * b) + one_dec) / (2 * one_dec);
  quo = λ a b. (2 * (a * one_dec) + b) / (2 * b);
  ceil = λ a. (a + one_dec - 1) / one_dec * one_dec;
}

pub half_up-IsDecMath : IsDecMath half_up
half_up-IsDecMath = record {
  mul_le = λ a b. let q = div-add-mod' (2 * (a * b) + one_dec) (2 * one_dec) in omega (arith, q);
  le_mul = λ a b.
      let q = div-add-mod' (2 * (a * b) + one_dec) (2 * one_dec) in
      let r = mod-lt (2 * (a * b) + one_dec) {m = 2 * one_dec} (omega arith) in omega (arith, q, r);
  quo_le = λ a b p. let q = div-add-mod' (2 * (a * one_dec) + b) (2 * b) in omega (arith, q);
  le_ceil = λ a.
      let q = div-add-mod' (a + one_dec - 1) one_dec in
      let r = mod-lt (a + one_dec - 1) {m = one_dec} (omega arith) in omega (arith, q, r);
  ceil_lt = λ a. let q = div-add-mod' (a + one_dec - 1) one_dec in omega (arith, q);
  ceil_whole = λ a. omega arith;
}

-- The dex account's coins, by denom.
abbrev add_funds : String → ℕ → (String → ℕ) → Option (String → ℕ)
add_funds denom n b = some (λ d. b d + part d denom n)

abbrev pub take_funds : String → ℕ → (String → ℕ) → Option (String → ℕ)
take_funds denom n b = if ltb (b denom) n then none else some (λ d. b d - part d denom n)

abbrev pub funds : Bank
funds = record {
  State = String → ℕ;
  balance = λ b d. b d;
  share_supply = λ b id. 1000;
  from_account = λ a. add_funds;
  from_module = λ a. add_funds;
  to_account = λ a. take_funds;
  to_module = λ a. take_funds;
  burn_coins = take_funds;
  record_burn = λ denom n b. some b;
  mint_shares = λ to id n b. some b;
  is_shielded_only = λ denom. false;
}

abbrev at_denom : String → Option (String → ℕ) → ℕ
at_denom d none = 0
at_denom d (some b) = b d

add_funds-adds :
    (denom d : String) (n : ℕ) (b b' : String → ℕ)
    → add_funds denom n b ≡ some b'
    → b' d ≡ b d + part d denom n
add_funds-adds denom d n b b' e = sym (ap (at_denom d) e)

part-le : (denom d : String) (n : ℕ) (b : String → ℕ) → n ≤ b denom → part d denom n ≤ b d
part-le denom d n b le = elim (Bool-cases (str_eq denom d)) [
  | inl same ↦ let e : b denom ≡ b d = ap b ((eq_iff denom d).0 same) in rw same (omega arith)
  | inr other ↦ rw other (omega arith)
]

pub take_funds-takes :
    (denom d : String) (n : ℕ) (b b' : String → ℕ)
    → take_funds denom n b ≡ some b'
    → b' d + part d denom n ≡ b d
take_funds-takes denom d n b b' e = elim (Bool-cases (ltb (b denom) n)) [
  | inl short ↦ let e' = rw short at e in cc
  | inr enough ↦
      let e' = sym (ap (at_denom d) (rw enough at e)) in
      let le = part-le denom d n b (ground arith) in omega arith
]

pub funds-IsBank : IsBank funds
funds-IsBank = record {
  from_account_adds = λ a. add_funds-adds;
  from_module_adds = λ a. add_funds-adds;
  to_account_takes = λ a. take_funds-takes;
  to_module_takes = λ a. take_funds-takes;
  burn_takes = take_funds-takes;
  record_keeps = λ denom d n b b' e. sym (ap (at_denom d) e);
  mint_keeps = λ d to id n b b' e. sym (ap (at_denom d) e);
}

-- One pool, with four units of volume and four uerth of rewards it has not collected.
abbrev pub one_pool : Pool
one_pool = record {
  pool_id = 1;
  reserve_erth = 1000000;
  token_denom = "anml";
  reserve_token = 2000000;
  volume_weight = 4;
  last_traded_day = 3;
}

abbrev pub market : Dex
market = record {
  params = record {
    swap_fee = 300000000000000000;
    volume_depth_cap_per_day = 0;
    lp_unbonding_seconds = 600;
  };
  hub_denom = "uerth";
  pools = (1, one_pool) ∷ [];
  pool_by_token = ("anml", 1) ∷ [];
  total_pool_erth = 1000000;
  dirty_pools = [];
  lp_reward_index = one_dec;
  lp_total_volume = 4;
  pool_lp_index = [];
  pending_lp_rewards = pos 4;
  volume_index = 0;
  volume_index_day = 0;
  pool_stale_due = (1, 10) ∷ [];
  pool_stale_queue = (10, 1) ∷ [];
  price_cumulative = [];
  price_observed_at = [];
}

pub market-IsBacked : IsBacked market
market-IsBacked = record {
  distinct = (refl, tt);
  keys = (refl, tt);
  indexed = λ id. omega arith;
  volumes = refl;
  reserves = refl;
  nonneg = refl;
  covered = omega arith;
}

-- The dex account holds what the market owes.
abbrev pub holdings : String → ℕ
holdings d = if str_eq d "uerth" then 1000004 else 2000000
