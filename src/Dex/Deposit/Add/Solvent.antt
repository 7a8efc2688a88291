-- ===== src/Dex/Deposit/Add/Solvent.antt =====
-- `deposit` and `AddLiquidity` of x/dex/keeper/msg_server_add_liquidity.go against what the dex owes.
use Prim.Native.String.{String}
use text.Mathlib.Text.{◌==◌ as str_eq}
use text.Mathlib.TextEquality.{eq_iff}
use earth_network_chain.Base.{
  no_value, some_injective, ℕ, ◌+◌, ◌≤◌, ◌<◌, ◌≡◌, refl, sym, ap, ap₂, ◌∙◌, subst, arith, true,
  false, ◌&&◌, ◌||◌, ◌==◌, Option, none, some, ok, guard, fail_if, or_err, guard-ok, fail_if-ok,
  or_err-ok, >>=-eq-ok, >>=-ok-eq, pool_not_found, pool_cap, bank_refused, invalid_denom,
  invalid_amount, zero_shares, slippage, ltb, bad_address, shielded_only,
}
use earth_network_chain.Base.Maps.{get, get-set_self}
use earth_network_chain.Dex.Dec.{DecMath}
use earth_network_chain.Dex.Store.{Pool, Dex, set_pool, set_pool-ok, within_pool_cap}
use earth_network_chain.Dex.Rewards.{settle_pool_rewards}
use earth_network_chain.Dex.Rewards.Backed.{IsBacked, get-IsOpen}
use earth_network_chain.Dex.Rewards.Settle.{settle_pool_rewards-Settles}
use earth_network_chain.Dex.Bank.{Bank, IsBank, part}
use earth_network_chain.Dex.Owed.{owed, part-add, settled-Rewrites}
use earth_network_chain.Dex.Deposit.{
  Priced, check_min_shares, price_branch, with_deposit, Deposited, deposit,
}
use earth_network_chain.Dex.Deposit.Add.Branch.{
  pull_pair-adds, price_branch-burns, IsPriced, price_branch-IsPriced,
}
use earth_network_chain.Dex.Deposit.Add.{
  Coin, MsgAddLiquidity, match_pair, pull_pair, add_liquidity,
}

check_min_shares-ok :
    (asked : Option (Option ℕ)) (shares : ℕ) {u : Unit {0}}
    → check_min_shares asked shares ≡ ok u
    → (n : ℕ) → asked ≡ some (some n)
    → n ≤ shares
check_min_shares-ok none shares q n e = absurd (no_value e)
check_min_shares-ok (some none) shares q n e = cc
check_min_shares-ok (some (some least)) shares q n e =
    let same : least ≡ n = some_injective (some_injective e) in
    let le = fail_if-ok (ltb shares least) slippage q in ground (arith, same, le)

-- What a deposit does. `before` is the pool in the store and `settled` the pool after its rewards;
-- `branch` is the pool that is added to, the price and the bank that the deposit is taken from; and
-- `pulled` is the bank once the deposit is taken.
pub record Deposits (k : Bank) (m : DecMath) (now id : ℕ) (s : Dex) (b : k.State)
    (erth_in token_in : ℕ) (min_shares : Option (Option ℕ)) (creator : ℕ) (r : Deposited k)
    : Type 0 where
  pub before : Pool
  pub there : get id s.pools ≡ some before
  pub settled : Pool
  pub settles : settled ≡ (settle_pool_rewards m now id before s).0
  pub branch : Pool × Priced × k.State
  pub price : r.price ≡ branch.1
  pub priced : IsPriced k s.hub_denom (k.share_supply b id) settled erth_in token_in b branch
  pub stored : get id r.store.pools ≡ some (with_deposit k branch.0 r.price)
  pub pulled : k.State
  pub pulls :
      pull_pair k creator s.hub_denom before.token_denom r.price.erth r.price.token branch.2
      ≡ some pulled
  pub mints : k.mint_shares (some creator) id r.price.shares pulled ≡ some r.bank
  pub moved :
      (d : String)
      → k.balance r.bank d
          + part d s.hub_denom settled.reserve_erth
          + part d before.token_denom settled.reserve_token
        ≡ k.balance b d
          + part d s.hub_denom (branch.0.reserve_erth + r.price.erth)
          + part d before.token_denom (branch.0.reserve_token + r.price.token)
  pub backed : IsBacked r.store
  pub minted : 0 < r.price.shares
  pub enough : (n : ℕ) → min_shares ≡ some (some n) → n ≤ r.price.shares
  pub within : (r.price.erth ≤ erth_in) × (r.price.token ≤ token_in)
  pub solvent : (d : String) → k.balance r.bank d + owed d s ≡ k.balance b d + owed d r.store

module _ (k : Bank) (bank : IsBank k) (m : DecMath) (now id : ℕ) (erth_denom : String) (erth_in : ℕ)
    (token_denom : String) (token_in : ℕ) (min_shares : Option (Option ℕ)) (creator : ℕ) (s : Dex)
    (b : k.State) (r : Deposited k) where
  deposit-Deposits :
      IsBacked s
      → deposit k m now id erth_denom erth_in token_denom token_in min_shares
          (some creator)
          (pull_pair k creator erth_denom token_denom)
          s
          b
        ≡ ok r
      → Deposits k m now id s b erth_in token_in min_shares creator r
  unfolding deposit
  deposit-Deposits h q =
      let (pool, found, q1) = >>=-eq-ok (or_err (get id s.pools) pool_not_found) _ q in
      let settled = (settle_pool_rewards m now id pool s).0 in
      let s1 = (settle_pool_rewards m now id pool s).1 in
      let (_, denoms, q2) =
        >>=-eq-ok
          (guard (str_eq erth_denom s.hub_denom && str_eq token_denom pool.token_denom)
            invalid_denom)
          _ q1 in
      let (_, _, q3) = >>=-eq-ok (fail_if (erth_in == 0 || token_in == 0) invalid_amount) _ q2 in
      let (_, _, q4) =
        >>=-eq-ok (guard (within_pool_cap erth_in && within_pool_cap token_in) pool_cap) _ q3 in
      let total = k.share_supply b id in
      let (_, _, q5) = >>=-eq-ok (guard (within_pool_cap total) pool_cap) _ q4 in
      let (br, eb, q6) =
        >>=-eq-ok (price_branch k s.hub_denom total settled erth_in token_in b) _ q5 in
      let price = br.1 in
      let (_, _, q7) = >>=-eq-ok (guard (within_pool_cap (total + price.shares)) pool_cap) _ q6 in
      let (_, _, q8) =
        >>=-eq-ok
          (guard
            (within_pool_cap (br.0.reserve_erth + price.erth)
              && within_pool_cap (br.0.reserve_token + price.token))
            pool_cap)
          _ q7 in
      let (_, pos, q9) = >>=-eq-ok (fail_if (price.shares == 0) zero_shares) _ q8 in
      let (_, slip, q10) = >>=-eq-ok (check_min_shares min_shares price.shares) _ q9 in
      let (b1, e1, q11) =
        >>=-eq-ok
          (or_err (pull_pair k creator erth_denom token_denom price.erth price.token br.2)
            bank_refused)
          _ q10 in
      let (b2, e2, q12) =
        >>=-eq-ok (or_err (k.mint_shares (some creator) id price.shares b1) bank_refused) _ q11 in
      let (s', es, er) =
        >>=-ok-eq (set_pool id (with_deposit k br.0 price) s1)
          (λ x. record { price = price; store = x; bank = b2 }) q12 in
      finish pool br b1 b2 s' (or_err-ok _ _ found)
        (guard-ok (str_eq erth_denom s.hub_denom && str_eq token_denom pool.token_denom)
          invalid_denom denoms)
        eb (fail_if-ok (price.shares == 0) zero_shares pos) slip (or_err-ok _ _ e1)
        (or_err-ok _ _ e2) es er
    where
      finish :
          (pool : Pool) (br : Pool × Priced × k.State) (b1 b2 : k.State) (s' : Dex) {u : Unit {0}}
          → get id s.pools ≡ some pool
          → (str_eq erth_denom s.hub_denom && str_eq token_denom pool.token_denom) ≡ true
          → price_branch k s.hub_denom
              (k.share_supply b id)
              (settle_pool_rewards m now id pool s).0
              erth_in
              token_in
              b
            ≡ ok br
          → (br.1.shares == 0) ≡ false
          → check_min_shares min_shares br.1.shares ≡ ok u
          → pull_pair k creator erth_denom token_denom br.1.erth br.1.token br.2 ≡ some b1
          → k.mint_shares (some creator) id br.1.shares b1 ≡ some b2
          → set_pool id (with_deposit k br.0 br.1) (settle_pool_rewards m now id pool s).1 ≡ ok s'
          → record { price = br.1; store = s'; bank = b2 } ≡ r
          → Deposits k m now id s b erth_in token_in min_shares creator r
      finish pool br b1 b2 s' stored denoms eb pos slip e1 e2 es er =
          let settled = (settle_pool_rewards m now id pool s).0 in
          let ed : erth_denom ≡ s.hub_denom =
            ground (arith, eq_iff erth_denom s.hub_denom, denoms) in
          let td : token_denom ≡ pool.token_denom =
            ground (arith, eq_iff token_denom pool.token_denom, denoms) in
          let st = settle_pool_rewards-Settles m now id pool s (get-IsOpen id pool s h stored) in
          let f = λ (d : String).
            price_branch-burns k bank d s.hub_denom (k.share_supply b id) settled erth_in token_in b
              br eb in
          let wrote =
            subst
              (λ x.
                set_pool id (with_deposit k x br.1) (settle_pool_rewards m now id pool s).1 ≡ ok s')
              (f "").0 es in
          let w =
            settled-Rewrites m now id pool s s' (br.0.reserve_erth + br.1.erth)
              (br.0.reserve_token + br.1.token) h stored wrote in
          let moved : (d : String)
              → k.balance b2 d
                  + part d s.hub_denom settled.reserve_erth
                  + part d pool.token_denom settled.reserve_token
                ≡ k.balance b d
                  + part d s.hub_denom (br.0.reserve_erth + br.1.erth)
                  + part d pool.token_denom (br.0.reserve_token + br.1.token) =
            λ d.
              let pulled =
                pull_pair-adds k bank d creator erth_denom token_denom br.1.erth br.1.token br.2 b1
                  e1 in
              let hub = ap (λ z. part d z br.1.erth) ed in
              let tok = ap (λ z. part d z br.1.token) td in
              let den = ap (λ z. part d z settled.reserve_token) st.denom in
              let den' = ap (λ z. part d z br.0.reserve_token) st.denom in
              omega (
                arith,
                (f d).1,
                pulled,
                hub,
                tok,
                den,
                den',
                bank.mint_keeps d creator id br.1.shares b1 b2 e2,
                part-add d s.hub_denom br.0.reserve_erth br.1.erth,
                part-add d pool.token_denom br.0.reserve_token br.1.token,
              ) in
          let (s_is, _, _) =
            set_pool-ok id (with_deposit k br.0 br.1) (settle_pool_rewards m now id pool s).1 s'
              es in
          subst (Deposits k m now id s b erth_in token_in min_shares creator) er (record {
            before = pool;
            there = stored;
            settled = settled;
            settles = refl;
            branch = br;
            price = refl;
            priced =
                price_branch-IsPriced k s.hub_denom (k.share_supply b id) settled erth_in token_in b
                  br eb;
            stored =
                ap (λ x. get id x.pools) s_is
                ∙ get-set_self id (with_deposit k br.0 br.1)
                    (settle_pool_rewards m now id pool s).1.pools;
            pulled = b1;
            pulls = sym (ap₂ (λ x y. pull_pair k creator x y br.1.erth br.1.token br.2) ed td) ∙ e1;
            mints = e2;
            moved = moved;
            backed = w.backed;
            minted = ground arith;
            enough = check_min_shares-ok min_shares br.1.shares slip;
            within = ((f "").2, (f "").3);
            solvent = λ d. omega (arith, moved d, w.books d);
          })

-- A deposit by an account that succeeds, from a backed state, goes into the pool whose rewards are
-- settled first. Where the pool has shares outstanding it is priced fairly against the settled
-- reserves; where it has none, the leftover reserves are burned and the two amounts are taken whole
-- for the first shares. Exactly the priced amounts are taken from the account, of the two coins
-- matched to the pool's sides and no more than was offered; exactly the priced shares, some and at
-- least the minimum asked for, are minted to the account; and the pool is stored with exactly those
-- amounts added. Of each denom the dex account changes by just what the pool's reserves do, and as
-- much as what the dex owes; and the LP rewards stay backed, for a bank that moves what it is told to.
pub add_liquidity-Deposits :
    (k : Bank) (m : DecMath) (account_of : String → Option ℕ) (now : ℕ) (msg : MsgAddLiquidity)
    (s : Dex) (b : k.State) (r : Deposited k)
    → IsBank k
    → IsBacked s
    → add_liquidity k m account_of now msg s b ≡ ok r
    → (creator : ℕ) × (pool : Pool) × (pair : Coin × Coin) × (account_of msg.creator ≡ some creator)
      × (get msg.pool_id s.pools ≡ some pool)
      × (match_pair msg.amount_a msg.amount_b s.hub_denom pool.token_denom ≡ ok pair)
      × Deposits k m now msg.pool_id s b pair.0.amount pair.1.amount msg.min_shares creator r
unfolding add_liquidity
add_liquidity-Deposits k m account_of now msg s b r bank h q =
    let (creator, who, q1) = >>=-eq-ok (or_err (account_of msg.creator) bad_address) _ q in
    let (pool, found, q2) = >>=-eq-ok (or_err (get msg.pool_id s.pools) pool_not_found) _ q1 in
    let (_, _, q3) =
      >>=-eq-ok
        (fail_if
          (k.is_shielded_only pool.token_denom
            || k.is_shielded_only msg.amount_a.denom
            || k.is_shielded_only msg.amount_b.denom)
          shielded_only)
        _ q2 in
    let (pair, matched, q4) =
      >>=-eq-ok (match_pair msg.amount_a msg.amount_b s.hub_denom pool.token_denom) _ q3 in
    (
      creator,
      pool,
      pair,
      or_err-ok _ _ who,
      or_err-ok _ _ found,
      matched,
      deposit-Deposits k bank m now msg.pool_id pair.0.denom pair.0.amount pair.1.denom
          pair.1.amount msg.min_shares creator s b r h q4,
    )
