-- ===== src/Dex/Deposit/Add/Branch.antt =====
-- The two branches of `deposit` of x/dex/keeper/msg_server_add_liquidity.go, and what the handler
-- takes from the account.
use Prim.Native.String.{String}
use earth_network_chain.Base.{
  ok_injective, some_injective, ℕ, ◌+◌, ◌≤◌, ◌<◌, ◌≡◌, refl, sym, ap, ◌⊎◌, arith, inl, inr, ◌==◌,
  Option, none, some, ok, or_err, or_err-ok, >>=-eq-ok, >>=-ok-eq, Bool-cases, bank_refused,
}
use earth_network_chain.Dex.Amm.{initial_shares}
use earth_network_chain.Dex.Store.{Pool}
use earth_network_chain.Dex.Bank.{Bank, IsBank, part}
use earth_network_chain.Dex.Owed.{part-zero, with_reserves}
use earth_network_chain.Dex.Deposit.{Priced, price_deposit, burn_residue, burn_side, price_branch}
use earth_network_chain.Dex.Deposit.Fair.{IsFair, price_deposit-IsFair}
use earth_network_chain.Dex.Deposit.Add.{pull_coin, pull_pair}

module _ (k : Bank) (bank : IsBank k) (d : String) where
  burn_side-takes :
      (denom : String) (n : ℕ) (b b' : k.State)
      → burn_side k denom n b ≡ ok b'
      → k.balance b' d + part d denom n ≡ k.balance b d
  burn_side-takes denom n b b' q = elim (Bool-cases (n == 0)) [
    | inl nothing ↦
        let z : n ≡ 0 = ground arith in
        let e : b ≡ b' = ok_injective (rw (nothing, burn_side) at q) in
        rw (← e, z, part-zero d denom) (omega arith)
    | inr positive ↦
        let (b1, e1, q1) =
          >>=-eq-ok (or_err (k.burn_coins denom n b) bank_refused) _
            (rw (positive, burn_side) at q) in
        let took = bank.burn_takes denom d n b b1 (or_err-ok _ _ e1) in
        let kept = bank.record_keeps denom d n b1 b' (or_err-ok _ _ q1) in omega (arith, took, kept)
  ]

  pull_coin-adds :
      (a : ℕ) (denom : String) (n : ℕ) (b b' : k.State)
      → pull_coin k a denom n b ≡ some b'
      → k.balance b' d ≡ k.balance b d + part d denom n
  unfolding pull_coin
  pull_coin-adds a denom n b b' q = elim (Bool-cases (n == 0)) [
    | inl nothing ↦
        let z : n ≡ 0 = ground arith in
        let e : b ≡ b' = some_injective (rw nothing at q) in
        rw (← e, z, part-zero d denom) (omega arith)
    | inr positive ↦ bank.from_account_adds a denom d n b b' (rw positive at q)
  ]

  pub pull_pair-adds :
      (a : ℕ) (erth_denom token_denom : String) (erth token : ℕ) (b b' : k.State)
      → pull_pair k a erth_denom token_denom erth token b ≡ some b'
      → k.balance b' d ≡ k.balance b d + part d erth_denom erth + part d token_denom token
  unfolding pull_pair
  pull_pair-adds a ed td erth token b b' q = go (pull_coin k a ed erth b) refl q
    where
      go :
          (o : Option k.State)
          → pull_coin k a ed erth b ≡ o
          → elim o [ none ↦ none | some b1 ↦ pull_coin k a td token b1 ] ≡ some b'
          → k.balance b' d ≡ k.balance b d + part d ed erth + part d td token
      go none e q = cc
      go (some b1) e q =
          let f = pull_coin-adds a ed erth b b1 e in
          let g = pull_coin-adds a td token b1 b' q in omega (arith, f, g)

  -- The pool that is added to: where it has no shares, its leftover reserves are burned.
  pub price_branch-burns :
      (hub : String) (total : ℕ) (pool : Pool) (erth_in token_in : ℕ) (b : k.State)
      (r : Pool × Priced × k.State)
      → price_branch k hub total pool erth_in token_in b ≡ ok r
      → (r.0 ≡ with_reserves pool r.0.reserve_erth r.0.reserve_token)
        × (k.balance r.2 d
              + part d hub pool.reserve_erth
              + part d pool.token_denom pool.reserve_token
            ≡ k.balance b d
              + part d hub r.0.reserve_erth
              + part d pool.token_denom r.0.reserve_token)
        × (r.1.erth ≤ erth_in)
        × (r.1.token ≤ token_in)
  unfolding price_branch burn_residue
  price_branch-burns hub total pool ein tin b r q = elim (Bool-cases (total == 0)) [
    | inl empty ↦
        let (x, ex, er) = >>=-ok-eq (burn_residue k hub pool b) _ (rw empty at q) in
        let (b1, e1, q1) = >>=-eq-ok (burn_side k hub pool.reserve_erth b) _ ex in
        let (b2, e2, er2) =
          >>=-ok-eq (burn_side k pool.token_denom pool.reserve_token b1)
            (λ y. (record pool { reserve_erth = 0; reserve_token = 0 }, y)) q1 in
        let f = burn_side-takes hub pool.reserve_erth b b1 e1 in
        let g = burn_side-takes pool.token_denom pool.reserve_token b1 b2 e2 in
        rw (← er, ← er2)
          (
            refl,
            omega (arith, f, g, part-zero d hub, part-zero d pool.token_denom),
            omega arith,
            omega arith,
          )
    | inr shared ↦
        let (p, ep, er) =
          >>=-ok-eq (price_deposit total pool.reserve_erth pool.reserve_token ein tin)
            (λ y. (pool, y, b)) (rw shared at q) in
        let fair = price_deposit-IsFair total pool.reserve_erth pool.reserve_token ein tin p ep in
        rw (← er) (refl, refl, fair.erth_within, fair.token_within)
  ]

-- How a deposit is priced, with `kept` the pool it goes into and `left` the bank it is taken from. A
-- pool with shares outstanding keeps its reserves and prices the deposit fairly; one with none loses
-- its leftover reserves, and the deposit's two amounts are taken whole for the first shares.
abbrev pub IsPriced :
    (k : Bank) → String → ℕ → Pool → ℕ → ℕ → k.State → Pool × Priced × k.State → Type 0
IsPriced k hub total settled erth_in token_in b (kept, price, left) =
    ((0 < total)
      × (kept ≡ settled)
      × (left ≡ b)
      × IsFair total settled.reserve_erth settled.reserve_token erth_in token_in price)
    ⊎ ((total ≡ 0)
        × (kept ≡ with_reserves settled 0 0)
        × (burn_residue k hub settled b ≡ ok (kept, left))
        × (price.shares ≡ initial_shares erth_in token_in)
        × (price.erth ≡ erth_in)
        × (price.token ≡ token_in))

burn_residue-empties :
    (k : Bank) (hub : String) (pool : Pool) (b : k.State) (x : Pool × k.State)
    → burn_residue k hub pool b ≡ ok x
    → x.0 ≡ with_reserves pool 0 0
unfolding burn_residue
burn_residue-empties k hub pool b x ex =
    let (b1, e1, q1) = >>=-eq-ok (burn_side k hub pool.reserve_erth b) _ ex in
    let (b2, e2, er2) =
      >>=-ok-eq (burn_side k pool.token_denom pool.reserve_token b1)
        (λ y. (record pool { reserve_erth = 0; reserve_token = 0 }, y)) q1 in
    ap (λ z. z.0) (sym er2)

pub price_branch-IsPriced :
    (k : Bank) (hub : String) (total : ℕ) (pool : Pool) (erth_in token_in : ℕ) (b : k.State)
    (r : Pool × Priced × k.State)
    → price_branch k hub total pool erth_in token_in b ≡ ok r
    → IsPriced k hub total pool erth_in token_in b r
unfolding price_branch
price_branch-IsPriced k hub total pool ein tin b r q = elim (Bool-cases (total == 0)) [
  | inl empty ↦
      let (x, ex, er) = >>=-ok-eq (burn_residue k hub pool b) _ (rw empty at q) in
      inr (rw (← er) (ground arith, burn_residue-empties k hub pool b x ex, ex, refl, refl, refl))
  | inr shared ↦
      let (p, ep, er) =
        >>=-ok-eq (price_deposit total pool.reserve_erth pool.reserve_token ein tin)
          (λ y. (pool, y, b)) (rw shared at q) in
      inl (
        rw (← er) (
          ground arith,
          refl,
          refl,
          price_deposit-IsFair total pool.reserve_erth pool.reserve_token ein tin p ep,
        ))
]
