-- ===== src/Dex/Create/Booked.antt =====
-- `CreatePool` of x/dex/keeper/msg_server_create_pool.go against the books of x/dex.
use Prim.Native.String.{String}
use text.Mathlib.Text.{◌==◌ as str_eq}
use text.Mathlib.TextEquality.{eq_iff}
use text.Mathlib.TextPositions.{eq_refl}
use earth_network_chain.Base.{
  some_injective, ℕ, ◌+◌, ◌-◌, ◌*◌, ◌≤◌, ◌<◌, ◌≡◌, ◌≢◌, refl, sym, ap, subst, ◌∙◌, arith, inl, inr,
  Bool, false, ◌||◌, ◌==◌, Option, none, some, ok, fail_if, or_err, fail_if-ok, or_err-ok,
  >>=-eq-ok, >>=-ok-eq, Bool-cases, Option-cases, bank_refused, zero_shares, bad_address,
  shielded_only, pool_creation_locked, pool_exists, lp_share_denom, same_denom,
}
use earth_network_chain.Base.Maps.{
  get, get_or, at, sum_by-set, sum_by-remove, sum_by-congr, Every-map, absent-ne, get_or-set,
  get-set_self, get-set_ne,
}
use earth_network_chain.Dex.Amm.{initial_shares}
use earth_network_chain.Dex.Store.{
  Pool, Dex, set_pool, set_pool-ok, with_pool, is_lp_share_denom, pool_by_token_get, pool_for_token,
}
use earth_network_chain.Dex.Rewards.{init_pool_lp_index}
use earth_network_chain.Dex.Rewards.Backed.{
  IsBacked, IsOpen, claim, erth, volume, with_pool-IsBacked,
}
use earth_network_chain.Dex.Swap.Hops.{owed_erth}
use earth_network_chain.Dex.Bank.{Bank, IsBank, part}
use earth_network_chain.Dex.Owed.{owed, token_of, part-add}
use earth_network_chain.Dex.Deposit.Add.{Coin, pull_pair}
use earth_network_chain.Dex.Deposit.Add.Branch.{pull_pair-adds}
use earth_network_chain.Dex.Create.{
  Creation, MsgCreatePool, pool_creation_locked_by, hub_side, has_token, new_pool, listed, Created,
  check_coins, create_pool,
}

-- The ids from `PoolSeq` on are free: no pool has one, and no token leads to one.
pub record IsFresh (c : Creation) (s : Dex) : Type 0 where
  pub pools : (j : ℕ) → c.pool_seq ≤ j → get j s.pools ≡ none
  pub tokens :
      (token : String) (j : ℕ) → pool_by_token_get token s.pool_by_token ≡ some j → j < c.pool_seq

-- A new pool's reward index, at an id that has no pool.
init-IsBacked :
    (id : ℕ) (s : Dex) → get id s.pools ≡ none → IsBacked s → IsBacked (init_pool_lp_index id s)
unfolding init_pool_lp_index
init-IsBacked id s free h = record {
  distinct = h.distinct;
  keys = h.keys;
  indexed = λ j. ground (arith, get_or-set j id s.lp_reward_index 0 s.pool_lp_index, h.indexed j);
  volumes = h.volumes;
  reserves = h.reserves;
  nonneg = h.nonneg;
  covered =
      let same = sum_by-congr (claim (init_pool_lp_index id s)) (claim s) s.pools (
        Every-map (λ j v. j ≢ id) _ s.pools
          (λ j v ne. ground (arith, get_or-set j id s.lp_reward_index 0 s.pool_lp_index))
          (absent-ne id s.pools free)) in
      omega (arith, same, h.covered);
}

-- A pool with no volume, at an id that has none yet, is open.
new-IsOpen :
    (id : ℕ) (p : Pool) (s : Dex)
    → get id s.pools ≡ none
    → p.pool_id ≡ id
    → p.volume_weight ≡ 0
    → IsBacked s
    → IsOpen id p s
new-IsOpen id p s free own quiet h = record {
  distinct = h.distinct;
  keys = h.keys;
  own = own;
  indexed = h.indexed;
  volumes = ground (arith, sum_by-remove volume id s.pools, h.volumes, free, quiet);
  reserves = h.reserves;
  nonneg = h.nonneg;
  covered =
      let gone : at (claim s) id s.pools ≡ 0 = rw (free, at) refl in
      let none_owed : claim s id p ≡ 0 =
        ap (λ v. v * (s.lp_reward_index - get_or id 0 s.pool_lp_index)) quiet ∙ omega arith in
      omega (arith, sum_by-remove (claim s) id s.pools, h.covered, gone, none_owed);
}

-- What the dex owes once the pool is there.
new-owed :
    (d : String) (id now : ℕ) (e t : Coin) (s : Dex)
    → get id s.pools ≡ none
    → owed d (with_pool id (new_pool now id e t) s)
      ≡ owed d s + part d s.hub_denom e.amount + part d t.denom t.amount
new-owed d id now e t s free =
    let p = new_pool now id e t in
    let z : at (token_of d) id s.pools ≡ 0 = rw (free, at) refl in
    let z' : at erth id s.pools ≡ 0 = rw (free, at) refl in
    let owes : owed_erth (with_pool id p s) ≡ owed_erth s + e.amount =
      omega (arith, sum_by-set erth id p s.pools, z') in
    let hub = ap (part d s.hub_denom) owes ∙ sym (part-add d s.hub_denom (owed_erth s) e.amount) in
    omega (arith, sum_by-set (token_of d) id p s.pools, z, hub)

-- Another token finds what it found.
other-pool :
    (id now : ℕ) (e t : Coin) (s : Dex) (token : String)
    → ((j : ℕ) → pool_by_token_get token s.pool_by_token ≡ some j → j < id)
    → str_eq token t.denom ≡ false
    → pool_for_token token
        (init_pool_lp_index id (listed t.denom id (with_pool id (new_pool now id e t) s)))
      ≡ pool_for_token token s
unfolding pool_for_token init_pool_lp_index
other-pool id now e t s token below differ =
    elim (Option-cases (pool_by_token_get token s.pool_by_token)) [
      | inl absent ↦ rw (pool_for_token, pool_for_token, differ, absent) refl
      | inr (j, there) ↦
          let lt = below j there in
          let ne : j ≢ id = λ p'. omega (arith, lt, p') in
          rw (pool_for_token, pool_for_token, differ, there)
            (get-set_ne j id (new_pool now id e t) s.pools ne)
    ]

-- The two sides: one in the hub asset, the other not.
hub_side-ok :
    (hub : String) (a b : Coin) (sides : Coin × Coin)
    → str_eq a.denom b.denom ≡ false
    → hub_side hub a b ≡ ok sides
    → (sides.0.denom ≡ hub) × (str_eq sides.1.denom hub ≡ false)
unfolding hub_side
hub_side-ok hub a b sides differ q = elim (Bool-cases (str_eq hub a.denom)) [
  | inl first ↦
      let e : ok (a, b) ≡ ok sides = rw first at q in
      let h = sym ((eq_iff hub a.denom).0 first) in
      rw (← sides_injective e) (h, ground (arith, eq_iff b.denom hub, eq_iff a.denom b.denom, h))
  | inr not_first ↦ elim (Bool-cases (str_eq hub b.denom)) [
    | inl second ↦
        let e : ok (b, a) ≡ ok sides = rw (not_first, second) at q in
        let h = sym ((eq_iff hub b.denom).0 second) in
        rw (← sides_injective e) (h, ground (arith, eq_iff a.denom hub, eq_iff a.denom b.denom, h))
    | inr neither ↦ let e = rw (not_first, neither) at q in cc
  ]
]
  where
    sides_injective : {x y : Coin × Coin} → ok x ≡ ok y → x ≡ y
    sides_injective p = cc

module _ (k : Bank) (now : ℕ) (msg : MsgCreatePool) (c : Creation) (s : Dex) (b : k.State) where
  -- What the creation of a pool does.
  pub record Creates (r : Created k) : Type 0 where
    pub sides : Coin × Coin
    pub matched : hub_side s.hub_denom msg.amount_a msg.amount_b ≡ ok sides
    pub paired : (sides.0.denom ≡ s.hub_denom) × (str_eq sides.1.denom s.hub_denom ≡ false)
    pub unlocked : pool_creation_locked_by c.auction ≡ false
    pub absent : has_token sides.1.denom s ≡ false
    pub minted : (0 < r.shares) × (r.shares ≡ initial_shares sides.0.amount sides.1.amount)
    pub there : pool_for_token sides.1.denom r.store ≡ some (new_pool now r.id sides.0 sides.1)
    pub others :
        (token : String)
        → str_eq token sides.1.denom ≡ false
        → pool_for_token token r.store ≡ pool_for_token token s
    pub backed : IsBacked r.store
    pub fresh : IsFresh r.creation r.store
    pub solvent : (d : String) → k.balance r.bank d + owed d s ≡ k.balance b d + owed d r.store

  module _ (bank : IsBank k) (h : IsBacked s) (fresh : IsFresh c s) where
    free : get c.pool_seq s.pools ≡ none
    free = fresh.pools c.pool_seq (omega arith)

    created-IsBacked :
        (e t : Coin) (s' : Dex)
        → set_pool c.pool_seq (new_pool now c.pool_seq e t) s ≡ ok s'
        → IsBacked (init_pool_lp_index c.pool_seq (listed t.denom c.pool_seq s'))
    unfolding init_pool_lp_index
    created-IsBacked e t s' es =
        let id = c.pool_seq in
        let p = new_pool now id e t in
        let i = init-IsBacked id s free h in
        let o = new-IsOpen id p (init_pool_lp_index id s) free refl refl i in
        let w = with_pool-IsBacked id p (init_pool_lp_index id s) o in
        let e' = (set_pool-ok id p s s' es).0 in
        rw e' (record {
          distinct = w.distinct;
          keys = w.keys;
          indexed = w.indexed;
          volumes = w.volumes;
          reserves = w.reserves;
          nonneg = w.nonneg;
          covered = w.covered;
        })

    created-IsFresh :
        (now' : ℕ) (e t : Coin)
        → IsFresh
            (record c { pool_seq = c.pool_seq + 1 })
            (init_pool_lp_index c.pool_seq
              (listed t.denom c.pool_seq (with_pool c.pool_seq (new_pool now' c.pool_seq e t) s)))
    unfolding init_pool_lp_index
    created-IsFresh now' e t = record {
      pools = λ j le.
          let ne : j ≢ c.pool_seq = λ e'. omega (arith, e', le) in
          get-set_ne j c.pool_seq (new_pool now' c.pool_seq e t) s.pools ne
          ∙ fresh.pools j (omega (arith, le));
      tokens = λ token j there. elim (Bool-cases (str_eq token t.denom)) [
        | inl same ↦
            let e' : c.pool_seq ≡ j = some_injective (rw same at there) in omega (arith, e')
        | inr other ↦
            let old : pool_by_token_get token s.pool_by_token ≡ some j = rw other at there in
            let lt = fresh.tokens token j old in omega (arith, lt)
      ];
    }

    finish :
        (sides : Coin × Coin) (creator : ℕ) (b1 b2 : k.State) (s' : Dex) (r : Created k)
        → pool_creation_locked_by c.auction ≡ false
        → str_eq msg.amount_a.denom msg.amount_b.denom ≡ false
        → hub_side s.hub_denom msg.amount_a msg.amount_b ≡ ok sides
        → has_token sides.1.denom s ≡ false
        → pull_pair k creator sides.0.denom sides.1.denom sides.0.amount sides.1.amount b ≡ some b1
        → (initial_shares sides.0.amount sides.1.amount == 0) ≡ false
        → k.mint_shares (some creator) c.pool_seq (initial_shares sides.0.amount sides.1.amount) b1
          ≡ some b2
        → set_pool c.pool_seq (new_pool now c.pool_seq sides.0 sides.1) s ≡ ok s'
        → record {
          id = c.pool_seq;
          shares = initial_shares sides.0.amount sides.1.amount;
          creation = record c { pool_seq = c.pool_seq + 1 };
          store = init_pool_lp_index c.pool_seq (listed sides.1.denom c.pool_seq s');
          bank = b2;
        }
          ≡ r
        → Creates r
    unfolding init_pool_lp_index pool_for_token
    finish sides creator b1 b2 s' r lock differ es absent e1 pos e2 ep er =
        let id = c.pool_seq in
        let p = new_pool now id sides.0 sides.1 in
        let w = (set_pool-ok id p s s' ep).0 in
        let side = hub_side-ok s.hub_denom msg.amount_a msg.amount_b sides differ es in
        subst Creates er (record {
          sides = sides;
          matched = es;
          paired = side;
          unlocked = lock;
          absent = absent;
          minted = (ground arith, refl);
          there =
              rw (pool_for_token, eq_refl sides.1.denom)
                (ap (λ x. get id x.pools) w ∙ get-set_self id p s.pools);
          others = λ token ne.
              rw w (other-pool id now sides.0 sides.1 s token (λ j. fresh.tokens token j) ne);
          backed = created-IsBacked sides.0 sides.1 s' ep;
          fresh = rw w (created-IsFresh now sides.0 sides.1);
          solvent = λ d.
              let pulled =
                pull_pair-adds k bank d creator sides.0.denom sides.1.denom sides.0.amount
                  sides.1.amount b b1 e1 in
              let hub = ap (λ z. part d z sides.0.amount) side.0 in
              let kept = bank.mint_keeps d creator id _ b1 b2 e2 in
              let owes = ap (owed d) w ∙ new-owed d id now sides.0 sides.1 s free in
              omega (arith, pulled, hub, kept, owes);
        })

    -- The creation of a pool that succeeds, from a backed state where no pool has an id from the
    -- sequence on and no token leads to one, was not locked and had no pool for the token; the pool is then found by its token
    -- with exactly the two amounts, the hub asset on the ERTH side and another on the token side,
    -- for a positive number of shares; every other token finds what it found before, a pool or none; the LP
    -- rewards stay backed, the next id free, and the dex holds exactly as much more of each denom
    -- as it owes; for a bank that moves what it is told to.
    pub create_pool-Creates :
        (account_of : String → Option ℕ) (valid_denom : String → Bool) (r : Created k)
        → create_pool k account_of valid_denom now msg c s b ≡ ok r
        → Creates r
    unfolding create_pool check_coins
    create_pool-Creates account_of valid_denom r q =
        let (_, _, q1) =
          >>=-eq-ok
            (fail_if
              (k.is_shielded_only msg.amount_a.denom || k.is_shielded_only msg.amount_b.denom)
              shielded_only)
            _ q in
        let (_, lock, q2) =
          >>=-eq-ok (fail_if (pool_creation_locked_by c.auction) pool_creation_locked) _ q1 in
        let (creator, _, q3) = >>=-eq-ok (or_err (account_of msg.creator) bad_address) _ q2 in
        let (_, coins, q4) = >>=-eq-ok (check_coins k valid_denom msg.amount_a msg.amount_b) _ q3 in
        let (_, differ, _) =
          >>=-eq-ok (fail_if (str_eq msg.amount_a.denom msg.amount_b.denom) same_denom) _ coins in
        let (sides, es, q5) = >>=-eq-ok (hub_side s.hub_denom msg.amount_a msg.amount_b) _ q4 in
        let (_, _, q6) =
          >>=-eq-ok (fail_if (is_lp_share_denom sides.1.denom) lp_share_denom) _ q5 in
        let (_, absent, q7) = >>=-eq-ok (fail_if (has_token sides.1.denom s) pool_exists) _ q6 in
        let (b1, e1, q8) =
          >>=-eq-ok
            (or_err
              (pull_pair k creator sides.0.denom sides.1.denom sides.0.amount sides.1.amount b)
              bank_refused)
            _ q7 in
        let shares = initial_shares sides.0.amount sides.1.amount in
        let (_, pos, q9) = >>=-eq-ok (fail_if (shares == 0) zero_shares) _ q8 in
        let (b2, e2, q10) =
          >>=-eq-ok (or_err (k.mint_shares (some creator) c.pool_seq shares b1) bank_refused) _
            q9 in
        let (s', ep, er) =
          >>=-ok-eq (set_pool c.pool_seq (new_pool now c.pool_seq sides.0 sides.1) s) _ q10 in
        finish sides creator b1 b2 s' r (fail_if-ok (pool_creation_locked_by c.auction) _ lock)
          (fail_if-ok (str_eq msg.amount_a.denom msg.amount_b.denom) _ differ) es
          (fail_if-ok (has_token sides.1.denom s) _ absent) (or_err-ok _ _ e1)
          (fail_if-ok (shares == 0) _ pos) (or_err-ok _ _ e2) ep er
