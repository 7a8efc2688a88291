-- ===== src/Dex/Unbonding/Payout/Exact.antt =====
-- `payoutUnbonding` of x/dex/keeper/lp_unbonding.go against the pools, the ledger of the LP rewards
-- and the dex account.
use Prim.Native.String.{String}
use text.Mathlib.Text.{◌==◌ as str_eq}
use text.Mathlib.TextEquality.{eq_iff}
use text.Mathlib.TextPositions.{starts_with-append}
use native.Mathlib.Nat.{le_of_mul-le-mul_right, mul-le-mul_right}
use earth_network_chain.Base.{
  ok_injective, refl, ℕ, ◌+◌, ◌*◌, ◌≤◌, ◌<◌, ◌≡◌, ap, sym, subst, ◌∙◌, arith, true, false, ◌&&◌,
  ◌||◌, ltb, ◌==◌, ok, some, guard, fail_if, or_err, guard-ok, fail_if-ok, or_err-ok, >>=-eq-ok,
  >>=-ok-eq, bank_refused, pool_not_found, invalid_unbonding, insufficient_pool, note_budget,
}
use earth_network_chain.Base.Maps.{get, set, sum_by-set}
use earth_network_chain.Base.Int.{pos_part}
use earth_network_chain.Dex.Dec.{DecMath}
use earth_network_chain.Dex.Amm.{mul_div}
use earth_network_chain.Dex.Store.{
  Pool, Dex, set_pool, set_pool-ok, set_pool-assets, with_pool, is_lp_share_denom,
}
use earth_network_chain.Dex.Rewards.{settle_pool_rewards}
use earth_network_chain.Dex.Rewards.Backed.{IsBacked, erth, get-IsOpen, set_pool-IsBacked}
use earth_network_chain.Dex.Rewards.Settle.{
  IsSettled, settle_pool_rewards-Settles, settle-hub_denom,
}
use earth_network_chain.Dex.Owed.{with_reserves-IsOpen}
use earth_network_chain.Dex.Swap.Hops.{owed_erth}
use earth_network_chain.Dex.Bank.{Bank, IsBank, part}
use earth_network_chain.Dex.Deposit.{price_payout}
use earth_network_chain.Dex.Deposit.Price.{mul_div-ok}
use earth_network_chain.Dex.Notes.{Notes, IsNotes}
use earth_network_chain.Dex.Unbonding.{LpUnbonding, Codec, lp_share_denom_of, lp_unbond_note_budget}
use earth_network_chain.Dex.Unbonding.Payout.{
  Paid, recipient, withdrawn, notes_needed, pay_legs, payout_unbonding,
}
use earth_network_chain.Dex.Unbonding.Payout.Legs.{notes_needed-le, pay_legs-takes}

-- The shares' part of a reserve, rounded down.
abbrev pub IsShareOf : ℕ → ℕ → ℕ → ℕ → Type 0
IsShareOf shares total reserve leg =
    (leg * total ≤ shares * reserve) × (shares * reserve < (leg + 1) * total)

-- The part of at most all the shares is within the reserve.
leg-le :
    (shares total reserve leg : ℕ)
    → 0 < total
    → shares ≤ total
    → leg * total ≤ shares * reserve
    → leg ≤ reserve
leg-le shares total reserve leg pos few h =
    let m : shares * reserve ≤ total * reserve = mul-le-mul_right reserve few in
    let a : leg * total ≤ reserve * total = omega (arith, m, h) in le_of_mul-le-mul_right a pos

-- A priced withdrawal: each leg is the shares' part, and no more than the reserve.
pub price_payout-IsShareOf :
    (shares total re rt : ℕ) (legs : ℕ × ℕ)
    → price_payout shares total re rt ≡ ok legs
    → IsShareOf shares total re legs.0
      × IsShareOf shares total rt legs.1
      × (legs.0 ≤ re)
      × (legs.1 ≤ rt)
unfolding price_payout
price_payout-IsShareOf shares total re rt legs q =
    let (_, e, q0) = >>=-eq-ok (fail_if (total == 0 || ltb total shares) insufficient_pool) _ q in
    let (x, ex, q1) = >>=-eq-ok (mul_div shares re total) _ q0 in
    let (y, ey, er) = >>=-ok-eq (mul_div shares rt total) (λ y. (x, y)) q1 in
    let within = fail_if-ok (total == 0 || ltb total shares) insufficient_pool e in
    let few : shares ≤ total = ground arith in
    let f = mul_div-ok shares re total x ex in
    let g = mul_div-ok shares rt total y ey in
    rw (← er) (
      (f.1, f.2),
      (g.1, g.2),
      leg-le shares total re x f.0 few f.1,
      leg-le shares total rt y g.0 few g.1,
    )

module _ (k : Bank) (m : DecMath) (now : ℕ) (entry : LpUnbonding) (s : Dex) (b : k.State) where
  -- What a payout does: `before` is the pool in the store, `settled` the pool after its rewards.
  pub record PaysOut (budget : ℕ) (p : Paid k) : Type 0 where
    pub before : Pool
    pub settled : Pool
    pub stored : get entry.pool_id s.pools ≡ some before
    pub settles : settled ≡ (settle_pool_rewards m now entry.pool_id before s).0
    pub collected : IsSettled entry.pool_id p.store
    pub earned : before.reserve_erth ≤ settled.reserve_erth
    pub kept : settled.reserve_token ≡ before.reserve_token
    pub share : is_lp_share_denom entry.share_denom ≡ true
    pub denom : settled.token_denom ≡ before.token_denom
    pub erth_share :
        IsShareOf entry.shares (k.share_supply b entry.pool_id) settled.reserve_erth p.legs.0
    pub token_share :
        IsShareOf entry.shares (k.share_supply b entry.pool_id) settled.reserve_token p.legs.1
    pub within : (p.legs.0 ≤ settled.reserve_erth) × (p.legs.1 ≤ settled.reserve_token)
    pub pools : p.store.pools ≡ set entry.pool_id (withdrawn settled p.legs) s.pools
    pub hub : p.store.hub_denom ≡ s.hub_denom
    pub backed : IsBacked p.store
    pub owed : owed_erth p.store + p.legs.0 ≡ owed_erth s
    pub moved :
        (d : String)
        → k.balance p.bank d
            + part d entry.share_denom entry.shares
            + part d s.hub_denom p.legs.0
            + part d before.token_denom p.legs.1
          ≡ k.balance b d
    pub assets :
        (is_lp_share_denom before.token_denom ≡ false) × (is_lp_share_denom s.hub_denom ≡ false)
    pub limit : (p.minted ≤ budget) × (p.minted ≤ lp_unbond_note_budget)

-- Writing the pool back: the ERTH that is owed falls by the leg.
owed-withdrawn :
    (id : ℕ) (old settled : Pool) (legs : ℕ × ℕ) (s s' : Dex)
    → get id s.pools ≡ some old
    → s'.pools ≡ s.pools
    → settled.reserve_erth + pos_part s'.pending_lp_rewards
      ≡ old.reserve_erth + pos_part s.pending_lp_rewards
    → legs.0 ≤ settled.reserve_erth
    → owed_erth (with_pool id (withdrawn settled legs) s') + legs.0 ≡ owed_erth s
owed-withdrawn id old settled legs s s' stored same moved le =
    let w = sum_by-set erth id (withdrawn settled legs) s.pools in
    rw same (ground (arith, w, stored, moved, le))

module _ (k : Bank) (notes : Notes k) (codec : Codec) (m : DecMath) (now : ℕ) (entry : LpUnbonding)
    (budget : ℕ) (s : Dex) (b : k.State) (p : Paid k) where
  share-Lp :
      str_eq entry.share_denom (lp_share_denom_of codec entry.pool_id) ≡ true
      → is_lp_share_denom entry.share_denom ≡ true
  share-Lp e =
      rw ((eq_iff entry.share_denom (lp_share_denom_of codec entry.pool_id)).0 e)
        (starts_with-append "dexlp/" (codec.format_uint entry.pool_id))

  -- A payout of a matured withdrawal that succeeds, from a backed state, settles the pool's
  -- rewards up to the index, gives each leg its exact part of the settled pool's reserve, rounded
  -- down, burns just the withdrawal's shares, moves just
  -- the two legs out of the dex account, takes the ERTH leg off what the dex owes, keeps the LP
  -- rewards backed, and mints no more notes than its budget and than a sweep's; the bank and the
  -- shielded pool move what they are told to.
  pub payout_unbonding-PaysOut :
      IsBank k
      → IsNotes k notes
      → IsBacked s
      → payout_unbonding k notes codec m now entry budget s b ≡ ok p
      → PaysOut k m now entry s b budget p
  unfolding payout_unbonding
  payout_unbonding-PaysOut bank laws h q =
      let id = entry.pool_id in
      let (addr, _, q1) = >>=-eq-ok (recipient codec entry) _ q in
      let (_, _, q2) = >>=-eq-ok (fail_if (entry.shares == 0) invalid_unbonding) _ q1 in
      let (_, e0, q3) =
        >>=-eq-ok (guard (str_eq entry.share_denom (lp_share_denom_of codec id)) invalid_unbonding)
          _ q2 in
      let (pool, found, q4) = >>=-eq-ok (or_err (get id s.pools) pool_not_found) _ q3 in
      let (legs, el, q5) =
        >>=-eq-ok
          (price_payout entry.shares (k.share_supply b id)
            (settle_pool_rewards m now id pool s).0.reserve_erth
            (settle_pool_rewards m now id pool s).0.reserve_token)
          _ q4 in
      let (need, en, q6) = >>=-eq-ok (notes_needed k notes entry pool.token_denom legs) _ q5 in
      let (_, eb, q7) =
        >>=-eq-ok (fail_if (ltb budget need && ltb budget lp_unbond_note_budget) note_budget) _
          q6 in
      let (b1, e1, q8) =
        >>=-eq-ok (or_err (k.burn_coins entry.share_denom entry.shares b) bank_refused) _ q7 in
      let (s', es, q9) =
        >>=-eq-ok
          (set_pool id (withdrawn (settle_pool_rewards m now id pool s).0 legs)
            (settle_pool_rewards m now id pool s).1)
          _ q8 in
      let (r, er, ep) =
        >>=-ok-eq
          (pay_legs k notes (codec.acc_address addr) entry s.hub_denom pool.token_denom legs b1)
          (λ x. record { legs = legs; minted = x.0; store = s'; bank = x.1 }) q9 in
      finish addr pool legs need b1 s' r
        (guard-ok (str_eq entry.share_denom (lp_share_denom_of codec id)) invalid_unbonding e0)
        (or_err-ok _ _ found) el en
        (fail_if-ok (ltb budget need && ltb budget lp_unbond_note_budget) note_budget eb)
        (or_err-ok _ _ e1) es er ep
    where
      finish :
          (addr : String) (pool : Pool) (legs : ℕ × ℕ) (need : ℕ) (b1 : k.State) (s' : Dex)
          (r : ℕ × k.State)
          → str_eq entry.share_denom (lp_share_denom_of codec entry.pool_id) ≡ true
          → get entry.pool_id s.pools ≡ some pool
          → price_payout entry.shares
              (k.share_supply b entry.pool_id)
              (settle_pool_rewards m now entry.pool_id pool s).0.reserve_erth
              (settle_pool_rewards m now entry.pool_id pool s).0.reserve_token
            ≡ ok legs
          → notes_needed k notes entry pool.token_denom legs ≡ ok need
          → (ltb budget need && ltb budget lp_unbond_note_budget) ≡ false
          → k.burn_coins entry.share_denom entry.shares b ≡ some b1
          → set_pool entry.pool_id
              (withdrawn (settle_pool_rewards m now entry.pool_id pool s).0 legs)
              (settle_pool_rewards m now entry.pool_id pool s).1
            ≡ ok s'
          → pay_legs k notes (codec.acc_address addr) entry s.hub_denom pool.token_denom legs b1
            ≡ ok r
          → record { legs = legs; minted = r.0; store = s'; bank = r.1 } ≡ p
          → PaysOut k m now entry s b budget p
      finish addr pool legs need b1 s' r es0 stored el en eb e1 es er ep =
          let id = entry.pool_id in
          let settled = (settle_pool_rewards m now id pool s).0 in
          let s1 = (settle_pool_rewards m now id pool s).1 in
          let st = settle_pool_rewards-Settles m now id pool s (get-IsOpen id pool s h stored) in
          let f = price_payout-IsShareOf _ _ _ _ legs el in
          let w = set_pool-ok id (withdrawn settled legs) s1 s' es in
          let a = set_pool-assets id (withdrawn settled legs) s1 s' es in
          let hub = settle-hub_denom m now id pool s in
          let paid = λ (d : String).
            pay_legs-takes k notes bank laws d entry s.hub_denom pool.token_denom legs b1 r
              (codec.acc_address addr) er in
          let burnt = λ (d : String). bank.burn_takes entry.share_denom d entry.shares b b1 e1 in
          let minted : need ≡ r.0 = ok_injective (sym en ∙ (paid "").1) in
          let few = notes_needed-le k notes entry pool.token_denom legs need en in
          subst (PaysOut k m now entry s b budget) ep (record {
            before = pool;
            settled = settled;
            stored = stored;
            settles = refl;
            collected = rw (w.0) (st.settled);
            earned = st.earned;
            kept = st.token;
            denom = st.denom;
            share = share-Lp es0;
            erth_share = f.0;
            token_share = f.1;
            within = (f.2, f.3);
            pools = ap (λ x. x.pools) w.0 ∙ ap (set id (withdrawn settled legs)) st.pools;
            hub = ap (λ x. x.hub_denom) w.0 ∙ hub;
            backed =
                set_pool-IsBacked id (withdrawn settled legs) s1 s'
                  (with_reserves-IsOpen id settled s1 _ _ st.opened) es;
            owed = rw (w.0) (owed-withdrawn id pool settled legs s s1 stored st.pools st.moved f.2);
            moved = λ (d : String). omega (arith, (paid d).0, burnt d);
            assets = (rw (← st.denom) (a.0), rw (← hub) (a.1));
            limit = ground (arith, minted, few);
          })
