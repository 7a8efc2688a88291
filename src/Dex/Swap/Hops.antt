-- ===== src/Dex/Swap/Hops.antt =====
-- `hopTokenToHub` and `hopHubToToken` of x/dex/keeper/msg_server_swap.go on the ledger of x/dex.
use Prim.Native.String.{String}
use native.Mathlib.Nat.{le_trans, mul-le-mul_right}
use earth_network_chain.Base.{
  ℕ, ◌+◌, ◌*◌, ◌≤◌, ◌≡◌, refl, some, none, Option, arith, ok, sym, ◌∙◌, ap, subst, guard, fail_if,
  or_err, ◌==◌, ◌||◌, pool_cap, pool_not_found, insufficient_pool, or_err-ok, >>=-eq-ok, >>=-ok-eq,
}
use earth_network_chain.Base.Int.{pos_part}
use earth_network_chain.Base.Maps.{Map, get, get-Every, sum_by, sum_by-set, set, at}
use earth_network_chain.Dex.Dec.{DecMath, IsDecMath}
use earth_network_chain.Dex.Amm.{
  HopResult, swap_token_for_hub, swap_hub_for_token, one_hundred_percent,
}
use earth_network_chain.Dex.Amm.Product.{
  swap_token_for_hub_accounts, swap_token_for_hub_product, swap_hub_for_token_accounts,
  swap_hub_for_token_product,
}
use earth_network_chain.Dex.Store.{
  Pool, Dex, pool_for_token, pool_by_token_get, set_pool, set_pool-ok, max_pool_amount,
  within_pool_cap,
}
use earth_network_chain.Dex.Rewards.{settle_pool_rewards, apply_volume}
use earth_network_chain.Dex.Rewards.Backed.{
  IsBacked, IsOpen, erth, Keyed, get-IsOpen, set_pool-IsBacked,
}
use earth_network_chain.Dex.Rewards.Settle.{
  IsSettled, settle_pool_rewards-Settles, settle-hub_denom,
}
use earth_network_chain.Dex.Rewards.Volume.{apply_volume-IsOpen}
use earth_network_chain.Dex.Swap.{priced, hop_of, Hop, book_hop, hop_token_to_hub, hop_hub_to_token}

-- The ERTH that the dex owes: every pool's reserve, and the rewards that are pending.
abbrev pub owed_erth : Dex → ℕ
owed_erth s = sum_by erth s.pools + pos_part s.pending_lp_rewards

-- The pool of a token before and after a hop that brings `token_in` of its token in and takes `token_out` out:
-- the token reserve moves by that, the product of the reserves does not fall, and the cap holds.
pub record Repriced (token : String) (token_in token_out : ℕ) (s s' : Dex) : Type 0 where
  pub id : ℕ
  pub before : Pool
  pub after : Pool
  pub stored : get id s.pools ≡ some before
  pub found : pool_for_token token s ≡ some before
  pub pools : s'.pools ≡ set id after s.pools
  pub kept : after.token_denom ≡ before.token_denom
  pub same : (s'.pool_by_token ≡ s.pool_by_token) × (s'.hub_denom ≡ s.hub_denom)
  pub tokens : after.reserve_token + token_out ≡ before.reserve_token + token_in
  pub product :
      before.reserve_erth * before.reserve_token ≤ after.reserve_erth * after.reserve_token
  pub capped : (after.reserve_erth ≤ max_pool_amount) × (after.reserve_token ≤ max_pool_amount)

-- The pool that `PoolForToken` finds is stored under its own id.
pub pool_for_token-get :
    (denom : String) (s : Dex) (p : Pool)
    → IsBacked s
    → pool_for_token denom s ≡ some p
    → get p.pool_id s.pools ≡ some p
unfolding pool_for_token
pool_for_token-get denom s p h e = go (pool_by_token_get denom s.pool_by_token) e
  where
    go :
        (o : Option ℕ)
        → (elim o [ none ↦ none | some id ↦ get id s.pools ]) ≡ some p
        → get p.pool_id s.pools ≡ some p
    go none q = absurd (cc)
    go (some id) q =
        subst (λ j. get j s.pools ≡ some p) (sym (get-Every Keyed id p s.pools h.keys q)) q

-- The reserves of an open pool are no part of the accounting of the rewards.
repriced-IsOpen :
    (id : ℕ) (p : Pool) (s : Dex) (r : HopResult) → IsOpen id p s → IsOpen id (priced p r) s
repriced-IsOpen id p s r h = record {
  distinct = h.distinct;
  keys = h.keys;
  own = h.own;
  indexed = h.indexed;
  volumes = h.volumes;
  reserves = h.reserves;
  nonneg = h.nonneg;
  covered = h.covered;
}

at_of :
    (id : ℕ) (old : Pool) (s : Dex)
    → get id s.pools ≡ some old
    → at erth id s.pools ≡ old.reserve_erth
at_of id old s e = ground arith

-- What the second half of a hop leaves, for the pool `p` of the store `s` that was read as `old`.
record Booked (id : ℕ) (old p : Pool) (r : HopResult) (s : Dex) (hop : Hop) : Type 0 where
  backed : IsBacked hop.store
  after : Pool
  pools : hop.store.pools ≡ set id after s.pools
  kept : after.token_denom ≡ p.token_denom
  same : (hop.store.pool_by_token ≡ s.pool_by_token) × (hop.store.hub_denom ≡ s.hub_denom)
  erth_after : after.reserve_erth ≡ r.new_reserve_erth
  token_after : after.reserve_token ≡ r.new_reserve_token
  capped : (after.reserve_erth ≤ max_pool_amount) × (after.reserve_token ≤ max_pool_amount)
  owed : owed_erth hop.store + old.reserve_erth ≡ owed_erth s + r.new_reserve_erth
  returned : (hop.out ≡ r.amount_out) × (hop.burn ≡ r.burn_erth) × (hop.fee ≡ r.fee_erth)

-- The product of the reserves through a settlement and a swap.
through :
    (p0 p1 p2 : Pool) (r : HopResult)
    → p0.reserve_erth ≤ p1.reserve_erth
    → p1.reserve_token ≡ p0.reserve_token
    → p1.reserve_erth * p1.reserve_token ≤ r.new_reserve_erth * r.new_reserve_token
    → p2.reserve_erth ≡ r.new_reserve_erth
    → p2.reserve_token ≡ r.new_reserve_token
    → p0.reserve_erth * p0.reserve_token ≤ p2.reserve_erth * p2.reserve_token
through p0 p1 p2 r earned same prod ee et =
    rw (ee, et, ← same) (le_trans (mul-le-mul_right p1.reserve_token earned) prod)

module _ (m : DecMath) (now : ℕ) where
  book_hop-Booked :
      (id : ℕ) (old p : Pool) (r : HopResult) (s : Dex) (hop : Hop)
      → IsOpen id p s
      → IsSettled id s
      → get id s.pools ≡ some old
      → book_hop m now p r s ≡ ok hop
      → Booked id old p r s hop
  unfolding book_hop
  book_hop-Booked id old p r s hop h e stored q =
      let trade =
        apply_volume-IsOpen m now id r.volume_erth (priced p r) s (repriced-IsOpen id p s r h) e in
      let av = apply_volume m now (priced p r) r.volume_erth s in
      let (s'', es, eh) = >>=-ok-eq (set_pool p.pool_id av.0 av.1) (hop_of r) q in
      let es' = subst (λ j. set_pool j av.0 av.1 ≡ ok s'') h.own es in
      let written = set_pool-ok id av.0 av.1 s'' es' in
      let pools' : s''.pools ≡ set id av.0 s.pools =
        ap (λ (x : Dex). x.pools) written.0 ∙ ap (set id av.0) trade.1.pools_same in
      let pending' : s''.pending_lp_rewards ≡ s.pending_lp_rewards =
        ap (λ (x : Dex). x.pending_lp_rewards) written.0 ∙ trade.1.pending_same in
      record {
        backed = rw (← eh) (set_pool-IsBacked id av.0 av.1 s'' trade.0 es');
        after = av.0;
        pools = rw (← eh) pools';
        kept = trade.1.denom_same;
        same = rw (← eh) (
          ap (λ (x : Dex). x.pool_by_token) written.0 ∙ trade.1.by_token_same,
          ap (λ (x : Dex). x.hub_denom) written.0 ∙ trade.1.hub_same,
        );
        erth_after = trade.1.erth_same;
        token_after = trade.1.token_same;
        capped = (written.1, written.2);
        owed =
            rw (← eh, pools', pending')
              (omega
                (arith, sum_by-set erth id av.0 s.pools, at_of id old s stored, trade.1.erth_same));
        returned = rw (← eh) (refl, refl, refl);
      }

  module _ (laws : IsDecMath m) (token : String) (amount fee : ℕ) (s : Dex) (hop : Hop) where
    -- A token to ERTH hop that succeeds keeps the rewards backed, takes out of what the dex owes
    -- exactly the ERTH it hands on and burns, and reprices one pool by the tokens that came in, for
    -- a swap fee of at most 100%.
    pub hop_token_to_hub_lem :
        fee ≤ one_hundred_percent
        → IsBacked s
        → hop_token_to_hub m now token amount fee s ≡ ok hop
        → IsBacked hop.store
          × (owed_erth hop.store + hop.out + hop.burn ≡ owed_erth s)
          × (hop.burn ≤ hop.fee)
          × Repriced token amount 0 s hop.store
    unfolding hop_token_to_hub
    hop_token_to_hub_lem valid h q =
        let (_, _, q1) = >>=-eq-ok (guard (within_pool_cap amount) pool_cap) _ q in
        let (pool, found, q2) = >>=-eq-ok (or_err (pool_for_token token s) pool_not_found) _ q1 in
        let stored = pool_for_token-get token s pool h (or_err-ok _ _ found) in
        let settled = settle_pool_rewards m now pool.pool_id pool s in
        let st =
          settle_pool_rewards-Settles m now pool.pool_id pool s
            (get-IsOpen pool.pool_id pool s h stored) in
        let r = swap_token_for_hub m settled.0.reserve_erth settled.0.reserve_token amount fee in
        let (_, _, q3) =
          >>=-eq-ok (fail_if (r.amount_out == 0 || r.new_reserve_erth == 0) insufficient_pool) _
            q2 in
        let stored' = ap (get pool.pool_id) st.pools ∙ stored in
        let bk =
          book_hop-Booked pool.pool_id pool settled.0 r settled.1 hop st.opened st.settled stored'
            q3 in
        let acc =
          swap_token_for_hub_accounts m laws settled.0.reserve_erth settled.0.reserve_token amount
            fee valid in
        let prod =
          swap_token_for_hub_product m laws settled.0.reserve_erth settled.0.reserve_token amount
            fee valid in
        (
          bk.backed,
          omega (
            arith,
            bk.owed,
            ap (λ (ps : Map Pool). sum_by erth ps) st.pools,
            st.moved,
            acc.0,
            bk.returned,
          ),
          omega (arith, bk.returned, acc),
          record {
            id = pool.pool_id;
            before = pool;
            after = bk.after;
            stored = stored;
            found = or_err-ok _ _ found;
            pools = bk.pools ∙ ap (set pool.pool_id bk.after) st.pools;
            kept = bk.kept ∙ st.denom;
            same =
                (bk.same.0 ∙ st.by_token, bk.same.1 ∙ settle-hub_denom m now pool.pool_id pool s);
            tokens = omega (arith, bk.token_after, acc.1, st.token);
            product =
                through pool settled.0 bk.after r st.earned st.token prod bk.erth_after
                  bk.token_after;
            capped = bk.capped;
          },
        )

    -- An ERTH to token hop that succeeds keeps the rewards backed, adds to what the dex owes exactly
    -- the ERTH that came in less what it burns, and reprices one pool by the tokens that it hands
    -- out, for a swap fee of at most 100%.
    pub hop_hub_to_token_lem :
        fee ≤ one_hundred_percent
        → IsBacked s
        → hop_hub_to_token m now token amount fee s ≡ ok hop
        → IsBacked hop.store
          × (owed_erth hop.store + hop.burn ≡ owed_erth s + amount)
          × (hop.burn ≤ hop.fee)
          × Repriced token 0 hop.out s hop.store
    unfolding hop_hub_to_token
    hop_hub_to_token_lem valid h q =
        let (_, _, q1) = >>=-eq-ok (guard (within_pool_cap amount) pool_cap) _ q in
        let (pool, found, q2) = >>=-eq-ok (or_err (pool_for_token token s) pool_not_found) _ q1 in
        let stored = pool_for_token-get token s pool h (or_err-ok _ _ found) in
        let settled = settle_pool_rewards m now pool.pool_id pool s in
        let st =
          settle_pool_rewards-Settles m now pool.pool_id pool s
            (get-IsOpen pool.pool_id pool s h stored) in
        let r = swap_hub_for_token m settled.0.reserve_erth settled.0.reserve_token amount fee in
        let (_, _, q3) =
          >>=-eq-ok (fail_if (r.amount_out == 0 || r.new_reserve_token == 0) insufficient_pool) _
            q2 in
        let stored' = ap (get pool.pool_id) st.pools ∙ stored in
        let bk =
          book_hop-Booked pool.pool_id pool settled.0 r settled.1 hop st.opened st.settled stored'
            q3 in
        let acc =
          swap_hub_for_token_accounts m laws settled.0.reserve_erth settled.0.reserve_token amount
            fee valid in
        let prod =
          swap_hub_for_token_product m laws settled.0.reserve_erth settled.0.reserve_token amount
            fee valid in
        (
          bk.backed,
          omega (
            arith,
            bk.owed,
            ap (λ (ps : Map Pool). sum_by erth ps) st.pools,
            st.moved,
            acc.0,
            bk.returned,
          ),
          omega (arith, bk.returned, acc),
          record {
            id = pool.pool_id;
            before = pool;
            after = bk.after;
            stored = stored;
            found = or_err-ok _ _ found;
            pools = bk.pools ∙ ap (set pool.pool_id bk.after) st.pools;
            kept = bk.kept ∙ st.denom;
            same =
                (bk.same.0 ∙ st.by_token, bk.same.1 ∙ settle-hub_denom m now pool.pool_id pool s);
            tokens = omega (arith, bk.token_after, acc.1, st.token, bk.returned);
            product =
                through pool settled.0 bk.after r st.earned st.token prod bk.erth_after
                  bk.token_after;
            capped = bk.capped;
          },
        )
