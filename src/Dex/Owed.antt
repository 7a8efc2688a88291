-- ===== src/Dex/Owed.antt =====
-- What the dex owes of each denom, and a pool that x/dex/keeper writes back after it has settled.
use Prim.Native.String.{String}
use text.Mathlib.Text.{◌==◌ as str_eq}
use text.Mathlib.TextEquality.{eq_iff}
use earth_network_chain.Base.{
  ℕ, ◌+◌, ◌≡◌, refl, sym, ap, ◌∙◌, arith, inl, inr, true, false, ok, some, Bool-cases,
}
use earth_network_chain.Base.Maps.{get, set, sum_by, at, sum_by-set}
use earth_network_chain.Dex.Dec.{DecMath}
use earth_network_chain.Dex.Store.{Pool, Dex, set_pool, set_pool-ok, is_lp_share_denom}
use earth_network_chain.Dex.Rewards.{settle_pool_rewards}
use earth_network_chain.Dex.Rewards.Backed.{IsBacked, IsOpen, erth, get-IsOpen, set_pool-IsBacked}
use earth_network_chain.Dex.Rewards.Settle.{settle_pool_rewards-Settles, settle-hub_denom}
use earth_network_chain.Dex.Swap.Hops.{owed_erth}
use earth_network_chain.Dex.Bank.{part}

-- Parts of one denom add up.
pub part-add : (d denom : String) (v w : ℕ) → part d denom v + part d denom w ≡ part d denom (v + w)
part-add d denom v w = ground arith

pub part-zero : (d denom : String) → part d denom 0 ≡ 0
part-zero d denom = ground arith

-- The pools' reserve of one denom on the token side.
abbrev pub token_of : String → ℕ → Pool → ℕ
token_of d id p = part d p.token_denom p.reserve_token

-- What the dex owes of a denom: reserves on either side, and pending rewards.
abbrev pub owed : String → Dex → ℕ
owed d s = sum_by (token_of d) s.pools + part d s.hub_denom (owed_erth s)

-- A denom of one kind is not one of the other.
pub other_denom :
    (a d : String)
    → is_lp_share_denom a ≡ true
    → is_lp_share_denom d ≡ false
    → (str_eq a d ≡ false) × (str_eq d a ≡ false)
other_denom a d lp asset = (differ a d lp asset, differ' a d lp asset)
  where
    differ :
        (a d : String)
        → is_lp_share_denom a ≡ true
        → is_lp_share_denom d ≡ false
        → str_eq a d ≡ false
    differ a d lp asset = elim (Bool-cases (str_eq a d)) [
      | inr other ↦ other
      | inl same ↦ let x = rw ((eq_iff a d).0 same, asset) at lp in cc
    ]

    differ' :
        (a d : String)
        → is_lp_share_denom a ≡ true
        → is_lp_share_denom d ≡ false
        → str_eq d a ≡ false
    differ' a d lp asset = elim (Bool-cases (str_eq d a)) [
      | inr other ↦ other
      | inl same ↦ let x = rw ((eq_iff d a).0 same, lp) at asset in cc
    ]

pub part-other : (d denom : String) (n : ℕ) → str_eq denom d ≡ false → part d denom n ≡ 0
part-other d denom n differ = rw (differ, part) refl

-- The pool with other reserves.
abbrev pub with_reserves : Pool → ℕ → ℕ → Pool
with_reserves p x y = record p { reserve_erth = x; reserve_token = y }

-- A pool whose reserves change stays open.
pub with_reserves-IsOpen :
    (id : ℕ) (p : Pool) (s : Dex) (x y : ℕ) → IsOpen id p s → IsOpen id (with_reserves p x y) s
with_reserves-IsOpen id p s x y h = record {
  distinct = h.distinct;
  keys = h.keys;
  own = h.own;
  indexed = h.indexed;
  volumes = h.volumes;
  reserves = h.reserves;
  nonneg = h.nonneg;
  covered = h.covered;
}

module _ (m : DecMath) (now id : ℕ) (pool : Pool) (s s' : Dex) (x y : ℕ) where
  -- A settled pool that is written back with other reserves.
  pub record Rewrites : Type 0 where
    pub backed : IsBacked s'
    pub hub : s'.hub_denom ≡ s.hub_denom
    pub books :
        let settled = (settle_pool_rewards m now id pool s).0 in
        (d : String)
        → owed d s'
            + part d s.hub_denom settled.reserve_erth
            + part d pool.token_denom settled.reserve_token
          ≡ owed d s + part d s.hub_denom x + part d pool.token_denom y

  -- What the store owes then moves by the change of the reserves, in either denom.
  pub settled-Rewrites :
      IsBacked s
      → get id s.pools ≡ some pool
      → set_pool id
          (with_reserves (settle_pool_rewards m now id pool s).0 x y)
          (settle_pool_rewards m now id pool s).1
        ≡ ok s'
      → Rewrites
  settled-Rewrites h stored e =
      let settled = (settle_pool_rewards m now id pool s).0 in
      let s1 = (settle_pool_rewards m now id pool s).1 in
      let new = with_reserves settled x y in
      let st = settle_pool_rewards-Settles m now id pool s (get-IsOpen id pool s h stored) in
      let w = set_pool-ok id new s1 s' e in
      let hub = settle-hub_denom m now id pool s in
      let pools = ap (λ x. x.pools) w.0 ∙ ap (set id new) st.pools in
      let hub' = ap (λ x. x.hub_denom) w.0 ∙ hub in
      let owes : owed_erth s' + settled.reserve_erth ≡ owed_erth s + x =
        rw (w.0, st.pools) (ground (arith, sum_by-set erth id new s.pools, stored, st.moved)) in
      record {
        backed =
            set_pool-IsBacked id new s1 s' (with_reserves-IsOpen id settled s1 x y st.opened) e;
        hub = hub';
        books = λ d.
            let tokens = sum_by-set (token_of d) id new s.pools in
            let after = ap (sum_by (token_of d)) pools in
            let before : at (token_of d) id s.pools ≡ part d pool.token_denom pool.reserve_token =
              rw (stored, at) refl in
            let wrote = ap (λ z. part d z y) st.denom in
            let held = ap (part d pool.token_denom) st.token in
            let erths =
              part-add d s.hub_denom (owed_erth s') settled.reserve_erth
              ∙ ap (part d s.hub_denom) owes
              ∙ sym (part-add d s.hub_denom (owed_erth s) x) in
            let same = ap (λ z. part d z (owed_erth s')) hub' in
            omega (arith, tokens, after, before, wrote, held, erths, same);
      }
