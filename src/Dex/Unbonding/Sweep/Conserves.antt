-- ===== src/Dex/Unbonding/Sweep/Conserves.antt =====
-- What `SweepMaturedUnbondings` of x/dex/keeper/lp_unbonding.go conserves, and a payout's part of it.
use Prim.Native.String.{String}
use earth_network_chain.Base.{ℕ, ◌+◌, ◌-◌, ◌≤◌, ◌≡◌, refl, ap, ap₂, arith, true, false, some}
use earth_network_chain.Base.Maps.{sum_by, at, sum_by-set}
use earth_network_chain.Dex.Dec.{DecMath}
use earth_network_chain.Dex.Store.{is_lp_share_denom}
use earth_network_chain.Dex.Rewards.Backed.{IsBacked}
use earth_network_chain.Dex.Swap.Hops.{owed_erth}
use earth_network_chain.Dex.Bank.{Bank, part}
use earth_network_chain.Dex.Notes.{Notes}
use earth_network_chain.Dex.Owed.{token_of, owed, other_denom, part-other, part-add}
use earth_network_chain.Dex.Unbonding.{
  LpUnbonding, UnbondKey, Book, Codec, get_entry, remove_lp_unbonding,
}
use earth_network_chain.Dex.Unbonding.Entries.{
  IsUnique, shares_in, queued, queued_at, queued-delete,
}
use earth_network_chain.Dex.Unbonding.Payout.{Paid, withdrawn}
use earth_network_chain.Dex.Unbonding.Payout.Exact.{PaysOut}
use earth_network_chain.Dex.Unbonding.Sweep.{paid_out}

module _ (k : Bank) where
  -- What a state with withdrawals keeps.
  pub record IsOrderly (st : Book k) : Type 0 where
    pub backed : IsBacked st.dex
    pub unique : IsUnique st.lp_unbondings

  -- From one state to another: the shares held less those queued, and every asset held less what
  -- is owed of it, stay as they are.
  pub record Conserves (st st' : Book k) : Type 0 where
    pub escrow :
        (d : String)
        → is_lp_share_denom d ≡ true
        → k.balance st'.bank d + queued d st.lp_unbondings
          ≡ k.balance st.bank d + queued d st'.lp_unbondings
    pub assets :
        (d : String)
        → is_lp_share_denom d ≡ false
        → k.balance st'.bank d + owed d st.dex ≡ k.balance st.bank d + owed d st'.dex

  pub Conserves-refl : (st : Book k) → Conserves st st
  Conserves-refl st = record { escrow = λ d e. refl; assets = λ d e. refl }

  pub Conserves-trans : (a b c : Book k) → Conserves a b → Conserves b c → Conserves a c
  Conserves-trans a b c f g = record {
    escrow = λ d e. omega (arith, f.escrow d e, g.escrow d e);
    assets = λ d e. omega (arith, f.assets d e, g.assets d e);
  }

  -- A payout whose entry leaves the queue.
  pub paid-Conserves :
      (notes : Notes k) (codec : Codec) (m : DecMath) (now budget : ℕ) (e : UnbondKey × LpUnbonding)
      (st : Book k) (p : Paid k)
      → get_entry e.0 st.lp_unbondings ≡ some e.1
      → PaysOut k m now e.1 st.dex st.bank budget p
      → Conserves st (paid_out k notes codec m now e.0 p st)
  unfolding remove_lp_unbonding
  paid-Conserves notes codec m now budget e st p there h = record {
    escrow = λ d lp.
        let taken : queued_at d e.0 st.lp_unbondings ≡ shares_in d e.1 =
          rw (there, queued_at) refl in
        let a = part-other d st.dex.hub_denom p.legs.0 (other_denom d _ lp h.assets.1).1 in
        let b = part-other d h.before.token_denom p.legs.1 (other_denom d _ lp h.assets.0).1 in
        omega (arith, h.moved d, a, b, taken, queued-delete d e.0 st.lp_unbondings);
    assets = λ d asset.
        let share = part-other d e.1.share_denom e.1.shares (other_denom _ d h.share asset).0 in
        let left = token-left d in
        let hub = part-add d st.dex.hub_denom (owed_erth p.store) p.legs.0 in
        let total = ap (part d st.dex.hub_denom) h.owed in
        let same = ap (λ x. part d x (owed_erth p.store)) h.hub in
        omega (arith, h.moved d, share, left, hub, total, same);
  }
    where
      token-left :
          (d : String)
          → sum_by (token_of d) p.store.pools + part d h.before.token_denom p.legs.1
            ≡ sum_by (token_of d) st.dex.pools
      token-left d =
          let w = sum_by-set (token_of d) e.1.pool_id (withdrawn h.settled p.legs) st.dex.pools in
          let new = ap (sum_by (token_of d)) h.pools in
          let old : at (token_of d) e.1.pool_id st.dex.pools
              ≡ part d h.before.token_denom h.before.reserve_token =
            rw (h.stored, at) refl in
          let rest : token_of d e.1.pool_id (withdrawn h.settled p.legs)
              ≡ part d h.before.token_denom (h.before.reserve_token - p.legs.1) =
            ap₂ (λ x y. part d x (y - p.legs.1)) h.denom h.kept in
          let cut = part-add d h.before.token_denom (h.before.reserve_token - p.legs.1) p.legs.1 in
          let le : p.legs.1 ≤ h.before.reserve_token = omega (arith, h.within, h.kept) in
          let whole : h.before.reserve_token - p.legs.1 + p.legs.1 ≡ h.before.reserve_token =
            omega (arith, le) in
          omega (arith, w, new, old, rest, cut, ap (part d h.before.token_denom) whole)
