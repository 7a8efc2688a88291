-- ===== src/Dex/Swap/Books.antt =====
-- The hops of x/dex/keeper/msg_server_swap.go against what the dex owes of each denom.
use Prim.Native.String.{String}
use earth_network_chain.Base.{
  ℕ, ◌+◌, ◌≤◌, ◌≡◌, ◌≢◌, refl, sym, ap, ap₂, subst, ◌∙◌, arith, inl, inr, ◌==◌, Option, none, some,
  ok, Bool-cases, no_value, some_injective, ==_iff,
}
use earth_network_chain.Base.Maps.{get, sum_by, at, sum_by-set, get-set_self, get-set_ne}
use earth_network_chain.Dex.Dec.{DecMath, IsDecMath}
use earth_network_chain.Dex.Amm.{one_hundred_percent}
use earth_network_chain.Dex.Store.{Pool, Dex, pool_for_token, pool_by_token_get}
use earth_network_chain.Dex.Rewards.Backed.{IsBacked}
use earth_network_chain.Dex.Bank.{part}
use earth_network_chain.Dex.Owed.{owed, token_of, part-add, part-zero}
use earth_network_chain.Dex.Swap.{Hop, hop_token_to_hub, hop_hub_to_token}
use earth_network_chain.Dex.Swap.Hops.{
  owed_erth, Repriced, hop_token_to_hub_lem, hop_hub_to_token_lem,
}

-- The pool that a token finds is a pool of that token.
abbrev pub IsNamed : Dex → Type 0
IsNamed s = (token : String) (p : Pool) → pool_for_token token s ≡ some p → p.token_denom ≡ token

module _ (token : String) (token_in token_out : ℕ) (s s' : Dex)
    (h : Repriced token token_in token_out s s') where
  repriced-IsNamed : IsNamed s → IsNamed s'
  unfolding pool_for_token
  repriced-IsNamed named t p e = go (pool_by_token_get t s.pool_by_token) refl (
      subst (λ m. elim (pool_by_token_get t m) [ none ↦ none | some id ↦ get id s'.pools ] ≡ some p)
        h.same.0 e)
    where
      go :
          (o : Option ℕ)
          → pool_by_token_get t s.pool_by_token ≡ o
          → elim o [ none ↦ none | some id ↦ get id s'.pools ] ≡ some p
          → p.token_denom ≡ t
      go none e q = absurd (no_value q)
      go (some j) e q = elim (Bool-cases (j == h.id)) [
        | inl same ↦
            let ej : j ≡ h.id = (==_iff j h.id).0 same in
            let found : get j s.pools ≡ some h.before = ap (λ x. get x s.pools) ej ∙ h.stored in
            let now_there : get j s'.pools ≡ some h.after =
              ap₂ (λ x m. get x m) ej h.pools ∙ get-set_self h.id h.after s.pools in
            let is_after : h.after ≡ p = some_injective (sym now_there ∙ q) in
            sym (ap (λ (x : Pool). x.token_denom) is_after)
            ∙ (h.kept ∙ named t h.before (rw (e, pool_for_token) found))
        | inr other ↦
            let ne : j ≢ h.id = λ p'. ground arith in
            let still : get j s'.pools ≡ get j s.pools =
              ap (get j) h.pools ∙ get-set_ne j h.id h.after s.pools ne in
            named t p (rw (e, pool_for_token) (sym still ∙ q))
      ]

  -- The token's reserves move by what comes in and goes out.
  repriced-tokens :
      (d : String)
      → IsNamed s
      → sum_by (token_of d) s'.pools + part d token token_out
        ≡ sum_by (token_of d) s.pools + part d token token_in
  repriced-tokens d named =
      let name = named token h.before h.found in
      let after = ap (sum_by (token_of d)) h.pools in
      let before : at (token_of d) h.id s.pools
          ≡ part d h.before.token_denom h.before.reserve_token =
        rw (h.stored, at) refl in
      let wrote = ap (λ x. part d x h.after.reserve_token) h.kept in
      let moved =
        part-add d h.before.token_denom h.after.reserve_token token_out
        ∙ ap (part d h.before.token_denom) h.tokens
        ∙ sym (part-add d h.before.token_denom h.before.reserve_token token_in) in
      let gone = ap (λ x. part d x token_out) name in
      let come = ap (λ x. part d x token_in) name in
      omega (
        arith,
        sum_by-set (token_of d) h.id h.after s.pools,
        after,
        before,
        wrote,
        moved,
        gone,
        come,
      )

module _ (m : DecMath) (now : ℕ) (laws : IsDecMath m) (token : String) (amount fee : ℕ) (s : Dex)
    (hop : Hop) (valid : fee ≤ one_hundred_percent) (h : IsBacked s) (named : IsNamed s) where
  -- A hop's books: what comes in is owed, but for what goes out and what is burned.
  pub hop_token_to_hub-books :
      hop_token_to_hub m now token amount fee s ≡ ok hop
      → IsBacked hop.store
        × IsNamed hop.store
        × (hop.store.hub_denom ≡ s.hub_denom)
        × (hop.burn ≤ hop.fee)
        × ((d : String)
            → owed d hop.store + part d s.hub_denom hop.burn + part d s.hub_denom hop.out
              ≡ owed d s + part d token amount)
  hop_token_to_hub-books q =
      let f = hop_token_to_hub_lem m now laws token amount fee s hop valid h q in
      let r = f.3 in
      (
        f.0,
        repriced-IsNamed token amount 0 s hop.store r named,
        r.same.1,
        f.2,
        λ d.
            let tokens = repriced-tokens token amount 0 s hop.store r d named in
            let hub = ap (λ x. part d x (owed_erth hop.store)) r.same.1 in
            let a = part-add d s.hub_denom (owed_erth hop.store) hop.out in
            let b = part-add d s.hub_denom (owed_erth hop.store + hop.out) hop.burn in
            let e = ap (part d s.hub_denom) f.1 in
            omega (arith, tokens, hub, a, b, e, part-zero d token),
      )

  pub hop_hub_to_token-books :
      hop_hub_to_token m now token amount fee s ≡ ok hop
      → IsBacked hop.store
        × IsNamed hop.store
        × (hop.store.hub_denom ≡ s.hub_denom)
        × (hop.burn ≤ hop.fee)
        × ((d : String)
            → owed d hop.store + part d s.hub_denom hop.burn + part d token hop.out
              ≡ owed d s + part d s.hub_denom amount)
  hop_hub_to_token-books q =
      let f = hop_hub_to_token_lem m now laws token amount fee s hop valid h q in
      let r = f.3 in
      (
        f.0,
        repriced-IsNamed token 0 hop.out s hop.store r named,
        r.same.1,
        f.2,
        λ d.
            let tokens = repriced-tokens token 0 hop.out s hop.store r d named in
            let hub = ap (λ x. part d x (owed_erth hop.store)) r.same.1 in
            let a = part-add d s.hub_denom (owed_erth hop.store) hop.burn in
            let b = part-add d s.hub_denom (owed_erth s) amount in
            let e = ap (part d s.hub_denom) f.1 in
            omega (arith, tokens, hub, a, b, e, part-zero d token),
      )
