-- ===== src/Dex/Twap/Additive.antt =====
-- `advancePriceCumulative` of x/dex/keeper/twap.go over consecutive intervals.
use earth_network_chain.Base.{
  ℕ, ◌+◌, ◌-◌, ◌*◌, ◌≤◌, ◌<◌, ◌≡◌, sym, ◌∙◌, ap, ap₂, false, not, ◌&&◌, ltb, ◌==◌, none, some,
  arith, Bool-cases, Option-cases, inl, inr,
}
use earth_network_chain.Base.Maps.{get_or, get_or-set_self}
use earth_network_chain.Dex.Dec.{DecMath}
use earth_network_chain.Dex.Store.{Pool, Dex}
use earth_network_chain.Dex.Twap.{
  spot_price, get_price_cumulative, next_cumulative, advance_price_cumulative,
}

module _ (m : DecMath) (id : ℕ) (pool : Pool) where
  -- The price, 0 where there is none.
  abbrev pub price : ℕ
  price = elim (spot_price m pool) [ none ↦ 0 | some p ↦ p ]

  next_cumulative_lem :
      (now : ℕ) (s : Dex)
      → 0 < get_or id 0 s.price_observed_at
      → get_or id 0 s.price_observed_at ≤ now
      → get_or id 0 (next_cumulative m now id pool s)
        ≡ get_or id 0 s.price_cumulative + price * (now - get_or id 0 s.price_observed_at)
  unfolding next_cumulative
  next_cumulative_lem now s seen le = elim (Option-cases (spot_price m pool)) [
    | inl none_given ↦ rw (none_given, price, next_cumulative) (omega arith)
    | inr given ↦
        let o = get_or id 0 s.price_observed_at in
        rw (given.1, price, next_cumulative)
          (elim (Bool-cases (not (o == 0) && ltb o now)) [
            | inl later ↦ rw later (get_or-set_self id _ 0 s.price_cumulative)
            | inr same ↦
                let e : now - o ≡ 0 = ground arith in
                let f : (o == 0) ≡ false = ground arith in rw (same, f, e) (omega arith)
          ])
  ]

  -- What one advance leaves of a pool that was observed before.
  advance_price_cumulative_lem :
      (now : ℕ) (s : Dex)
      → 0 < get_or id 0 s.price_observed_at
      → get_or id 0 s.price_observed_at ≤ now
      → get_price_cumulative m id (advance_price_cumulative m now id pool s)
        ≡ (get_or id 0 s.price_cumulative + price * (now - get_or id 0 s.price_observed_at), now)
  unfolding advance_price_cumulative
  advance_price_cumulative_lem now s seen le =
      ap₂ (λ a b. (a, b)) (next_cumulative_lem now s seen le)
        (get_or-set_self id now 0 s.price_observed_at)

  -- Bringing the accumulator of a pool that was observed before forward, in one step or in two with
  -- the reserves unchanged in between, adds the pool's spot price, or 0 where it has none, once for
  -- each second since that observation, and sets the time observed to the last one.
  pub advance_price_cumulative_additive :
      (t1 t2 : ℕ) (s : Dex)
      → 0 < get_or id 0 s.price_observed_at
      → get_or id 0 s.price_observed_at ≤ t1
      → t1 ≤ t2
      → (get_price_cumulative m id (advance_price_cumulative m t2 id pool s)
          ≡ (get_or id 0 s.price_cumulative + price * (t2 - get_or id 0 s.price_observed_at), t2))
        × (get_price_cumulative m id
              (advance_price_cumulative m t2 id pool (advance_price_cumulative m t1 id pool s))
            ≡ (get_or id 0 s.price_cumulative + price * (t2 - get_or id 0 s.price_observed_at), t2))
  unfolding advance_price_cumulative
  advance_price_cumulative_additive t1 t2 s seen le1 le2 =
      let s1 = advance_price_cumulative m t1 id pool s in
      let c = get_or id 0 s.price_cumulative in
      let o = get_or id 0 s.price_observed_at in
      let e : get_or id 0 s1.price_observed_at ≡ t1 = get_or-set_self id t1 0 s.price_observed_at in
      let first = next_cumulative_lem t1 s seen le1 in
      let second = next_cumulative_lem t2 s1 (omega (arith, e)) (omega (arith, e)) in
      let second' : get_or id 0 (next_cumulative m t2 id pool s1)
          ≡ get_or id 0 s1.price_cumulative + price * (t2 - t1) =
        second ∙ ap (λ n. get_or id 0 s1.price_cumulative + price * (t2 - n)) e in
      let split : t2 - o ≡ (t1 - o) + (t2 - t1) = omega arith in
      let both : c + price * (t1 - o) + price * (t2 - t1) ≡ c + price * ((t1 - o) + (t2 - t1)) =
        omega arith in
      (
        advance_price_cumulative_lem t2 s seen (omega arith),
        ap₂ (λ a b. (a, b))
            (second'
              ∙ (ap (λ n. n + price * (t2 - t1)) first
                  ∙ (both ∙ ap (λ n. c + price * n) (sym split))))
            (get_or-set_self id t2 0 s1.price_observed_at),
      )
