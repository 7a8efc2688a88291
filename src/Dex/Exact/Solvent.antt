-- ===== src/Dex/Exact/Solvent.antt =====
-- `swapExactInFees` of x/dex/keeper/msg_server_swap.go against the dex account's ERTH.
use text.Mathlib.Text.{◌==◌ as str_eq}
use text.Mathlib.TextEquality.{eq_iff}
use Prim.Native.String.{String}
use earth_network_chain.Base.{
  ok_injective, ap, ◌∙◌, ℕ, ◌+◌, ◌≤◌, ◌<◌, ◌≡◌, ◌≢◌, refl, false, ltb, ◌==◌, some, ok, arith, inl,
  inr, Bool-cases, guard, fail_if, or_err, >>=-eq-ok, >>=-ok-eq, fail_if-ok, or_err-ok, pool_cap,
  insufficient_pool, invalid_amount, invalid_denom, shielded_only, slippage, bank_refused, ◌&&◌,
}
use earth_network_chain.Dex.Dec.{DecMath, IsDecMath}
use earth_network_chain.Dex.Amm.{one_hundred_percent}
use earth_network_chain.Dex.Store.{Dex, within_pool_cap}
use earth_network_chain.Dex.Bank.{Party, account, module_account, held, Bank, IsBank, part}
use earth_network_chain.Dex.Rewards.Backed.{IsBacked}
use earth_network_chain.Dex.Swap.{Hop, hop_token_to_hub, hop_hub_to_token}
use earth_network_chain.Dex.Owed.{owed, part-add, part-zero}
use earth_network_chain.Dex.Swap.Books.{IsNamed, hop_token_to_hub-books, hop_hub_to_token-books}
use earth_network_chain.Dex.Exact.{
  is_account, via_hub, route, escrow, pay, burn_fee, Swapped, swap_exact_in_fees,
}

module _ (m : DecMath) (now : ℕ) (laws : IsDecMath m) (denom_in : String) (amount : ℕ)
    (denom_out : String) (s : Dex) (hop : Hop) where
  -- The books of a route.
  abbrev Routed : Type 0
  Routed =
      IsBacked hop.store
      × IsNamed hop.store
      × (hop.store.hub_denom ≡ s.hub_denom)
      × (hop.burn ≤ hop.fee)
      × ((d : String)
          → owed d hop.store + part d s.hub_denom hop.burn + part d denom_out hop.out
            ≡ owed d s + part d denom_in amount)

  via_hub-Routed :
      (fee : ℕ)
      → fee ≤ one_hundred_percent
      → IsBacked s
      → IsNamed s
      → via_hub m now denom_in amount denom_out fee s ≡ ok hop
      → Routed
  unfolding via_hub
  via_hub-Routed fee valid h named q =
      let (first, q1, q2) = >>=-eq-ok (hop_token_to_hub m now denom_in amount fee s) _ q in
      let (second, q3, e) =
        >>=-ok-eq (hop_hub_to_token m now denom_out first.out fee first.store) _ q2 in
      let f = hop_token_to_hub-books m now laws denom_in amount fee s first valid h named q1 in
      let g =
        hop_hub_to_token-books m now laws denom_out first.out fee first.store second valid f.0 f.1
          q3 in
      rw (← e) (
        g.0,
        g.1,
        g.2 ∙ f.2,
        omega (arith, f.3, g.3),
        λ d.
            let burned = ap (λ x. part d x second.burn) f.2 in
            let between = ap (λ x. part d x first.out) f.2 in
            omega
              (arith, f.4 d, g.4 d, burned, between, part-add d s.hub_denom first.burn second.burn),
      )

  -- What the dex owes of each denom through a whole route.
  route-Routed :
      s.params.swap_fee ≤ one_hundred_percent
      → IsBacked s
      → IsNamed s
      → route m now denom_in amount denom_out s ≡ ok hop
      → Routed
  unfolding route
  route-Routed valid h named q = elim (Bool-cases (str_eq denom_in s.hub_denom)) [
    | inl from_hub ↦
        let f =
          hop_hub_to_token-books m now laws denom_out amount s.params.swap_fee s hop valid h named
            (rw from_hub at q) in
        let same = (eq_iff denom_in s.hub_denom).0 from_hub in
        (f.0, f.1, f.2, f.3, λ d. omega (arith, f.4 d, ap (λ x. part d x amount) same))
    | inr spoke ↦ elim (Bool-cases (str_eq denom_out s.hub_denom)) [
      | inl to_hub ↦
          let f =
            hop_token_to_hub-books m now laws denom_in amount s.params.swap_fee s hop valid h named
              (rw (spoke, to_hub) at q) in
          let same = (eq_iff denom_out s.hub_denom).0 to_hub in
          (f.0, f.1, f.2, f.3, λ d. omega (arith, f.4 d, ap (λ x. part d x hop.out) same))
      | inr other ↦ via_hub-Routed s.params.swap_fee valid h named (rw (spoke, other) at q)
    ]
  ]

module _ (k : Bank) (bank : IsBank k) where
  escrow_adds :
      (p : Party) (denom d : String) (n : ℕ) (b b' : k.State)
      → p ≢ held
      → escrow k p denom n b ≡ some b'
      → k.balance b' d ≡ k.balance b d + part d denom n
  unfolding escrow
  escrow_adds (account a) denom d n b b' ne q = bank.from_account_adds a denom d n b b' q
  escrow_adds (module_account a) denom d n b b' ne q = bank.from_module_adds a denom d n b b' q
  escrow_adds held denom d n b b' ne q = absurd (ne refl)

  pay_takes :
      (p : Party) (denom d : String) (n : ℕ) (b b' : k.State)
      → p ≢ held
      → pay k p denom n b ≡ some b'
      → k.balance b' d + part d denom n ≡ k.balance b d
  unfolding pay
  pay_takes (account a) denom d n b b' ne q = bank.to_account_takes a denom d n b b' q
  pay_takes (module_account a) denom d n b b' ne q = bank.to_module_takes a denom d n b b' q
  pay_takes held denom d n b b' ne q = absurd (ne refl)

  burn_fee_takes :
      (hub d : String) (burn : ℕ) (b b' : k.State)
      → burn_fee k hub burn b ≡ ok b'
      → k.balance b' d + part d hub burn ≡ k.balance b d
  unfolding burn_fee
  burn_fee_takes hub d burn b b' q = elim (Bool-cases (burn == 0)) [
    | inl nothing ↦
        let same : b ≡ b' = ok_injective (rw nothing at q) in
        let z : burn ≡ 0 = ground arith in rw (← same, z, part-zero d hub) (omega arith)
    | inr some_burn ↦
        let (b1, q1, q2) =
          >>=-eq-ok (or_err (k.burn_coins hub burn b) bank_refused) _ (rw some_burn at q) in
        let took = bank.burn_takes hub d burn b b1 (or_err-ok _ _ q1) in
        let kept = bank.record_keeps hub d burn b1 b' (or_err-ok _ _ q2) in
        omega (arith, kept, took)
  ]

  -- A swap between two parties other than the dex's own account that succeeds, from a backed state
  -- in which a token only finds a pool of its own, pays a positive output of at least the minimum,
  -- burns at most its fee, keeps the LP rewards backed and each token's pool its own, and changes
  -- what the dex holds of every denom by exactly the change of what it owes of it, for a bank that
  -- moves what it is told to and a swap fee of at most 100%.
  pub swap_exact_in_fees-solvent :
      (m : DecMath) (now : ℕ) (from to : Party) (denom_in : String) (amount : ℕ)
      (denom_out : String) (min_out : ℕ) (s : Dex) (b : k.State) (r : Swapped k)
      → IsDecMath m
      → s.params.swap_fee ≤ one_hundred_percent
      → from ≢ held
      → to ≢ held
      → IsBacked s
      → IsNamed s
      → swap_exact_in_fees k m now from to denom_in amount denom_out min_out s b ≡ ok r
      → IsBacked r.hop.store
        × (0 < r.hop.out)
        × (min_out ≤ r.hop.out)
        × (r.hop.burn ≤ r.hop.fee)
        × IsNamed r.hop.store
        × ((d : String) → k.balance r.bank d + owed d s ≡ k.balance b d + owed d r.hop.store)
  unfolding swap_exact_in_fees
  swap_exact_in_fees-solvent m now from to denom_in amount denom_out min_out s b r laws valid nf nt
        h named q =
      let (_, _, q1) = >>=-eq-ok (fail_if (amount == 0) invalid_amount) _ q in
      let (_, _, q2) = >>=-eq-ok (guard (within_pool_cap amount) pool_cap) _ q1 in
      let (_, differ, q3) = >>=-eq-ok (fail_if (str_eq denom_out denom_in) invalid_denom) _ q2 in
      let (_, _, q4) =
        >>=-eq-ok (fail_if (is_account from && k.is_shielded_only denom_in) shielded_only) _ q3 in
      let (_, _, q5) =
        >>=-eq-ok (fail_if (is_account to && k.is_shielded_only denom_out) shielded_only) _ q4 in
      let (b1, e1, q6) = >>=-eq-ok (or_err (escrow k from denom_in amount b) bank_refused) _ q5 in
      let (hop, eh, q7) = >>=-eq-ok (route m now denom_in amount denom_out s) _ q6 in
      let (_, pos, q8) = >>=-eq-ok (fail_if (hop.out == 0) insufficient_pool) _ q7 in
      let (_, slip, q9) = >>=-eq-ok (fail_if (ltb hop.out min_out) slippage) _ q8 in
      let (b2, e2, q10) = >>=-eq-ok (or_err (pay k to denom_out hop.out b1) bank_refused) _ q9 in
      let (b3, e3, er) =
        >>=-ok-eq (burn_fee k s.hub_denom hop.burn b2) (λ x. record { hop = hop; bank = x }) q10 in
      finish hop b1 b2 b3 (fail_if-ok _ _ differ) (or_err-ok _ _ e1) eh (fail_if-ok _ _ pos)
        (fail_if-ok _ _ slip) (or_err-ok _ _ e2) e3 er
    where
      finish :
          (hop : Hop) (b1 b2 b3 : k.State)
          → str_eq denom_out denom_in ≡ false
          → escrow k from denom_in amount b ≡ some b1
          → route m now denom_in amount denom_out s ≡ ok hop
          → (hop.out == 0) ≡ false
          → ltb hop.out min_out ≡ false
          → pay k to denom_out hop.out b1 ≡ some b2
          → burn_fee k s.hub_denom hop.burn b2 ≡ ok b3
          → record { hop = hop; bank = b3 } ≡ r
          → IsBacked r.hop.store
            × (0 < r.hop.out)
            × (min_out ≤ r.hop.out)
            × (r.hop.burn ≤ r.hop.fee)
            × IsNamed r.hop.store
            × ((d : String) → k.balance r.bank d + owed d s ≡ k.balance b d + owed d r.hop.store)
      finish hop b1 b2 b3 differ e1 eh pos slip e2 e3 er =
          let f = route-Routed m now laws denom_in amount denom_out s hop valid h named eh in
          rw (← er) (
            f.0,
            ground arith,
            ground arith,
            f.3,
            f.1,
            λ d.
                let in_ = escrow_adds from denom_in d amount b b1 nf e1 in
                let out = pay_takes to denom_out d hop.out b1 b2 nt e2 in
                let burnt = burn_fee_takes s.hub_denom d hop.burn b2 b3 e3 in
                omega (arith, f.4 d, in_, out, burnt),
          )
