-- ===== src/Dex/Unbonding/Sweep/Retried.antt =====
-- `retryUnbonding` of x/dex/keeper/lp_unbonding.go: what it conserves, and what the sweep's loop keeps.
use Prim.Native.String.{String}
use earth_network_chain.Base.{
  no_value, ℕ, zero, suc, ◌+◌, ◌≤◌, ◌≡◌, refl, sym, ap, ◌∙◌, arith, inl, inr, false, none, some,
  ◌∷◌, Bool-cases, Option-cases,
}
use earth_network_chain.Dex.Dec.{DecMath}
use earth_network_chain.Dex.Bank.{Bank}
use earth_network_chain.Dex.Notes.{Notes}
use earth_network_chain.Dex.Unbonding.{
  LpUnbonding, UnbondKey, Queue, Book, Codec, key_eq, get_entry, has_entry, delete_entry, put_entry,
  set_lp_unbonding, remove_lp_unbonding, lp_unbond_retry_delay,
}
use earth_network_chain.Dex.Unbonding.Entries.{
  shares_in, queued, queued_at, queued-delete, queued-put, delete-IsUnique, put-IsUnique,
  get-delete_ne, get-put_ne, has_entry-none, key_eq→≡,
}
use earth_network_chain.Dex.Unbonding.Payout.{Paid}
use earth_network_chain.Dex.Unbonding.Payout.Exact.{PaysOut}
use earth_network_chain.Dex.Unbonding.Sweep.{
  failed_again, key_at, free_key, retry_slots, retry_unbonding, paid_out,
}
use earth_network_chain.Dex.Unbonding.Sweep.Listed.{Listed, Listed-keep, free-apart}
use earth_network_chain.Dex.Unbonding.Sweep.Conserves.{IsOrderly, Conserves}

module _ (k : Bank) where
  -- A free key is not one of an entry.
  pub free-ne :
      (next key : UnbondKey) (u : LpUnbonding) (q : Queue)
      → get_entry next q ≡ none
      → get_entry key q ≡ some u
      → key_eq next key ≡ false
  free-ne next key u q free there = elim (Bool-cases (key_eq next key)) [
    | inr differ ↦ differ
    | inl same ↦
        absurd (no_value (sym free ∙ (ap (λ j. get_entry j q) (key_eq→≡ next key same) ∙ there)))
  ]

  -- The key that a retry files its entry at is free, and at no earlier time than asked for.
  pub free_key-some :
      (slots time : ℕ) (key next : UnbondKey) (q : Queue)
      → free_key slots time key q ≡ some next
      → (get_entry next q ≡ none) × (time ≤ next.time)
  unfolding free_key
  free_key-some zero time key next q e = absurd (none_key e)
    where
      none_key : none ≡ some next → ⊥
      none_key p = cc
  free_key-some (suc slots) time key next q e = elim (Bool-cases (has_entry (key_at time key) q)) [
    | inl taken ↦
        let h = free_key-some slots (time + 1) key next q (rw taken at e) in
        (h.0, omega (arith, h.1))
    | inr free ↦
        let same : key_at time key ≡ next = some_injective (rw free at e) in
        rw (← same) (has_entry-none (key_at time key) q free, omega arith)
  ]
    where
      some_injective : {x y : UnbondKey} → some x ≡ some y → x ≡ y
      some_injective p = cc

  -- The queue with an entry filed under another key.
  moved-queued :
      (d : String) (key next : UnbondKey) (u v : LpUnbonding) (q : Queue)
      → get_entry key q ≡ some u
      → get_entry next q ≡ none
      → shares_in d v ≡ shares_in d u
      → queued d (put_entry next v (delete_entry key q)) ≡ queued d q
  moved-queued d key next u v q there free same =
      let gone = get-delete_ne next key q (free-ne next key u q free there) ∙ free in
      let a : queued_at d next (delete_entry key q) ≡ 0 = rw (gone, queued_at) refl in
      let b : queued_at d key q ≡ shares_in d u = rw (there, queued_at) refl in
      omega (arith, queued-put d next v (delete_entry key q), queued-delete d key q, a, b, same)

  -- A retry touches the queue only, and there no shares.
  pub retry-Conserves :
      (now : ℕ) (e : UnbondKey × LpUnbonding) (st : Book k)
      → get_entry e.0 st.lp_unbondings ≡ some e.1
      → Conserves k st (retry_unbonding now e.0 e.1 st)
  unfolding retry_unbonding set_lp_unbonding remove_lp_unbonding
  retry-Conserves now e st there =
      let again = failed_again e.1 in
      let at = now + lp_unbond_retry_delay again.payout_attempts in
      elim (Option-cases (free_key retry_slots at e.0 st.lp_unbondings)) [
        | inl full ↦
            rw (full, retry_unbonding)
              (record {
                escrow = λ d lp.
                    let b : queued_at d e.0 st.lp_unbondings ≡ shares_in d e.1 =
                      rw (there, queued_at) refl in
                    let put = queued-put d e.0 again st.lp_unbondings in omega (arith, put, b);
                assets = λ d asset. refl;
              })
        | inr (next, free) ↦
            let f = free_key-some retry_slots at e.0 next st.lp_unbondings free in
            rw (free, retry_unbonding)
              (record {
                escrow = λ d lp.
                    ap (λ x. k.balance st.bank d + x)
                      (sym (moved-queued d e.0 next e.1 _ st.lp_unbondings there f.0 refl));
                assets = λ d asset. refl;
              })
      ]

  -- What a step of the loop keeps for the entries that are still to come.
  unfoldable pub Ready : Queue → Book k → Type 0
  Ready due st = IsOrderly k st × Listed due st.lp_unbondings

  pub paid-Ready :
      (notes : Notes k) (codec : Codec) (m : DecMath) (now budget : ℕ) (e : UnbondKey × LpUnbonding)
      (due : Queue) (st : Book k) (p : Paid k)
      → PaysOut k m now e.1 st.dex st.bank budget p
      → Ready (e ∷ due) st
      → Ready due (paid_out k notes codec m now e.0 p st)
  unfolding remove_lp_unbonding Ready
  paid-Ready notes codec m now budget e due st p h r = (
    record { backed = h.backed; unique = delete-IsUnique e.0 st.lp_unbondings r.0.unique },
    Listed-keep e.0 due st.lp_unbondings _ (λ j ne. get-delete_ne j e.0 st.lp_unbondings ne) r.1.1
        r.1.2,
  )

  pub retry-Ready :
      (now : ℕ) (e : UnbondKey × LpUnbonding) (due : Queue) (st : Book k)
      → Ready (e ∷ due) st
      → Ready due (retry_unbonding now e.0 e.1 st)
  unfolding retry_unbonding set_lp_unbonding remove_lp_unbonding Ready
  retry-Ready now e due st r =
      let q = st.lp_unbondings in
      let again = failed_again e.1 in
      let at = now + lp_unbond_retry_delay again.payout_attempts in
      elim (Option-cases (free_key retry_slots at e.0 q)) [
        | inl full ↦
            rw (full, retry_unbonding)
              (
                record { backed = r.0.backed; unique = put-IsUnique e.0 again q r.0.unique },
                Listed-keep e.0 due q _ (λ j ne. get-put_ne j e.0 again q ne) r.1.1 r.1.2,
              )
        | inr (next, free) ↦
            let f = free_key-some retry_slots at e.0 next q free in
            let cut =
              Listed-keep e.0 due q (delete_entry e.0 q) (λ j ne. get-delete_ne j e.0 q ne) r.1.1
                r.1.2 in
            rw (free, retry_unbonding)
              (
                record {
                  backed = r.0.backed;
                  unique =
                      put-IsUnique next _ (delete_entry e.0 q) (delete-IsUnique e.0 q r.0.unique);
                },
                Listed-keep next due (delete_entry e.0 q) _
                    (λ j ne. get-put_ne j next _ (delete_entry e.0 q) ne)
                    (free-apart next due q f.0 r.1.2) cut,
              )
      ]
