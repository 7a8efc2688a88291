-- ===== src/Dex/Unbonding/Sweep/Stays.antt =====
-- `SweepMaturedUnbondings` of x/dex/keeper/lp_unbonding.go on an entry that it has not collected.
use earth_network_chain.Base.{
  ℕ, ◌+◌, ◌-◌, ◌≡◌, ◌∙◌, inl, inr, false, leb, none, some, [], ◌∷◌, Bool-cases, Option-cases,
  Result-cases,
}
use earth_network_chain.Dex.Dec.{DecMath}
use earth_network_chain.Dex.Bank.{Bank}
use earth_network_chain.Dex.Notes.{Notes}
use earth_network_chain.Dex.Unbonding.{
  LpUnbonding, UnbondKey, Queue, Book, Codec, key_eq, get_entry, delete_entry, set_lp_unbonding,
  remove_lp_unbonding, lp_unbond_note_budget, lp_unbond_retry_delay,
}
use earth_network_chain.Dex.Unbonding.Entries.{get-delete_ne, get-put_ne, key_eq_comm}
use earth_network_chain.Dex.Unbonding.Payout.{payout_unbonding}
use earth_network_chain.Dex.Unbonding.Sweep.{
  failed_again, free_key, retry_slots, is_note_budget, retry_unbonding, paid_out, sweep_due,
}
use earth_network_chain.Dex.Unbonding.Sweep.Retried.{free-ne, free_key-some}

module _ (k : Bank) (now : ℕ) (key : UnbondKey) (u : LpUnbonding) where
  -- A retry of another entry leaves an entry that is there alone.
  retry-stays :
      (e : UnbondKey × LpUnbonding) (st : Book k)
      → key_eq key e.0 ≡ false
      → get_entry key st.lp_unbondings ≡ some u
      → get_entry key (retry_unbonding now e.0 e.1 st).lp_unbondings ≡ some u
  unfolding retry_unbonding set_lp_unbonding remove_lp_unbonding
  retry-stays e st differ there =
      let q = st.lp_unbondings in
      let again = failed_again e.1 in
      let at = now + lp_unbond_retry_delay again.payout_attempts in
      elim (Option-cases (free_key retry_slots at e.0 q)) [
        | inl full ↦ rw (full, retry_unbonding) (get-put_ne key e.0 again q differ ∙ there)
        | inr (next, free) ↦
            let f = free_key-some k retry_slots at e.0 next q free in
            let apart = key_eq_comm next key (free-ne k next key u q f.0 there) in
            rw (free, retry_unbonding)
              (get-put_ne key next _ (delete_entry e.0 q) apart
                ∙ (get-delete_ne key e.0 q differ ∙ there))
      ]

  -- An entry whose key is not among those still to be swept stays as it is.
  pub sweep_due-stays :
      (notes : Notes k) (codec : Codec) (m : DecMath) (es : Queue) (minted : ℕ) (st : Book k)
      → get_entry key es ≡ none
      → get_entry key st.lp_unbondings ≡ some u
      → get_entry key (sweep_due k notes codec m now es minted st).1.lp_unbondings ≡ some u
  unfolding sweep_due remove_lp_unbonding
  sweep_due-stays notes codec m [] minted st none_due there = there
  sweep_due-stays notes codec m (e ∷ es) minted st none_due there =
      elim (Bool-cases (key_eq key e.0)) [
        | inl same ↦ let bad = rw same at none_due in cc
        | inr differ ↦
            let apart = rw differ at none_due in
            let left = lp_unbond_note_budget - minted in
            elim (Bool-cases (leb lp_unbond_note_budget minted)) [
              | inl spent ↦ rw (spent, sweep_due) there
              | inr more ↦
                  elim (Result-cases
                    (payout_unbonding k notes codec m now e.1 left st.dex st.bank)) [
                      | inl (p, paid) ↦
                          rw (more, paid, sweep_due)
                            (sweep_due-stays notes codec m es (minted + p.minted)
                              (paid_out k notes codec m now e.0 p st) apart
                              (get-delete_ne key e.0 st.lp_unbondings differ ∙ there))
                      | inr (why, failed) ↦ elim (Bool-cases (is_note_budget why)) [
                        | inl full ↦ rw (more, failed, full, sweep_due) there
                        | inr other ↦
                            rw (more, failed, other, sweep_due)
                              (sweep_due-stays notes codec m es minted
                                (retry_unbonding now e.0 e.1 st) apart
                                (retry-stays e st differ there))
                      ]
                    ]
            ]
      ]
