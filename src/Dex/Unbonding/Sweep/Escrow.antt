-- ===== src/Dex/Unbonding/Sweep/Escrow.antt =====
-- `SweepMaturedUnbondings` of x/dex/keeper/lp_unbonding.go against the escrowed shares, the assets
-- that the dex owes and the ledger of the LP rewards.
use earth_network_chain.Base.{
  ℕ, ◌+◌, ◌-◌, ◌≤◌, arith, inl, inr, leb, [], ◌∷◌, Bool-cases, Result-cases,
}
use earth_network_chain.Dex.Dec.{DecMath}
use earth_network_chain.Dex.Bank.{Bank, IsBank}
use earth_network_chain.Dex.Notes.{Notes, IsNotes}
use earth_network_chain.Dex.Unbonding.{
  Queue, Book, Codec, lp_unbond_note_budget, lp_unbond_sweep_limit,
}
use earth_network_chain.Dex.Unbonding.Payout.{payout_unbonding}
use earth_network_chain.Dex.Unbonding.Payout.Exact.{payout_unbonding-PaysOut}
use earth_network_chain.Dex.Unbonding.Sweep.{
  is_note_budget, retry_unbonding, paid_out, sweep_due, sweep_matured_unbondings,
}
use earth_network_chain.Dex.Unbonding.Sweep.Listed.{due_entries-Listed}
use earth_network_chain.Dex.Unbonding.Sweep.Conserves.{
  IsOrderly, Conserves, Conserves-refl, Conserves-trans, paid-Conserves,
}
use earth_network_chain.Dex.Unbonding.Sweep.Retried.{
  Ready, retry-Conserves, paid-Ready, retry-Ready,
}

-- What a sweep that started at `st` has come to.
pub record Swept (k : Bank) (st : Book k) (r : ℕ × Book k) : Type 0 where
  pub budget : r.0 ≤ lp_unbond_note_budget
  pub sound : IsOrderly k r.1
  pub conserves : Conserves k st r.1

module _ (k : Bank) (notes : Notes k) (codec : Codec) (m : DecMath) (now : ℕ) (bank : IsBank k)
    (laws : IsNotes k notes) where
  stay :
      (minted : ℕ) (st : Book k)
      → minted ≤ lp_unbond_note_budget
      → IsOrderly k st
      → Swept k st (minted, st)
  stay minted st le h = record { budget = le; sound = h; conserves = Conserves-refl k st }

  onwards : (a b : Book k) (r : ℕ × Book k) → Conserves k a b → Swept k b r → Swept k a r
  onwards a b r f h = record {
    budget = h.budget;
    sound = h.sound;
    conserves = Conserves-trans k a b r.1 f h.conserves;
  }

  sweep_due-Swept :
      (due : Queue) (minted : ℕ) (st : Book k)
      → minted ≤ lp_unbond_note_budget
      → Ready k due st
      → Swept k st (sweep_due k notes codec m now due minted st)
  unfolding sweep_due Ready
  sweep_due-Swept [] minted st le r = stay minted st le r.0
  sweep_due-Swept (e ∷ due) minted st le r =
      let left = lp_unbond_note_budget - minted in
      elim (Bool-cases (leb lp_unbond_note_budget minted)) [
        | inl spent ↦ rw (spent, sweep_due) (stay minted st le r.0)
        | inr more ↦
            elim (Result-cases (payout_unbonding k notes codec m now e.1 left st.dex st.bank)) [
              | inl (p, paid) ↦
                  let h =
                    payout_unbonding-PaysOut k notes codec m now e.1 left st.dex st.bank p bank laws
                      r.0.backed paid in
                  let next = paid_out k notes codec m now e.0 p st in
                  rw (more, paid, sweep_due)
                    (onwards st next _ (paid-Conserves k notes codec m now left e st p r.1.0 h) (
                      sweep_due-Swept due (minted + p.minted) next (omega (arith, h.limit, le))
                        (paid-Ready k notes codec m now left e due st p h r)))
              | inr (why, failed) ↦ elim (Bool-cases (is_note_budget why)) [
                | inl full ↦ rw (more, failed, full, sweep_due) (stay minted st le r.0)
                | inr other ↦
                    rw (more, failed, other, sweep_due)
                      (onwards st (retry_unbonding now e.0 e.1 st) _
                        (retry-Conserves k now e st r.1.0)
                        (sweep_due-Swept due minted (retry_unbonding now e.0 e.1 st) le
                          (retry-Ready k now e due st r)))
              ]
            ]
      ]

  -- A sweep of the matured withdrawals, from a state with backed rewards and distinct keys in the
  -- queue, whichever payouts fail, mints no more notes than its budget, keeps the LP rewards backed
  -- and the keys of the queue distinct, and conserves: for each LP share the dex holds as many more
  -- than wait in the queue as before, so that no withdrawal is dropped or paid twice, and of each
  -- other denom it holds as much more than it owes as before; the bank and the shielded pool move
  -- what they are told to.
  pub sweep_matured_unbondings-Swept :
      (st : Book k) → IsOrderly k st → Swept k st (sweep_matured_unbondings k notes codec m now st)
  unfolding sweep_matured_unbondings Ready
  sweep_matured_unbondings-Swept st h =
      sweep_due-Swept _ 0 st (omega arith)
        (h, due_entries-Listed lp_unbond_sweep_limit now st.lp_unbondings h.unique)
