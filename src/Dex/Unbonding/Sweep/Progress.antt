-- ===== src/Dex/Unbonding/Sweep/Progress.antt =====
-- `SweepMaturedUnbondings` of x/dex/keeper/lp_unbonding.go on the entry at the head of the queue.
use native.Mathlib.Nat.{one-le-pow}
use earth_network_chain.Base.{
  ℕ, suc, ◌+◌, ◌-◌, ◌≤◌, ◌<◌, ◌≡◌, ◌≢◌, refl, sym, ap, subst, ◌∙◌, arith, inl, inr, false, ltb, leb,
  min, Option, none, some, ok, ◌⊎◌, [], ◌∷◌, Bool-cases, Option-cases, Result-cases,
}
use earth_network_chain.Dex.Dec.{DecMath}
use earth_network_chain.Dex.Bank.{Bank}
use earth_network_chain.Dex.Notes.{Notes}
use earth_network_chain.Dex.Unbonding.{
  LpUnbonding, UnbondKey, Queue, Book, Codec, key_eq, get_entry, delete_entry, set_lp_unbonding,
  remove_lp_unbonding, lp_unbond_note_budget, lp_unbond_retry_delay, lp_unbond_retry_max_shift,
}
use earth_network_chain.Dex.Unbonding.Entries.{
  IsUnique, delete-absent, get-delete_self, get-put_self, get-put_ne, key_eq→≡,
}
use earth_network_chain.Dex.Unbonding.Payout.{Paid, payout_unbonding}
use earth_network_chain.Dex.Unbonding.Sweep.{
  due_entries, failed_again, free_key, retry_slots, is_note_budget, retry_unbonding, paid_out,
  sweep_due, sweep_matured_unbondings,
}
use earth_network_chain.Dex.Unbonding.Sweep.Listed.{due-absent}
use earth_network_chain.Dex.Unbonding.Sweep.Retried.{free_key-some}
use earth_network_chain.Dex.Unbonding.Sweep.Stays.{sweep_due-stays}
use earth_network_chain.Dex.Unbonding.Sweep.Plain.{Plain-err, payout_unbonding-Plain}

-- What is not in a queue is not in its tail.
tail-absent :
    (j : UnbondKey) (e : UnbondKey × LpUnbonding) (q : Queue)
    → get_entry j (e ∷ q) ≡ none
    → get_entry j q ≡ none
tail-absent j e q absent = elim (Bool-cases (key_eq j e.0)) [
  | inl same ↦ let bad = rw same at absent in cc
  | inr differ ↦ rw differ at absent
]

-- A retry is later than now.
retry_delay_pos : (attempts : ℕ) → 0 < lp_unbond_retry_delay attempts
unfolding lp_unbond_retry_delay
retry_delay_pos attempts =
    let h = one-le-pow (min (attempts - 1) lp_unbond_retry_max_shift) 2 (omega arith) in
    omega (arith, h)

-- Keys of different times differ.
times_differ : (a b : UnbondKey) → a.time < b.time → key_eq a b ≡ false
times_differ a b lt = elim (Bool-cases (key_eq a b)) [
  | inr differ ↦ differ
  | inl same ↦ absurd (omega (arith, ap (λ x. x.time) (key_eq→≡ a b same)))
]

module _ (k : Bank) (now : ℕ) (key : UnbondKey) (due : key.time ≤ now) where
  -- A retry of another entry files nothing under a key that is due.
  retry-absent :
      (e : UnbondKey × LpUnbonding) (st : Book k)
      → key_eq key e.0 ≡ false
      → get_entry key st.lp_unbondings ≡ none
      → get_entry key (retry_unbonding now e.0 e.1 st).lp_unbondings ≡ none
  unfolding retry_unbonding set_lp_unbonding remove_lp_unbonding
  retry-absent e st differ absent =
      let q = st.lp_unbondings in
      let again = failed_again e.1 in
      let at = now + lp_unbond_retry_delay again.payout_attempts in
      elim (Option-cases (free_key retry_slots at e.0 q)) [
        | inl full ↦ rw (full, retry_unbonding) (get-put_ne key e.0 again q differ ∙ absent)
        | inr (next, free) ↦
            let f = free_key-some k retry_slots at e.0 next q free in
            let late : key.time < next.time =
              omega (arith, f.1, due, retry_delay_pos again.payout_attempts) in
            rw (free, retry_unbonding)
              (get-put_ne key next _ (delete_entry e.0 q) (times_differ key next late)
                ∙ delete-absent key e.0 q absent)
      ]

  module _ (notes : Notes k) (codec : Codec) (m : DecMath) where
    -- What has left the queue stays away for the rest of the sweep.
    sweep_due-absent :
        (es : Queue) (minted : ℕ) (st : Book k)
        → get_entry key es ≡ none
        → get_entry key st.lp_unbondings ≡ none
        → get_entry key (sweep_due k notes codec m now es minted st).1.lp_unbondings ≡ none
    unfolding sweep_due remove_lp_unbonding
    sweep_due-absent [] minted st none_due absent = absent
    sweep_due-absent (e ∷ es) minted st none_due absent = elim (Bool-cases (key_eq key e.0)) [
      | inl there ↦ let bad = rw there at none_due in cc
      | inr differ ↦
          let apart = rw differ at none_due in
          let left = lp_unbond_note_budget - minted in
          elim (Bool-cases (leb lp_unbond_note_budget minted)) [
            | inl spent ↦ rw (spent, sweep_due) absent
            | inr more ↦
                elim (Result-cases (payout_unbonding k notes codec m now e.1 left st.dex st.bank)) [
                  | inl (p, paid) ↦
                      rw (more, paid, sweep_due)
                        (sweep_due-absent es (minted + p.minted)
                          (paid_out k notes codec m now e.0 p st) apart
                          (delete-absent key e.0 st.lp_unbondings absent))
                  | inr (why, failed) ↦ elim (Bool-cases (is_note_budget why)) [
                    | inl full ↦ rw (more, failed, full, sweep_due) absent
                    | inr other ↦
                        rw (more, failed, other, sweep_due)
                          (sweep_due-absent es minted (retry_unbonding now e.0 e.1 st) apart
                            (retry-absent e st differ absent))
                  ]
                ]
          ]
    ]

module _ (k : Bank) (notes : Notes k) (codec : Codec) (m : DecMath) (now : ℕ) where
  -- The key that a retry of an entry would take.
  abbrev pub retry_key : UnbondKey × LpUnbonding → Queue → Option UnbondKey
  retry_key e q =
      free_key retry_slots (now + lp_unbond_retry_delay (failed_again e.1).payout_attempts) e.0 q

  -- A retry takes its entry off its key, where another is free.
  retry-gone :
      (e : UnbondKey × LpUnbonding) (st : Book k)
      → e.0.time ≤ now
      → IsUnique st.lp_unbondings
      → retry_key e st.lp_unbondings ≢ none
      → get_entry e.0 (retry_unbonding now e.0 e.1 st).lp_unbondings ≡ none
  unfolding retry_unbonding set_lp_unbonding remove_lp_unbonding
  retry-gone e st due h free = elim (Option-cases (retry_key e st.lp_unbondings)) [
    | inl full ↦ absurd (free full)
    | inr (next, there) ↦
        let q = st.lp_unbondings in
        let again = failed_again e.1 in
        let f = free_key-some k retry_slots _ e.0 next q there in
        let late : e.0.time < next.time =
          omega (arith, f.1, due, retry_delay_pos again.payout_attempts) in
        rw (there, retry_unbonding)
          (get-put_ne e.0 next _ (delete_entry e.0 q) (times_differ e.0 next late)
            ∙ get-delete_self e.0 q h)
  ]

  -- The first step of the loop, with the whole budget left.
  first-gone :
      (e : UnbondKey × LpUnbonding) (es : Queue) (st : Book k)
      → e.0.time ≤ now
      → IsUnique st.lp_unbondings
      → get_entry e.0 es ≡ none
      → retry_key e st.lp_unbondings ≢ none
      → get_entry e.0 (sweep_due k notes codec m now (e ∷ es) 0 st).1.lp_unbondings ≡ none
  unfolding sweep_due remove_lp_unbonding
  first-gone e es st due h apart free =
      let r = payout_unbonding k notes codec m now e.1 lp_unbond_note_budget st.dex st.bank in
      elim (Result-cases r) [
        | inl (p, paid) ↦
            rw (paid, sweep_due)
              (sweep_due-absent k now e.0 due notes codec m es (0 + p.minted)
                (paid_out k notes codec m now e.0 p st) apart
                (get-delete_self e.0 st.lp_unbondings h))
        | inr (why, failed) ↦
            let other =
              Plain-err r why (payout_unbonding-Plain k notes codec m now e.1 st.dex st.bank)
                failed in
            rw (failed, other, sweep_due)
              (sweep_due-absent k now e.0 due notes codec m es 0 (retry_unbonding now e.0 e.1 st)
                apart (retry-gone e st due h free))
      ]

  -- What became of a due entry, `es` being those due after it: its payout goes through, and the sweep
  -- goes on from the state that it leaves, with the entry off the queue; or it fails and the entry is filed under
  -- the key of a retry, later than now, with one more failed attempt.
  abbrev pub IsServed : UnbondKey × LpUnbonding → Queue → Book k → Book k → Type 0
  IsServed e es before after =
      ((p : Paid k) × (payout_unbonding k notes codec m now e.1 lp_unbond_note_budget before.dex
            before.bank
          ≡ ok p)
        × (after
            ≡ (sweep_due k notes codec m now es p.minted
                (paid_out k notes codec m now e.0 p before)).1))
      ⊎ ((next : UnbondKey) × (retry_key e before.lp_unbondings ≡ some next)
          × (now < next.time)
          × (get_entry next after.lp_unbondings
              ≡ some (record (failed_again e.1) { completion_time = next.time })))

  -- A retry files its entry for later, where a key is free.
  retry-filed :
      (e : UnbondKey × LpUnbonding) (next : UnbondKey) (st : Book k)
      → retry_key e st.lp_unbondings ≡ some next
      → get_entry next (retry_unbonding now e.0 e.1 st).lp_unbondings
        ≡ some (record (failed_again e.1) { completion_time = next.time })
  unfolding retry_unbonding set_lp_unbonding remove_lp_unbonding
  retry-filed e next st there =
      rw (there, retry_unbonding) (get-put_self next _ (delete_entry e.0 st.lp_unbondings))

  first-IsServed :
      (e : UnbondKey × LpUnbonding) (es : Queue) (st : Book k)
      → ((j : UnbondKey) → get_entry j st.lp_unbondings ≡ none → get_entry j es ≡ none)
      → retry_key e st.lp_unbondings ≢ none
      → IsServed e es st (sweep_due k notes codec m now (e ∷ es) 0 st).1
  unfolding sweep_due
  first-IsServed e es st only free =
      let r = payout_unbonding k notes codec m now e.1 lp_unbond_note_budget st.dex st.bank in
      elim (Result-cases r) [
        | inl (p, paid) ↦
            let none_yet : 0 + p.minted ≡ p.minted = omega arith in
            inl (
              p,
              paid,
              rw (paid, sweep_due)
                  (ap
                    (λ n.
                      (sweep_due k notes codec m now es n
                        (paid_out k notes codec m now e.0 p st)).1)
                    none_yet),
            )
        | inr (why, failed) ↦ elim (Option-cases (retry_key e st.lp_unbondings)) [
          | inl full ↦ absurd (free full)
          | inr (next, there) ↦
              let other =
                Plain-err r why (payout_unbonding-Plain k notes codec m now e.1 st.dex st.bank)
                  failed in
              let again = failed_again e.1 in
              let f = free_key-some k retry_slots _ e.0 next st.lp_unbondings there in
              let late : now < next.time =
                omega (arith, f.1, retry_delay_pos again.payout_attempts) in
              inr (
                next,
                there,
                late,
                (rw (failed, other, sweep_due)
                    (sweep_due-stays k now next (record again { completion_time = next.time }) notes
                      codec m es 0 (retry_unbonding now e.0 e.1 st) (only next f.0)
                      (retry-filed e next st there))),
              )
        ]
      ]

  due_entries-due :
      (limit : ℕ) (e : UnbondKey × LpUnbonding) (q : Queue)
      → e.0.time ≤ now
      → due_entries (suc limit) now (e ∷ q) ≡ e ∷ due_entries limit now q
  unfolding due_entries
  due_entries-due limit e q due = elim (Bool-cases (ltb now e.0.time)) [
    | inl early ↦ absurd (ground (arith, due))
    | inr ready ↦ rw ready refl
  ]

  -- A sweep takes the entry at the head of a queue of distinct keys off its key where it is due,
  -- unless each of the minute of keys that a retry tries is taken: either its payout goes through, and the sweep
  -- goes on with the other due entries from the state that the payout leaves; or
  -- after the sweep it is filed under the first of those keys that is free, later than now, with one
  -- more failed attempt; whichever other payouts fail.
  pub sweep_matured_unbondings-head :
      (e : UnbondKey × LpUnbonding) (q : Queue) (st : Book k)
      → st.lp_unbondings ≡ e ∷ q
      → e.0.time ≤ now
      → IsUnique st.lp_unbondings
      → retry_key e st.lp_unbondings ≢ none
      → (get_entry e.0 (sweep_matured_unbondings k notes codec m now st).1.lp_unbondings ≡ none)
        × IsServed e (due_entries 49 now q) st (sweep_matured_unbondings k notes codec m now st).1
  unfolding sweep_matured_unbondings
  sweep_matured_unbondings-head e q st head due h free =
      let apart : get_entry e.0 q ≡ none = (subst IsUnique head h).0 in
      let es = due_entries 49 now q in
      let collected : due_entries 50 now st.lp_unbondings ≡ e ∷ es =
        ap (due_entries 50 now) head ∙ due_entries-due 49 e q due in
      let only : (j : UnbondKey) → get_entry j st.lp_unbondings ≡ none → get_entry j es ≡ none =
        λ j absent.
          due-absent 49 now j q (tail-absent j e q (ap (get_entry j) (sym head) ∙ absent)) in
      subst
        (λ x.
          (get_entry e.0 (sweep_due k notes codec m now x 0 st).1.lp_unbondings ≡ none)
          × IsServed e es st (sweep_due k notes codec m now x 0 st).1)
        (sym collected)
        (
          first-gone e es st due h (due-absent 49 now e.0 q apart) free,
          first-IsServed e es st only free,
        )
