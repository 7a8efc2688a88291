-- ===== src/Dex/Notes/Split.antt =====
-- `SplitNoteValues` and `MintNoteSplit` on the amount that they are given.
use Prim.Native.String.{String}
use native.Mathlib.Nat.{div-add-mod', mod-lt}
use earth_network_chain.Base.{
  ℕ, zero, suc, ◌+◌, ◌-◌, ◌*◌, ◌≤◌, ◌<◌, ◌≡◌, ◌⊎◌, inl, inr, refl, arith, subst, ltb, ◌==◌, List,
  [], ◌∷◌, Result, ok, err, Bool-cases, or_err, guard, or_err-ok, >>=-eq-ok, >>=-ok-eq, ◌>>=◌,
  note_refused, tree_full,
}
use earth_network_chain.Dex.Bank.{Bank, part}
use earth_network_chain.Dex.Owed.{part-add, part-zero}
use earth_network_chain.Dex.Notes.{
  max_note_value, max_split_notes, notes_of, split_rest, split_note_values, count, Notes, IsNotes,
  mint_each, mint_note_split,
}

abbrev pub total : List ℕ → ℕ
total [] = 0
total (v ∷ vs) = v + total vs

-- Each value is one that a note can hold.
abbrev pub Fits : List ℕ → Type 0
Fits [] = Unit {0}
Fits (v ∷ vs) = (0 < v) × (v ≤ max_note_value) × Fits vs

-- Values that add up to `v`, each fit for a note, and as few as there can be.
pub record IsSplitOf (v : ℕ) (values : List ℕ) : Type 0 where
  pub adds : total values ≡ v
  pub fits : Fits values
  pub enough : v ≤ count values * max_note_value
  pub fewest : count values * max_note_value < v + max_note_value

abbrev pub SplitOutcome : ℕ → Result (List ℕ) → Type 0
SplitOutcome v (ok values) =
    (0 < v)
    × (v ≤ max_split_notes * max_note_value)
    × (count values ≤ max_split_notes)
    × IsSplitOf v values
SplitOutcome v (err e) = (v ≡ 0) ⊎ (max_split_notes * max_note_value < v)

split_rest-IsSplitOf :
    (fuel rest : ℕ) → rest ≤ fuel * max_note_value → IsSplitOf rest (split_rest fuel rest)
unfolding split_rest
split_rest-IsSplitOf zero rest le = record {
  adds = omega arith;
  fits = tt;
  enough = omega arith;
  fewest = omega arith;
}
split_rest-IsSplitOf (suc fuel) rest le = elim (Bool-cases (rest == 0)) [
  | inl done ↦
      let z : rest ≡ 0 = ground arith in
      rw (done)
        (record { adds = omega arith; fits = tt; enough = omega arith; fewest = omega arith })
  | inr left ↦ elim (Bool-cases (ltb max_note_value rest)) [
    | inl large ↦
        let lt : max_note_value < rest = ground arith in
        let h = split_rest-IsSplitOf fuel (rest - max_note_value) (omega arith) in
        rw (left, large)
          (record {
            adds = omega (arith, h.adds);
            fits = (omega arith, omega arith, h.fits);
            enough = omega (arith, h.enough);
            fewest = omega (arith, h.fewest);
          })
    | inr last ↦
        let pos : 0 < rest = ground arith in
        let fit : rest ≤ max_note_value = ground arith in
        rw (left, last)
          (record {
            adds = omega arith;
            fits = (pos, fit, tt);
            enough = omega arith;
            fewest = omega arith;
          })
  ]
]

notes_of-enough :
    (v : ℕ) → (v ≤ notes_of v * max_note_value) × (notes_of v * max_note_value < v + max_note_value)
notes_of-enough v =
    let q = div-add-mod' (v + max_note_value - 1) max_note_value in
    let r = mod-lt (v + max_note_value - 1) {m = max_note_value} (omega arith) in
    (omega (arith, q, r), omega (arith, q, r))

-- Splitting an amount into notes succeeds exactly for the positive amounts of at most 128 full
-- notes, and then gives values that add up to the amount, each between 1 and the largest note, as
-- few of them as there can be and at most 128.
pub split_note_values-SplitOutcome : (v : ℕ) → SplitOutcome v (split_note_values v)
unfolding split_note_values
split_note_values-SplitOutcome v = elim (Bool-cases (v == 0)) [
  | inl nothing ↦ rw nothing (inl (ground arith))
  | inr positive ↦
      let pos : 0 < v = ground arith in
      let n = notes_of-enough v in
      elim (Bool-cases (ltb max_split_notes (notes_of v))) [
        | inl many ↦
            let lt : max_split_notes < notes_of v = ground arith in
            rw (positive, many) (inr (omega (arith, n.1)))
        | inr few ↦
            let le : notes_of v ≤ max_split_notes = ground arith in
            let h = split_rest-IsSplitOf (notes_of v) v n.0 in
            rw (positive, few) (pos, omega (arith, n.0), omega (arith, h.fewest, n.0), h)
      ]
]

module _ (k : Bank) (notes : Notes k) (laws : IsNotes k notes) (denom d pc ct : String) where
  mint_each-takes :
      (values : List ℕ) (b b' : k.State)
      → mint_each k notes denom values pc ct b ≡ ok b'
      → k.balance b' d + part d denom (total values) ≡ k.balance b d
  unfolding mint_each
  mint_each-takes [] b b' q =
      let same : b ≡ b' = ok_injective q in rw (same, part-zero d denom) (omega arith)
    where
      ok_injective : {x y : k.State} → ok x ≡ ok y → x ≡ y
      ok_injective p = cc
  mint_each-takes (v ∷ vs) b b' q =
      let (b1, e, q1) = >>=-eq-ok (or_err (notes.mint_note denom v pc ct b) note_refused) _ q in
      let one = laws.mint_takes denom d pc ct v b b1 (or_err-ok _ _ e) in
      let rest = mint_each-takes vs b1 b' q1 in
      omega (arith, one, rest, part-add d denom v (total vs))

  -- An amount minted as notes leaves the dex account whole.
  pub mint_note_split-takes :
      (amount : ℕ) (b : k.State) (r : ℕ × k.State)
      → mint_note_split k notes denom amount pc ct b ≡ ok r
      → (k.balance r.1 d + part d denom amount ≡ k.balance b d)
        × (split_note_values amount >>= λ vs. ok (count vs)) ≡ ok r.0
  unfolding mint_note_split
  mint_note_split-takes amount b r q =
      let (vs, e, q1) = >>=-eq-ok (split_note_values amount) _ q in
      let (_, _, q2) = >>=-eq-ok (guard (notes.check_capacity (count vs) b) tree_full) _ q1 in
      let (b', took, er) = >>=-ok-eq (mint_each k notes denom vs pc ct b) (λ x. (count vs, x)) q2 in
      let h = mint_each-takes vs b b' took in
      let s = subst (SplitOutcome amount) e (split_note_values-SplitOutcome amount) in
      rw (← er) (omega (arith, rw (s.3.adds) at h), rw e refl)
