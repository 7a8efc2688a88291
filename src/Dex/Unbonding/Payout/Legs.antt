-- ===== src/Dex/Unbonding/Payout/Legs.antt =====
-- The legs of `payoutUnbonding` of x/dex/keeper/lp_unbonding.go: what they move and mint.
use Prim.Native.String.{String}
use earth_network_chain.Base.{
  ok_injective, ℕ, ◌+◌, ◌*◌, ◌≤◌, ◌≡◌, refl, ap, subst, inl, inr, arith, not, ◌&&◌, ◌==◌, ok,
  Bool-cases, fail_if, or_err-ok, >>=-eq-ok, >>=-ok-eq, ◌>>=◌, invalid_unbonding,
}
use earth_network_chain.Dex.Bank.{Bank, IsBank, part}
use earth_network_chain.Dex.Owed.{part-zero}
use earth_network_chain.Dex.Notes.{Notes, IsNotes, split_note_values, count, max_split_notes}
use earth_network_chain.Dex.Notes.Split.{
  mint_note_split-takes, SplitOutcome, split_note_values-SplitOutcome,
}
use earth_network_chain.Dex.Unbonding.{LpUnbonding}
use earth_network_chain.Dex.Unbonding.Payout.{
  is_private, is_empty, leg_notes, notes_needed, mint_leg, send_leg, pay_private, pay_shielded,
  pay_account, pay_legs,
}

-- A leg takes at most as many notes as one split may.
pub leg_notes-le : (amount n : ℕ) → leg_notes amount ≡ ok n → n ≤ max_split_notes
unfolding leg_notes
leg_notes-le amount n q = elim (Bool-cases (amount == 0)) [
  | inl nothing ↦ let q' = rw nothing at q in ground arith
  | inr positive ↦
      let (vs, e, er) =
        >>=-ok-eq (split_note_values amount) (λ values. count values) (rw positive at q) in
      let s : SplitOutcome amount (ok vs) =
        subst (SplitOutcome amount) e (split_note_values-SplitOutcome amount) in
      rw (← er) (s.2)
]

module _ (k : Bank) (notes : Notes k) where
  -- A payout takes at most as many notes as two splits may.
  pub notes_needed-le :
      (entry : LpUnbonding) (token : String) (legs : ℕ × ℕ) (n : ℕ)
      → notes_needed k notes entry token legs ≡ ok n
      → n ≤ 2 * max_split_notes
  unfolding notes_needed
  notes_needed-le entry token legs n q = elim (Bool-cases (is_private entry)) [
    | inl private ↦
        let (x, ex, q1) = >>=-eq-ok (leg_notes legs.0) _ (rw private at q) in
        let (y, ey, er) = >>=-ok-eq (leg_notes legs.1) (λ y. x + y) q1 in
        omega (arith, leg_notes-le legs.0 x ex, leg_notes-le legs.1 y ey, er)
    | inr named ↦ elim (Bool-cases (k.is_shielded_only token)) [
      | inl shielded ↦ omega (arith, leg_notes-le legs.1 n (rw (named, shielded) at q))
      | inr plain ↦ let e : 0 ≡ n = ok_injective (rw (named, plain) at q) in omega arith
    ]
  ]

  module _ (bank : IsBank k) (laws : IsNotes k notes) (d : String) where
    mint_leg-takes :
        (denom : String) (amount : ℕ) (pc ct : String) (b : k.State) (r : ℕ × k.State)
        → mint_leg k notes denom amount pc ct b ≡ ok r
        → (k.balance r.1 d + part d denom amount ≡ k.balance b d) × (leg_notes amount ≡ ok r.0)
    unfolding mint_leg leg_notes
    mint_leg-takes denom amount pc ct b r q = elim (Bool-cases (amount == 0)) [
      | inl nothing ↦
          let z : amount ≡ 0 = ground arith in
          let e : (0, b) ≡ r = ok_injective (rw nothing at q) in
          rw (← e, z, part-zero d denom) (omega arith, refl)
      | inr positive ↦
          rw positive
            (mint_note_split-takes k notes laws denom d pc ct amount b r (rw positive at q))
    ]

    send_leg-takes :
        (to : ℕ) (denom : String) (amount : ℕ) (b b' : k.State)
        → send_leg k notes to denom amount b ≡ ok b'
        → k.balance b' d + part d denom amount ≡ k.balance b d
    unfolding send_leg
    send_leg-takes to denom amount b b' q = elim (Bool-cases (amount == 0)) [
      | inl nothing ↦
          let z : amount ≡ 0 = ground arith in
          let e : b ≡ b' = ok_injective (rw nothing at q) in
          rw (← e, z, part-zero d denom) (omega arith)
      | inr positive ↦
          bank.to_account_takes to denom d amount b b' (or_err-ok _ _ (rw positive at q))
    ]

    module _ (entry : LpUnbonding) (hub token : String) (legs : ℕ × ℕ) (b : k.State)
        (r : ℕ × k.State) where
      -- Both legs leave the dex account, and nothing else does.
      abbrev Leaves : Type 0
      Leaves = k.balance r.1 d + part d hub legs.0 + part d token legs.1 ≡ k.balance b d

      pay_private-takes :
          pay_private k notes entry hub token legs b ≡ ok r
          → Leaves × ((leg_notes legs.0 >>= λ x. leg_notes legs.1 >>= λ y. ok (x + y)) ≡ ok r.0)
      unfolding pay_private
      pay_private-takes q =
          let (r1, e1, q1) =
            >>=-eq-ok (mint_leg k notes hub legs.0 entry.erth_pc entry.erth_ciphertext b) _ q in
          let (r2, e2, er) =
            >>=-ok-eq (mint_leg k notes token legs.1 entry.pc entry.ciphertext r1.1)
              (λ x. (r1.0 + x.0, x.1)) q1 in
          let f = mint_leg-takes hub legs.0 entry.erth_pc entry.erth_ciphertext b r1 e1 in
          let g = mint_leg-takes token legs.1 entry.pc entry.ciphertext r1.1 r2 e2 in
          rw (← er) (omega (arith, f.0, g.0), rw (f.1, g.1) refl)

      pay_shielded-takes :
          (to : ℕ)
          → pay_shielded k notes to entry hub token legs b ≡ ok r
          → Leaves × (leg_notes legs.1 ≡ ok r.0)
      unfolding pay_shielded
      pay_shielded-takes to q =
          let (_, _, q0) =
            >>=-eq-ok (fail_if (not (legs.1 == 0) && is_empty entry.pc) invalid_unbonding) _ q in
          let (r1, e1, q1) =
            >>=-eq-ok (mint_leg k notes token legs.1 entry.pc entry.ciphertext b) _ q0 in
          let (b2, e2, er) = >>=-ok-eq (send_leg k notes to hub legs.0 r1.1) (λ x. (r1.0, x)) q1 in
          let f = mint_leg-takes token legs.1 entry.pc entry.ciphertext b r1 e1 in
          let g = send_leg-takes to hub legs.0 r1.1 b2 e2 in rw (← er) (omega (arith, f.0, g), f.1)

      pay_account-takes :
          (to : ℕ) → pay_account k notes to hub token legs b ≡ ok r → Leaves × (0 ≡ r.0)
      unfolding pay_account
      pay_account-takes to q =
          let (b1, e1, q1) = >>=-eq-ok (send_leg k notes to hub legs.0 b) _ q in
          let (b2, e2, er) = >>=-ok-eq (send_leg k notes to token legs.1 b1) (λ x. (0, x)) q1 in
          let f = send_leg-takes to hub legs.0 b b1 e1 in
          let g = send_leg-takes to token legs.1 b1 b2 e2 in rw (← er) (omega (arith, f, g), refl)

      -- The legs take what they say, and as many notes as were counted before.
      pub pay_legs-takes :
          (to : ℕ)
          → pay_legs k notes to entry hub token legs b ≡ ok r
          → Leaves × (notes_needed k notes entry token legs ≡ ok r.0)
      unfolding pay_legs notes_needed
      pay_legs-takes to q = elim (Bool-cases (is_private entry)) [
        | inl private ↦ rw private (pay_private-takes (rw private at q))
        | inr named ↦ elim (Bool-cases (k.is_shielded_only token)) [
          | inl shielded ↦ rw (named, shielded) (pay_shielded-takes to (rw (named, shielded) at q))
          | inr plain ↦
              let f = pay_account-takes to (rw (named, plain) at q) in
              rw (named, plain) (f.0, ap ok f.1)
        ]
      ]
