-- ===== src/Allocation/Votes/Settled.antt =====
-- `settleTo` and `advanceIndexTo` of x/allocation leave the votes: they move a stream's index and the
-- time of its last settlement only.
use earth_network_chain.Base.{
  ℕ, ◌≡◌, subst, not, ◌&&◌, ◌||◌, leb, ◌==◌, if◌then◌else◌, Bool-cases, inl, inr, ok, or_err,
  >>=-ok-eq, bank_refused,
}
use earth_network_chain.Base.Int.{pos_part}
use earth_network_chain.Allocation.State.{
  Stream, caretaker, groundworks, StreamState, Store, stream_of, with_stream,
}
use earth_network_chain.Allocation.Coins.{Coins, IsCoins}
use earth_network_chain.Allocation.Emission.{
  mint_emission, accrue, settle_to, advance_index_to, reward_of,
}
use earth_network_chain.Allocation.Index.{settle_to-Advances}
use earth_network_chain.Allocation.Votes.Written.{IsVoted, IsStanding}

-- A property of each stream.
abbrev pub Each : (Stream → StreamState → Type 0) → Store → Type 0
Each P s = (j : Stream) → P j (stream_of j s)

pub with_stream-Each :
    (P : Stream → StreamState → Type 0) (st : Stream) (x : StreamState) (s : Store)
    → (P st (stream_of st s) → P st x)
    → Each P s
    → Each P (with_stream st x s)
with_stream-Each P caretaker x s f h caretaker = f (h caretaker)
with_stream-Each P caretaker x s f h groundworks = h groundworks
with_stream-Each P groundworks x s f h caretaker = h caretaker
with_stream-Each P groundworks x s f h groundworks = f (h groundworks)

residue-Each :
    (P : Stream → StreamState → Type 0) (n : ℕ) (s : Store)
    → Each P s
    → Each P (record s { residue = n })
residue-Each P n s h caretaker = h caretaker
residue-Each P n s h groundworks = h groundworks

-- A property that does not depend on the index or the time of the last settlement.
module _ (P : Stream → StreamState → Type 0)
    (raise : (j : Stream) (x : StreamState) (n : ℕ) → P j x → P j (record x { reward_index = n }))
    (stamp : (j : Stream) (x : StreamState) (n : ℕ) → P j x → P j (record x { last_upkeep = n }))
    (k : Coins) (now : ℕ) (st : Stream) where
  accrue-Each :
      (s : Store) (b : k.State) (r : Store × k.State)
      → Each P s
      → accrue k now st s b ≡ ok r
      → Each P (r.0)
  unfolding accrue mint_emission
  accrue-Each s b r h q =
      let x = stream_of st s in
      let reward = reward_of k x.last_upkeep now in
      elim (Bool-cases (pos_part x.total_weight == 0 || reward == 0)) [
        | inl idle ↦
            let q' = rw idle at q in let eq : (s, b) ≡ r = cc in subst (λ j. Each P (j.0)) eq h
        | inr live ↦
            let q' = rw live at q in
            let (b', eb, eq) = >>=-ok-eq (or_err (k.mint_coins reward b) bank_refused) _ q' in
            subst (λ j. Each P (j.0)) eq
              (residue-Each P _ _ (with_stream-Each P st _ s (raise st x _) h))
      ]

  pub settle_to-Each :
      (s : Store) (b : k.State) (r : Store × k.State)
      → Each P s
      → settle_to k now st s b ≡ ok r
      → Each P (r.0)
  unfolding settle_to
  settle_to-Each s b r h q =
      let last = (stream_of st s).last_upkeep in
      elim (Bool-cases (not (last == 0) && leb now last)) [
        | inl done ↦
            let q' = rw done at q in let eq : (s, b) ≡ r = cc in subst (λ j. Each P (j.0)) eq h
        | inr due ↦
            let q' = rw due at q in
            let (m, em, eq) =
              >>=-ok-eq (if last == 0 then ok (s, b) else accrue k now st s b) _ q' in
            subst (λ j. Each P (j.0)) eq
              (with_stream-Each P st _ (m.0) (stamp st (stream_of st (m.0)) now)
                (elim (Bool-cases (last == 0)) [
                  | inl first ↦
                      let em' = rw first at em in
                      let e : (s, b) ≡ m = cc in subst (λ j. Each P (j.0)) e h
                  | inr later ↦ accrue-Each s b m h (rw later at em)
                ]))
      ]

-- Settling a stream leaves a state as sound as it was.
pub settle_to-IsStanding :
    (k : Coins)
    → IsCoins k
    → (at : ℕ) (st : Stream) (s : Store) (b : k.State) (r : Store × k.State) → IsStanding k s b
    → settle_to k at st s b ≡ ok r
    → IsStanding k (r.0) (r.1)
settle_to-IsStanding k hk at st s b r h q =
    let v = settle_to-Advances k hk at st 0 s b r h.healthy.solvent (h.healthy.agreed st) q in
    record {
      healthy = record { solvent = v.solvent; agreed = λ j. v.agreed j (h.healthy.agreed j) };
      votes =
          settle_to-Each (λ j. IsVoted)
            (λ j x n v. record { distinct = v.distinct; voted = v.voted; past = v.past })
            (λ j x n v. record { distinct = v.distinct; voted = v.voted; past = v.past }) k at st s
            b r h.votes q;
    }

pub advance_index_to-IsStanding :
    (k : Coins)
    → IsCoins k
    → (nanos : ℕ) (st : Stream) (s : Store) (b : k.State) (r : Store × k.State) → IsStanding k s b
    → advance_index_to k nanos st s b ≡ ok r
    → IsStanding k (r.0) (r.1)
unfolding advance_index_to
advance_index_to-IsStanding k hk nanos st s b r h q = settle_to-IsStanding k hk _ st s b r h q
