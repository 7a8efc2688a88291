-- ===== src/Allocation/Live.antt =====
-- `settleTo` of x/allocation/keeper/allocation.go where the bank mints what it is told to.
use earth_network_chain.Base.{
  ℕ, ◌≡◌, refl, not, ◌&&◌, ◌||◌, leb, ◌==◌, some, Bool-cases, inl, inr, Result, ok,
}
use earth_network_chain.Base.Int.{pos_part}
use earth_network_chain.Allocation.State.{Stream, Store, stream_of}
use earth_network_chain.Allocation.Coins.{Coins}
use earth_network_chain.Allocation.Emission.{mint_emission, accrue, settle_to, reward_of}

-- A call that returns a value, not an error.
abbrev pub Returns : {A : Type 0} → Result A → Type 0
Returns {A = A} r = (a : A) × (r ≡ ok a)

module _ (k : Coins)
    (mints : (n : ℕ) (b : k.State) → (b' : k.State) × (k.mint_coins n b ≡ some b')) where
  mint_emission-Returns :
      (reward c : ℕ) (s : Store) (b : k.State) → Returns (mint_emission k reward c s b)
  unfolding mint_emission
  mint_emission-Returns reward c s b = let (b', e) = mints reward b in rw e (_, refl)

  accrue-Returns : (now : ℕ) (st : Stream) (s : Store) (b : k.State) → Returns (accrue k now st s b)
  unfolding accrue
  accrue-Returns now st s b =
      let x = stream_of st s in
      elim (Bool-cases (pos_part x.total_weight == 0 || reward_of k x.last_upkeep now == 0)) [
        | inl idle ↦ rw idle (_, refl)
        | inr live ↦ rw live (mint_emission-Returns _ _ _ b)
      ]

  -- Where the bank mints, a settlement returns.
  pub settle_to-Returns :
      (now : ℕ) (st : Stream) (s : Store) (b : k.State) → Returns (settle_to k now st s b)
  unfolding settle_to
  settle_to-Returns now st s b =
      let last = (stream_of st s).last_upkeep in
      elim (Bool-cases (not (last == 0) && leb now last)) [
        | inl done ↦ rw done (_, refl)
        | inr due ↦ rw due (elim (Bool-cases (last == 0)) [
          | inl first ↦ rw first (_, refl)
          | inr later ↦ let (r, e) = accrue-Returns now st s b in rw (later, e) (_, refl)
        ])
      ]
