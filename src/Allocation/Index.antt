-- ===== src/Allocation/Index.antt =====
-- `settleTo` on the ledger of x/allocation: the emission that is minted against the index.
use native.Mathlib.Nat.{div-mul-le_self, div-add-mod', mod-lt}
use earth_network_chain.Base.{
  ℕ, ◌+◌, ◌-◌, ◌*◌, ◌/◌, ◌≤◌, ◌<◌, ◌≡◌, refl, sym, ap, ◌∙◌, subst, not, ◌&&◌, ◌||◌, leb, ◌==◌,
  if◌then◌else◌, arith, Bool-cases, inl, inr, ok, or_err, >>=-ok-eq, or_err-ok, bank_refused,
}
use earth_network_chain.Base.Int.{pos_part}
use earth_network_chain.Base.Maps.{sum_by, sum_by-grow, Every-map}
use earth_network_chain.Allocation.State.{
  Stream, caretaker, groundworks, AllocationOption, StreamState, Store, stream_of, with_stream,
  index_precision,
}
use earth_network_chain.Allocation.Coins.{Coins, IsCoins}
use earth_network_chain.Allocation.Emission.{ceil_quo, mint_emission, accrue, settle_to, reward_of}
use earth_network_chain.Allocation.Booked.{
  weight, claim, claims, IsKept, IsBooked, IsAgreed, IsSolvent, with_stream-IsSolvent,
  with_stream-IsAgreed, stream_of-with_stream,
}

-- The least number of units that covers `n`.
pub ceil_quo_lem : (n d : ℕ) → 0 < d → (n ≤ ceil_quo n d * d) × (ceil_quo n d * d < n + d)
unfolding ceil_quo
ceil_quo_lem n d p =
    let e = div-add-mod' (n + d - 1) d in let r = mod-lt (n + d - 1) p in (omega arith, omega arith)

-- The stream with its index raised.
abbrev raised : ℕ → StreamState → StreamState
raised delta x = record x { reward_index = x.reward_index + delta }

module _ (delta : ℕ) (x : StreamState) (h : IsBooked x) where
  raised-IsBooked : IsBooked (raised delta x)
  raised-IsBooked = record {
    distinct = h.distinct;
    kept =
        Every-map (IsKept x.reward_index) _ x.options
          (λ id o g. record {
            own = g.own;
            nonneg = g.nonneg;
            current = omega (arith, g.current);
            idle = g.idle;
          })
          h.kept;
    summed = h.summed;
    summed_nonneg = h.summed_nonneg;
  }

  -- What the options could collect grows by the raise times their weight.
  claims-raised : claims (raised delta x) ≡ claims x + delta * sum_by weight x.options
  claims-raised =
      sum_by-grow (claim (x.reward_index + delta)) (claim x.reward_index) weight delta x.options
        (Every-map (IsKept x.reward_index) _ x.options grown h.kept)
    where
      grown :
          (id : ℕ) (o : AllocationOption)
          → IsKept x.reward_index id o
          → claim (x.reward_index + delta) id o ≡ claim x.reward_index id o + delta * weight id o
      grown id o g =
          let e : x.reward_index + delta - o.last_reward_index
              ≡ x.reward_index - o.last_reward_index + delta =
            omega (arith, g.current) in
          rw e (omega arith)

-- What a settlement of the stream `st` leaves alone.
pub record Advances (k : Coins) (st : Stream) (free : ℕ) (s : Store) (b : k.State) (s' : Store)
    (b' : k.State) : Type 0 where
  pub solvent : IsSolvent k free s' b'
  pub agreed : (j : Stream) → IsAgreed (stream_of j s) → IsAgreed (stream_of j s')
  pub options : (stream_of st s').options ≡ (stream_of st s).options
  pub grows : k.held b ≤ k.held b'

residue-with :
    (st : Stream) (x : StreamState) (n : ℕ) (s : Store)
    → record (with_stream st x s) { residue = (with_stream st x s).residue + n }
      ≡ with_stream st x (record s { residue = s.residue + n })
residue-with caretaker x n s = refl
residue-with groundworks x n s = refl

-- The minted reward covers what a raise lets the options collect, with the residue that is booked.
accrue-covers :
    (reward total : ℕ)
    → 0 < total
    → let delta = reward * index_precision / total in
      let c = ceil_quo (delta * total) index_precision in
      (delta * total ≤ index_precision * c) × (c ≤ reward)
accrue-covers reward total p =
    let delta = reward * index_precision / total in
    let c = ceil_quo_lem (delta * total) index_precision (omega arith) in
    let q = div-mul-le_self (reward * index_precision) total in (omega arith, omega arith)

module _ (k : Coins) (hk : IsCoins k) (now : ℕ) (st : Stream) (free : ℕ) where
  -- Minting a reward while the index is raised.
  minted-Advances :
      (reward : ℕ) (s : Store) (b b' : k.State)
      → 0 < pos_part (stream_of st s).total_weight
      → IsSolvent k free s b
      → IsAgreed (stream_of st s)
      → k.held b' ≡ k.held b + reward
      → let x = stream_of st s in
        let total = pos_part x.total_weight in
        let delta = reward * index_precision / total in
        Advances k st free s b
          (with_stream st (raised delta x) (record s {
            residue = s.residue + (reward - ceil_quo (delta * total) index_precision);
          }))
          b'
  minted-Advances reward s b b' p h a e =
      let x = stream_of st s in
      let total = pos_part x.total_weight in
      let delta = reward * index_precision / total in
      let c = accrue-covers reward total p in
      let g = claims-raised delta x (h.booked st) in
      let g' : claims (raised delta x) ≡ claims x + delta * total =
        g ∙ ap (λ n. claims x + delta * n) (sym a.total) in
      record {
        solvent =
            with_stream-IsSolvent k st (raised delta x) s.summed_accrued _ free free s.prune_queue s
              b b' h (raised-IsBooked delta x (h.booked st)) h.accrued_nonneg refl
              (omega (arith, g', c, e));
        agreed =
            with_stream-IsAgreed st (raised delta x) s.summed_accrued _ s.prune_queue s
              (λ t. record { total = t.total; total_nonneg = t.total_nonneg });
        options =
            rw (stream_of-with_stream st (raised delta x) s.summed_accrued _ s.prune_queue s) refl;
        grows = omega (arith, e);
      }

  unmoved-Advances : (s : Store) (b : k.State) → IsSolvent k free s b → Advances k st free s b s b
  unmoved-Advances s b h = record {
    solvent = h;
    agreed = λ j t. t;
    options = refl;
    grows = omega arith;
  }

  accrue-Advances :
      (s : Store) (b : k.State) (r : Store × k.State)
      → IsSolvent k free s b
      → IsAgreed (stream_of st s)
      → accrue k now st s b ≡ ok r
      → Advances k st free s b (r.0) (r.1)
  unfolding accrue mint_emission
  accrue-Advances s b r h a q =
      let x = stream_of st s in
      let reward = reward_of k x.last_upkeep now in
      elim (Bool-cases (pos_part x.total_weight == 0 || reward == 0)) [
        | inl idle ↦
            let q' = rw idle at q in
            let eq : (s, b) ≡ r = cc in
            subst (λ j. Advances k st free s b (j.0) (j.1)) eq (unmoved-Advances s b h)
        | inr live ↦
            let q' = rw live at q in
            let (b', eb, eq) = >>=-ok-eq (or_err (k.mint_coins reward b) bank_refused) _ q' in
            let m = hk.mint_adds reward b b' (or_err-ok _ bank_refused eb) in
            subst (λ j. Advances k st free s b (j.0) (j.1)) eq
              (subst (λ t. Advances k st free s b t b')
                (sym (
                  residue-with st (raised (reward * index_precision / pos_part x.total_weight) x) _
                    s))
                (minted-Advances reward s b b' (ground arith) h a m))
      ]

  -- Stamping the time of the settlement.
  stamped-Advances :
      (s : Store) (b : k.State) (s' : Store) (b' : k.State)
      → Advances k st free s b s' b'
      → Advances k st free s b
          (with_stream st (record (stream_of st s') { last_upkeep = now }) s')
          b'
  stamped-Advances s b s' b' v =
      let x = record (stream_of st s') { last_upkeep = now } in
      let hx = v.solvent.booked st in
      record {
        solvent =
            with_stream-IsSolvent k st x s'.summed_accrued s'.residue free free s'.prune_queue s' b'
              b' v.solvent
              (record {
                distinct = hx.distinct;
                kept = hx.kept;
                summed = hx.summed;
                summed_nonneg = hx.summed_nonneg;
              })
              v.solvent.accrued_nonneg refl (omega arith);
        agreed = λ j t.
            with_stream-IsAgreed st x s'.summed_accrued s'.residue s'.prune_queue s'
              (λ u. record { total = u.total; total_nonneg = u.total_nonneg }) j (v.agreed j t);
        options =
            ap (λ y. y.options)
              (stream_of-with_stream st x s'.summed_accrued s'.residue s'.prune_queue s')
            ∙ v.options;
        grows = v.grows;
      }

  -- A settlement that succeeds, of a stream whose total agrees with its options, keeps the module
  -- solvent, keeps every stream's total in agreement, touches no option of the stream and takes no
  -- coin: the coins minted cover the residue booked and all that the raise of the index lets the
  -- options collect, however late each one settles.
  pub settle_to-Advances :
      (s : Store) (b : k.State) (r : Store × k.State)
      → IsSolvent k free s b
      → IsAgreed (stream_of st s)
      → settle_to k now st s b ≡ ok r
      → Advances k st free s b (r.0) (r.1)
  unfolding settle_to
  settle_to-Advances s b r h a q =
      let last = (stream_of st s).last_upkeep in
      elim (Bool-cases (not (last == 0) && leb now last)) [
        | inl done ↦
            let q' = rw done at q in
            let eq : (s, b) ≡ r = cc in
            subst (λ j. Advances k st free s b (j.0) (j.1)) eq (unmoved-Advances s b h)
        | inr due ↦
            let q' = rw due at q in
            let (m, em, eq) =
              >>=-ok-eq (if last == 0 then ok (s, b) else accrue k now st s b) _ q' in
            subst (λ j. Advances k st free s b (j.0) (j.1)) eq
              (stamped-Advances s b (m.0) (m.1) (elim (Bool-cases (last == 0)) [
                | inl first ↦
                    let em' = rw first at em in
                    let e : (s, b) ≡ m = cc in
                    subst (λ j. Advances k st free s b (j.0) (j.1)) e (unmoved-Advances s b h)
                | inr later ↦ accrue-Advances s b m h a (rw later at em)
              ]))
      ]
